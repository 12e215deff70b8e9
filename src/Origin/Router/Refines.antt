-- ===== src/Origin/Router/Refines.antt =====
-- internal/cftunnel/origin/router.go: a built router answers as the specification says.
use cf_tunnel.Prelude.{◌≡◌, Option, List, ok, inl, inr, Bool-cases, >>=-eq-ok}
use cf_tunnel.Text.{Text, is_empty}
use cf_tunnel.Text.Laws.{Lacks}
use cf_tunnel.Config.{RouteRule}
use cf_tunnel.Origin.Router.{
  Router, add_rules, empty_router, sort_tables, new_router, match_host, match_route,
  normalize_request_host, is_under, on_host,
}
use cf_tunnel.Origin.Router.Spec.{compile, match_spec}
use cf_tunnel.Origin.Router.Sort.{find-sort}
use cf_tunnel.Origin.Router.Tables.{HostsLackNul, Covers, rules-Covers}

match_host-Covers :
    (rules : List RouteRule) (r : Router) (host path : Text)
    → Lacks 0 host
    → Covers (compile rules) r
    → match_host (sort_tables r) host path ≡ match_spec host path (compile rules)
unfolding match_host match_spec
match_host-Covers rules r host path k c = elim (Bool-cases (is_empty host)) [
  | inl gone ↦
      rw (gone, c.exact_lem path, find-sort (is_under path) r.prefixes, c.prefixes_lem, c.def_lem)
  | inr full ↦ rw (
    full,
    c.host_exact_lem host path full k,
    c.host_def_lem host full,
    find-sort (on_host host path) r.host_prefixes,
    c.host_prefixes_lem,
    c.exact_lem path,
    find-sort (is_under path) r.prefixes,
    c.prefixes_lem,
    c.def_lem,
  )
]

-- A router that NewRouter returns answers every request as the specification chooses among the
-- rules in the order in which they were written, if neither a rule's host nor the request's
-- normalized host holds the byte 0.
pub match_route-match_spec :
    (split_host_port : Text → Option Text) (rules : List RouteRule) (r : Router) (host path : Text)
    → new_router rules ≡ ok r
    → HostsLackNul (compile rules)
    → Lacks 0 (normalize_request_host split_host_port host)
    → match_route split_host_port r host path
      ≡ match_spec (normalize_request_host split_host_port host) path (compile rules)
unfolding new_router match_route
match_route-match_spec split_host_port rules r host path e l k =
    let (built, added, sorted) = >>=-eq-ok (add_rules 0 rules empty_router) _ e in
    let same : sort_tables built ≡ r = cc in
    rw (← same) (
      match_host-Covers rules built (normalize_request_host split_host_port host) path k
        (rules-Covers rules built l added))
