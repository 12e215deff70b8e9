-- ===== src/Origin/Router/Members.antt =====
-- internal/cftunnel/origin/router.go: a matched route is one that NewRouter made from a rule.
use cf_tunnel.Prelude.{
  ℕ, ◌+◌, ◌≡◌, Bool, Option, none, some, List, [], ◌∷◌, ok, inl, inr, Bool-cases, ◌<|>◌, arith, All,
  All-append, find, >>=-eq-ok, Result-cases,
}
use cf_tunnel.Text.{Text, is_empty}
use cf_tunnel.Config.{RouteRule}
use cf_tunnel.Config.Path.{RouteKind, default, exact, prefix}
use cf_tunnel.Origin.Router.{
  Route, Router, lookup, classify_and_normalize_rule_path, route_of, route_host_path_key, add_route,
  add_rules, empty_router, insert_route, sort_routes, sort_tables, new_router, is_under, on_host,
  match_host, match_route, normalize_request_host,
}
use cf_tunnel.Origin.Router.Spec.{compile}
use cf_tunnel.Origin.Router.Put.{put, put_of_add_route}
use mathlib.Core.Path.{subst}

module _ (P : Route → Type 0) where
  abbrev Maybe : Option Route → Type 0
  Maybe none = Unit
  Maybe (some x) = P x

  -- Every route of the router's tables has the property.
  record Holds (r : Router) : Type 0 where
    host_exact_holds : All (λ e. P e.1) r.host_exact
    host_prefixes_holds : All P r.host_prefixes
    host_def_holds : All (λ e. P e.1) r.host_def
    exact_holds : All (λ e. P e.1) r.exact_routes
    prefixes_holds : All P r.prefixes
    def_holds : Maybe r.def

  put-Holds :
      (kind : RouteKind) (route : Route) (r : Router) → P route → Holds r → Holds (put kind route r)
  unfolding put
  put-Holds default route r p h = elim (Bool-cases (is_empty route.host)) [
    | inl plain ↦
        rw (plain, put)
          (record {
            host_exact_holds = h.host_exact_holds;
            host_prefixes_holds = h.host_prefixes_holds;
            host_def_holds = h.host_def_holds;
            exact_holds = h.exact_holds;
            prefixes_holds = h.prefixes_holds;
            def_holds = p;
          })
    | inr hosted ↦
        rw (hosted, put)
          (record {
            host_exact_holds = h.host_exact_holds;
            host_prefixes_holds = h.host_prefixes_holds;
            host_def_holds = (p, h.host_def_holds);
            exact_holds = h.exact_holds;
            prefixes_holds = h.prefixes_holds;
            def_holds = h.def_holds;
          })
  ]
  put-Holds exact route r p h = elim (Bool-cases (is_empty route.host)) [
    | inl plain ↦
        rw (plain, put)
          (record {
            host_exact_holds = h.host_exact_holds;
            host_prefixes_holds = h.host_prefixes_holds;
            host_def_holds = h.host_def_holds;
            exact_holds = (p, h.exact_holds);
            prefixes_holds = h.prefixes_holds;
            def_holds = h.def_holds;
          })
    | inr hosted ↦
        rw (hosted, put)
          (record {
            host_exact_holds = (p, h.host_exact_holds);
            host_prefixes_holds = h.host_prefixes_holds;
            host_def_holds = h.host_def_holds;
            exact_holds = h.exact_holds;
            prefixes_holds = h.prefixes_holds;
            def_holds = h.def_holds;
          })
  ]
  put-Holds prefix route r p h = elim (Bool-cases (is_empty route.host)) [
    | inl plain ↦
        rw (plain, put)
          (record {
            host_exact_holds = h.host_exact_holds;
            host_prefixes_holds = h.host_prefixes_holds;
            host_def_holds = h.host_def_holds;
            exact_holds = h.exact_holds;
            prefixes_holds = All-append P r.prefixes (route ∷ []) h.prefixes_holds (p, tt);
            def_holds = h.def_holds;
          })
    | inr hosted ↦
        rw (hosted, put)
          (record {
            host_exact_holds = h.host_exact_holds;
            host_prefixes_holds =
                All-append P r.host_prefixes (route ∷ []) h.host_prefixes_holds (p, tt);
            host_def_holds = h.host_def_holds;
            exact_holds = h.exact_holds;
            prefixes_holds = h.prefixes_holds;
            def_holds = h.def_holds;
          })
  ]

  rules-Holds :
      (i : ℕ) (rules : List RouteRule) (r r' : Router)
      → All (λ c. P c.1) (compile rules)
      → Holds r
      → add_rules i rules r ≡ ok r'
      → Holds r'
  unfolding add_rules compile
  rules-Holds i [] r r' a h e = let same : r ≡ r' = cc in rw (← same) h
  rules-Holds i (rr ∷ rules) r r' a h e =
      elim (Result-cases (classify_and_normalize_rule_path rr.path)) [
        | inl ((kind, normalized), c) ↦
            let (p, later) = rw (c, compile) at a in
            let (r₁, added, built) =
              >>=-eq-ok (add_route kind (route_of rr normalized) r) _ (rw (c, add_rules) at e) in
            let same = put_of_add_route kind (route_of rr normalized) r r₁ added in
            rules-Holds (i + 1) rules r₁ r' later
              (rw (← same) (put-Holds kind (route_of rr normalized) r p h)) built
        | inr (why, c) ↦ absurd (ground arith)
      ]

  none_Holds : Holds empty_router
  none_Holds = record {
    host_exact_holds = tt;
    host_prefixes_holds = tt;
    host_def_holds = tt;
    exact_holds = tt;
    prefixes_holds = tt;
    def_holds = tt;
  }

  lookup-Holds : (k : Text) (m : List (Text × Route)) → All (λ e. P e.1) m → Maybe (lookup k m)
  unfolding lookup
  lookup-Holds k [] h = tt
  lookup-Holds k ((j, x) ∷ m) (p, h) = ground (arith, lookup-Holds k m h)

  find-Holds : (t : Route → Bool) (xs : List Route) → All P xs → Maybe (find t xs)
  find-Holds t [] h = tt
  find-Holds t (x ∷ xs) (p, h) = ground (arith, find-Holds t xs h)

  or-Holds : (a b : Option Route) → Maybe a → Maybe b → Maybe (a <|> b)
  or-Holds none b h k = k
  or-Holds (some x) b h k = h

  insert-Holds : (x : Route) (xs : List Route) → P x → All P xs → All P (insert_route x xs)
  unfolding insert_route
  insert-Holds x [] p h = (p, tt)
  insert-Holds x (y ∷ xs) p (q, h) = ground (arith, insert-Holds x xs p h)

  sort-Holds : (xs : List Route) → All P xs → All P (sort_routes xs)
  unfolding sort_routes
  sort-Holds [] h = tt
  sort-Holds (x ∷ xs) (p, h) = insert-Holds x (sort_routes xs) p (sort-Holds xs h)

  match_host-Holds :
      (r : Router) (host path : Text) → Holds r → Maybe (match_host (sort_tables r) host path)
  unfolding match_host
  match_host-Holds r host path h = elim (Bool-cases (is_empty host)) [
    | inl gone ↦ rw gone plain
    | inr full ↦ rw full (or-Holds _ _ hosted plain)
  ]
    where
      plain :
          Maybe
            (lookup path r.exact_routes <|> find (is_under path) (sort_routes r.prefixes) <|> r.def)
      plain = or-Holds _ _ (lookup-Holds path r.exact_routes h.exact_holds) (
          or-Holds _ _
            (find-Holds (is_under path) (sort_routes r.prefixes)
              (sort-Holds r.prefixes h.prefixes_holds))
            h.def_holds)

      hosted : Maybe (
          lookup (route_host_path_key host path) r.host_exact
          <|> find (on_host host path) (sort_routes r.host_prefixes)
          <|> lookup host r.host_def)
      hosted =
          or-Holds _ _
            (lookup-Holds (route_host_path_key host path) r.host_exact h.host_exact_holds)
            (or-Holds _ _
              (find-Holds (on_host host path) (sort_routes r.host_prefixes)
                (sort-Holds r.host_prefixes h.host_prefixes_holds))
              (lookup-Holds host r.host_def h.host_def_holds))

  -- What holds of every route made from the rules holds of a matched one.
  pub match_route-Holds :
      (split_host_port : Text → Option Text) (rules : List RouteRule) (r : Router)
      (host path : Text) {route : Route}
      → All (λ c. P c.1) (compile rules)
      → new_router rules ≡ ok r
      → match_route split_host_port r host path ≡ some route
      → P route
  unfolding new_router match_route
  match_route-Holds split_host_port rules r host path a e m =
      let (built, added, sorted) = >>=-eq-ok (add_rules 0 rules empty_router) _ e in
      let same : sort_tables built ≡ r = cc in
      let h = rules-Holds 0 rules empty_router built a none_Holds added in
      let found = match_host-Holds built (normalize_request_host split_host_port host) path h in
      subst Maybe (rw (← same) at m) found
