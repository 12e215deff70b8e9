-- ===== src/Origin/RoutedProxy/Fallback.antt =====
-- internal/cftunnel/origin/routed_proxy.go: a route whose host is not in normal form. The proxy is
-- stored under the host as it was written, and looked up under the host in normal form.
use cf_tunnel.Prelude.{
  ◌≡◌, ◌≢◌, refl, sym, ap, ◌∙◌, Option, none, some, [], ◌∷◌, ok, inl, inr, Option-cases,
  Result-cases, arith,
}
use cf_tunnel.Text.{Text}
use cf_tunnel.Text.Laws.{text_eq_iff}
use cf_tunnel.Config.{RouteRule, ParseUrl}
use cf_tunnel.Config.Path.{RouteKind}
use cf_tunnel.Origin.{Target, SetScheme, parse_target}
use cf_tunnel.Origin.Router.{
  Route, Router, match_route, classify_and_normalize_rule_path, normalize_route_host, route_of,
}
use cf_tunnel.Origin.Router.Spec.{compile}
use cf_tunnel.Origin.Router.Members.{match_route-Holds}
use cf_tunnel.Origin.RoutedProxy.{
  RoutedProxy, Proxies, lookup_proxy, route_proxy_key, route_rule_proxy_key,
  matched_route_proxy_key, rule_pass_host_header, add_proxy, add_proxies, new_routed_proxy,
  pick_route_proxy,
}
use cf_tunnel.Origin.RoutedProxy.Key.{LacksComma, key_injective, key-ne-nil}
use cf_tunnel.Origin.RoutedProxy.Served.{new_routed_proxy-Built}

-- The texts that go into the keys of a rule hold no comma.
abbrev pub HasPlainRule : RouteRule → Text → Type 0
HasPlainRule rr normalized =
    LacksComma rr.host
    × LacksComma (normalize_route_host rr.host)
    × LacksComma normalized
    × LacksComma rr.target
    × LacksComma rr.origin_server_name

lookup_two :
    (k j : Text) (t d : Target) → j ≢ k → [] ≢ k → lookup_proxy k ((j, t) ∷ ([], d) ∷ []) ≡ none
unfolding lookup_proxy
lookup_two k j t d h g = ground (arith, text_eq_iff j k, text_eq_iff [] k)

module _ (parse_url : ParseUrl) (set_scheme : SetScheme) (d : Target) where
  -- The proxies of a single rule.
  one_proxy :
      (rr : RouteRule) (kind : RouteKind) (normalized : Text) (proxies : Proxies)
      → classify_and_normalize_rule_path rr.path ≡ ok (kind, normalized)
      → add_proxies parse_url set_scheme d 0 (rr ∷ []) (([], d) ∷ []) ≡ ok proxies
      → (t : Target) × (proxies
          ≡ (
            route_proxy_key rr.host normalized rr.target rr.origin_server_name
                rr.insecure_skip_verify
                (rule_pass_host_header d rr),
            t,
          )
            ∷ ([], d)
            ∷ [])
  unfolding add_proxies add_proxy route_rule_proxy_key lookup_proxy
  one_proxy rr kind normalized proxies c e =
      elim (Result-cases (
        parse_target parse_url set_scheme rr.target rr.origin_server_name rr.insecure_skip_verify
          (rule_pass_host_header d rr))) [
            | inl (t, parsed) ↦ (
              t,
              ground (
                arith,
                text_eq_iff [] (
                    route_proxy_key rr.host normalized rr.target rr.origin_server_name
                      rr.insecure_skip_verify (rule_pass_host_header d rr)),
                key-ne-nil rr.host normalized rr.target rr.origin_server_name
                    rr.insecure_skip_verify (rule_pass_host_header d rr),
              ),
            )
            | inr (why, failed) ↦ absurd (ground arith)
          ]

  not_found :
      (rr : RouteRule) (normalized : Text) (t : Target)
      → normalize_route_host rr.host ≢ rr.host
      → HasPlainRule rr normalized
      → lookup_proxy (matched_route_proxy_key (route_of rr normalized) d.pass_host_header) (
          (
            route_proxy_key rr.host normalized rr.target rr.origin_server_name
                rr.insecure_skip_verify
                (rule_pass_host_header d rr),
            t,
          )
          ∷ ([], d)
          ∷ [])
        ≡ none
  unfolding matched_route_proxy_key
  not_found rr normalized t ne (lh, ln, lp, lt, ls) =
      lookup_two (matched_route_proxy_key (route_of rr normalized) d.pass_host_header) _ t d
        (λ same.
          ne (sym (key_injective _ _ _ _ _ _ _ _ _ _ _ _ (lh, lp, lt, ls) (ln, lp, lt, ls) same).0))
        (λ same. key-ne-nil _ _ _ _ _ _ (sym same))

  fallen :
      (split_host_port : Text → Option Text) (p : RoutedProxy) (router : Router) (host path : Text)
      (route : Route)
      → p.router ≡ some router
      → match_route split_host_port router host path ≡ some route
      → lookup_proxy
          (matched_route_proxy_key route p.default_target.pass_host_header)
          p.proxy_by_target
        ≡ none
      → pick_route_proxy split_host_port p host path ≡ (p.default_target, none)
  unfolding pick_route_proxy
  fallen split_host_port p router host path route r m f = ground arith

  unmatched :
      (split_host_port : Text → Option Text) (p : RoutedProxy) (router : Router) (host path : Text)
      → p.router ≡ some router
      → match_route split_host_port router host path ≡ none
      → pick_route_proxy split_host_port p host path ≡ (p.default_target, none)
  unfolding pick_route_proxy
  unmatched split_host_port p router host path r m = ground arith

  lone_rule :
      (rr : RouteRule) (kind : RouteKind) (normalized : Text)
      → classify_and_normalize_rule_path rr.path ≡ ok (kind, normalized)
      → compile (rr ∷ []) ≡ (kind, route_of rr normalized) ∷ []
  unfolding compile
  lone_rule rr kind normalized c = ground arith

  -- A lone rule whose host has capital letters or white space around it is never used, if no text
  -- of its keys holds a comma: for every request, the proxy that serves is that of the default
  -- target, and no path prefix is stripped.
  pub pick_route_proxy_fallback :
      (split_host_port : Text → Option Text) (rr : RouteRule) (kind : RouteKind) (normalized : Text)
      (p : RoutedProxy) (host path : Text)
      → normalize_route_host rr.host ≢ rr.host
      → classify_and_normalize_rule_path rr.path ≡ ok (kind, normalized)
      → HasPlainRule rr normalized
      → new_routed_proxy parse_url set_scheme d (rr ∷ []) ≡ ok p
      → pick_route_proxy split_host_port p host path ≡ (d, none)
  pick_route_proxy_fallback split_host_port rr kind normalized p host path ne c plain e =
      let b = new_routed_proxy-Built parse_url set_scheme d rr [] p e in
      let (t, stored) = one_proxy rr kind normalized p.proxy_by_target c b.stored in
      let default = λ (x : Target × Option Route) (h : x ≡ (p.default_target, none)).
        h ∙ ap (λ u. (u, none)) b.default_kept in
      elim (Option-cases (match_route split_host_port b.router host path)) [
        | inl none_matched ↦
            default _ (unmatched split_host_port p b.router host path b.kept none_matched)
        | inr (route, m) ↦
            let same =
              match_route-Holds (λ x. x ≡ route_of rr normalized) split_host_port (rr ∷ []) b.router
                host path (rw (lone_rule rr kind normalized c) (refl, tt)) b.made m in
            let gone = not_found rr normalized t ne plain in
            default _ (
              fallen split_host_port p b.router host path route b.kept m
                (rw (b.default_kept, stored, same) gone))
      ]
