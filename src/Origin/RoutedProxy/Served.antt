-- ===== src/Origin/RoutedProxy/Served.antt =====
-- internal/cftunnel/origin/routed_proxy.go: which proxy serves a matched route.
use cf_tunnel.Prelude.{
  ◌≡◌, sym, ap, ◌∙◌, true, Option, some, List, [], ◌∷◌, ok, inl, inr, Result-cases, arith, All,
  All-both,
}
use mathlib.Core.Option.{some-injective}
use cf_tunnel.Text.{Text}
use cf_tunnel.Config.{RouteRule, ParseUrl}
use cf_tunnel.Origin.{Target, SetScheme}
use cf_tunnel.Origin.Router.{Route, Router, new_router, match_route, is_some}
use cf_tunnel.Origin.Router.Spec.{compile}
use cf_tunnel.Origin.Router.Members.{match_route-Holds}
use cf_tunnel.Origin.RoutedProxy.{
  RoutedProxy, lookup_proxy, matched_route_proxy_key, add_proxies, new_routed_proxy,
  pick_route_proxy,
}
use cf_tunnel.Origin.RoutedProxy.Stored.{
  HasNormalHost, HasPlainKey, IsTargetOf, Present, key_of, add_proxies_lem, default_Stored,
  lookup_lem,
}

module _ (parse_url : ParseUrl) (set_scheme : SetScheme) (d : Target) where
  picked :
      (split_host_port : Text → Option Text) (p : RoutedProxy) (router : Router) (host path : Text)
      (route : Route) (t : Target)
      → p.router ≡ some router
      → match_route split_host_port router host path ≡ some route
      → lookup_proxy
          (matched_route_proxy_key route p.default_target.pass_host_header)
          p.proxy_by_target
        ≡ some t
      → pick_route_proxy split_host_port p host path ≡ (t, some route)
  unfolding pick_route_proxy
  picked split_host_port p router host path route t r m f = ground arith

  -- What NewRoutedProxy built, for at least one rule.
  pub record Built (rules : List RouteRule) (p : RoutedProxy) : Type 0 where
    pub router : Router
    pub made : new_router rules ≡ ok router
    pub kept : p.router ≡ some router
    pub stored : add_proxies parse_url set_scheme d 0 rules (([], d) ∷ []) ≡ ok p.proxy_by_target
    pub default_kept : p.default_target ≡ d

  pub new_routed_proxy-Built :
      (rr : RouteRule) (rules : List RouteRule) (p : RoutedProxy)
      → new_routed_proxy parse_url set_scheme d (rr ∷ rules) ≡ ok p
      → Built (rr ∷ rules) p
  unfolding new_routed_proxy
  new_routed_proxy-Built rr rules p e = elim (Result-cases (new_router (rr ∷ rules))) [
    | inl (router, made) ↦
        elim (Result-cases (add_proxies parse_url set_scheme d 0 (rr ∷ rules) (([], d) ∷ []))) [
          | inl (proxies, stored) ↦ record {
            router = router;
            made = made;
            kept = ground arith;
            stored = ground arith;
            default_kept = ground arith;
          }
          | inr (why, failed) ↦ absurd (ground arith)
        ]
    | inr (why, failed) ↦ absurd (ground arith)
  ]

  -- A matched route is served by its own settings: if every rule's host is in normal form, no text
  -- of a key holds a comma and the proxies were built, the proxy of a matched route has the target
  -- that its settings describe.
  pub pick_route_proxy-IsTargetOf :
      (split_host_port : Text → Option Text) (rules : List RouteRule) (p : RoutedProxy)
      (router : Router) (host path : Text) (route : Route)
      → All HasNormalHost rules
      → All (λ c. HasPlainKey c.1) (compile rules)
      → new_routed_proxy parse_url set_scheme d rules ≡ ok p
      → p.router ≡ some router
      → match_route split_host_port router host path ≡ some route
      → (t : Target) × (pick_route_proxy split_host_port p host path ≡ (t, some route))
        × IsTargetOf parse_url set_scheme d route t
  unfolding new_routed_proxy
  pick_route_proxy-IsTargetOf split_host_port [] p router host path route n k e r m =
      absurd (ground arith)
  pick_route_proxy-IsTargetOf split_host_port (rr ∷ rules) p router host path route n k e r m =
      let b = new_routed_proxy-Built rr rules p e in
      let proxies = p.proxy_by_target in
      let (a, present, _) =
        add_proxies_lem parse_url set_scheme d 0 (rr ∷ rules) (([], d) ∷ []) proxies n k
          (default_Stored parse_url set_scheme d) b.stored in
      let good =
        (All-both (Present parse_url set_scheme d proxies) (λ c. HasPlainKey c.1)
            (compile (rr ∷ rules))).0
          (present, k) in
      let same : b.router ≡ router = some-injective _ _ (sym b.kept ∙ r) in
      let (here, plain) =
        match_route-Holds
          (λ x.
            (is_some (lookup_proxy (key_of parse_url set_scheme d x) proxies) ≡ true)
            × HasPlainKey x)
          split_host_port (rr ∷ rules) b.router host path good b.made (rw same m) in
      let (t, found, own) = lookup_lem parse_url set_scheme d proxies route a here plain in
      let key =
        ap (λ x. lookup_proxy (matched_route_proxy_key route x.pass_host_header) proxies)
          b.default_kept
        ∙ found in
      (t, picked split_host_port p router host path route t r m key, own)
