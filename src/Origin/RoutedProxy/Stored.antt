-- ===== src/Origin/RoutedProxy/Stored.antt =====
-- internal/cftunnel/origin/routed_proxy.go: what the map of the proxies holds under which key.
use cf_tunnel.Prelude.{
  ℕ, ◌+◌, ◌≡◌, refl, Bool, true, some, List, [], ◌∷◌, ok, err, inl, inr, ◌⊎◌, Bool-cases,
  Option-cases, Result-cases, if◌then◌else◌, arith, All, >>=-eq-ok,
}
use cf_tunnel.Text.{Text, text_eq}
use cf_tunnel.Text.Laws.{text_eq_iff, text_eq_refl}
use cf_tunnel.Config.{RouteRule, ParseUrl}
use cf_tunnel.Config.Path.{RouteKind, PathError}
use cf_tunnel.Origin.{Target, SetScheme, parse_target}
use cf_tunnel.Origin.Router.{
  Route, classify_and_normalize_rule_path, normalize_route_host, route_of, is_some,
}
use cf_tunnel.Origin.Router.Spec.{compile}
use cf_tunnel.Origin.RoutedProxy.{
  Proxies, lookup_proxy, route_rule_proxy_key, matched_route_proxy_key, rule_pass_host_header,
  add_proxy, add_proxies,
}
use cf_tunnel.Origin.RoutedProxy.Key.{LacksComma, key_injective, key-ne-nil}

-- The host of a rule is as normalizeRouteHost gives it: lower case, with no space around it.
abbrev pub HasNormalHost : RouteRule → Type 0
HasNormalHost rr = normalize_route_host rr.host ≡ rr.host

-- The texts of a route that go into its key hold no comma.
abbrev pub HasPlainKey : Route → Type 0
HasPlainKey r =
    LacksComma r.host × LacksComma r.path × LacksComma r.target × LacksComma r.origin_server_name

-- The setting of pass_host_header that a route has under a default target.
abbrev pub route_pass_host_header : Target → Route → Bool
route_pass_host_header d r =
    if r.pass_host_header_set then r.pass_host_header else d.pass_host_header

module _ (parse_url : ParseUrl) (set_scheme : SetScheme) (d : Target) where
  -- The target of a route is the one that its own settings describe.
  abbrev pub IsTargetOf : Route → Target → Type 0
  IsTargetOf r t =
      parse_target parse_url set_scheme r.target r.origin_server_name r.insecure_skip_verify
        (route_pass_host_header d r)
      ≡ ok t

  abbrev pub key_of : Route → Text
  key_of r = matched_route_proxy_key r d.pass_host_header

  -- A proxy in the map is the default one, or that of a route under the route's key.
  unfoldable pub Stored : Text × Target → Type 0
  Stored (k, t) = (k ≡ []) ⊎ ((r : Route) × HasPlainKey r × (k ≡ key_of r) × IsTargetOf r t)

  abbrev pub Present : Proxies → RouteKind × Route → Type 0
  Present proxies c = is_some (lookup_proxy (key_of c.1) proxies) ≡ true

  lookup-Stored :
      (k : Text) (proxies : Proxies) (t : Target)
      → All Stored proxies
      → lookup_proxy k proxies ≡ some t
      → Stored (k, t)
  unfolding lookup_proxy
  lookup-Stored k [] t a e = ground arith
  lookup-Stored k ((j, u) ∷ proxies) t (s, a) e = elim (Bool-cases (text_eq j k)) [
    | inl same ↦
        let key = (text_eq_iff j k).0 same in
        let value : u ≡ t = ground arith in rw (← key, ← value) s
    | inr other ↦ lookup-Stored k proxies t a (ground arith)
  ]

  abbrev stored_with : Text → Target → Proxies → Proxies
  stored_with key t proxies =
      if is_some (lookup_proxy key proxies) then proxies else (key, t) ∷ proxies

  stored_with-Stored :
      (key : Text) (t : Target) (proxies : Proxies)
      → Stored (key, t)
      → All Stored proxies
      → All Stored (stored_with key t proxies)
  stored_with-Stored key t proxies s a = ground arith

  stored_with-present :
      (key : Text) (t : Target) (proxies : Proxies)
      → is_some (lookup_proxy key (stored_with key t proxies)) ≡ true
  unfolding lookup_proxy
  stored_with-present key t proxies = ground (arith, text_eq_refl key)

  stored_with-kept :
      (key : Text) (t : Target) (proxies : Proxies) (k : Text)
      → is_some (lookup_proxy k proxies) ≡ true
      → is_some (lookup_proxy k (stored_with key t proxies)) ≡ true
  unfolding lookup_proxy
  stored_with-kept key t proxies k h = ground arith

  -- A round of the loop stores the target of the rule's route under the route's key.
  add_proxy_lem :
      (i : ℕ) (rr : RouteRule) (kind : RouteKind) (normalized : Text) (proxies proxies' : Proxies)
      → HasNormalHost rr
      → classify_and_normalize_rule_path rr.path ≡ ok (kind, normalized)
      → add_proxy parse_url set_scheme d i rr proxies ≡ ok proxies'
      → (t : Target) × IsTargetOf (route_of rr normalized) t
        × (stored_with (key_of (route_of rr normalized)) t proxies ≡ proxies')
  unfolding add_proxy route_rule_proxy_key matched_route_proxy_key
  add_proxy_lem i rr kind normalized proxies proxies' host c e =
      elim (Result-cases (
        parse_target parse_url set_scheme rr.target rr.origin_server_name rr.insecure_skip_verify
          (rule_pass_host_header d rr))) [
            | inl (t, parsed) ↦ (t, parsed, rw host (ground arith))
            | inr (why, failed) ↦ absurd (ground arith)
          ]

  add_proxy_fails :
      (i : ℕ) (rr : RouteRule) (why : PathError) (proxies proxies' : Proxies)
      → classify_and_normalize_rule_path rr.path ≡ err why
      → add_proxy parse_url set_scheme d i rr proxies ≡ ok proxies'
      → ⊥
  unfolding add_proxy route_rule_proxy_key
  add_proxy_fails i rr why proxies proxies' c e =
      elim (Result-cases (
        parse_target parse_url set_scheme rr.target rr.origin_server_name rr.insecure_skip_verify
          (rule_pass_host_header d rr))) [
            | inl (t, parsed) ↦ ground arith
            | inr (why', failed) ↦ ground arith
          ]

  pub add_proxies_lem :
      (i : ℕ) (rules : List RouteRule) (proxies proxies' : Proxies)
      → All HasNormalHost rules
      → All (λ c. HasPlainKey c.1) (compile rules)
      → All Stored proxies
      → add_proxies parse_url set_scheme d i rules proxies ≡ ok proxies'
      → All Stored proxies'
        × All (Present proxies') (compile rules)
        × ((k : Text)
            → is_some (lookup_proxy k proxies) ≡ true
            → is_some (lookup_proxy k proxies') ≡ true)
  unfolding add_proxies compile
  add_proxies_lem i [] proxies proxies' host plain a e =
      let same : proxies ≡ proxies' = cc in (rw (← same) a, tt, λ k h. rw (← same) h)
  add_proxies_lem i (rr ∷ rules) proxies proxies' (host, hosts) plain a e =
      elim (Result-cases (classify_and_normalize_rule_path rr.path)) [
        | inl ((kind, normalized), c) ↦
            let route = route_of rr normalized in
            let (proxies₁, added, later) =
              >>=-eq-ok (add_proxy parse_url set_scheme d i rr proxies) _ e in
            let (t, parsed, stored) =
              add_proxy_lem i rr kind normalized proxies proxies₁ host c added in
            let (plain_key, plains) = rw (c, compile) at plain in
            let fresh : Stored (key_of route, t) =
              unfold Stored in inr (route, plain_key, refl, parsed) in
            let (a', present, kept) =
              add_proxies_lem (i + 1) rules proxies₁ proxies' hosts plains
                (rw (← stored) (stored_with-Stored (key_of route) t proxies fresh a)) later in
            let here = rw (stored) at (stored_with-present (key_of route) t proxies) in
            rw (c, compile)
              (
                a',
                (kept (key_of route) here, present),
                λ k h. kept k (rw stored at (stored_with-kept (key_of route) t proxies k h)),
              )
        | inr (why, failed) ↦
            let (proxies₁, added, _) =
              >>=-eq-ok (add_proxy parse_url set_scheme d i rr proxies) _ e in
            absurd (add_proxy_fails i rr why proxies proxies₁ failed added)
      ]

  -- The proxy under the key of a route has the route's target.
  pub lookup_lem :
      (proxies : Proxies) (route : Route)
      → All Stored proxies
      → is_some (lookup_proxy (key_of route) proxies) ≡ true
      → HasPlainKey route
      → (t : Target) × (lookup_proxy (key_of route) proxies ≡ some t) × IsTargetOf route t
  unfolding matched_route_proxy_key Stored
  lookup_lem proxies route a h plain = elim (Option-cases (lookup_proxy (key_of route) proxies)) [
    | inl gone ↦ absurd (ground arith)
    | inr (t, found) ↦ elim (lookup-Stored (key_of route) proxies t a found) [
      | inl nil ↦ absurd (key-ne-nil _ _ _ _ _ _ nil)
      | inr (r, plain', same, parsed) ↦
          let (_, _, target, name, skip, pass) =
            key_injective _ _ _ _ _ _ _ _ _ _ _ _ plain plain' same in
          (t, found, rw (target, name, skip, pass) parsed)
    ]
  ]

  pub default_Stored : All Stored (([], d) ∷ [])
  unfolding Stored
  default_Stored = (inl refl, tt)
