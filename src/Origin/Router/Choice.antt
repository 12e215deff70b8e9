-- ===== src/Origin/Router/Choice.antt =====
-- internal/cftunnel/origin/router.go: which rule Match chooses.
use cf_tunnel.Prelude.{
  ◌≡◌, ◌↔◌, Bool, true, false, ◌&&◌, ◌||◌, Option, none, some, List, [], ◌∷◌, ok, inl, inr,
  Bool-cases, ◌<|>◌, arith, All, All-map, All-both,
}
use cf_tunnel.Text.{Text, text_eq, is_empty}
use cf_tunnel.Text.Laws.{Lacks, text_eq_iff}
use cf_tunnel.Config.{RouteRule}
use cf_tunnel.Config.Path.{RouteKind, default, exact, prefix}
use cf_tunnel.Origin.Router.{
  Route, Router, new_router, match_route, normalize_request_host, is_under, on_host,
}
use cf_tunnel.Origin.Router.Spec.{
  compile, Test, first, select, one_if, longest, longer, host_exact_at, host_prefix_rule,
  host_default_at, plain_exact_at, plain_prefix_at, plain_default_at, match_spec,
}
use cf_tunnel.Origin.Router.Tables.{HostsLackNul}
use cf_tunnel.Origin.Router.Refines.{match_route-match_spec}

-- A rule's host is absent or the request's host.
abbrev host_fits : Text → Route → Bool
host_fits host r = is_empty r.host || text_eq r.host host

-- A rule applies to a request: an exact one to its path, a prefix one to what lies at or below its
-- path, and a default one to every path.
abbrev pub applies : Text → Text → RouteKind × Route → Bool
applies host path (default, r) = host_fits host r
applies host path (exact, r) = host_fits host r && text_eq r.path path
applies host path (prefix, r) = host_fits host r && is_under path r

one_if-none : (b : Bool) (r : Route) → (one_if b r ≡ none) ↔ (b ≡ false)
one_if-none true r = ground arith
one_if-none false r = ground arith

or-eq-none_iff {ℓ} : {A : Type ℓ} (a b : Option A) → ((a <|> b) ≡ none) ↔ ((a ≡ none) × (b ≡ none))
or-eq-none_iff none b = ground arith
or-eq-none_iff (some a) b = ground arith

first-none :
    (t : Test) (cs : List (RouteKind × Route))
    → (first t cs ≡ none) ↔ All (λ c. t c.0 c.1 ≡ false) cs
first-none t [] = ground arith
first-none t ((k, r) ∷ cs) = grind (arith, or-eq-none_iff, one_if-none, first-none t cs)

longer-ne-none : (x : Route) (o : Option Route) → longer x o ≡ none → ⊥
longer-ne-none x none e = cc
longer-ne-none x (some y) e = ground arith

longest-none :
    (p : Route → Bool) (xs : List Route) → (longest p xs ≡ none) ↔ All (λ x. p x ≡ false) xs
longest-none p [] = ground arith
longest-none p (x ∷ xs) = ground (arith, longest-none p xs, longer-ne-none x (longest p xs))

longest-select-none :
    (p : Route → Bool) (t : Test) (cs : List (RouteKind × Route))
    → (longest p (select t cs) ≡ none) ↔ All (λ c. t c.0 c.1 && p c.1 ≡ false) cs
longest-select-none p t [] = ground arith
longest-select-none p t ((k, r) ∷ cs) =
    ground (arith, longest-select-none p t cs, longer-ne-none r (longest p (select t cs)))

-- One half of Match, for the rules of a host or for those of none, finds nothing exactly when no
-- rule passes its test.
module _ (t u q : Test) (p : Route → Bool) where
  abbrev half : List (RouteKind × Route) → Option Route
  half cs = first t cs <|> longest p (select u cs) <|> first q cs

  abbrev HalfFails : RouteKind × Route → Type 0
  HalfFails c = (t c.0 c.1 ≡ false) × ((u c.0 c.1 && p c.1 ≡ false) × (q c.0 c.1 ≡ false))

  half-none : (cs : List (RouteKind × Route)) → (half cs ≡ none) ↔ All HalfFails cs
  half-none cs =
      let rest = or-eq-none_iff (longest p (select u cs)) (first q cs) in
      let all = or-eq-none_iff (first t cs) (longest p (select u cs) <|> first q cs) in
      let later = All-both (λ c. u c.0 c.1 && p c.1 ≡ false) (λ c. q c.0 c.1 ≡ false) cs in
      let whole =
        All-both (λ c. t c.0 c.1 ≡ false) (λ c. (u c.0 c.1 && p c.1 ≡ false) × (q c.0 c.1 ≡ false))
          cs in
      let longest_half = longest-select-none p u cs in
      (
        λ e.
            let (x, yz) = all.0 e in
            let (y, z) = rest.0 yz in
            whole.0 ((first-none t cs).0 x, later.0 (longest_half.0 y, (first-none q cs).0 z)),
        λ h.
            let (x, yz) = whole.1 h in
            let (y, z) = later.1 yz in
            all.1 ((first-none t cs).1 x, rest.1 (longest_half.1 y, (first-none q cs).1 z)),
      )

module _ (host path : Text) where
  abbrev HostFails : RouteKind × Route → Type 0
  HostFails =
      HalfFails (host_exact_at host path) host_prefix_rule (host_default_at host)
        (on_host host path)

  abbrev PlainFails : RouteKind × Route → Type 0
  PlainFails = HalfFails (plain_exact_at path) plain_prefix_at plain_default_at (is_under path)

  applies_plain :
      is_empty host ≡ true → (c : RouteKind × Route) → PlainFails c ↔ (applies host path c ≡ false)
  applies_plain gone (default, r) = ground (arith, text_eq_iff r.host host)
  applies_plain gone (exact, r) = ground (arith, text_eq_iff r.host host)
  applies_plain gone (prefix, r) = ground (arith, text_eq_iff r.host host)

  applies_either :
      is_empty host ≡ false
      → (c : RouteKind × Route) → (HostFails c × PlainFails c) ↔ (applies host path c ≡ false)
  applies_either full (default, r) = ground (arith, text_eq_iff r.host host)
  applies_either full (exact, r) = ground (arith, text_eq_iff r.host host)
  applies_either full (prefix, r) = ground (arith, text_eq_iff r.host host)

  match_spec-none :
      (cs : List (RouteKind × Route))
      → (match_spec host path cs ≡ none) ↔ All (λ c. applies host path c ≡ false) cs
  unfolding match_spec
  match_spec-none cs = elim (Bool-cases (is_empty host)) [
    | inl gone ↦
        let plain =
          half-none (plain_exact_at path) plain_prefix_at plain_default_at (is_under path) cs in
        rw gone (
          λ e.
              All-map PlainFails (λ c. applies host path c ≡ false) cs
                (λ c. (applies_plain gone c).0) (plain.0 e),
          λ h. plain.1 (
              All-map (λ c. applies host path c ≡ false) PlainFails cs
                (λ c. (applies_plain gone c).1) h),
        )
    | inr full ↦
        let plain =
          half-none (plain_exact_at path) plain_prefix_at plain_default_at (is_under path) cs in
        let hosted =
          half-none (host_exact_at host path) host_prefix_rule (host_default_at host)
            (on_host host path) cs in
        let both = All-both HostFails PlainFails cs in
        let whole =
          or-eq-none_iff
            (first (host_exact_at host path) cs
              <|> longest (on_host host path) (select host_prefix_rule cs)
              <|> first (host_default_at host) cs)
            (first (plain_exact_at path) cs
              <|> longest (is_under path) (select plain_prefix_at cs)
              <|> first plain_default_at cs) in
        rw full (
          λ e.
              let (x, y) = whole.0 e in
              All-map (λ c. HostFails c × PlainFails c) (λ c. applies host path c ≡ false) cs
                (λ c. (applies_either full c).0) (both.0 (hosted.0 x, plain.0 y)),
          λ h.
              let (x, y) = both.1 (
                All-map (λ c. applies host path c ≡ false) (λ c. HostFails c × PlainFails c) cs
                  (λ c. (applies_either full c).1) h) in
              whole.1 (hosted.1 x, plain.1 y),
        )
  ]

-- Match finds no route exactly when no rule applies: no default, exact or prefix rule whose host
-- is absent or the request's has the path of the request in its reach, if neither a rule's host
-- nor the request's normalized host holds the byte 0.
pub match_route-none :
    (split_host_port : Text → Option Text) (rules : List RouteRule) (r : Router) (host path : Text)
    → new_router rules ≡ ok r
    → HostsLackNul (compile rules)
    → Lacks 0 (normalize_request_host split_host_port host)
    → (match_route split_host_port r host path ≡ none)
      ↔ All
          (λ c. applies (normalize_request_host split_host_port host) path c ≡ false)
          (compile rules)
match_route-none split_host_port rules r host path e l k =
    rw (match_route-match_spec split_host_port rules r host path e l k)
      (match_spec-none (normalize_request_host split_host_port host) path (compile rules))
