-- ===== src/Origin/Router/Accepts.antt =====
-- internal/config/config.go and internal/cftunnel/origin/router.go: the rules that the validation
-- of the configuration lets through can be built into a router.
use cf_tunnel.Origin.Router.Taken.{classified, IsRoot, taken-put}
use cf_tunnel.Prelude.{
  ℕ, ◌+◌, ◌≡◌, ◌↔◌, refl, Bool, true, false, List, [], ◌∷◌, ok, inl, inr, Bool-cases, arith, All,
  not, wrap, >>=-eq-ok, Result-cases,
}
use cf_tunnel.Text.{Text, text_eq, trim_space}
use cf_tunnel.Config.{RouteRule, ParseUrl}
use cf_tunnel.Config.Path.{
  RouteKind, default, exact, prefix, route_duplicate_key, validate_and_normalize_route_path,
}
use cf_tunnel.Config.Rules.{
  Seen, seen_in, note_path, validate_route, validate_routes_from, validate_route_rules,
}
use cf_tunnel.Origin.Router.Put.{taken, put, add_route-put}
use cf_tunnel.Origin.Router.{
  Route, Router, lookup, classify_and_normalize_rule_path, route_of, normalize_route_host, bad_path,
  add_route, add_rules, empty_router, sort_tables, new_router,
}

-- The kind under which the validation counts a rule.
abbrev counted_as : RouteKind → RouteKind
counted_as default = exact
counted_as exact = exact
counted_as prefix = prefix

-- What the router's tables hold, the validation has seen.
unseen : RouteKind → Route → Seen → Bool
unseen prefix route s = not (seen_in (route_duplicate_key route.host route.path) s.prefix_seen)
unseen _ route s = not (seen_in (route_duplicate_key route.host route.path) s.exact_seen)

abbrev Agrees : Seen → Router → Type 0
Agrees s r =
    (kind : RouteKind) (route : Route)
    → IsRoot kind route
    → unseen kind route s ≡ true
    → taken kind route r ≡ false

-- A key that is noted was not seen before, and is the only one to be seen after.
noted-unseen :
    (kind : RouteKind) (route : Route) (s s' : Seen)
    → note_path (counted_as kind) (route_duplicate_key route.host route.path) route.path s ≡ ok s'
    → unseen kind route s ≡ true
unfolding note_path unseen seen_in
noted-unseen default route s s' e = ground arith
noted-unseen exact route s s' e = ground arith
noted-unseen prefix route s s' e = ground arith

noted-kept :
    (kind : RouteKind) (route : Route) (kind' : RouteKind) (route' : Route) (s s' : Seen)
    → note_path (counted_as kind) (route_duplicate_key route.host route.path) route.path s ≡ ok s'
    → unseen kind' route' s' ≡ true
    → (unseen kind' route' s ≡ true)
      × (counted_as kind ≡ counted_as kind'
          → text_eq
              (route_duplicate_key route.host route.path)
              (route_duplicate_key route'.host route'.path)
            ≡ false)
unfolding note_path unseen seen_in
noted-kept default route default route' s s' e u = ground arith
noted-kept kind route kind' route' s s' e u = ground arith

-- A rule that the validation counts can be added.
add_noted :
    (kind : RouteKind) (route : Route) (s s' : Seen) (r : Router)
    → IsRoot kind route
    → Agrees s r
    → note_path (counted_as kind) (route_duplicate_key route.host route.path) route.path s ≡ ok s'
    → (add_route kind route r ≡ ok (put kind route r)) × Agrees s' (put kind route r)
add_noted kind route s s' r root a e = (
  add_route-put kind route r (a kind route root (noted-unseen kind route s s' e)),
  λ kind' route' root' u.
      let (before, ne) = noted-kept kind route kind' route' s s' e u in
      taken-put kind route kind' route' r root root' ne (a kind' route' root' before),
)

-- What a validated rule went through.
valid_route :
    (parse_url : ParseUrl) (i : ℕ) (rr : RouteRule) (s s' : Seen)
    → validate_route parse_url i rr s ≡ ok s'
    → (kind : RouteKind) × (normalized : Text) × (validate_and_normalize_route_path
          (trim_space rr.path)
        ≡ ok (kind, normalized))
      × (note_path kind (route_duplicate_key (normalize_route_host rr.host) normalized) normalized s
          ≡ ok s')
unfolding validate_route normalize_route_host
valid_route parse_url i rr s s' e =
    elim (Result-cases (validate_and_normalize_route_path (trim_space rr.path))) [
      | inl ((kind, normalized), c) ↦ (kind, normalized, c, ground arith)
      | inr (why, c) ↦ absurd (ground arith)
    ]

abbrev pub HasTrimmedPath : RouteRule → Type 0
HasTrimmedPath rr = text_eq (trim_space rr.path) rr.path ≡ true

valid_rules :
    (parse_url : ParseUrl) (i : ℕ) (rules : List RouteRule) (s s' : Seen) (r : Router)
    → validate_routes_from parse_url i rules s ≡ ok s'
    → All HasTrimmedPath rules
    → Agrees s r
    → (r' : Router) × (add_rules i rules r ≡ ok r')
unfolding validate_routes_from add_rules
valid_rules parse_url i [] s s' r e t a = (r, refl)
valid_rules parse_url i (rr ∷ rules) s s' r e (trimmed, t) a =
    let (s₁, checked, later) = >>=-eq-ok (validate_route parse_url i rr s) _ e in
    let (kind, normalized, path_ok, noted) = valid_route parse_url i rr s s₁ checked in
    let (kind', class, counted, root) = classified rr.path kind normalized trimmed path_ok in
    let (added, a') = add_noted kind' (route_of rr normalized) s s₁ r root a (rw counted noted) in
    let (r', built) =
      valid_rules parse_url (i + 1) rules s₁ s' (put kind' (route_of rr normalized) r) later t a' in
    (r', rw class (rw added built))

no_routes : (kind : RouteKind) (route : Route) → taken kind route empty_router ≡ false
unfolding taken lookup
no_routes default route = ground arith
no_routes exact route = ground arith
no_routes prefix route = ground arith

built_trimmed :
    (i : ℕ) (rules : List RouteRule) (r r' : Router)
    → add_rules i rules r ≡ ok r'
    → All HasTrimmedPath rules
unfolding add_rules classify_and_normalize_rule_path
built_trimmed i [] r r' e = tt
built_trimmed i (rr ∷ rules) r r' e = elim (Bool-cases (text_eq (trim_space rr.path) rr.path)) [
  | inl trimmed ↦
      let ((kind, normalized), _, added) =
        >>=-eq-ok (wrap (bad_path i) (classify_and_normalize_rule_path rr.path)) _ e in
      let (r₁, _, later) = >>=-eq-ok (add_route kind (route_of rr normalized) r) _ added in
      (trimmed, built_trimmed (i + 1) rules r₁ r' later)
  | inr spaced ↦ absurd (ground arith)
]

-- Of rules that validateRouteRules lets through, NewRouter makes a router exactly when no path has
-- white space around it: it then finds no bad path and no duplicate.
pub new_router-validate_route_rules :
    (parse_url : ParseUrl) (rules : List RouteRule)
    → validate_route_rules parse_url rules ≡ ok tt
    → All HasTrimmedPath rules ↔ ((r : Router) × (new_router rules ≡ ok r))
unfolding validate_route_rules new_router
new_router-validate_route_rules parse_url rules e =
    let (s', checked, _) =
      >>=-eq-ok
        (validate_routes_from parse_url 0 rules (record { exact_seen = []; prefix_seen = [] })) _
        e in
    (
      λ t.
          let (r, built) =
            valid_rules parse_url 0 rules _ s' empty_router checked t
              (λ kind route _ _. no_routes kind route) in
          (sort_tables r, rw built refl),
      λ made.
          let (r, built, _) = >>=-eq-ok (add_rules 0 rules empty_router) _ made.1 in
          built_trimmed 0 rules empty_router r built,
    )
