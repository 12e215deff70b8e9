-- ===== src/Origin/Router/Tables.antt =====
-- The loop of NewRouter: what each table of the router holds after it.
use cf_tunnel.Prelude.{
  ℕ, ◌+◌, ◌≡◌, refl, sym, ◌∙◌, false, ◌&&◌, Option, none, some, List, [], ◌∷◌, ◌++◌, append_assoc,
  append-nil, ok, inl, inr, Result, ◌<|>◌, arith, All, ◌>>=◌, Result-cases, >>=-eq-ok,
}
use cf_tunnel.Text.{Text, text_eq, is_empty}
use cf_tunnel.Text.Laws.{Lacks, text_eq_iff}
use cf_tunnel.Config.{RouteRule}
use cf_tunnel.Config.Path.{RouteKind, default, exact, prefix}
use cf_tunnel.Origin.Router.{
  Route, Router, RouterError, lookup, classify_and_normalize_rule_path, route_of,
  route_host_path_key, add_host_route, add_plain_route, add_route, add_rules, empty_router,
}
use cf_tunnel.Origin.Router.Spec.{
  compile, Test, one_if, list_if, first, select, host_exact_at, host_prefix_rule, host_default_at,
  plain_exact_at, plain_prefix_at, plain_default_at,
}

pub or_none {ℓ} : {A : Type ℓ} (a : Option A) → (a <|> none) ≡ a
or_none none = refl
or_none (some a) = refl

or_assoc {ℓ} : {A : Type ℓ} (a b c : Option A) → ((a <|> b) <|> c) ≡ (a <|> (b <|> c))
or_assoc none b c = refl
or_assoc (some a) b c = refl

-- No host of a rule holds the separator of the keys.
abbrev pub HostsLackNul : List (RouteKind × Route) → Type 0
HostsLackNul = All (λ c. Lacks 0 c.1.host)

-- The loop over rules that are compiled already.
add_compiled : List (RouteKind × Route) → Router → Result RouterError Router
add_compiled [] r = ok r
add_compiled ((kind, route) ∷ cs) r = do r' ← add_route kind route r; add_compiled cs r'

add_rules-add_compiled :
    (i : ℕ) (rules : List RouteRule) (r r' : Router)
    → add_rules i rules r ≡ ok r'
    → add_compiled (compile rules) r ≡ ok r'
unfolding add_rules compile add_compiled
add_rules-add_compiled i [] r r' e = e
add_rules-add_compiled i (rr ∷ rules) r r' e =
    elim (Result-cases (classify_and_normalize_rule_path rr.path)) [
      | inl ((kind, normalized), c) ↦
          let (r₁, added, later) =
            >>=-eq-ok (add_route kind (route_of rr normalized) r) _ (rw (c, add_rules) at e) in
          rw (c, compile)
            (rw (added, add_compiled) (add_rules-add_compiled (i + 1) rules r₁ r' later))
      | inr (why, c) ↦ cc (rw (c, add_rules) at e)
    ]

-- A table whose every step takes the first of what it has and of what the rule offers.
module _ (get : Router → Option Route) (t : Test)
    (step : (kind : RouteKind) (route : Route) (r r' : Router)
      → Lacks 0 route.host
      → add_route kind route r ≡ ok r'
      → get r' ≡ (get r <|> one_if (t kind route) route)) where
  compiled-first :
      (cs : List (RouteKind × Route)) (r r' : Router)
      → HostsLackNul cs
      → add_compiled cs r ≡ ok r'
      → get r' ≡ (get r <|> first t cs)
  unfolding add_compiled
  compiled-first [] r r' l e = let same : r ≡ r' = cc in rw (← same) (sym (or_none (get r)))
  compiled-first ((kind, route) ∷ cs) r r' (lack, l) e =
      let (r₁, added, later) = >>=-eq-ok (add_route kind route r) _ e in
      compiled-first cs r₁ r' l later
      ∙ rw (step kind route r r₁ lack added)
          (or_assoc (get r) (one_if (t kind route) route) (first t cs))

-- A table whose every step appends what the rule offers.
module _ (get : Router → List Route) (t : Test)
    (step : (kind : RouteKind) (route : Route) (r r' : Router)
      → add_route kind route r ≡ ok r'
      → get r' ≡ get r ++ list_if (t kind route) route) where
  compiled-select :
      (cs : List (RouteKind × Route)) (r r' : Router)
      → add_compiled cs r ≡ ok r'
      → get r' ≡ get r ++ select t cs
  unfolding add_compiled
  compiled-select [] r r' e = let same : r ≡ r' = cc in rw (← same) (sym (append-nil (get r)))
  compiled-select ((kind, route) ∷ cs) r r' e =
      let (r₁, added, later) = >>=-eq-ok (add_route kind route r) _ e in
      compiled-select cs r₁ r' later
      ∙ rw (step kind route r r₁ added)
          (append_assoc (get r) (list_if (t kind route) route) (select t cs))

plain_exact_step :
    (path : Text) (kind : RouteKind) (route : Route) (r r' : Router)
    → Lacks 0 route.host
    → add_route kind route r ≡ ok r'
    → lookup path r'.exact_routes
      ≡ (lookup path r.exact_routes <|> one_if (plain_exact_at path kind route) route)
unfolding add_route add_host_route add_plain_route lookup
plain_exact_step path default route r r' l e = ground arith
plain_exact_step path prefix route r r' l e = ground arith
plain_exact_step path exact route r r' l e = ground (arith, text_eq_iff route.path path)

plain_prefix_step :
    (kind : RouteKind) (route : Route) (r r' : Router)
    → add_route kind route r ≡ ok r'
    → r'.prefixes ≡ r.prefixes ++ list_if (plain_prefix_at kind route) route
unfolding add_route add_host_route add_plain_route
plain_prefix_step default route r r' e = ground (arith, append-nil r.prefixes)
plain_prefix_step prefix route r r' e = ground (arith, append-nil r.prefixes)
plain_prefix_step exact route r r' e = ground (arith, append-nil r.prefixes)

plain_default_step :
    (kind : RouteKind) (route : Route) (r r' : Router)
    → Lacks 0 route.host
    → add_route kind route r ≡ ok r'
    → r'.def ≡ (r.def <|> one_if (plain_default_at kind route) route)
unfolding add_route add_host_route add_plain_route
plain_default_step default route r r' l e = ground arith
plain_default_step prefix route r r' l e = ground arith
plain_default_step exact route r r' l e = ground arith

-- Keys are equal exactly where hosts and paths are.
key_eq :
    (host path host' path' : Text)
    → Lacks 0 host
    → Lacks 0 host'
    → text_eq (route_host_path_key host' path') (route_host_path_key host path)
      ≡ text_eq host' host && text_eq path' path
unfolding text_eq
key_eq [] path [] path' k l = ground arith
key_eq [] path (d ∷ host') path' k (p, l) = ground arith
key_eq (c ∷ host) path [] path' (p, k) l = ground arith
key_eq (c ∷ host) path (d ∷ host') path' (p, k) (q, l) =
    ground (arith, key_eq host path host' path' k l)

-- The request's host; tables of hosts are read only where it is not empty.
module _ (host : Text) (full : is_empty host ≡ false) where
  host_default_step :
      (kind : RouteKind) (route : Route) (r r' : Router)
      → Lacks 0 route.host
      → add_route kind route r ≡ ok r'
      → lookup host r'.host_def
        ≡ (lookup host r.host_def <|> one_if (host_default_at host kind route) route)
  unfolding add_route add_host_route add_plain_route lookup
  host_default_step default route r r' l e = ground (arith, text_eq_iff route.host host)
  host_default_step prefix route r r' l e = ground arith
  host_default_step exact route r r' l e = ground arith

  host_exact_step :
      (path : Text) (kind : RouteKind) (route : Route) (r r' : Router)
      → Lacks 0 host
      → Lacks 0 route.host
      → add_route kind route r ≡ ok r'
      → lookup (route_host_path_key host path) r'.host_exact ≡ (
          lookup (route_host_path_key host path) r.host_exact
          <|> one_if (host_exact_at host path kind route) route)
  unfolding add_route add_host_route add_plain_route lookup
  host_exact_step path default route r r' k l e = ground arith
  host_exact_step path prefix route r r' k l e = ground arith
  host_exact_step path exact route r r' k l e =
      let s =
        text_eq_iff (route_host_path_key route.host route.path) (route_host_path_key host path) in
      ground (arith, key_eq host path route.host route.path k l, text_eq_iff route.host host, s)

host_prefix_step :
    (kind : RouteKind) (route : Route) (r r' : Router)
    → add_route kind route r ≡ ok r'
    → r'.host_prefixes ≡ r.host_prefixes ++ list_if (host_prefix_rule kind route) route
unfolding add_route add_host_route add_plain_route
host_prefix_step default route r r' e = ground (arith, append-nil r.host_prefixes)
host_prefix_step prefix route r r' e = ground (arith, append-nil r.host_prefixes)
host_prefix_step exact route r r' e = ground (arith, append-nil r.host_prefixes)

-- The tables after the loop, each as a choice among the compiled rules.
pub record Covers (cs : List (RouteKind × Route)) (r : Router) : Type 0 where
  pub exact_lem : (path : Text) → lookup path r.exact_routes ≡ first (plain_exact_at path) cs
  pub prefixes_lem : r.prefixes ≡ select plain_prefix_at cs
  pub def_lem : r.def ≡ first plain_default_at cs
  pub host_prefixes_lem : r.host_prefixes ≡ select host_prefix_rule cs
  pub host_def_lem :
      (host : Text)
      → is_empty host ≡ false
      → lookup host r.host_def ≡ first (host_default_at host) cs
  pub host_exact_lem :
      (host path : Text)
      → is_empty host ≡ false
      → Lacks 0 host
      → lookup (route_host_path_key host path) r.host_exact ≡ first (host_exact_at host path) cs

compiled-Covers :
    (cs : List (RouteKind × Route)) (r : Router)
    → HostsLackNul cs
    → add_compiled cs empty_router ≡ ok r
    → Covers cs r
unfolding lookup
compiled-Covers cs r l e = record {
  exact_lem = λ path.
      compiled-first (λ r. lookup path r.exact_routes) (plain_exact_at path) (plain_exact_step path)
        cs empty_router r l e;
  prefixes_lem =
      compiled-select (λ r. r.prefixes) plain_prefix_at plain_prefix_step cs empty_router r e;
  def_lem = compiled-first (λ r. r.def) plain_default_at plain_default_step cs empty_router r l e;
  host_prefixes_lem =
      compiled-select (λ r. r.host_prefixes) host_prefix_rule host_prefix_step cs empty_router r e;
  host_def_lem = λ host full.
      compiled-first (λ r. lookup host r.host_def) (host_default_at host)
        (host_default_step host full) cs empty_router r l e;
  host_exact_lem = λ host path full k.
      compiled-first (λ r. lookup (route_host_path_key host path) r.host_exact)
        (host_exact_at host path)
        (λ kind route r r'. host_exact_step host full path kind route r r' k) cs empty_router r l e;
}

pub rules-Covers :
    (rules : List RouteRule) (r : Router)
    → HostsLackNul (compile rules)
    → add_rules 0 rules empty_router ≡ ok r
    → Covers (compile rules) r
rules-Covers rules r l e =
    compiled-Covers (compile rules) r l (add_rules-add_compiled 0 rules empty_router r e)
