-- ===== src/Origin/Router/Taken.antt =====
-- internal/cftunnel/origin/router.go: which routes a router has taken, behind each that is added.
use cf_tunnel.Prelude.{
  ◌≡◌, ◌≢◌, refl, sym, ◌∙◌, Bool, true, false, ◌&&◌, none, List, [], ◌∷◌, ◌++◌, ok, inl, inr,
  Bool-cases, arith, find,
}
use cf_tunnel.Text.{Text, codes, text_eq, trim_space}
use cf_tunnel.Text.Laws.{text_eq_iff}
use cf_tunnel.Config.Path.{
  RouteKind, default, exact, prefix, route_duplicate_key, validate_and_normalize_route_path,
  normalize_rooted,
}
use cf_tunnel.Config.Rules.{seen_in}
use cf_tunnel.Origin.Router.Put.{taken, put}
use cf_tunnel.Origin.Router.{
  Route, Router, lookup, classify_and_normalize_rule_path, route_host_path_key, same_path,
  same_host_path,
}

-- The kind under which the validation counts a rule.
abbrev counted_as : RouteKind → RouteKind
counted_as default = exact
counted_as exact = exact
counted_as prefix = prefix

find-snoc :
    (p : Route → Bool) (xs : List Route) (x : Route)
    → find p xs ≡ none
    → p x ≡ false
    → find p (xs ++ x ∷ []) ≡ none
find-snoc p [] x h q = ground arith
find-snoc p (y ∷ xs) x h q = ground (arith, find-snoc p xs x)

seen_in-cons :
    (k j : Text) (ks : List Text)
    → seen_in k (j ∷ ks) ≡ false
    → (text_eq j k ≡ false) × (seen_in k ks ≡ false)
unfolding seen_in
seen_in-cons k j ks h = ground arith

keys_ne :
    (host path host' path' : Text)
    → text_eq (route_duplicate_key host path) (route_duplicate_key host' path') ≡ false
    → text_eq host host' && text_eq path path' ≡ false
unfolding route_duplicate_key
keys_ne host path host' path' h =
    let keys = text_eq_iff (route_host_path_key host path) (route_host_path_key host' path') in
    ground (arith, text_eq_iff host host', text_eq_iff path path', keys)

rooted_kind :
    (path : Text) (kind : RouteKind) (normalized : Text)
    → normalize_rooted path ≡ ok (kind, normalized)
    → (counted_as kind ≡ kind) × (kind ≢ default)
unfolding normalize_rooted
rooted_kind path kind normalized e = ground arith

classified_trimmed :
    (path : Text) (kind : RouteKind) (normalized : Text)
    → text_eq (trim_space path) path ≡ true
    → validate_and_normalize_route_path path ≡ ok (kind, normalized)
    → (kind' : RouteKind) × (classify_and_normalize_rule_path path ≡ ok (kind', normalized))
      × (counted_as kind' ≡ kind)
      × (kind' ≡ default → normalized ≡ codes "/")
unfolding classify_and_normalize_rule_path validate_and_normalize_route_path
classified_trimmed path kind normalized t e = elim (Bool-cases (text_eq path (codes "/"))) [
  | inl slash ↦ (default, ground arith, ground arith, λ _. ground arith)
  | inr other ↦ (
    kind,
    ground arith,
    (rooted_kind path kind normalized (ground arith)).0,
    λ d. absurd ((rooted_kind path kind normalized (ground arith)).1 d),
  )
]

-- The classified path of a rule, as the validation computed it.
pub classified :
    (path : Text) (kind : RouteKind) (normalized : Text)
    → text_eq (trim_space path) path ≡ true
    → validate_and_normalize_route_path (trim_space path) ≡ ok (kind, normalized)
    → (kind' : RouteKind) × (classify_and_normalize_rule_path path ≡ ok (kind', normalized))
      × (counted_as kind' ≡ kind)
      × (kind' ≡ default → normalized ≡ codes "/")
classified path kind normalized t e =
    let trimmed = (text_eq_iff (trim_space path) path).0 t in
    classified_trimmed path kind normalized t (rw trimmed at e)

abbrev pub IsRoot : RouteKind → Route → Type 0
IsRoot kind route = kind ≡ default → route.path ≡ codes "/"

module _ (route route' : Route) (r : Router)
    (ne : text_eq
        (route_duplicate_key route.host route.path)
        (route_duplicate_key route'.host route'.path)
      ≡ false) where
  put_default_free :
      route.path ≡ route'.path
      → taken default route' r ≡ false
      → taken default route' (put default route r) ≡ false
  unfolding taken put lookup
  put_default_free same free = ground (
    arith,
    keys_ne route.host route.path route'.host route'.path ne,
    text_eq_iff route.host route'.host,
    text_eq_iff route.path route'.path,
  )

  put_exact_free : taken exact route' r ≡ false → taken exact route' (put exact route r) ≡ false
  unfolding taken put lookup route_duplicate_key
  put_exact_free free = ground (
    arith,
    ne,
    keys_ne route.host route.path route'.host route'.path ne,
    text_eq_iff route.host route'.host,
    text_eq_iff route.path route'.path,
  )

  put_prefix_free : taken prefix route' r ≡ false → taken prefix route' (put prefix route r) ≡ false
  unfolding taken put
  put_prefix_free free = ground (
    arith,
    keys_ne route.host route.path route'.host route'.path ne,
    text_eq_iff route.host route'.host,
    text_eq_iff route.path route'.path,
    find-snoc (same_path route'.path) r.prefixes route,
    find-snoc (same_host_path route') r.host_prefixes route,
  )

-- A rule under another key leaves a key free.
pub taken-put :
    (kind : RouteKind) (route : Route) (kind' : RouteKind) (route' : Route) (r : Router)
    → IsRoot kind route
    → IsRoot kind' route'
    → (counted_as kind ≡ counted_as kind'
        → text_eq
            (route_duplicate_key route.host route.path)
            (route_duplicate_key route'.host route'.path)
          ≡ false)
    → taken kind' route' r ≡ false
    → taken kind' route' (put kind route r) ≡ false
taken-put default route default route' r root root' ne free =
    put_default_free route route' r (ne refl) (root refl ∙ sym (root' refl)) free
taken-put exact route exact route' r root root' ne free =
    put_exact_free route route' r (ne refl) free
taken-put prefix route prefix route' r root root' ne free =
    put_prefix_free route route' r (ne refl) free
taken-put default route exact route' r root root' ne free = unfold taken put in ground arith
taken-put default route prefix route' r root root' ne free = unfold taken put in ground arith
taken-put exact route default route' r root root' ne free = unfold taken put in ground arith
taken-put exact route prefix route' r root root' ne free = unfold taken put in ground arith
taken-put prefix route default route' r root root' ne free = unfold taken put in ground arith
taken-put prefix route exact route' r root root' ne free = unfold taken put in ground arith
