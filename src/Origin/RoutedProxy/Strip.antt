-- ===== src/Origin/RoutedProxy/Strip.antt =====
-- internal/cftunnel/origin/routed_proxy.go: the path that a stripped request asks for.
use cf_tunnel.Prelude.{
  ◌≡◌, refl, sym, ◌∙◌, true, false, ◌⊎◌, inl, inr, [], ◌∷◌, ◌++◌, append_assoc, append-nil, drop,
  length, arith, if◌then◌else◌, Bool-cases,
}
use cf_tunnel.Text.{Text, codes, text_eq, is_empty, has_prefix}
use cf_tunnel.Text.Laws.{text_eq_iff, text_eq_refl, trim_prefix-append}
use cf_tunnel.Origin.Router.{Route, is_under}
use cf_tunnel.Origin.RoutedProxy.{stripped_path}

has_prefix-append : (s p : Text) → has_prefix s p ≡ true → s ≡ p ++ drop (length p) s
unfolding has_prefix
has_prefix-append s [] h = refl
has_prefix-append [] (d ∷ p) h = ground arith
has_prefix-append (c ∷ s) (d ∷ p) h = ground (arith, has_prefix-append s p)

stripped_rest :
    (route : Route) (rest : Text)
    → route.strip_path_prefix ≡ true
    → is_empty route.path ≡ false
    → text_eq route.path (codes "/") ≡ false
    → is_under (route.path ++ rest) route ≡ true
    → stripped_path route (route.path ++ rest) ≡ (if is_empty rest then codes "/" else rest)
unfolding stripped_path is_under
stripped_rest route rest on full other under = ground (arith, trim_prefix-append route.path rest)

stripped_whole :
    (route : Route) (path : Text)
    → route.strip_path_prefix ≡ true
    → is_empty route.path ≡ false
    → text_eq route.path (codes "/") ≡ false
    → path ≡ route.path
    → stripped_path route path ≡ codes "/"
unfolding stripped_path
stripped_whole route path on full other same = rw same (
    ground
      (arith, text_eq_refl route.path, append-nil route.path, trim_prefix-append route.path []))

stripped_below :
    (route : Route) (path rest : Text)
    → route.strip_path_prefix ≡ true
    → is_empty route.path ≡ false
    → text_eq route.path (codes "/") ≡ false
    → is_under path route ≡ true
    → path ≡ route.path ++ b'/' ∷ rest
    → stripped_path route path ≡ b'/' ∷ rest
stripped_below route path rest on full other under whole =
    rw whole (stripped_rest route (b'/' ∷ rest) on full other (rw (sym whole) under))

-- A request at or below the path of a route that strips its prefix, a path other than "/", asks
-- the origin for a path that begins with "/": the rest behind the route's path, or "/" where
-- nothing is left.
pub stripped_path_lem :
    (route : Route) (path : Text)
    → route.strip_path_prefix ≡ true
    → is_empty route.path ≡ false
    → text_eq route.path (codes "/") ≡ false
    → is_under path route ≡ true
    → (has_prefix (stripped_path route path) (codes "/") ≡ true)
      × ((route.path ++ stripped_path route path ≡ path)
          ⊎ ((path ≡ route.path) × (stripped_path route path ≡ codes "/")))
unfolding is_under
stripped_path_lem route path on full other under = elim (Bool-cases (text_eq path route.path)) [
  | inl here ↦
      let same = (text_eq_iff path route.path).0 here in
      let stripped : stripped_path route path ≡ codes "/" =
        stripped_whole route path on full other same in
      (rw stripped (unfold has_prefix in refl), inr (same, stripped))
  | inr below ↦
      let rest = drop (length (route.path ++ codes "/")) path in
      let whole : path ≡ route.path ++ b'/' ∷ rest =
        has_prefix-append path (route.path ++ codes "/") (ground (arith))
        ∙ append_assoc route.path (codes "/") rest in
      let stripped : stripped_path route path ≡ b'/' ∷ rest =
        stripped_below route path rest on full other under whole in
      (rw stripped (unfold has_prefix in refl), inl (rw stripped (sym whole)))
]
