-- ===== src/Origin/Router.antt =====
-- internal/cftunnel/origin/router.go. A Go map is an association list; a key is added only after a
-- test that it is absent, so no key stands twice.
pub mod Spec
pub mod Sort
pub mod Tables
pub mod Refines
pub mod Choice
pub mod Put
pub mod Taken
pub mod Accepts
pub mod Members
use cf_tunnel.Prelude.{
  ℕ, ◌+◌, ◌≡◌, refl, Bool, true, false, ◌||◌, ◌&&◌, Option, none, some, List, [], ◌∷◌, ◌++◌, Result,
  ok, err, guard, wrap, ◌>>=◌, ◌>>◌, not, if◌then◌else◌, ltb, ◌<|>◌, find,
}
use cf_tunnel.Text.{
  Text, codes, text_eq, is_empty, trim_space, to_lower, has_prefix, byte_len, trim, mem_text,
}
use cf_tunnel.Config.{RouteRule}
use cf_tunnel.Config.Path.{
  RouteKind, default, exact, prefix, PathError, outer_spaces, normalize_rooted,
}

pub record Route : Type 0 where
  pub host : Text
  pub path : Text
  pub target : Text
  pub strip_path_prefix : Bool
  pub origin_server_name : Text
  pub insecure_skip_verify : Bool
  pub insecure_skip_verify_set : Bool
  pub pass_host_header : Bool
  pub pass_host_header_set : Bool

pub record Router : Type 0 where
  pub host_exact : List (Text × Route)
  pub host_prefixes : List Route
  pub host_def : List (Text × Route)
  pub exact_routes : List (Text × Route)
  pub prefixes : List Route
  pub def : Option Route

pub data RouterError : Type 0 where
  bad_path : ℕ → PathError → RouterError
  duplicate_default : RouterError
  duplicate_host_default : Text → RouterError
  duplicate_exact duplicate_prefix : Text → RouterError
  duplicate_host_exact duplicate_host_prefix : Text → Text → RouterError

unfoldable pub lookup : Text → List (Text × Route) → Option Route
unfolding text_eq
lookup k [] = none
lookup k ((j, v) ∷ m) = if text_eq j k then some v else lookup k m

-- classifyAndNormalizeRulePath
unfoldable pub classify_and_normalize_rule_path : Text → Result PathError (RouteKind × Text)
classify_and_normalize_rule_path path =
    if not (text_eq (trim_space path) path)
    then err outer_spaces
    else if text_eq path (codes "/")
    then ok (default, codes "/")
    else normalize_rooted path

-- routeHostPathKey
abbrev pub route_host_path_key : Text → Text → Text
route_host_path_key host path = host ++ 0 ∷ path

-- normalizeRouteHost
unfoldable pub normalize_route_host : Text → Text
normalize_route_host host = to_lower (trim_space host)

-- The Route that NewRouter builds from a rule and its normalized path.
abbrev pub route_of : RouteRule → Text → Route
route_of rr normalized = record {
  host = normalize_route_host rr.host;
  path = normalized;
  target = rr.target;
  strip_path_prefix = rr.strip_path_prefix;
  origin_server_name = rr.origin_server_name;
  insecure_skip_verify = rr.insecure_skip_verify;
  insecure_skip_verify_set = rr.insecure_skip_verify_set;
  pass_host_header = rr.pass_host_header;
  pass_host_header_set = rr.pass_host_header_set;
}

-- The two searches for a duplicate among the prefixes.
abbrev pub same_path : Text → Route → Bool
same_path path p = text_eq p.path path

abbrev pub same_host_path : Route → Route → Bool
same_host_path r p = text_eq p.host r.host && text_eq p.path r.path

abbrev pub is_some {ℓ} : {A : Type ℓ} → Option A → Bool
is_some none = false
is_some (some _) = true

-- addHostRoute
unfoldable pub add_host_route : RouteKind → Route → Router → Result RouterError Router
add_host_route default route r =
    if is_some (lookup route.host r.host_def)
    then err (duplicate_host_default route.host)
    else ok (record r { host_def = (route.host, route) ∷ r.host_def })
add_host_route exact route r =
    let key = route_host_path_key route.host route.path in
    if is_some (lookup key r.host_exact)
    then err (duplicate_host_exact route.path route.host)
    else ok (record r { host_exact = (key, route) ∷ r.host_exact })
add_host_route prefix route r =
    if is_some (find (same_host_path route) r.host_prefixes)
    then err (duplicate_host_prefix route.path route.host)
    else ok (record r { host_prefixes = r.host_prefixes ++ route ∷ [] })

-- The `switch kind` for a rule with no host.
unfoldable pub add_plain_route : RouteKind → Route → Router → Result RouterError Router
add_plain_route default route r =
    if is_some r.def then err duplicate_default else ok (record r { def = some route })
add_plain_route exact route r =
    if is_some (lookup route.path r.exact_routes)
    then err (duplicate_exact route.path)
    else ok (record r { exact_routes = (route.path, route) ∷ r.exact_routes })
add_plain_route prefix route r =
    if is_some (find (same_path route.path) r.prefixes)
    then err (duplicate_prefix route.path)
    else ok (record r { prefixes = r.prefixes ++ route ∷ [] })

unfoldable pub add_route : RouteKind → Route → Router → Result RouterError Router
add_route kind route r =
    if is_empty route.host then add_plain_route kind route r else add_host_route kind route r

-- The loop of NewRouter.
unfoldable pub add_rules : ℕ → List RouteRule → Router → Result RouterError Router
add_rules i [] r = ok r
add_rules i (rr ∷ rules) r = do
  (kind, normalized) ← wrap (bad_path i) (classify_and_normalize_rule_path rr.path)
  r' ← add_route kind (route_of rr normalized) r
  add_rules (i + 1) rules r'

abbrev pub empty_router : Router
empty_router = record {
  host_exact = [];
  host_prefixes = [];
  host_def = [];
  exact_routes = [];
  prefixes = [];
  def = none;
}

-- sort.Slice by falling byte length. Routes of equal length stay in order here; the library leaves
-- their order open.
unfoldable pub insert_route : Route → List Route → List Route
unfolding byte_len
insert_route x [] = x ∷ []
insert_route x (y ∷ ys) =
    if ltb (byte_len x.path) (byte_len y.path) then y ∷ insert_route x ys else x ∷ y ∷ ys

unfoldable pub sort_routes : List Route → List Route
unfolding insert_route
sort_routes [] = []
sort_routes (x ∷ xs) = insert_route x (sort_routes xs)

abbrev pub sort_tables : Router → Router
sort_tables r = record r {
  host_prefixes = sort_routes r.host_prefixes;
  prefixes = sort_routes r.prefixes;
}

-- NewRouter
unfoldable pub new_router : List RouteRule → Result RouterError Router
new_router rules = do r ← add_rules 0 rules empty_router; ok (sort_tables r)

-- `path == p.Path || strings.HasPrefix(path, p.Path+"/")`
unfoldable pub is_under : Text → Route → Bool
unfolding has_prefix text_eq
is_under path p = text_eq path p.path || has_prefix path (p.path ++ codes "/")

abbrev pub on_host : Text → Text → Route → Bool
on_host host path p = text_eq p.host host && is_under path p

-- What Match does once the host is normalized.
unfoldable pub match_host : Router → Text → Text → Option Route
match_host r host path =
    (if is_empty host
      then none
      else lookup (route_host_path_key host path) r.host_exact
        <|> find (on_host host path) r.host_prefixes
        <|> lookup host r.host_def)
    <|> lookup path r.exact_routes
    <|> find (is_under path) r.prefixes
    <|> r.def

abbrev is_bracket : ℕ → Bool
is_bracket c = mem_text c (codes "[]")

-- normalizeRequestHost; `split_host_port` is net.SplitHostPort, the host without its brackets or
-- `none` on an error.
module _ (split_host_port : Text → Option Text) where
  unfoldable pub normalize_request_host : Text → Text
  unfolding to_lower trim_space trim mem_text
  normalize_request_host host =
      let h = to_lower (trim_space host) in
      if is_empty h then [] else elim (split_host_port h) [
        | some h' ↦ trim is_bracket (to_lower h')
        | none ↦ trim is_bracket h
      ]

  -- Router.Match
  unfoldable pub match_route : Router → Text → Text → Option Route
  match_route r host path = match_host r (normalize_request_host host) path
