-- ===== src/Config/Path.antt =====
-- internal/config/config.go: route paths and route hosts, their checks and duplicate keys.
use cf_tunnel.Prelude.{◌||◌, ◌∷◌, ◌++◌, Result, ok, err, guard, ◌>>◌, not, if◌then◌else◌}
use cf_tunnel.Text.{
  Text, codes, text_eq, is_empty, has_prefix, has_suffix, trim_suffix, contains, contains_any,
}

-- `kind`; only internal/cftunnel/origin/router.go makes a "default".
pub data RouteKind : Type 0 where
  default exact prefix : RouteKind

pub data PathError : Type 0 where
  outer_spaces no_slash double_slash bad_prefix bad_wildcard : PathError

pub data HostError : Type 0 where
  is_url has_separator outer_dot empty_label : HostError

-- What validateAndNormalizeRoutePath and classifyAndNormalizeRulePath do from the test of the
-- first '/' on; the two functions hold the same statements.
unfoldable pub normalize_rooted : Text → Result PathError (RouteKind × Text)
normalize_rooted path =
    if not (has_prefix path (codes "/"))
    then err no_slash
    else if contains path (codes "//")
    then err double_slash
    else if has_suffix path (codes "/*")
    then (let base = trim_suffix path (codes "/*") in
        if is_empty base || text_eq base (codes "/")
        then err bad_prefix
        else if contains base (codes "*")
        then err bad_wildcard
        else ok (prefix, base))
    else if contains path (codes "*")
    then err bad_wildcard
    else ok (exact, path)

-- validateAndNormalizeRoutePath
unfoldable pub validate_and_normalize_route_path : Text → Result PathError (RouteKind × Text)
validate_and_normalize_route_path path =
    if text_eq path (codes "/") then ok (exact, codes "/") else normalize_rooted path

-- validateRouteHost
unfoldable pub validate_route_host : Text → Result HostError (Unit {0})
validate_route_host host = do
  guard (not (contains host (codes "://"))) is_url
  guard (not (contains_any host (codes " /\\"))) has_separator
  guard (not (has_prefix host (codes ".") || has_suffix host (codes "."))) outer_dot
  guard (not (contains host (codes ".."))) empty_label

-- routeDuplicateKey
unfoldable pub route_duplicate_key : Text → Text → Text
route_duplicate_key host path = host ++ 0 ∷ path
