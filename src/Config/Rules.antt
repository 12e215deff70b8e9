-- ===== src/Config/Rules.antt =====
-- internal/config/config.go: validateTarget and validateRouteRules.
use cf_tunnel.Prelude.{
  ℕ, ◌+◌, Bool, false, ◌||◌, none, some, List, [], ◌∷◌, Result, ok, err, guard, wrap, ◌>>=◌, ◌>>◌,
  not, if◌then◌else◌,
}
use cf_tunnel.Text.{Text, codes, text_eq, is_empty, trim_space, to_lower}
use cf_tunnel.Config.{RouteRule, ParseUrl}
use cf_tunnel.Config.Path.{
  RouteKind, default, exact, prefix, PathError, HostError, validate_and_normalize_route_path,
  validate_route_host, route_duplicate_key,
}

pub data TargetError : Type 0 where
  invalid_url not_full : TargetError
  unsupported_scheme : Text → TargetError

-- The scheme of a target that the program serves.
unfoldable pub is_scheme : Text → Bool
is_scheme s =
    text_eq s (codes "http")
    || text_eq s (codes "https")
    || text_eq s (codes "ws")
    || text_eq s (codes "wss")

-- A number in the error is the index of the rule.
pub data RuleError : Type 0 where
  host_error : ℕ → HostError → RuleError
  path_required target_required : ℕ → RuleError
  target_error : ℕ → TargetError → RuleError
  path_error : ℕ → PathError → RuleError
  duplicate_exact duplicate_prefix : Text → RuleError

-- A `map[string]struct{}` is the list of its keys.
unfoldable pub seen_in : Text → List Text → Bool
seen_in k [] = false
seen_in k (j ∷ ks) = text_eq j k || seen_in k ks

pub record Seen : Type 0 where
  pub exact_seen : List Text
  pub prefix_seen : List Text

-- The `switch kind`.
unfoldable pub note_path : RouteKind → Text → Text → Seen → Result RuleError Seen
unfolding seen_in
note_path exact key path s =
    if seen_in key s.exact_seen
    then err (duplicate_exact path)
    else ok (record s { exact_seen = key ∷ s.exact_seen })
note_path prefix key path s =
    if seen_in key s.prefix_seen
    then err (duplicate_prefix path)
    else ok (record s { prefix_seen = key ∷ s.prefix_seen })
note_path default key path s = ok s

module _ (parse_url : ParseUrl) where
  -- validateTarget
  unfoldable pub validate_target : Text → Result TargetError (Unit {0})
  unfolding is_scheme
  validate_target target = elim (parse_url target) [
    | none ↦ err invalid_url
    | some u ↦
        if is_empty u.scheme || is_empty u.host
        then err not_full
        else if is_scheme u.scheme
        then ok tt
        else err (unsupported_scheme u.scheme)
  ]

  -- One round of the loop of validateRouteRules.
  unfoldable pub validate_route : ℕ → RouteRule → Seen → Result RuleError Seen
  validate_route i route s = do
    let host = to_lower (trim_space route.host)
    wrap (host_error i) (if is_empty host then ok tt else validate_route_host host)
    let path = trim_space route.path
    guard (not (is_empty path)) (path_required i)
    let target = trim_space route.target
    guard (not (is_empty target)) (target_required i)
    wrap (target_error i) (validate_target target)
    (kind, normalized) ← wrap (path_error i) (validate_and_normalize_route_path path)
    note_path kind (route_duplicate_key host normalized) normalized s

  unfoldable pub validate_routes_from : ℕ → List RouteRule → Seen → Result RuleError Seen
  validate_routes_from i [] s = ok s
  validate_routes_from i (route ∷ routes) s = do
    s' ← validate_route i route s
    validate_routes_from (i + 1) routes s'

  -- validateRouteRules
  unfoldable pub validate_route_rules : List RouteRule → Result RuleError (Unit {0})
  validate_route_rules routes = do
    _ ← validate_routes_from 0 routes (record { exact_seen = []; prefix_seen = [] })
    ok tt
