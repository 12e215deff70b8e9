-- ===== src/Config/RouteFlag.antt =====
-- internal/config/config.go: the `--cf-route` flag, its parser and its String method.
use cf_tunnel.Prelude.{
  Bool, true, false, ◌||◌, Option, none, some, List, [], ◌∷◌, ◌++◌, Result, ok, err, guard, ◌>>=◌,
  ◌>>◌, not, if◌then◌else◌,
}
use mathlib.Core.List.{reverse, map}
use cf_tunnel.Text.{Text, codes, text_eq, is_empty, trim_space, to_lower, cut, split, join}
use cf_tunnel.Config.{RouteRule}
use cf_tunnel.Config.Rules.{seen_in}

pub data FlagError : Type 0 where
  empty_rule bad_format empty_option incomplete : FlagError
  removed_option duplicated not_boolean : Text → FlagError

-- `idx := strings.Index(s, "=")` with the test `idx <= 0 || idx >= len(s)-1` for no result.
unfoldable pub cut_option : Text → Option (Text × Text)
unfolding cut
cut_option s = elim (cut b'=' s) [
  | none ↦ none
  | some (a, b) ↦ if is_empty a || is_empty b then none else some (a, b)
]

-- isSupportedRouteOptionKey
unfoldable pub is_supported_route_option_key : Text → Bool
unfolding text_eq
is_supported_route_option_key key =
    text_eq key (codes "host")
    || text_eq key (codes "strip_path_prefix")
    || text_eq key (codes "origin_server_name")
    || text_eq key (codes "origin_insecure_skip_verify")
    || text_eq key (codes "pass_host_header")

abbrev pub option_key : Text → Text
option_key k = to_lower (trim_space k)

-- rejectRemovedRouteOptionKeys
unfoldable pub reject_removed_route_option_keys : List Text → Result FlagError (Unit {0})
unfolding cut_option text_eq trim_space to_lower
reject_removed_route_option_keys [] = ok tt
reject_removed_route_option_keys (raw ∷ fields) =
    let rest = reject_removed_route_option_keys fields in
    elim (cut_option (trim_space raw)) [
      | none ↦ rest
      | some (k, _) ↦
          if text_eq (option_key k) (codes "server_name")
            || text_eq (option_key k) (codes "insecure_skip_verify")
          then err (removed_option (option_key k))
          else rest
    ]

-- The first loop of parseRouteTargetOptions. The fields stand in reverse: `targetFields` loses its
-- last element, and `optionFields` gains a first one.
unfoldable pub peel_options : List Text → List Text → Result FlagError (List Text × List Text)
unfolding cut_option is_supported_route_option_key trim_space to_lower
peel_options [] options = ok ([], options)
peel_options (f ∷ []) options = ok (f ∷ [], options)
peel_options (f ∷ g ∷ fields) options =
    let rest = peel_options (g ∷ fields) (trim_space f ∷ options) in
    if is_empty (trim_space f) then err empty_option else elim (cut_option (trim_space f)) [
      | none ↦ ok (f ∷ g ∷ fields, options)
      | some (k, _) ↦
          if is_supported_route_option_key (option_key k)
          then rest
          else ok (f ∷ g ∷ fields, options)
    ]

unfoldable pub parse_flag_bool : Text → Text → Result FlagError Bool
unfolding text_eq
parse_flag_bool key value =
    if text_eq value (codes "true")
    then ok true
    else if text_eq value (codes "false")
    then ok false
    else err (not_boolean key)

-- The `switch key` of the second loop; its `default` is `removed_option`, "unsupported route
-- option", too.
unfoldable pub set_option : Text → Text → RouteRule → Result FlagError RouteRule
unfolding text_eq parse_flag_bool to_lower trim_space
set_option key value route =
    if text_eq key (codes "host")
    then ok (record route { host = to_lower (trim_space value) })
    else if text_eq key (codes "strip_path_prefix")
    then (do b ← parse_flag_bool key value; ok (record route { strip_path_prefix = b }))
    else if text_eq key (codes "origin_server_name")
    then ok (record route { origin_server_name = value })
    else if text_eq key (codes "origin_insecure_skip_verify")
    then (do
      b ← parse_flag_bool key value
      ok (record route { insecure_skip_verify = b; insecure_skip_verify_set = true }))
    else if text_eq key (codes "pass_host_header")
    then (do
      b ← parse_flag_bool key value
      ok (record route { pass_host_header = b; pass_host_header_set = true }))
    else err (removed_option key)

-- The second loop.
unfoldable pub set_options : List Text → List Text → RouteRule → Result FlagError RouteRule
unfolding cut_option seen_in set_option to_lower trim_space
set_options seen [] route = ok route
set_options seen (raw ∷ fields) route = elim (cut_option (trim_space raw)) [
  | none ↦ err bad_format
  | some (k, v) ↦ if seen_in (option_key k) seen then err (duplicated (option_key k)) else do
    route' ← set_option (option_key k) (trim_space v) route
    set_options (option_key k ∷ seen) fields route'
]

-- `RouteRule{Target: target}`
abbrev pub rule_to : Text → RouteRule
rule_to target = record {
  host = [];
  path = [];
  target = target;
  strip_path_prefix = false;
  origin_server_name = [];
  insecure_skip_verify = false;
  insecure_skip_verify_set = false;
  pass_host_header = false;
  pass_host_header_set = false;
}

abbrev tail : List Text → List Text
tail [] = []
tail (_ ∷ fields) = fields

-- parseRouteTargetOptions
unfoldable pub parse_route_target_options : Text → Result FlagError RouteRule
unfolding split join peel_options reject_removed_route_option_keys set_options
parse_route_target_options v = do
  (rev_target, options) ← peel_options (reverse (split b',' v)) []
  let target_fields = reverse rev_target
  let target = trim_space (join (codes ",") target_fields)
  guard (not (is_empty target)) incomplete
  reject_removed_route_option_keys (tail target_fields)
  set_options [] options (rule_to target)

-- routeFlag.Set: the rule that is appended to the flag's list.
unfoldable pub set_route_rule : Text → Result FlagError RouteRule
unfolding parse_route_target_options
set_route_rule v =
    if is_empty (trim_space v) then err empty_rule else elim (cut_option (trim_space v)) [
      | none ↦ err bad_format
      | some (p, t) ↦ do
        route ← parse_route_target_options (trim_space t)
        guard (not (is_empty (trim_space p) || is_empty route.target)) incomplete
        ok (record route { path = trim_space p })
    ]

unfoldable pub set_route_flag : List RouteRule → Text → Result FlagError (List RouteRule)
unfolding set_route_rule
set_route_flag routes v = do route ← set_route_rule v; ok (routes ++ route ∷ [])

-- %t
abbrev pub format_bool : Bool → Text
format_bool true = codes "true"
format_bool false = codes "false"

-- The options that routeFlag.String writes for a rule.
unfoldable pub option_fields : RouteRule → List Text
option_fields r =
    (if is_empty r.host then [] else (codes "host=" ++ r.host) ∷ [])
    ++ ((if r.strip_path_prefix then codes "strip_path_prefix=true" ∷ [] else [])
        ++ ((if is_empty r.origin_server_name
              then []
              else (codes "origin_server_name=" ++ r.origin_server_name) ∷ [])
            ++ ((if r.insecure_skip_verify_set
                  then (codes "origin_insecure_skip_verify=" ++ format_bool r.insecure_skip_verify)
                    ∷ []
                  else [])
                ++ (if r.pass_host_header_set
                    then (codes "pass_host_header=" ++ format_bool r.pass_host_header) ∷ []
                    else []))))

-- One round of routeFlag.String.
unfoldable pub rule_spec : RouteRule → Text
unfolding option_fields join
rule_spec r = join (codes ",") ((r.path ++ b'=' ∷ r.target) ∷ option_fields r)

-- routeFlag.String
unfoldable pub route_flag_string : List RouteRule → Text
unfolding rule_spec
route_flag_string routes = join (codes ",") (map rule_spec routes)
