-- ===== src/Config/Load.antt =====
-- internal/config/config.go: defaults, the command line, the configuration file and Parse. The flag
-- package's result, the decoded YAML and the duration parser are arguments.
use cf_tunnel.Prelude.{
  Bool, true, false, ◌||◌, Option, none, some, List, [], ◌∷◌, Result, ok, err, guard, wrap, ◌>>=◌,
  ◌>>◌, if◌then◌else◌, ℤ, pos, zero, ◌*◌, ◌^◌, ◌==◌,
}
use mathlib.Core.List.{map}
use mathlib.Core.Option
use cf_tunnel.Text.{Text, codes, text_eq, is_empty, trim_space, to_lower}
use cf_tunnel.Config.{
  RouteRule, CfTunnelConfig, NamedTunnelConfig, AppConfig, ParseUrl, default_ha_connections,
  edge_protocol_http2,
}
use cf_tunnel.Config.Validate.{ConfigError, validate}

abbrev is_empty_list : List Text → Bool
is_empty_list [] = true
is_empty_list (_ ∷ _) = false

-- A key of a route rule's YAML mapping.
unfoldable pub is_route_key : Text → Bool
is_route_key k =
    text_eq k (codes "host")
    || text_eq k (codes "path")
    || text_eq k (codes "target")
    || text_eq k (codes "strip_path_prefix")
    || text_eq k (codes "origin_server_name")
    || text_eq k (codes "origin_insecure_skip_verify")
    || text_eq k (codes "pass_host_header")

-- The `raw` struct that value.Decode fills; absent pointers are `none`.
pub record RawRule : Type 0 where
  pub host : Text
  pub path : Text
  pub target : Text
  pub strip_path_prefix : Bool
  pub origin_server_name : Text
  pub insecure_skip_verify : Option Bool
  pub pass_host_header : Option Bool

pub data YamlError : Type 0 where
  not_mapping : YamlError
  unknown_field : Text → YamlError
  not_decoded : YamlError

-- A yaml.Node: whether it is a mapping, its keys, and what Decode gives (`none` is an error).
pub record RuleNode : Type 0 where
  pub is_mapping : Bool
  pub keys : List Text
  pub decoded : Option RawRule

unfoldable pub check_keys : List Text → Result YamlError (Unit {0})
unfolding is_route_key
check_keys [] = ok tt
check_keys (k ∷ ks) =
    let rest = check_keys ks in if is_route_key k then rest else err (unknown_field k)

abbrev or_false : Option Bool → Bool
or_false none = false
or_false (some b) = b

abbrev is_set : Option Bool → Bool
is_set none = false
is_set (some _) = true

-- RouteRule.UnmarshalYAML on a fresh rule.
unfoldable pub unmarshal_rule : RuleNode → Result YamlError RouteRule
unfolding check_keys
unmarshal_rule node = do
  guard node.is_mapping not_mapping
  check_keys node.keys
  elim node.decoded [
    | none ↦ err not_decoded
    | some raw ↦ ok (record {
      host = raw.host;
      path = raw.path;
      target = raw.target;
      strip_path_prefix = raw.strip_path_prefix;
      origin_server_name = raw.origin_server_name;
      insecure_skip_verify = or_false raw.insecure_skip_verify;
      insecure_skip_verify_set = is_set raw.insecure_skip_verify;
      pass_host_header = or_false raw.pass_host_header;
      pass_host_header_set = is_set raw.pass_host_header;
    })
  ]

abbrev pub default_quick_service : Text
default_quick_service = codes "https://api.trycloudflare.com"

abbrev or_default : ℤ → ℤ
or_default (pos zero) = default_ha_connections
or_default n = n

-- CFTunnelConfig.applyDefaults
unfoldable pub apply_defaults : CfTunnelConfig → CfTunnelConfig
apply_defaults c = record c {
  quick_service = if is_empty c.quick_service then default_quick_service else c.quick_service;
  ha_connections = or_default c.ha_connections;
}

abbrev pub apply_named_defaults : NamedTunnelConfig → NamedTunnelConfig
apply_named_defaults t = record t { cf_tunnel = apply_defaults t.cf_tunnel }

-- fileConfig
pub record FileConfig : Type 0 where
  pub log_level : Option Text
  pub log_format : Option Text
  pub health_listen : Option Text
  pub shutdown_timeout : Option Text
  pub cf_tunnel : Option CfTunnelConfig
  pub tunnels : List NamedTunnelConfig

pub data LoadError : Type 0 where
  unsupported_format not_read not_yaml bad_duration : LoadError
  invalid : ConfigError → LoadError
  bad_flags positional : LoadError

-- filepath.Ext: the suffix from the last '.' of the last path element on.
abbrev ext_from : Text → Text → Text
ext_from [] found = found
ext_from (c ∷ s) found = ext_from s (if c == b'/' then [] else if c == b'.' then c ∷ s else found)

unfoldable pub ext : Text → Text
ext path = ext_from path []

-- `if fc.F != nil { cfg.F = *fc.F }`
abbrev pub override {ℓ} : {A : Type ℓ} → Option A → A → A
override none a = a
override (some b) a = b

abbrev trim_token : CfTunnelConfig → CfTunnelConfig
trim_token c = record c { tunnel_token = trim_space c.tunnel_token }

abbrev trim_named : NamedTunnelConfig → NamedTunnelConfig
trim_named t = record t { cf_tunnel = trim_token t.cf_tunnel }

-- The two trims of Parse, of the single tunnel and of each named one.
unfoldable pub trim_tokens : AppConfig → AppConfig
unfolding trim_space
trim_tokens cfg = record cfg {
  cf_tunnel = trim_token cfg.cf_tunnel;
  tunnels = map trim_named cfg.tunnels;
}

-- What Parse registers as the flags' defaults, with $CF_TUNNEL_TOKEN.
unfoldable pub flag_defaults : Text → AppConfig
unfolding trim_space
flag_defaults env_token = record {
  log_level = codes "info";
  log_format = codes "text";
  health_listen = codes ":9090";
  shutdown_timeout = pos (10 * 10 ^ 9);
  cf_tunnel = record {
    quick_service = default_quick_service;
    tunnel_token = trim_space env_token;
    edge_protocol = edge_protocol_http2;
    ha_connections = default_ha_connections;
    target = [];
    origin_server_name = [];
    insecure_skip_verify = false;
    pass_host_header = false;
    routes = [];
  };
  tunnels = [];
}

module _ (parse_duration : Text → Option ℤ) where
  abbrev timeout_of : Option Text → ℤ → Result LoadError ℤ
  timeout_of none t = ok t
  timeout_of (some s) t = elim (parse_duration s) [ none ↦ err bad_duration | some v ↦ ok v ]

  -- applyConfigFile from `if fc.LogLevel != nil` on.
  unfoldable pub merge_file : AppConfig → FileConfig → Result LoadError AppConfig
  unfolding apply_defaults
  merge_file cfg fc = do
    timeout ← timeout_of fc.shutdown_timeout cfg.shutdown_timeout
    ok (record {
      log_level = override fc.log_level cfg.log_level;
      log_format = override fc.log_format cfg.log_format;
      health_listen = override fc.health_listen cfg.health_listen;
      shutdown_timeout = timeout;
      cf_tunnel = override (Option.map apply_defaults fc.cf_tunnel) cfg.cf_tunnel;
      tunnels = elim fc.tunnels [ [] ↦ cfg.tunnels | t ∷ ts ↦ map apply_named_defaults (t ∷ ts) ];
    })

  module _ (read_file : Text → Option Text) (decode : Text → Option FileConfig)
      (parse_url : ParseUrl) where
    -- applyConfigFile
    unfoldable pub apply_config_file : AppConfig → Text → Result LoadError AppConfig
    unfolding ext merge_file to_lower text_eq
    apply_config_file cfg path =
        if text_eq (to_lower (ext path)) (codes ".yaml")
          || text_eq (to_lower (ext path)) (codes ".yml")
        then (elim (read_file path) [
          | none ↦ err not_read
          | some b ↦ elim (decode b) [ none ↦ err not_yaml | some fc ↦ merge_file cfg fc ]
        ])
        else err unsupported_format

    -- Parse, from the result of fs.Parse on: the configuration that the flags filled, the value of
    -- `-config` and the number of positional arguments.
    unfoldable pub finish_parse : AppConfig → Text → List Text → Result LoadError AppConfig
    unfolding apply_config_file trim_tokens validate
    finish_parse flags config_path positional_args = do
      guard (is_empty_list positional_args) positional
      cfg ← if is_empty config_path then ok flags else apply_config_file flags config_path
      let trimmed = trim_tokens cfg
      wrap invalid (validate parse_url trimmed)
      ok trimmed
