-- ===== src/Config.antt =====
-- internal/config/config.go: the configuration records and their limits.
-- What a YAML decoder, the flag package and url.Parse return is taken as an argument.
pub mod Path
pub mod Rules
pub mod RouteFlag
pub mod Validate
pub mod Load
pub mod Accepted
use cf_tunnel.Prelude.{Bool, Option, List, ℤ, pos}
use cf_tunnel.Text.{Text, codes}

abbrev pub edge_protocol_quic : Text
edge_protocol_quic = codes "quic"

abbrev pub edge_protocol_http2 : Text
edge_protocol_http2 = codes "http2"

abbrev pub default_ha_connections : ℤ
default_ha_connections = pos 4

abbrev pub max_ha_connections : ℤ
max_ha_connections = pos 256

pub record RouteRule : Type 0 where
  pub host : Text
  pub path : Text
  pub target : Text
  pub strip_path_prefix : Bool
  pub origin_server_name : Text
  pub insecure_skip_verify : Bool
  pub insecure_skip_verify_set : Bool
  pub pass_host_header : Bool
  pub pass_host_header_set : Bool

pub record CfTunnelConfig : Type 0 where
  pub quick_service : Text
  pub tunnel_token : Text
  pub edge_protocol : Text
  pub ha_connections : ℤ
  pub target : Text
  pub origin_server_name : Text
  pub insecure_skip_verify : Bool
  pub pass_host_header : Bool
  pub routes : List RouteRule

pub record NamedTunnelConfig : Type 0 where
  pub name : Text
  pub cf_tunnel : CfTunnelConfig

pub record AppConfig : Type 0 where
  pub log_level : Text
  pub log_format : Text
  pub health_listen : Text
  pub shutdown_timeout : ℤ
  pub cf_tunnel : CfTunnelConfig
  pub tunnels : List NamedTunnelConfig

-- The `*url.URL` that url.Parse returns: the parts that the program reads, and its String().
pub record Url : Type 0 where
  pub scheme : Text
  pub host : Text
  pub text : Text

-- url.Parse; `none` is its error.
abbrev pub ParseUrl : Type 0
ParseUrl = Text → Option Url
