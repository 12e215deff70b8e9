-- ===== src/Session.antt =====
-- internal/cftunnel/credentials/token.go, internal/cftunnel/config/runtime.go,
-- internal/cftunnel/runtime/{session,origin_rebuild,protocol_selector}.go and
-- internal/cftunnel/session_setup.go: from the configuration of a tunnel to the session that runs.
-- Base64, JSON, the quick tunnel API, the text of a UUID and errors.Is are arguments.
pub mod Prepared
pub mod Usable
pub mod Websocket
pub mod Connections
use cf_tunnel.Prelude.{
  ℕ, zero, Bool, true, false, ◌||◌, not, Option, none, some, List, [], ◌∷◌, Result, ok, err, guard,
  wrap, ◌>>=◌, ◌>>◌, if◌then◌else◌, ℤ, pos,
}
use cf_tunnel.Text.{Text, codes, text_eq, is_empty, trim_space}
use cf_tunnel.Config.{CfTunnelConfig, RouteRule, ParseUrl, edge_protocol_quic, edge_protocol_http2}
use cf_tunnel.Config.Validate.{effective_ha_connections}
use cf_tunnel.Origin.{Target, Protocol, TargetError, SetScheme, parse_target}

-- credentials.Credentials, with the UUID as its text.
pub record Credentials : Type 0 where
  pub account_tag : Text
  pub tunnel_secret : List ℕ
  pub tunnel_id : Text
  pub endpoint : Text

pub data TokenError : Type 0 where
  missing_token not_base64 not_json missing_account missing_id missing_secret : TokenError

abbrev pub no_bytes : List ℕ → Bool
no_bytes [] = true
no_bytes (_ ∷ _) = false

-- base64.StdEncoding.DecodeString, json.Unmarshal into a TunnelToken, and the text of uuid.Nil.
pub record Decoders : Type 0 where
  pub decode_base64 : Text → Option (List ℕ)
  pub decode_json : List ℕ → Option Credentials
  pub nil_id : Text

-- ParseTunnelToken
unfoldable pub parse_tunnel_token : Decoders → Text → Result TokenError Credentials
parse_tunnel_token d token =
    if is_empty (trim_space token)
    then err missing_token
    else elim (d.decode_base64 (trim_space token)) [
      | none ↦ err not_base64
      | some bytes ↦ elim (d.decode_json bytes) [
        | none ↦ err not_json
        | some parsed ↦ do
          guard (not (is_empty (trim_space parsed.account_tag))) missing_account
          guard (not (text_eq parsed.tunnel_id d.nil_id)) missing_id
          guard (not (no_bytes parsed.tunnel_secret)) missing_secret
          ok (record {
            account_tag = trim_space parsed.account_tag;
            tunnel_secret = parsed.tunnel_secret;
            tunnel_id = parsed.tunnel_id;
            endpoint = trim_space parsed.endpoint;
          })
      ]
    ]

-- config.RuntimeConfig; times are in milliseconds.
pub record RuntimeConfig : Type 0 where
  pub edge_protocol : Text
  pub quick_service : Text
  pub quick_service_timeout : ℕ
  pub retry_backoffs : List ℕ
  pub ha_connections : ℤ
  pub origin : Target
  pub routes : List RouteRule
  pub quick_tunnel_default : Bool

-- config.Normalize
unfoldable pub normalize_config :
    ParseUrl → SetScheme → CfTunnelConfig → Result TargetError RuntimeConfig
normalize_config parse_url set_scheme cfg = do
  target ←
      parse_target parse_url set_scheme cfg.target cfg.origin_server_name cfg.insecure_skip_verify
        cfg.pass_host_header
  ok (record {
    edge_protocol = cfg.edge_protocol;
    quick_service = cfg.quick_service;
    quick_service_timeout = 15000;
    retry_backoffs = 500 ∷ 1500 ∷ [];
    ha_connections = effective_ha_connections cfg.ha_connections;
    origin = target;
    routes = cfg.routes;
    quick_tunnel_default = true;
  })

-- runtime.OriginSettings
pub record OriginSettings : Type 0 where
  pub raw_target : Text
  pub url : Text
  pub protocol : Protocol
  pub server_name : Text
  pub insecure_skip_verify : Bool
  pub pass_host_header : Bool
  pub websocket_upgrade_mode : Bool
  pub routes : List RouteRule

-- runtime.Session
pub record Session : Type 0 where
  pub tunnel_id : Text
  pub account_tag : Text
  pub secret : List ℕ
  pub hostname : Text
  pub public_url : Text
  pub edge_protocol : Text
  pub origin : OriginSettings
  pub quick_tunnel : Bool
  pub ha_connections : ℤ

pub data SessionError : Type 0 where
  no_tunnel_id no_account_tag no_secret no_hostname no_hostname_or_url nil_reservation :
      SessionError

-- ValidateRequiredCredentialFields
unfoldable pub validate_credential_fields : Session → Result SessionError (Unit {0})
validate_credential_fields s = do
  guard (not (is_empty s.tunnel_id)) no_tunnel_id
  guard (not (is_empty s.account_tag)) no_account_tag
  guard (not (no_bytes s.secret)) no_secret

-- ValidateRequiredQuickTunnelFields
unfoldable pub validate_quick_tunnel_fields : Session → Result SessionError (Unit {0})
unfolding validate_credential_fields
validate_quick_tunnel_fields s = do
  validate_credential_fields s
  guard (not (is_empty s.hostname)) no_hostname

-- The OriginSettings that BuildSession and BuildTokenSession fill.
abbrev pub origin_settings : RuntimeConfig → OriginSettings
origin_settings cfg = record {
  raw_target = cfg.origin.raw;
  url = cfg.origin.url.text;
  protocol = cfg.origin.protocol;
  server_name = cfg.origin.server_name;
  insecure_skip_verify = cfg.origin.insecure_skip_verify;
  pass_host_header = cfg.origin.pass_host_header;
  websocket_upgrade_mode = cfg.origin.websocket_upgrade_mode;
  routes = cfg.routes;
}

-- api.QuickTunnelReservation: the fields that the program reads.
pub record Reservation : Type 0 where
  pub hostname : Text
  pub url : Text
  pub credentials : Credentials

-- BuildSession; a nil reservation is `none`.
unfoldable pub build_session : RuntimeConfig → Option Reservation → Result SessionError Session
unfolding validate_quick_tunnel_fields
build_session cfg none = err nil_reservation
build_session cfg (some r) = do
  guard (not (is_empty r.credentials.tunnel_id)) no_tunnel_id
  guard (not (is_empty r.hostname || is_empty r.url)) no_hostname_or_url
  let session : Session = record {
    tunnel_id = r.credentials.tunnel_id;
    account_tag = r.credentials.account_tag;
    secret = r.credentials.tunnel_secret;
    hostname = r.hostname;
    public_url = r.url;
    edge_protocol = cfg.edge_protocol;
    origin = origin_settings cfg;
    quick_tunnel = cfg.quick_tunnel_default;
    ha_connections = cfg.ha_connections;
  }
  validate_quick_tunnel_fields session
  ok session

-- BuildTokenSession
unfoldable pub build_token_session : RuntimeConfig → Credentials → Result SessionError Session
unfolding validate_credential_fields
build_token_session cfg creds = do
  guard (not (is_empty creds.tunnel_id)) no_tunnel_id
  let session : Session = record {
    tunnel_id = creds.tunnel_id;
    account_tag = creds.account_tag;
    secret = creds.tunnel_secret;
    hostname = [];
    public_url = [];
    edge_protocol = cfg.edge_protocol;
    origin = origin_settings cfg;
    quick_tunnel = false;
    ha_connections = cfg.ha_connections;
  }
  validate_credential_fields session
  ok session
