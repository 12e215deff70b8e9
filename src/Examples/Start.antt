-- ===== src/Examples/Start.antt =====
-- From a concrete configuration to a session.
use cf_tunnel.Prelude.{
  ℕ, ◌≡◌, refl, Bool, true, false, Option, none, some, [], ◌∷◌, Result, ok, err, pos, ltb_ℤ, All,
  IsDistinct, arith,
}
use cf_tunnel.Text.{codes, text_eq, trim_space, trim, trim_left, is_space}
use cf_tunnel.Config.{ParseUrl, CfTunnelConfig, NamedTunnelConfig, AppConfig}
use cf_tunnel.Config.Rules.{
  validate_target, validate_route_rules, validate_routes_from, is_scheme, seen_in,
}
use cf_tunnel.Config.Validate.{
  validate_tunnel, validate_edge_protocol, validate, validate_log_format, validate_tunnels_from,
}
use cf_tunnel.Config.Accepted.{Accepted, trimmed_names, validate-tunnels}
use cf_tunnel.Origin.{Target, http, ws, SetScheme, parse_target, resolve_protocol, normalize_url}
use cf_tunnel.Session.{
  Credentials, Decoders, RuntimeConfig, Session, Reservation, normalize_config, origin_settings,
  parse_tunnel_token, build_token_session, validate_credential_fields,
}
use cf_tunnel.Session.Prepared.{Prepared, prepare_tunnel_session_with, origin_target}
use cf_tunnel.Session.Usable.{Fits, prepare_tunnel_session_with-Fits}
use cf_tunnel.Session.Websocket.{KeepsScheme, origin_target-websocket}
use cf_tunnel.Session.Connections.{RunsAs, AsksFor, prepare_tunnel_session_with-RunsAs}

-- A URL is its scheme and nothing else.
abbrev scheme_url : ParseUrl
scheme_url t = some (record { scheme = t; host = codes "x"; text = t })

abbrev set_scheme : SetScheme
set_scheme u s = s

keeps : KeepsScheme scheme_url set_scheme
keeps u v p h = ground arith

abbrev tunnel : CfTunnelConfig
tunnel = record {
  quick_service = [];
  tunnel_token = codes "t";
  edge_protocol = codes "quic";
  ha_connections = pos 3;
  target = codes "ws";
  origin_server_name = [];
  insecure_skip_verify = false;
  pass_host_header = true;
  routes = [];
}

abbrev named : NamedTunnelConfig
named = record { name = codes "a"; cf_tunnel = tunnel }

abbrev app : AppConfig
app = record {
  log_level = [];
  log_format = codes "text";
  health_listen = [];
  shutdown_timeout = pos 1;
  cf_tunnel = tunnel;
  tunnels = named ∷ [];
}

tunnel_valid : validate_tunnel scheme_url tunnel ≡ ok tt
unfolding validate_tunnel validate_edge_protocol validate_target validate_route_rules
    validate_routes_from is_scheme text_eq
tunnel_valid = refl

app_valid : validate scheme_url app ≡ ok tt
unfolding validate validate_log_format validate_tunnels_from seen_in validate_tunnel
    validate_edge_protocol validate_target validate_route_rules validate_routes_from is_scheme
    text_eq trim trim_left trim_space is_space
app_valid = refl

validate-tunnels_example :
    All (Accepted scheme_url) app.tunnels
    × IsDistinct text_eq (trimmed_names app.tunnels)
    × (ltb_ℤ (pos 0) app.shutdown_timeout ≡ true)
validate-tunnels_example = validate-tunnels scheme_url app named [] app_valid refl

abbrev target : Target
target = record {
  raw = codes "ws";
  protocol = ws;
  url = record { scheme = codes "http"; host = codes "x"; text = codes "http" };
  server_name = [];
  insecure_skip_verify = false;
  pass_host_header = true;
  websocket_upgrade_mode = true;
}

abbrev pub runtime_config : RuntimeConfig
runtime_config = record {
  edge_protocol = codes "quic";
  quick_service = [];
  quick_service_timeout = 15000;
  retry_backoffs = 500 ∷ 1500 ∷ [];
  ha_connections = pos 3;
  origin = target;
  routes = [];
  quick_tunnel_default = true;
}

normalized : normalize_config scheme_url set_scheme tunnel ≡ ok runtime_config
unfolding normalize_config parse_target resolve_protocol normalize_url text_eq
normalized = refl

abbrev creds : Credentials
creds = record {
  account_tag = codes "c";
  tunnel_secret = 1 ∷ [];
  tunnel_id = codes "i";
  endpoint = [];
}

abbrev decoders : Decoders
decoders = record { decode_base64 = λ t. some t; decode_json = λ b. some creds; nil_id = codes "0" }

abbrev session : Session
session = record {
  tunnel_id = codes "i";
  account_tag = codes "c";
  secret = 1 ∷ [];
  hostname = [];
  public_url = [];
  edge_protocol = codes "quic";
  origin = origin_settings runtime_config;
  quick_tunnel = false;
  ha_connections = pos 3;
}

abbrev prepared : Prepared
prepared = record { runtime_config = runtime_config; reservation = none; session = session }

abbrev no_reserve : RuntimeConfig → Result ℕ (Option Reservation)
no_reserve c = err 0

abbrev never : ℕ → Bool
never e = false

is_prepared :
    prepare_tunnel_session_with never never scheme_url set_scheme decoders tunnel no_reserve
    ≡ ok prepared
unfolding prepare_tunnel_session_with parse_tunnel_token build_token_session
    validate_credential_fields normalize_config parse_target resolve_protocol normalize_url text_eq
    trim trim_left trim_space is_space
is_prepared = refl

prepare_tunnel_session_with-Fits_example :
    (r : RuntimeConfig) × (normalize_config scheme_url set_scheme tunnel ≡ ok r)
    × (t : Target) × (parse_target scheme_url set_scheme tunnel.target tunnel.origin_server_name
          tunnel.insecure_skip_verify tunnel.pass_host_header
        ≡ ok t)
    × Fits tunnel r t prepared
prepare_tunnel_session_with-Fits_example =
    prepare_tunnel_session_with-Fits never never scheme_url set_scheme decoders tunnel no_reserve
      prepared is_prepared

prepare_tunnel_session_with-RunsAs_example :
    (n : ℕ) × AsksFor tunnel.ha_connections n × RunsAs prepared.session.ha_connections n
prepare_tunnel_session_with-RunsAs_example =
    prepare_tunnel_session_with-RunsAs never never scheme_url set_scheme decoders tunnel no_reserve
      prepared tunnel_valid is_prepared

abbrev again : Target
again = record target { raw = codes "http"; protocol = http; websocket_upgrade_mode = false }

rebuilt : origin_target scheme_url set_scheme session ≡ some (ok again)
unfolding origin_target parse_target resolve_protocol normalize_url text_eq
rebuilt = refl

origin_target-websocket_example :
    (again.websocket_upgrade_mode ≡ false)
    × (again.server_name ≡ tunnel.origin_server_name)
    × (again.insecure_skip_verify ≡ tunnel.insecure_skip_verify)
    × (again.pass_host_header ≡ tunnel.pass_host_header)
origin_target-websocket_example =
    origin_target-websocket scheme_url set_scheme tunnel runtime_config session again keeps
      normalized refl rebuilt
