-- ===== src/Config/Validate.antt =====
-- internal/config/config.go: AppConfig.Validate, CFTunnelConfig.Validate and what they call.
use cf_tunnel.Prelude.{
  ℕ, zero, ◌+◌, ◌||◌, List, [], ◌∷◌, Result, ok, err, guard, wrap, ◌>>◌, not, if◌then◌else◌, ℤ, pos,
  ltb_ℤ,
}
use cf_tunnel.Text.{Text, codes, text_eq, is_empty, trim_space}
use cf_tunnel.Config.{
  CfTunnelConfig, NamedTunnelConfig, AppConfig, ParseUrl, edge_protocol_quic, edge_protocol_http2,
  default_ha_connections, max_ha_connections,
}
use cf_tunnel.Config.Rules.{TargetError, RuleError, seen_in, validate_target, validate_route_rules}

pub data TunnelError : Type 0 where
  unsupported_edge_protocol : Text → TunnelError
  bad_ha_connections target_required : TunnelError
  bad_target : TargetError → TunnelError
  bad_rule : RuleError → TunnelError

pub data ConfigError : Type 0 where
  unsupported_log_format : Text → ConfigError
  bad_shutdown_timeout : ConfigError
  name_required : ℕ → ConfigError
  duplicate_name : Text → ConfigError
  tunnel_error : ℕ → Text → TunnelError → ConfigError
  single_error : TunnelError → ConfigError

-- validateEdgeProtocol
unfoldable pub validate_edge_protocol : Text → Result TunnelError (Unit {0})
validate_edge_protocol v =
    if text_eq v edge_protocol_quic || text_eq v edge_protocol_http2
    then ok tt
    else err (unsupported_edge_protocol v)

-- validateLogFormat
unfoldable pub validate_log_format : Text → Result ConfigError (Unit {0})
validate_log_format v =
    if text_eq v (codes "text") || text_eq v (codes "json")
    then ok tt
    else err (unsupported_log_format v)

-- `if haConnections == 0 { haConnections = DefaultHAConnections }`
abbrev pub effective_ha_connections : ℤ → ℤ
effective_ha_connections (pos zero) = default_ha_connections
effective_ha_connections n = n

module _ (parse_url : ParseUrl) where
  -- CFTunnelConfig.Validate
  unfoldable pub validate_tunnel : CfTunnelConfig → Result TunnelError (Unit {0})
  unfolding validate_edge_protocol validate_target validate_route_rules
  validate_tunnel c = do
    validate_edge_protocol c.edge_protocol
    let ha_connections = effective_ha_connections c.ha_connections
    guard (not (ltb_ℤ ha_connections (pos 1) || ltb_ℤ max_ha_connections ha_connections))
        bad_ha_connections
    guard (not (is_empty c.target)) target_required
    wrap bad_target (validate_target parse_url c.target)
    wrap bad_rule (validate_route_rules parse_url c.routes)

  -- The loop of validateNamedTunnels; the list holds the keys of `seen`.
  unfoldable pub validate_tunnels_from :
      ℕ → List Text → List NamedTunnelConfig → Result ConfigError (Unit {0})
  unfolding validate_tunnel seen_in trim_space
  validate_tunnels_from i seen [] = ok tt
  validate_tunnels_from i seen (t ∷ tunnels) = do
    let name = trim_space t.name
    guard (not (is_empty name)) (name_required i)
    guard (not (seen_in name seen)) (duplicate_name name)
    wrap (tunnel_error i name) (validate_tunnel t.cf_tunnel)
    validate_tunnels_from (i + 1) (name ∷ seen) tunnels

  -- AppConfig.Validate
  unfoldable pub validate : AppConfig → Result ConfigError (Unit {0})
  unfolding validate_log_format validate_tunnels_from validate_tunnel
  validate c = do
    validate_log_format c.log_format
    guard (ltb_ℤ (pos 0) c.shutdown_timeout) bad_shutdown_timeout
    elim c.tunnels [
      | [] ↦ wrap single_error (validate_tunnel c.cf_tunnel)
      | t ∷ tunnels ↦ validate_tunnels_from 0 [] (t ∷ tunnels)
    ]
