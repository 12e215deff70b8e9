-- ===== src/Session/Usable.antt =====
-- internal/cftunnel/session_setup.go and internal/cftunnel/runtime/session.go: what a session that was
-- prepared holds.
use cf_tunnel.Prelude.{
  ◌≡◌, Result-cases, inl, inr, Bool, false, Bool-cases, Option, none, some, Result, ok, wrap, ◌>>=◌,
  >>=-eq-ok, wrap-eq-ok, arith,
}
use cf_tunnel.Text.{Text, is_empty, trim_space}
use cf_tunnel.Config.{CfTunnelConfig, ParseUrl}
use cf_tunnel.Origin.{Target, SetScheme, parse_target, is_websocket}
use cf_tunnel.Session.{
  Decoders, Credentials, RuntimeConfig, Reservation, Session, parse_tunnel_token, normalize_config,
  build_session, build_token_session, no_bytes, origin_settings, OriginSettings,
}
use cf_tunnel.Session.Websocket.{parse_target-ok, normalize_config-ok}
use cf_tunnel.Session.Prepared.{
  Prepared, PrepareError, bad_config, bad_token, no_session, no_reservation, reserve_error,
  prepare_quick_tunnel_session_from_runtime, prepare_tunnel_session_with,
}

-- What the edge needs to register a tunnel.
abbrev pub Usable : Session → Type 0
Usable s =
    (is_empty s.tunnel_id ≡ false) × (is_empty s.account_tag ≡ false) × (no_bytes s.secret ≡ false)

build_token_session-Usable :
    (cfg : RuntimeConfig) (c : Credentials) (s : Session)
    → build_token_session cfg c ≡ ok s
    → Usable s × (s.origin ≡ origin_settings cfg) × (s.ha_connections ≡ cfg.ha_connections)
unfolding build_token_session
build_token_session-Usable cfg c s h = ground arith

build_session-Usable :
    (cfg : RuntimeConfig) (r : Option Reservation) (s : Session)
    → build_session cfg r ≡ ok s
    → Usable s × (s.origin ≡ origin_settings cfg) × (s.ha_connections ≡ cfg.ha_connections)
unfolding build_session
build_session-Usable cfg none s h = ground arith
build_session-Usable cfg (some r) s h = ground arith

-- What a preparation keeps of the runtime's configuration.
abbrev Keeps : RuntimeConfig → Prepared → Type 0
Keeps cfg p =
    (p.runtime_config ≡ cfg)
    × Usable p.session
    × (p.session.origin ≡ origin_settings cfg)
    × (p.session.ha_connections ≡ cfg.ha_connections)

quick_Keeps :
    {F : Type 0} (is_rate_limited is_canceled : F → Bool) (cfg : RuntimeConfig)
    (reserve : RuntimeConfig → Result F (Option Reservation)) (p : Prepared)
    → prepare_quick_tunnel_session_from_runtime is_rate_limited is_canceled cfg reserve ≡ ok p
    → Keeps cfg p
unfolding prepare_quick_tunnel_session_from_runtime
quick_Keeps is_rate_limited is_canceled cfg reserve p h =
    let (r, _, h') =
      >>=-eq-ok
        (wrap (λ e. no_reservation (reserve_error is_rate_limited is_canceled e)) (reserve cfg)) _
        h in
    let (s, built, last) = >>=-eq-ok (wrap no_session (build_session cfg r)) _ h' in
    let usable = build_session-Usable cfg r s (wrap-eq-ok no_session (build_session cfg r) built) in
    ground arith

token_Keeps :
    {F : Type 0} (d : Decoders) (token : Text) (cfg : RuntimeConfig) (p : Prepared)
    → (wrap {F = PrepareError F} bad_token (parse_tunnel_token d token) >>= λ creds.
        wrap no_session (build_token_session cfg creds) >>= λ session.
        ok (record { runtime_config = cfg; reservation = none; session = session }))
      ≡ ok p
    → Keeps cfg p
token_Keeps d token cfg p h =
    let (c, _, h') = >>=-eq-ok (wrap bad_token (parse_tunnel_token d token)) _ h in
    let (s, built, last) = >>=-eq-ok (wrap no_session (build_token_session cfg c)) _ h' in
    let usable =
      build_token_session-Usable cfg c s
        (wrap-eq-ok no_session (build_token_session cfg c) built) in
    ground arith

-- The origin of a session: the target that the configuration's URL parses to, with the settings
-- and the routes of the configuration.
abbrev pub IsOriginOf : CfTunnelConfig → Target → OriginSettings → Type 0
IsOriginOf cfg t o =
    (o.raw_target ≡ t.raw)
    × (o.url ≡ t.url.text)
    × (o.protocol ≡ t.protocol)
    × (o.websocket_upgrade_mode ≡ is_websocket t.protocol)
    × (o.server_name ≡ cfg.origin_server_name)
    × (o.insecure_skip_verify ≡ cfg.insecure_skip_verify)
    × (o.pass_host_header ≡ cfg.pass_host_header)
    × (o.routes ≡ cfg.routes)

abbrev pub Fits : CfTunnelConfig → RuntimeConfig → Target → Prepared → Type 0
Fits cfg r t p =
    (p.runtime_config ≡ r)
    × Usable p.session
    × IsOriginOf cfg t p.session.origin
    × (p.session.ha_connections ≡ r.ha_connections)

module _ (parse_url : ParseUrl) (set_scheme : SetScheme) where
  normalize_config-routes :
      (cfg : CfTunnelConfig) (r : RuntimeConfig)
      → normalize_config parse_url set_scheme cfg ≡ ok r
      → r.routes ≡ cfg.routes
  unfolding normalize_config
  normalize_config-routes cfg r h =
      elim (Result-cases (
        parse_target parse_url set_scheme cfg.target cfg.origin_server_name cfg.insecure_skip_verify
          cfg.pass_host_header)) [ inl (t, parsed) ↦ ground arith | inr (e, bad) ↦ ground arith ]

  Keeps-Fits :
      (cfg : CfTunnelConfig) (r : RuntimeConfig) (p : Prepared)
      → normalize_config parse_url set_scheme cfg ≡ ok r
      → Keeps r p
      → (t : Target) × (parse_target parse_url set_scheme cfg.target cfg.origin_server_name
            cfg.insecure_skip_verify cfg.pass_host_header
          ≡ ok t)
        × Fits cfg r t p
  Keeps-Fits cfg r p h (same, usable, origin, connections) =
      let (t, parsed, target, _) = normalize_config-ok parse_url set_scheme cfg r h in
      let (_, _, _, _, name, insecure, pass, upgrade) =
        parse_target-ok parse_url set_scheme cfg.target cfg.origin_server_name
          cfg.insecure_skip_verify cfg.pass_host_header t parsed in
      let routes = normalize_config-routes cfg r h in
      (
        t,
        parsed,
        (
          same,
          usable,
          ground (arith, origin, target, upgrade, name, insecure, pass, routes),
          connections,
        ),
      )

module _ {F : Type 0} (is_rate_limited is_canceled : F → Bool) (parse_url : ParseUrl)
    (set_scheme : SetScheme) (d : Decoders) where
  -- A session that was prepared, from a token or from a quick tunnel's reservation, has a tunnel
  -- id, an account and a secret; its origin is the target that the configuration's URL parses to,
  -- with the server name, the two flags and the routes of the configuration; its number of
  -- connections is that of the normalized configuration.
  pub prepare_tunnel_session_with-Fits :
      (cfg : CfTunnelConfig) (reserve : RuntimeConfig → Result F (Option Reservation))
      (p : Prepared)
      → prepare_tunnel_session_with is_rate_limited is_canceled parse_url set_scheme d cfg reserve
        ≡ ok p
      → (r : RuntimeConfig) × (normalize_config parse_url set_scheme cfg ≡ ok r)
        × (t : Target) × (parse_target parse_url set_scheme cfg.target cfg.origin_server_name
              cfg.insecure_skip_verify cfg.pass_host_header
            ≡ ok t)
        × Fits cfg r t p
  unfolding prepare_tunnel_session_with
  prepare_tunnel_session_with-Fits cfg reserve p h =
      let (r, normal, h') =
        >>=-eq-ok (wrap bad_config (normalize_config parse_url set_scheme cfg)) _ h in
      let e = wrap-eq-ok bad_config (normalize_config parse_url set_scheme cfg) normal in
      let (t, parsed, fits) =
        Keeps-Fits parse_url set_scheme cfg r p e
          (elim (Bool-cases (is_empty (trim_space cfg.tunnel_token))) [
            | inl quick ↦ quick_Keeps is_rate_limited is_canceled r reserve p (ground arith)
            | inr token ↦ token_Keeps {F = F} d cfg.tunnel_token r p (ground arith)
          ]) in
      (r, e, t, parsed, fits)
