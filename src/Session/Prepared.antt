-- ===== src/Session/Prepared.antt =====
-- internal/cftunnel/session_setup.go and internal/cftunnel/runtime/{origin_rebuild,
-- protocol_selector,prepare}.go: the session of a tunnel, the target and the TLS name that its
-- runtime is prepared with. The quick tunnel API and the test of its errors are arguments.
use cf_tunnel.Prelude.{
  Bool, false, Option, none, some, List, [], ◌∷◌, Result, ok, err, wrap, ◌>>=◌, if◌then◌else◌,
}
use cf_tunnel.Text.{Text, codes, text_eq, is_empty, trim_space}
use cf_tunnel.Config.{CfTunnelConfig, ParseUrl}
use cf_tunnel.Origin.{Target, TargetError, SetScheme, parse_target}
use cf_tunnel.Session.{
  Decoders, TokenError, RuntimeConfig, Reservation, Session, SessionError, parse_tunnel_token,
  normalize_config, build_session, build_token_session,
}

pub data EdgeProtocol : Type 0 where
  http2 quic : EdgeProtocol

-- ParseEdgeProtocol; `none` is the error.
unfoldable pub parse_edge_protocol : Text → Option EdgeProtocol
parse_edge_protocol raw =
    if text_eq raw (codes "http2")
    then some http2
    else if text_eq raw (codes "quic")
    then some quic
    else none

-- Fallback of the static selector
abbrev pub fallback : EdgeProtocol → EdgeProtocol × Bool
fallback current = (current, false)

-- newEdgeTLSConfig: the server name and the protocols, with the pool of root certificates.
pub record EdgeTls (C : Type 0) : Type 0 where
  pub server_name : Text
  pub root_cas : C
  pub next_protos : List Text

pub data TlsError (F : Type 0) : Type 0 where
  unsupported_protocol : TlsError F
  no_roots : F → TlsError F

-- buildEdgeTLSConfigs: the only entry of the map, or an error; `roots` is edgeTLSRootCAPool.
unfoldable pub build_edge_tls_configs :
    {C F : Type 0} → Result F C → Text → Result (TlsError F) (Text × EdgeTls C)
unfolding parse_edge_protocol
build_edge_tls_configs roots selected = elim (parse_edge_protocol selected) [
  | none ↦ err unsupported_protocol
  | some quic ↦ do
    pool ← wrap no_roots roots
    ok (
      codes "quic",
      record {
        server_name = codes "quic.cftunnel.com";
        root_cas = pool;
        next_protos = codes "argotunnel" ∷ [];
      },
    )
  | some http2 ↦ do
    pool ← wrap no_roots roots
    ok (
      codes "http2",
      record { server_name = codes "h2.cftunnel.com"; root_cas = pool; next_protos = [] },
    )
]

pub data ReserveError (F : Type 0) : Type 0 where
  rate_limited canceled create_failed : F → ReserveError F

pub data PrepareError (F : Type 0) : Type 0 where
  bad_config : TargetError → PrepareError F
  bad_token : TokenError → PrepareError F
  no_session : SessionError → PrepareError F
  no_reservation : ReserveError F → PrepareError F

-- preparedSession
pub record Prepared : Type 0 where
  pub runtime_config : RuntimeConfig
  pub reservation : Option Reservation
  pub session : Session

module _ {F : Type 0} (is_rate_limited is_canceled : F → Bool) where
  -- The error of a reservation, by what it is.
  unfoldable pub reserve_error : F → ReserveError F
  reserve_error e =
      if is_rate_limited e
      then rate_limited e
      else if is_canceled e
      then canceled e
      else create_failed e

  -- prepareQuickTunnelSessionFromRuntime
  unfoldable pub prepare_quick_tunnel_session_from_runtime :
      RuntimeConfig
      → (RuntimeConfig → Result F (Option Reservation))
      → Result (PrepareError F) Prepared
  prepare_quick_tunnel_session_from_runtime cfg reserve = do
    reservation ← wrap (λ e. no_reservation (reserve_error e)) (reserve cfg)
    session ← wrap no_session (build_session cfg reservation)
    ok (record { runtime_config = cfg; reservation = reservation; session = session })

  module _ (parse_url : ParseUrl) (set_scheme : SetScheme) (d : Decoders) where
    -- prepareTunnelSessionWith
    unfoldable pub prepare_tunnel_session_with :
        CfTunnelConfig
        → (RuntimeConfig → Result F (Option Reservation))
        → Result (PrepareError F) Prepared
    prepare_tunnel_session_with cfg reserve = do
      runtime_config ← wrap bad_config (normalize_config parse_url set_scheme cfg)
      if is_empty (trim_space cfg.tunnel_token)
          then prepare_quick_tunnel_session_from_runtime runtime_config reserve
          else (wrap bad_token (parse_tunnel_token d cfg.tunnel_token) >>= λ creds.
              wrap no_session (build_token_session runtime_config creds) >>= λ session.
              ok
                (record { runtime_config = runtime_config; reservation = none; session = session }))

-- Session.OriginTarget; an empty url is the error `none`.
unfoldable pub origin_target : ParseUrl → SetScheme → Session → Option (Result TargetError Target)
origin_target parse_url set_scheme s =
    if is_empty s.origin.url
    then none
    else some (
        parse_target parse_url set_scheme s.origin.url s.origin.server_name
          s.origin.insecure_skip_verify s.origin.pass_host_header)
