-- ===== src/Api/Reserved.antt =====
-- internal/cftunnel/session_setup.go with internal/cftunnel/api/client.go: the session of a quick
-- tunnel from the service's answer.
use cf_tunnel.Prelude.{
  [], ◌∷◌, ◌≡◌, refl, false, sym, ◌∙◌, ◌⊎◌, inl, inr, Bool, true, false, Option, some, ok, err,
  Result-cases, arith, ℕ,
}
use cf_tunnel.Text.{Text, codes, is_empty, has_prefix}
use cf_tunnel.Session.{Reservation, RuntimeConfig, Session, build_session, origin_settings}
use cf_tunnel.Session.Prepared.{
  Prepared, no_reservation, reserve_error, prepare_quick_tunnel_session_from_runtime,
}
use cf_tunnel.Api.{
  QuickTunnelResponse, ApiRequest, Exchange, ApiError, is_rate_limited_error, tunnel_request,
  Client, new_client, create_quick_tunnel, default_reservation,
}
use cf_tunnel.Api.Once.{IsComplete, create_once-IsComplete}
use cf_tunnel.Api.Attempts.{create_quick_tunnel-attempts}

module _ (decode : Text → Option QuickTunnelResponse) (parse_uuid : Text → Option Text)
    (exchange : ApiRequest → ℕ → Exchange) (fires : ℕ → Bool) where
  create_quick_tunnel-IsComplete :
      (c : Client) (r : Reservation)
      → create_quick_tunnel decode parse_uuid exchange fires c ≡ ok r
      → IsComplete parse_uuid r
  create_quick_tunnel-IsComplete c r h =
      let (n, _, _, end) = create_quick_tunnel-attempts decode parse_uuid exchange fires c in
      elim end [
        | inl (e, _) ↦
            create_once-IsComplete parse_uuid decode (exchange (tunnel_request c) n) {r = r}
              (sym e ∙ h)
        | inr (e, _, _) ↦ ground (arith)
      ]

  https-full : (t : Text) → has_prefix t (codes "https://") ≡ true → is_empty t ≡ false
  unfolding has_prefix
  https-full [] h = ground arith
  https-full (c ∷ t) h = refl

  build_session-https :
      (cfg : RuntimeConfig) (r : Reservation)
      → ((id t : Text) → parse_uuid id ≡ some t → is_empty t ≡ false)
      → IsComplete parse_uuid r
      → (s : Session) × (build_session cfg (some r) ≡ ok s)
        × (has_prefix s.public_url (codes "https://") ≡ true)
  unfolding build_session
  build_session-https cfg r full ((id, parsed), account, secret, host, https) =
      let s : Session = record {
        tunnel_id = r.credentials.tunnel_id;
        account_tag = r.credentials.account_tag;
        secret = r.credentials.tunnel_secret;
        hostname = r.hostname;
        public_url = r.url;
        edge_protocol = cfg.edge_protocol;
        origin = origin_settings cfg;
        quick_tunnel = cfg.quick_tunnel_default;
        ha_connections = cfg.ha_connections;
      } in
      let named : is_empty r.credentials.tunnel_id ≡ false =
        full id r.credentials.tunnel_id parsed in
      let public : is_empty r.url ≡ false = https-full r.url https in
      (s, rw (named, host, public, account, secret) refl, https)

  -- Where the text of a parsed UUID is never empty: with the quick tunnel service, preparing a
  -- session fails in the reservation only. A reservation that succeeds always makes a session, and
  -- its public URL has the scheme https.
  pub prepared_or_unreserved :
      (is_canceled : ApiError → Bool) (user_agent : Text) (cfg : RuntimeConfig)
      → ((id t : Text) → parse_uuid id ≡ some t → is_empty t ≡ false)
      → let r =
          prepare_quick_tunnel_session_from_runtime is_rate_limited_error is_canceled cfg
            (default_reservation decode parse_uuid exchange fires user_agent) in
        ((p : Prepared) × (r ≡ ok p) × (has_prefix p.session.public_url (codes "https://") ≡ true))
        ⊎ ((e : ApiError) × (r
              ≡ err (no_reservation (reserve_error is_rate_limited_error is_canceled e))))
  unfolding default_reservation prepare_quick_tunnel_session_from_runtime
  prepared_or_unreserved is_canceled user_agent cfg full =
      let client = new_client cfg.quick_service user_agent (record {
        timeout = cfg.quick_service_timeout;
        retry_backoffs = some cfg.retry_backoffs;
      }) in
      elim (Result-cases (create_quick_tunnel decode parse_uuid exchange fires client)) [
        | inr (e, failed) ↦ inr (e, rw failed refl)
        | inl (r, made) ↦
            let (s, built, https) =
              build_session-https cfg r full (create_quick_tunnel-IsComplete client r made) in
            inl (
              record { runtime_config = cfg; reservation = some r; session = s },
              rw (made, built) refl,
              https,
            )
      ]
