-- ===== src/Session/Connections.antt =====
-- internal/config/config.go, internal/cftunnel/config/runtime.go and internal/cftunnel/runtime/runner.go:
-- the number of connections from the configuration to the bridge.
use cf_tunnel.Prelude.{
  ℕ, zero, suc, ◌≤◌, ◌≡◌, ◌≢◌, refl, Bool, Option, Result, ◌⊎◌, false, ◌||◌, inl, inr, ok,
  Result-cases, ℤ, pos, negsuc, ltb_ℤ, arith,
}
use cf_tunnel.Config.{CfTunnelConfig, ParseUrl, max_ha_connections}
use cf_tunnel.Config.Validate.{validate_edge_protocol, effective_ha_connections, validate_tunnel}
use cf_tunnel.Origin.{SetScheme}
use cf_tunnel.Session.{Decoders, RuntimeConfig, Reservation}
use cf_tunnel.Session.Prepared.{Prepared, prepare_tunnel_session_with}
use cf_tunnel.Session.Usable.{prepare_tunnel_session_with-Fits}
use cf_tunnel.Session.Websocket.{normalize_config-ok}
use cf_tunnel.Bridge.{normalize_ha_connections}

-- A number from 1 to 256, which is what the bridge makes of the int.
abbrev pub RunsAs : ℤ → ℕ → Type 0
RunsAs z n = (z ≡ pos n) × (1 ≤ n) × (n ≤ 256) × (normalize_ha_connections z ≡ n)

in_range-RunsAs :
    (z : ℤ) → (ltb_ℤ z (pos 1) || ltb_ℤ max_ha_connections z) ≡ false → (n : ℕ) × RunsAs z n
unfolding normalize_ha_connections
in_range-RunsAs (pos zero) h = ground arith
in_range-RunsAs (pos (suc n)) h = (suc n, ground arith)
in_range-RunsAs (negsuc n) h = ground arith

module _ (parse_url : ParseUrl) where
  validated_range :
      (c : CfTunnelConfig)
      → validate_tunnel parse_url c ≡ ok tt
      → (ltb_ℤ (effective_ha_connections c.ha_connections) (pos 1)
          || ltb_ℤ max_ha_connections (effective_ha_connections c.ha_connections))
        ≡ false
  unfolding validate_tunnel
  validated_range c h = elim (Result-cases (validate_edge_protocol c.edge_protocol)) [
    | inl (u, valid) ↦ ground arith
    | inr (e, bad) ↦ ground arith
  ]

-- The number of connections that a configuration asks for: 4 where it says 0.
abbrev pub AsksFor : ℤ → ℕ → Type 0
AsksFor z n = ((z ≡ pos 0) × (n ≡ 4)) ⊎ ((z ≢ pos 0) × (z ≡ pos n))

effective-AsksFor : (z : ℤ) (n : ℕ) → effective_ha_connections z ≡ pos n → AsksFor z n
effective-AsksFor (pos zero) n h = inl (refl, ground arith)
effective-AsksFor (pos (suc m)) n h = inr (ground arith, h)
effective-AsksFor (negsuc m) n h = ground arith

module _ {F : Type 0} (is_rate_limited is_canceled : F → Bool) (parse_url : ParseUrl)
    (set_scheme : SetScheme) (d : Decoders) where
  -- The number of connections of a tunnel configuration that is accepted, and of which a session
  -- was prepared, reaches the bridge in the session as it is, with 4 for 0: it is from 1 to 256,
  -- and the bridge does not change it.
  pub prepare_tunnel_session_with-RunsAs :
      (c : CfTunnelConfig) (reserve : RuntimeConfig → Result F (Option Reservation)) (p : Prepared)
      → validate_tunnel parse_url c ≡ ok tt
      → prepare_tunnel_session_with is_rate_limited is_canceled parse_url set_scheme d c reserve
        ≡ ok p
      → (n : ℕ) × AsksFor c.ha_connections n × RunsAs p.session.ha_connections n
  prepare_tunnel_session_with-RunsAs c reserve p valid h =
      let (r, normal, _, _, (_, _, _, kept)) =
        prepare_tunnel_session_with-Fits is_rate_limited is_canceled parse_url set_scheme d c
          reserve p h in
      let (_, _, _, same) = normalize_config-ok parse_url set_scheme c r normal in
      let (n, runs) =
        in_range-RunsAs (effective_ha_connections c.ha_connections)
          (validated_range parse_url c valid) in
      (n, effective-AsksFor c.ha_connections n runs.0, rw (kept, same) runs)
