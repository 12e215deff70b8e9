-- ===== src/Session/Websocket.antt =====
-- internal/cftunnel/origin/target.go and internal/cftunnel/runtime/origin_rebuild.go: the target of a
-- configuration and the target that the runtime of its session is prepared with.
use cf_tunnel.Prelude.{
  ◌≡◌, inl, inr, refl, sym, ap, ◌∙◌, Bool, false, Option-cases, some, Result, ok, Result-cases,
  arith,
}
use cf_tunnel.Text.{Text, text_eq}
use cf_tunnel.Config.{Url, CfTunnelConfig, ParseUrl}
use cf_tunnel.Config.Validate.{effective_ha_connections}
use cf_tunnel.Origin.{
  Target, TargetError, Protocol, http, https, ws, wss, SetScheme, parse_target, scheme_for_protocol,
  normalize_url, is_websocket, resolve_protocol,
}
use cf_tunnel.Session.{RuntimeConfig, Session, normalize_config, origin_settings}
use cf_tunnel.Session.Prepared.{origin_target}

-- Parsing a URL that was printed with a scheme of schemeForProtocol finds that scheme.
abbrev pub KeepsScheme : ParseUrl → SetScheme → Type 0
KeepsScheme parse_url set_scheme =
    (u v : Url) (p : Protocol)
    → parse_url (set_scheme u (scheme_for_protocol p)) ≡ some v
    → v.scheme ≡ scheme_for_protocol p

module _ (parse_url : ParseUrl) (set_scheme : SetScheme) where
  pub parse_target-ok :
      (raw server_name : Text) (insecure pass : Bool) (t : Target)
      → parse_target parse_url set_scheme raw server_name insecure pass ≡ ok t
      → (u : Url) × (parse_url raw ≡ some u)
        × (t.url.text ≡ set_scheme u (scheme_for_protocol t.protocol))
        × (resolve_protocol u.scheme ≡ ok t.protocol)
        × (t.server_name ≡ server_name)
        × (t.insecure_skip_verify ≡ insecure)
        × (t.pass_host_header ≡ pass)
        × (t.websocket_upgrade_mode ≡ is_websocket t.protocol)
  unfolding parse_target normalize_url
  parse_target-ok raw server_name insecure pass t h = elim (Option-cases (parse_url raw)) [
    | inl bad ↦ ground arith
    | inr (u, found) ↦ elim (Result-cases (resolve_protocol u.scheme)) [
      | inl (p, resolved) ↦ ground (arith, found, resolved)
      | inr (e, unresolved) ↦ ground arith
    ]
  ]

  is_websocket-ok :
      {p : Protocol} (q : Protocol)
      → Path (Result TargetError Protocol) (ok p) (ok q)
      → is_websocket p ≡ false
      → is_websocket q ≡ false
  is_websocket-ok q h k = ground arith

  -- The scheme of a protocol that is proxied over HTTP resolves to no websocket protocol.
  resolve_protocol-scheme_for_protocol :
      (p q : Protocol) → resolve_protocol (scheme_for_protocol p) ≡ ok q → is_websocket q ≡ false
  unfolding resolve_protocol text_eq
  resolve_protocol-scheme_for_protocol http q h = is_websocket-ok q h refl
  resolve_protocol-scheme_for_protocol https q h = is_websocket-ok q h refl
  resolve_protocol-scheme_for_protocol ws q h = is_websocket-ok q h refl
  resolve_protocol-scheme_for_protocol wss q h = is_websocket-ok q h refl

  pub normalize_config-ok :
      (cfg : CfTunnelConfig) (r : RuntimeConfig)
      → normalize_config parse_url set_scheme cfg ≡ ok r
      → (t : Target) × (parse_target parse_url set_scheme cfg.target cfg.origin_server_name
            cfg.insecure_skip_verify cfg.pass_host_header
          ≡ ok t)
        × (r.origin ≡ t)
        × (r.ha_connections ≡ effective_ha_connections cfg.ha_connections)
  unfolding normalize_config
  normalize_config-ok cfg r h =
      elim (Result-cases (
        parse_target parse_url set_scheme cfg.target cfg.origin_server_name cfg.insecure_skip_verify
          cfg.pass_host_header)) [
            | inl (t, parsed) ↦ ground (arith, parsed)
            | inr (e, bad) ↦ ground arith
          ]

  -- The target that a session's runtime is prepared with keeps the server name and the two flags
  -- of the configuration, and is never in websocket mode, not even where the configured target is
  -- a ws or wss URL, given that the printed form of a URL parses to the scheme it was given.
  pub origin_target-websocket :
      (cfg : CfTunnelConfig) (runtime_config : RuntimeConfig) (s : Session) (t : Target)
      → KeepsScheme parse_url set_scheme
      → normalize_config parse_url set_scheme cfg ≡ ok runtime_config
      → s.origin ≡ origin_settings runtime_config
      → origin_target parse_url set_scheme s ≡ some (ok t)
      → (t.websocket_upgrade_mode ≡ false)
        × (t.server_name ≡ cfg.origin_server_name)
        × (t.insecure_skip_verify ≡ cfg.insecure_skip_verify)
        × (t.pass_host_header ≡ cfg.pass_host_header)
  unfolding origin_target
  origin_target-websocket cfg r s t keeps normal origin prepared =
      let (first, parsed, printed, _) = normalize_config-ok cfg r normal in
      let (u, found, text, _, name₁, insecure₁, pass₁, _) =
        parse_target-ok cfg.target cfg.origin_server_name cfg.insecure_skip_verify
          cfg.pass_host_header first parsed in
      let again : parse_target parse_url set_scheme s.origin.url s.origin.server_name
            s.origin.insecure_skip_verify s.origin.pass_host_header
          ≡ ok t =
        ground arith in
      let (v, reparsed, _, resolved, name, insecure, pass, mode) =
        parse_target-ok s.origin.url s.origin.server_name s.origin.insecure_skip_verify
          s.origin.pass_host_header t again in
      let here : parse_url (set_scheme u (scheme_for_protocol first.protocol)) ≡ some v =
        ground arith in
      let scheme = keeps u v first.protocol here in
      let off =
        resolve_protocol-scheme_for_protocol first.protocol t.protocol (rw (sym scheme) resolved) in
      (
        mode ∙ off,
        name ∙ ap (λ o. o.server_name) origin ∙ ap (λ o. o.server_name) printed ∙ name₁,
        insecure
            ∙ ap (λ o. o.insecure_skip_verify) origin
            ∙ ap (λ o. o.insecure_skip_verify) printed
            ∙ insecure₁,
        pass ∙ ap (λ o. o.pass_host_header) origin ∙ ap (λ o. o.pass_host_header) printed ∙ pass₁,
      )
