-- ===== src/Upstream/Upgrade.antt =====
-- internal/cftunnel/runtime/upstream_origin_proxy.go with internal/cftunnel/origin/proxy.go: a websocket
-- request, from the edge to the proxy of the origin.
use cf_tunnel.Prelude.{◌≡◌, refl, ◌∙◌, true, []}
use cf_tunnel.Text.{codes, text_eq, to_lower}
use cf_tunnel.Origin.{Target}
use cf_tunnel.Origin.Forward.{
  Header, get_header, set_header, is_websocket_upgrade, handling, websocket,
}
use cf_tunnel.Origin.Forward.Headers.{get-del, get-set}
use cf_tunnel.Upstream.{restore_websocket, upgrade_header}

restored_field :
    (h : Header) → get_header (codes "Upgrade") (restore_websocket true h) ≡ codes "websocket"
unfolding restore_websocket text_eq
restored_field h =
    let h' = set_header (codes "Connection") (codes "Upgrade") h in
    get-del upgrade_header (codes "Upgrade") (set_header (codes "Upgrade") (codes "websocket") h')
    ∙ get-set (codes "Upgrade") (codes "Upgrade") (codes "websocket") h'

removed_field : (h : Header) → get_header upgrade_header (restore_websocket true h) ≡ []
unfolding restore_websocket text_eq
removed_field h = get-del upgrade_header upgrade_header (
    set_header (codes "Upgrade") (codes "websocket")
      (set_header (codes "Connection") (codes "Upgrade") h))

-- A request that the edge sent as a websocket, over either transport, reaches the origin's proxy as
-- an upgrade to a websocket, whatever its headers were, without the header that the edge
-- uses between its own parts; a proxy whose target is in websocket mode handles it as one.
pub upgrade_restored :
    (target : Target) (h : Header)
    → target.websocket_upgrade_mode ≡ true
    → (is_websocket_upgrade (restore_websocket true h) ≡ true)
      × (get_header upgrade_header (restore_websocket true h) ≡ [])
      × (handling target (restore_websocket true h) ≡ websocket)
unfolding is_websocket_upgrade handling
upgrade_restored target h mode =
    let named : is_websocket_upgrade (restore_websocket true h) ≡ true =
      unfold is_websocket_upgrade in
      rw (restored_field h) (unfold text_eq in unfold to_lower in refl) in
    (named, removed_field h, rw (mode, named) refl)
