-- ===== src/Api/Once.antt =====
-- internal/cftunnel/api/client.go: what a reservation holds that an answer gave.
use cf_tunnel.Prelude.{
  ◌≡◌, refl, inl, inr, true, false, Option, some, ok, ◌≤◌, ◌<◌, arith, Option-cases, Bool-cases,
}
use cf_tunnel.Text.{Text, codes, is_empty, has_prefix}
use cf_tunnel.Session.{Reservation, no_bytes}
use cf_tunnel.Api.{
  QuickTunnel, QuickTunnelResponse, Exchange, Reply, not_built, not_requested, not_read, replied,
  public_url, reservation_of, read_body, read_reply, create_once,
}

module _ (parse_uuid : Text → Option Text) where
  -- A tunnel with all that the edge needs, and a URL with the scheme https.
  abbrev pub IsComplete : Reservation → Type 0
  IsComplete r =
      ((id : Text) × (parse_uuid id ≡ some r.credentials.tunnel_id))
      × (is_empty r.credentials.account_tag ≡ false)
      × (no_bytes r.credentials.tunnel_secret ≡ false)
      × (is_empty r.hostname ≡ false)
      × (has_prefix r.url (codes "https://") ≡ true)

  public_url-https : (hostname : Text) → has_prefix (public_url hostname) (codes "https://") ≡ true
  unfolding public_url
  public_url-https hostname = elim (Bool-cases (has_prefix hostname (codes "https://"))) [
    | inl y ↦ rw y y
    | inr n ↦ rw n (unfold has_prefix in refl)
  ]

  module _ (decode : Text → Option QuickTunnelResponse) where
    reservation_of-IsComplete :
        (t : QuickTunnel) {r : Reservation}
        → reservation_of decode parse_uuid t ≡ ok r
        → IsComplete r
    unfolding reservation_of
    reservation_of-IsComplete t h = elim (Option-cases (parse_uuid t.id)) [
      | inl e ↦ ground arith
      | inr (id, e) ↦ (
        (t.id, ground arith),
        ground arith,
        ground arith,
        ground arith,
        ground (arith, public_url-https t.hostname),
      )
    ]

    read_body-IsComplete :
        (y : Reply) (r : Reservation) → read_body decode parse_uuid y ≡ ok r → IsComplete r
    unfolding read_body
    read_body-IsComplete y r h = elim (Option-cases (decode y.body)) [
      | inl e ↦ ground arith
      | inr (parsed, e) ↦ reservation_of-IsComplete parsed.result {r = r} (ground arith)
    ]

    -- A tunnel comes of an answer with a status of 200 to 299 that is no rate limit.
    pub read_reply-ok :
        (y : Reply) (r : Reservation)
        → read_reply decode parse_uuid y ≡ ok r
        → (200 ≤ y.status_code) × (y.status_code < 300) × (read_body decode parse_uuid y ≡ ok r)
    unfolding read_reply
    read_reply-ok y r h = ground arith

    pub create_once-IsComplete :
        (x : Exchange) {r : Reservation} → create_once decode parse_uuid x ≡ ok r → IsComplete r
    unfolding create_once
    create_once-IsComplete not_built h = ground arith
    create_once-IsComplete not_requested h = ground arith
    create_once-IsComplete not_read h = ground arith
    create_once-IsComplete (replied y) {r = r} h = read_body-IsComplete y r (read_reply-ok y r h).2
