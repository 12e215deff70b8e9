-- ===== src/Upstream.antt =====
-- internal/cftunnel/runtime/upstream_response_writer.go and the dispatch of
-- internal/cftunnel/runtime/upstream_origin_proxy.go: between a transport's response writer and
-- the handler of the origin, which is an http.Handler. The transport is an interface, its
-- operations and what the adapter relies on; Http2.Writer and Quic.Writer fill it. A handler
-- is the calls that it makes on the writer, in order.
pub mod FirstStatus
pub mod Once
pub mod Sent
pub mod Served
pub mod Tcp
pub mod Upgrade
use cf_tunnel.Prelude.{
  ℕ, ◌≡◌, ◌⊎◌, Bool, true, false, ◌&&◌, not, Option, none, some, List, [], ◌∷◌, ◌++◌, if◌then◌else◌,
}
use cf_tunnel.Text.{Text, codes, text_eq}
use cf_tunnel.Wire.{Fields}
use cf_tunnel.Origin.Forward.{Header, get_header, set_header, del_header}

-- protocol.ResponseWriter on a state S with errors E, and what it keeps of the responses that
-- were begun, as heads H. `is_open` is false where the connection was taken over, `is_begun`
-- where a write no longer begins a response by itself.
pub record ResponseWriter (S E H : Type 0) : Type 0 where
  pub write_resp_headers : ℕ → Fields → S → S × Option E
  pub write : Text → S → S × Option E
  pub hijack : S → S × Option E
  pub render : ℕ → Fields → S → H
  pub heads : S → List H
  pub is_open : S → Bool
  pub is_begun : S → Bool
  pub heads-sent :
      (n : ℕ) (h : Fields) (s : S)
      → is_open s ≡ true
      → (write_resp_headers n h s).1 ≡ none
      → heads (write_resp_headers n h s).0 ≡ heads s ++ render n h s ∷ []
  pub heads-any :
      (n : ℕ) (h : Fields) (s : S)
      → (heads (write_resp_headers n h s).0 ≡ heads s)
        ⊎ (((write_resp_headers n h s).1 ≡ none)
            × (heads (write_resp_headers n h s).0 ≡ heads s ++ render n h s ∷ []))
  pub begun-sent :
      (n : ℕ) (h : Fields) (s : S)
      → (write_resp_headers n h s).1 ≡ none
      → is_begun (write_resp_headers n h s).0 ≡ true
  pub heads-write : (p : Text) (s : S) → is_begun s ≡ true → heads (write p s).0 ≡ heads s
  pub begun-write : (p : Text) (s : S) → is_begun s ≡ true → is_begun (write p s).0 ≡ true
  pub heads-hijack : (s : S) → heads (hijack s).0 ≡ heads s
  pub begun-hijack : (s : S) → is_begun s ≡ true → is_begun (hijack s).0 ≡ true
  pub open-sent : (n : ℕ) (h : Fields) (s : S) → is_open (write_resp_headers n h s).0 ≡ is_open s
  pub open-write : (p : Text) (s : S) → is_open (write p s).0 ≡ is_open s
  pub open-hijack : (s : S) {e : E} → (hijack s).1 ≡ some e → is_open (hijack s).0 ≡ is_open s

-- responseWriterAdapter
pub record Adapter (S : Type 0) : Type 0 where
  pub upstream : S
  pub header : Fields
  pub status : ℕ
  pub wrote_header : Bool
  pub sent_header : Bool
  pub websocket : Bool
  pub is_hijacked : Bool

-- newResponseWriterAdapter
unfoldable pub new_adapter : {S : Type 0} → S → Bool → Adapter S
new_adapter upstream websocket = record {
  upstream = upstream;
  header = [];
  status = 0;
  wrote_header = false;
  sent_header = false;
  websocket = websocket;
  is_hijacked = false;
}

-- cloneHeader: Add takes the values one by one, so a name without values does not get over; the
-- names are canonical already.
unfoldable pub clone_header : Fields → Fields
clone_header [] = []
clone_header ((name, []) ∷ h) = clone_header h
clone_header ((name, v ∷ vs) ∷ h) = (name, v ∷ vs) ∷ clone_header h

-- responseWriterAdapter.WriteHeader
unfoldable pub write_header : {S : Type 0} → ℕ → Adapter S → Adapter S
write_header status_code w =
    if w.wrote_header then w else record w { status = status_code; wrote_header = true }

-- What a handler does with its writer: it changes the map that Header() gives, or calls one of the
-- methods.
pub data Call : Type 0 where
  header_to : Fields → Call
  status_call : ℕ → Call
  write_call : Text → Call
  hijack_call : Call

-- `if err != nil { return err }` behind a step that gave a state and an error.
unfoldable pub unless_failed : {W E : Type 0} → W × Option E → (W → W × Option E) → W × Option E
unless_failed (w, none) next = next w
unless_failed (w, some reason) next = (w, some reason)

module _ {S E H : Type 0} (U : ResponseWriter S E H) where
  -- The `WriteRespHeaders` of Write, Hijack and finalize, under `!w.sentHeader`.
  unfoldable pub send_header : Adapter S → Adapter S × Option E
  send_header w =
      let (s, e) = U.write_resp_headers w.status (clone_header w.header) w.upstream in
      elim e [
        | none ↦ (record w { upstream = s; sent_header = true }, none)
        | some reason ↦ (record w { upstream = s }, some reason)
      ]

  -- `return w.upstream.Write(p)`
  unfoldable pub pass_write : Text → Adapter S → Adapter S × Option E
  pass_write p w = let (s, e) = U.write p w.upstream in (record w { upstream = s }, e)

  -- responseWriterAdapter.Write, behind its WriteHeader
  unfoldable pub write_known : Text → Adapter S → Adapter S × Option E
  write_known p w =
      if w.sent_header then pass_write p w else unless_failed (send_header w) (pass_write p)

  -- responseWriterAdapter.Write
  unfoldable pub write_bytes : Text → Adapter S → Adapter S × Option E
  unfolding write_known
  write_bytes p w = write_known p (write_header 200 w)

  -- `conn, rw, err := w.upstream.Hijack()` and what follows
  unfoldable pub pass_hijack : Adapter S → Adapter S × Option E
  pass_hijack w =
      let (s, e) = U.hijack w.upstream in
      elim e [
        | none ↦ (record w { upstream = s; is_hijacked = true }, none)
        | some reason ↦ (record w { upstream = s }, some reason)
      ]

  -- responseWriterAdapter.Hijack, behind its WriteHeader
  unfoldable pub hijack_known : Adapter S → Adapter S × Option E
  hijack_known w =
      if w.wrote_header && not w.sent_header
      then unless_failed (send_header w) pass_hijack
      else pass_hijack w

  -- responseWriterAdapter.Hijack
  unfoldable pub take_over : Adapter S → Adapter S × Option E
  unfolding hijack_known
  take_over w = hijack_known (if w.websocket then write_header 101 w else w)

  -- responseWriterAdapter.finalize
  unfoldable pub finalize : Adapter S → Adapter S × Option E
  finalize w =
      if w.is_hijacked
      then (w, none)
      else if w.wrote_header && not w.sent_header
      then send_header w
      else (w, none)

  unfoldable pub step : Call → Adapter S → Adapter S
  step (header_to h) w = record w { header = h }
  step (status_call n) w = write_header n w
  step (write_call p) w = (write_bytes p w).0
  step hijack_call w = (take_over w).0

  unfoldable pub run : List Call → Adapter S → Adapter S
  unfolding step
  run [] w = w
  run (c ∷ calls) w = run calls (step c w)

-- restoreWebsocketUpgradeHeaders, of a request that is there.
abbrev pub upgrade_header : Text
upgrade_header = codes "Cf-Cloudflared-Proxy-Connection-Upgrade"

unfoldable pub restore_websocket : Bool → Header → Header
restore_websocket is_websocket h =
    if not is_websocket && not (text_eq (get_header upgrade_header h) (codes "websocket"))
    then h
    else del_header upgrade_header (
        set_header (codes "Upgrade") (codes "websocket")
          (set_header (codes "Connection") (codes "Upgrade") h))
