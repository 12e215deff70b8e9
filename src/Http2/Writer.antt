-- ===== src/Http2/Writer.antt =====
-- internal/cftunnel/runtime/http2_runtime_connection.go: runtimeHTTP2RespWriter as a
-- protocol.ResponseWriter, over an http.ResponseWriter whose answer to a Write is an argument.
use cf_tunnel.Prelude.{
  ◌⊎◌, ℕ, ◌∙◌, ◌||◌, if_cases, ◌≡◌, refl, inl, inr, Bool, true, false, not, Option, none, some,
  List, [], ◌∷◌, ◌++◌, append-nil, arith, Bool-cases,
}
use cf_tunnel.Text.{Text}
use cf_tunnel.Wire.{Fields}
use cf_tunnel.Upstream.{ResponseWriter}
use cf_tunnel.Http2.{
  RespWriter, Event, head, body, flush, write_resp_headers, response_dest, wire_status,
  flush_events, hijack, HijackError, write, Taken, wrote, failed, panicked, should_flush_response,
}

-- The responses that were begun.
unfoldable pub heads : List Event → List (ℕ × Fields)
heads [] = []
heads (head n h ∷ events) = (n, h) ∷ heads events
heads (body p ∷ events) = heads events
heads (flush ∷ events) = heads events

pub heads-append : (a b : List Event) → heads (a ++ b) ≡ heads a ++ heads b
unfolding heads
heads-append [] b = refl
heads-append (head n h ∷ a) b = ground (arith, heads-append a b)
heads-append (body p ∷ a) b = heads-append a b
heads-append (flush ∷ a) b = heads-append a b

-- An event and what is flushed behind it.
pub heads-then :
    (events : List Event) (e : Event) (b : Bool)
    → heads (events ++ e ∷ flush_events b) ≡ heads events ++ heads (e ∷ [])
unfolding heads
heads-then events (head n h) true = heads-append events (head n h ∷ flush ∷ [])
heads-then events (body p) true = heads-append events (body p ∷ flush ∷ [])
heads-then events flush true = heads-append events (flush ∷ flush ∷ [])
heads-then events e false = heads-append events (e ∷ [])

pub heads-flush : (events : List Event) (b : Bool) → heads (events ++ flush_events b) ≡ heads events
unfolding heads
heads-flush events true = heads-append events (flush ∷ []) ∙ append-nil (heads events)
heads-flush events false = rw (append-nil events) refl

pub data WriterError : Type 0 where
  not_taken_over : HijackError → WriterError
  not_written : WriterError

-- The error of a Write.
unfoldable pub write_error : Taken → Option WriterError
write_error wrote = none
write_error failed = some not_written
write_error panicked = none

unfoldable pub hijack_error : Option HijackError → Option WriterError
hijack_error none = none
hijack_error (some e) = some (not_taken_over e)

pub heads-write_resp_headers :
    (n : ℕ) (h : Fields) (rp : RespWriter)
    → rp.is_hijacked ≡ false
    → heads (write_resp_headers n h rp).events
      ≡ heads rp.events ++ (wire_status n, response_dest h rp.dest) ∷ []
unfolding write_resp_headers heads
heads-write_resp_headers n h rp kept =
    if_cases
      (λ (r : RespWriter).
        heads r.events ≡ heads rp.events ++ (wire_status n, response_dest h rp.dest) ∷ [])
      rp.is_hijacked (λ y. ground arith)
      (λ _. heads-then rp.events _ (should_flush_response h || rp.flushing))

pub heads-write :
    (p : Text) (t : Taken) (rp : RespWriter) → heads (write p t rp).events ≡ heads rp.events
unfolding write heads
heads-write p wrote rp = heads-then rp.events (body p) rp.flushing ∙ append-nil (heads rp.events)
heads-write p failed rp = heads-append rp.events (body p ∷ []) ∙ append-nil (heads rp.events)
heads-write p panicked rp = heads-append rp.events (body p ∷ []) ∙ append-nil (heads rp.events)

pub heads-hijack : (rp : RespWriter) → heads (hijack rp).0.events ≡ heads rp.events
unfolding hijack
heads-hijack rp =
    let P : RespWriter × Option HijackError → Type 0 = λ r. heads r.0.events ≡ heads rp.events in
    let flushed = heads-flush rp.events rp.flushing in
    if_cases P (not rp.status_written) (λ _. refl)
      (λ _. if_cases P rp.is_hijacked (λ _. flushed) (λ _. flushed))

pub open-write_resp_headers :
    (n : ℕ) (h : Fields) (rp : RespWriter)
    → not (write_resp_headers n h rp).is_hijacked ≡ not rp.is_hijacked
unfolding write_resp_headers
open-write_resp_headers n h rp =
    if_cases (λ (r : RespWriter). not r.is_hijacked ≡ not rp.is_hijacked) rp.is_hijacked (λ _. refl)
      (λ _. refl)

pub open-write :
    (p : Text) (t : Taken) (rp : RespWriter) → not (write p t rp).is_hijacked ≡ not rp.is_hijacked
unfolding write
open-write p wrote rp = refl
open-write p failed rp = refl
open-write p panicked rp = refl

pub open-hijack :
    (rp : RespWriter) {e : WriterError}
    → hijack_error (hijack rp).1 ≡ some e
    → not (hijack rp).0.is_hijacked ≡ not rp.is_hijacked
unfolding hijack hijack_error
open-hijack rp {e} =
    let P : RespWriter × Option HijackError → Type 0 =
      λ r. hijack_error r.1 ≡ some e → not r.0.is_hijacked ≡ not rp.is_hijacked in
    if_cases P (not rp.status_written) (λ _ _. refl)
      (λ _. if_cases P rp.is_hijacked (λ _ _. refl) (λ _ failed. ground arith))

heads-hijacked :
    (n : ℕ) (h : Fields) (rp : RespWriter)
    → rp.is_hijacked ≡ true
    → heads (write_resp_headers n h rp).events ≡ heads rp.events
unfolding write_resp_headers
heads-hijacked n h rp y =
    if_cases (λ (r : RespWriter). heads r.events ≡ heads rp.events) rp.is_hijacked (λ _. refl)
      (λ kept. ground arith)

pub heads-any :
    (n : ℕ) (h : Fields) (rp : RespWriter)
    → (heads (write_resp_headers n h rp).events ≡ heads rp.events)
      ⊎ ((◌≡◌ {A = Option WriterError} none none)
          × (heads (write_resp_headers n h rp).events
              ≡ heads rp.events ++ (wire_status n, response_dest h rp.dest) ∷ []))
heads-any n h rp = elim (Bool-cases rp.is_hijacked) [
  | inl y ↦ inl (heads-hijacked n h rp y)
  | inr kept ↦ inr (refl, heads-write_resp_headers n h rp kept)
]

pub heads-sent :
    (n : ℕ) (h : Fields) (rp : RespWriter)
    → not rp.is_hijacked ≡ true
    → heads (write_resp_headers n h rp).events
      ≡ heads rp.events ++ (wire_status n, response_dest h rp.dest) ∷ []
heads-sent n h rp live = heads-write_resp_headers n h rp (ground arith)

-- A WriteHeader was called, or the stream was taken over, which Hijack allows behind one only; before,
-- net/http begins a response of status 200 with a Write.
abbrev pub is_begun : RespWriter → Bool
is_begun rp = rp.status_written || rp.is_hijacked

pub begun-sent :
    (n : ℕ) (h : Fields) (rp : RespWriter) → is_begun (write_resp_headers n h rp) ≡ true
unfolding write_resp_headers
begun-sent n h rp =
    if_cases (λ (r : RespWriter). is_begun r ≡ true) rp.is_hijacked (λ y. ground arith) (λ _. refl)

pub begun-write :
    (p : Text) (t : Taken) (rp : RespWriter) → is_begun rp ≡ true → is_begun (write p t rp) ≡ true
unfolding write
begun-write p wrote rp b = b
begun-write p failed rp b = b
begun-write p panicked rp b = b

pub begun-hijack : (rp : RespWriter) → is_begun rp ≡ true → is_begun (hijack rp).0 ≡ true
unfolding hijack
begun-hijack rp b =
    let P : RespWriter × Option HijackError → Type 0 = λ r. is_begun r.0 ≡ true in
    if_cases P (not rp.status_written) (λ _. b)
      (λ y. if_cases P rp.is_hijacked (λ _. b) (λ _. ground arith))

-- The writer of a response, with what the http.ResponseWriter answers to each Write.
unfoldable pub writer :
    (Text → RespWriter → Taken) → ResponseWriter RespWriter WriterError (ℕ × Fields)
unfolding write
writer taken = record {
  write_resp_headers = λ n h rp. (write_resp_headers n h rp, none);
  write = λ p rp. (write p (taken p rp) rp, write_error (taken p rp));
  hijack = λ rp. let (r, e) = hijack rp in (r, hijack_error e);
  render = λ n h rp. (wire_status n, response_dest h rp.dest);
  heads = λ rp. heads rp.events;
  is_open = λ rp. not rp.is_hijacked;
  is_begun = is_begun;
  heads-sent = λ n h rp live fine. heads-sent n h rp live;
  heads-any = heads-any;
  begun-sent = λ n h rp fine. begun-sent n h rp;
  heads-write = λ p rp _. heads-write p (taken p rp) rp;
  begun-write = λ p rp b. begun-write p (taken p rp) rp b;
  heads-hijack = heads-hijack;
  begun-hijack = begun-hijack;
  open-sent = open-write_resp_headers;
  open-write = λ p rp. open-write p (taken p rp) rp;
  open-hijack = open-hijack;
}
