-- ===== src/Http2/Serve/Tracked.antt =====
-- internal/cftunnel/runtime/http2_runtime_connection.go: what runtimeHTTP2RespWriter knows of the
-- responses that it began, over the calls of a handler.
use cf_tunnel.Prelude.{
  ◌||◌, ℕ, ◌≡◌, ◌∙◌, refl, Bool, true, false, not, Option, List, [], ◌∷◌, ◌++◌, if_cases, arith,
}
use cf_tunnel.Text.{Text}
use cf_tunnel.Wire.{Fields}
use cf_tunnel.Http2.{
  RequestType, RespWriter, Event, head, Taken, wrote, failed, panicked, write_resp_headers,
  write_header, add_trailer, hijack, write, new_writer, HijackError, wire_status, response_dest,
  should_flush_response,
}
use cf_tunnel.Http2.Writer.{heads, heads-append, heads-write, heads-then, heads-flush}
use cf_tunnel.Http2.Serve.{
  WriterCall, respond, set_header, header_call, trailer_call, hijack_call, flush_call, write_call,
  call, run_calls,
}

-- A response was begun where the writer says so, and a connection is taken over only after.
unfoldable pub Tracked : Bool → Bool → List (ℕ × Fields) → Type 0
Tracked false hijacked hs = (hijacked ≡ false) × (hs ≡ [])
Tracked true hijacked hs = (h : ℕ × Fields) × (rest : List (ℕ × Fields)) × (hs ≡ h ∷ rest)

abbrev pub IsTracked : RespWriter → Type 0
IsTracked rp = Tracked rp.status_written rp.is_hijacked (heads rp.events)

Tracked-begun :
    (written hijacked b : Bool) (hs : List (ℕ × Fields)) (h : ℕ × Fields)
    → Tracked written hijacked hs
    → Tracked true b (hs ++ h ∷ [])
unfolding Tracked
Tracked-begun false hijacked b hs h (_, e) = rw e (h, [], refl)
Tracked-begun true hijacked b hs h (g, rest, e) = rw e (g, rest ++ h ∷ [], refl)

Tracked-hijacked :
    (written hijacked : Bool) (hs : List (ℕ × Fields))
    → written ≡ true
    → Tracked written hijacked hs
    → Tracked written true hs
unfolding Tracked
Tracked-hijacked false hijacked hs e i = ground arith
Tracked-hijacked true hijacked hs e i = i

pub Tracked-heads :
    (written hijacked : Bool) (hs : List (ℕ × Fields))
    → written ≡ true
    → Tracked written hijacked hs
    → (h : ℕ × Fields) × (rest : List (ℕ × Fields)) × (hs ≡ h ∷ rest)
unfolding Tracked
Tracked-heads false hijacked hs e i = ground arith
Tracked-heads true hijacked hs e i = i

pub Tracked-fresh :
    (written hijacked : Bool) (hs : List (ℕ × Fields))
    → written ≡ false
    → Tracked written hijacked hs
    → hs ≡ []
unfolding Tracked
Tracked-fresh false hijacked hs e (_, fresh) = fresh
Tracked-fresh true hijacked hs e i = ground arith

pub new_writer-IsTracked : (t : RequestType) → IsTracked (new_writer t)
unfolding Tracked new_writer heads
new_writer-IsTracked t = (refl, refl)

write_resp_headers-IsTracked :
    (n : ℕ) (h : Fields) (rp : RespWriter) → IsTracked rp → IsTracked (write_resp_headers n h rp)
unfolding write_resp_headers
write_resp_headers-IsTracked n h rp i =
    if_cases IsTracked rp.is_hijacked (λ _. i)
      (λ kept.
        rw
          (heads-then rp.events (head (wire_status n) (response_dest h rp.dest))
            (should_flush_response h || rp.flushing))
          (unfold heads in
            Tracked-begun rp.status_written rp.is_hijacked rp.is_hijacked (heads rp.events) _ i))

pub write-IsTracked :
    (p : Text) (t : Taken) (rp : RespWriter) → IsTracked rp → IsTracked (write p t rp)
unfolding write
write-IsTracked p wrote rp i = rw (heads-write p wrote rp) i
write-IsTracked p failed rp i = rw (heads-write p failed rp) i
write-IsTracked p panicked rp i = rw (heads-write p panicked rp) i

hijack-IsTracked : (rp : RespWriter) → IsTracked rp → IsTracked (hijack rp).0
unfolding hijack
hijack-IsTracked rp i =
    let P : RespWriter × Option HijackError → Type 0 = λ r. IsTracked r.0 in
    let same = heads-flush rp.events rp.flushing in
    if_cases P (not rp.status_written) (λ _. i)
      (λ y.
        if_cases P rp.is_hijacked (λ _. rw same i)
          (λ _.
            rw same (
              Tracked-hijacked rp.status_written rp.is_hijacked (heads rp.events) (ground arith)
                i)))

call-IsTracked : (c : WriterCall) (rp : RespWriter) → IsTracked rp → IsTracked (call c rp)
unfolding call write_header add_trailer
call-IsTracked (respond n h) rp i = write_resp_headers-IsTracked n h rp i
call-IsTracked (set_header h) rp i = i
call-IsTracked (header_call n) rp i =
    if_cases IsTracked rp.is_hijacked (λ _. i)
      (λ _. write_resp_headers-IsTracked n rp.resp_headers rp i)
call-IsTracked (trailer_call name value) rp i =
    if_cases IsTracked rp.status_written (λ _. i) (λ _. i)
call-IsTracked hijack_call rp i = hijack-IsTracked rp i
call-IsTracked flush_call rp i = rw (heads-flush rp.events true) i
call-IsTracked (write_call p t) rp i = write-IsTracked p t rp i

pub run_calls-IsTracked :
    (calls : List WriterCall) (rp : RespWriter) → IsTracked rp → IsTracked (run_calls calls rp)
unfolding run_calls
run_calls-IsTracked [] rp i = i
run_calls-IsTracked (c ∷ calls) rp i = run_calls-IsTracked calls (call c rp) (call-IsTracked c rp i)

-- The first response.
pub heads-first :
    (events : List Event) (n : ℕ) (dest : Fields)
    → heads events ≡ []
    → heads (events ++ head n dest ∷ []) ≡ (n, dest) ∷ []
unfolding heads
heads-first events n dest fresh = heads-append events (head n dest ∷ []) ∙ rw fresh refl
