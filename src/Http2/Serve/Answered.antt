-- ===== src/Http2/Serve/Answered.antt =====
-- internal/cftunnel/runtime/http2_runtime_connection.go: how every request ends, with an error or
-- without, and what net/http makes of the calls on its writer.
use cf_tunnel.Prelude.{
  ℕ, ◌≡◌, refl, ◌⊎◌, inl, inr, Bool, true, false, not, Option, none, some, List, [], ◌∷◌, ◌++◌, leb,
  ◌&&◌, arith, if◌then◌else◌, if_cases, Option-cases,
}
use cf_tunnel.Text.{Text}
use cf_tunnel.Wire.{Fields}
use cf_tunnel.Origin.Forward.{Request}
use cf_tunnel.Http2.{
  RequestType, http, websocket, tcp, control_stream, configuration, RespWriter, Event, head, body,
  flush, Taken, wrote, failed, panicked, determine_type, handle_missing, get_request_host,
  write_error_response, new_writer,
}
use cf_tunnel.Http2.Writer.{heads}
use cf_tunnel.Http2.Serve.{
  WriterCall, RequestError, control_failed, http_failed, tcp_failed, stripped, Handlers, handle,
  write_response, handle_update, update_config, handle_tcp, dispatch, Ended, finish, serve_http,
}
use cf_tunnel.Http2.Serve.Tracked.{
  IsTracked, new_writer-IsTracked, run_calls-IsTracked, write-IsTracked, Tracked-heads,
  Tracked-fresh,
}

-- The status that the edge is sent for what was called on the http.ResponseWriter: that of the first
-- WriteHeader that is not informational, or 200 where a Write or a Flush comes first.
unfoldable pub sent_status : List Event → Option ℕ
sent_status [] = none
sent_status (head n h ∷ events) =
    let rest = sent_status events in if leb 100 n && leb n 199 then rest else some n
sent_status (body p ∷ events) = some 200
sent_status (flush ∷ events) = some 200

-- Nothing was written or flushed.
unfoldable pub is_untouched : List Event → Bool
is_untouched [] = true
is_untouched (head n h ∷ events) = is_untouched events
is_untouched (body p ∷ events) = false
is_untouched (flush ∷ events) = false

sent_status-error :
    (events : List Event) (dest : Fields)
    → heads events ≡ []
    → sent_status (events ++ head 502 dest ∷ []) ≡ some (if is_untouched events then 502 else 200)
unfolding sent_status is_untouched heads
sent_status-error [] dest fresh = refl
sent_status-error (head n h ∷ events) dest fresh = ground arith
sent_status-error (body p ∷ events) dest fresh = refl
sent_status-error (flush ∷ events) dest fresh = refl

module _ {E : Type 0} (H : Handlers E) where
  handle-IsTracked :
      (wrap : E → RequestError E) (script : List WriterCall × Option E) (rp : RespWriter)
      → IsTracked rp
      → IsTracked (handle H wrap script rp).0
  unfolding handle
  handle-IsTracked wrap (calls, none) rp i = run_calls-IsTracked calls rp i
  handle-IsTracked wrap (calls, some e) rp i = run_calls-IsTracked calls rp i

  write_response-IsTracked :
      (b : Text) (t : Taken) (rp : RespWriter)
      → IsTracked rp
      → IsTracked (write_response H b t rp).0
  unfolding write_response
  write_response-IsTracked b wrote rp i = write-IsTracked b wrote rp i
  write_response-IsTracked b failed rp i = write-IsTracked b failed rp i
  write_response-IsTracked b panicked rp i = write-IsTracked b panicked rp i

  handle_update-IsTracked :
      (r : Request) (rp : RespWriter) → IsTracked rp → IsTracked (handle_update H r rp).0
  unfolding handle_update
  handle_update-IsTracked r rp i = elim (Option-cases (H.decode_update r)) [
    | inl e ↦ rw (e, handle_update) i
    | inr (version, e) ↦ elim (Option-cases (H.encode_response (update_config version))) [
      | inl e' ↦ rw (e, e', handle_update) i
      | inr (b, e') ↦ rw (e, e', handle_update) (write_response-IsTracked b (H.taken b) rp i)
    ]
  ]

  handle_tcp-IsTracked :
      (index : ℕ) (r : Request) (rp : RespWriter)
      → IsTracked rp
      → IsTracked (handle_tcp H index r rp).0
  unfolding handle_tcp
  handle_tcp-IsTracked index r rp i =
      elim (Option-cases (get_request_host r.host (some r.url_host))) [
        | inl e ↦ rw (e, handle_tcp) i
        | inr (host, e) ↦ rw (e, handle_tcp) (handle-IsTracked tcp_failed (H.proxy_tcp _ r) rp i)
      ]

  dispatch-IsTracked :
      (t : RequestType) (index : ℕ) (r : Request) (rp : RespWriter)
      → IsTracked rp
      → IsTracked (dispatch H t index r rp).0
  unfolding dispatch
  dispatch-IsTracked control_stream index r rp i = handle-IsTracked control_failed H.control rp i
  dispatch-IsTracked configuration index r rp i = handle_update-IsTracked r rp i
  dispatch-IsTracked websocket index r rp i =
      handle-IsTracked http_failed (H.proxy_http (stripped H r) true) rp i
  dispatch-IsTracked http index r rp i =
      handle-IsTracked http_failed (H.proxy_http (stripped H r) false) rp i
  dispatch-IsTracked tcp index r rp i = handle_tcp-IsTracked index r rp i

  -- How a request that failed on a writer ends: with a panic where WriteRespHeaders had begun a
  -- response, which is left as it is; else with a WriteHeader of 502, which is the status that
  -- net/http sends if nothing was written or flushed before, and is ignored behind the 200 that it
  -- began itself if something was.
  unfoldable pub IsAnswered : RespWriter → Ended H → Type 0
  IsAnswered rp d =
      ((rp.status_written ≡ true)
        × (d.aborted ≡ true)
        × (d.writer ≡ rp)
        × ((h : ℕ × Fields) × (rest : List (ℕ × Fields)) × (heads rp.events ≡ h ∷ rest)))
      ⊎ ((rp.status_written ≡ false)
          × (d.aborted ≡ false)
          × (sent_status d.writer.events ≡ some (if is_untouched rp.events then 502 else 200))
          × ((dest : Fields) × (d.writer.events ≡ rp.events ++ head 502 dest ∷ [])))

  failed-IsAnswered :
      (rp : RespWriter) (reason : RequestError E)
      → IsTracked rp
      → IsAnswered rp (finish H (rp, some reason))
  unfolding finish IsAnswered write_error_response
  failed-IsAnswered rp reason i =
      let P : RespWriter × Bool → Type 0 = λ p.
        IsAnswered rp (record { writer = p.0; aborted = not p.1; request_error = some reason }) in
      if_cases P rp.status_written
        (λ y.
          inl (y, refl, refl, Tracked-heads rp.status_written rp.is_hijacked (heads rp.events) y i))
        (λ n. inr (
          n,
          refl,
          sent_status-error rp.events _
              (Tracked-fresh rp.status_written rp.is_hijacked (heads rp.events) n i),
          (_, refl),
        ))

  -- How a request ends whose dispatch left a writer and an error, or none.
  unfoldable pub EndsAs : RespWriter × Option (RequestError E) → Ended H → Type 0
  EndsAs (rp, none) d = (d.writer ≡ rp) × (d.request_error ≡ none) × (d.aborted ≡ false)
  EndsAs (rp, some reason) d = (d.request_error ≡ some reason) × IsAnswered rp d

  finish-EndsAs : (o : RespWriter × Option (RequestError E)) → IsTracked o.0 → EndsAs o (finish H o)
  unfolding finish EndsAs
  finish-EndsAs (rp, none) i = (refl, refl, refl)
  finish-EndsAs (rp, some reason) i = (refl, failed-IsAnswered rp reason i)

  -- Every request over HTTP/2 ends by what its handler left: without an error, the response is
  -- left as it is and the request is not aborted; with an error behind a WriteRespHeaders,
  -- ServeHTTP panics with http.ErrAbortHandler and adds nothing; with an error and no status
  -- given, one WriteHeader of 502 is added, and the status that net/http sends is 502 if nothing
  -- was written or flushed before, and otherwise the 200 that the first of these began.
  pub answered :
      (index : ℕ) (r : Request)
      → let t = determine_type r.header in
        EndsAs (dispatch H t index (handle_missing t r) (new_writer t)) (serve_http H index r)
  unfolding serve_http
  answered index r =
      let t = determine_type r.header in
      finish-EndsAs (dispatch H t index (handle_missing t r) (new_writer t))
        (dispatch-IsTracked t index (handle_missing t r) (new_writer t) (new_writer-IsTracked t))
