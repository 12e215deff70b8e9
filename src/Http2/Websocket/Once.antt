-- ===== src/Http2/Websocket/Once.antt =====
-- internal/cftunnel/origin/proxy.go, internal/cftunnel/runtime/http2_runtime_connection.go: how a
-- websocket request over HTTP/2 ends.
use cf_tunnel.Prelude.{
  ◌⊎◌, ℕ, ◌==◌, ◌≡◌, ◌<|>◌, ◌∙◌, refl, true, false, not, Option, none, some, List, [], ◌∷◌,
  if_cases, inl, inr, if◌then◌else◌, arith,
}
use cf_tunnel.Text.{Text}
use cf_tunnel.Wire.{Fields}
use cf_tunnel.Origin.{Target}
use cf_tunnel.Origin.Forward.{Request, rewrite_request, del_header}
use cf_tunnel.Upstream.{clone_header, restore_websocket, upgrade_header}
use cf_tunnel.Http2.{
  websocket, RespWriter, Taken, wrote, failed, panicked, write_resp_headers, write, wire_status,
  response_dest, new_writer, determine_type, handle_missing, write_error_response,
}
use cf_tunnel.Http2.Writer.{heads, heads-write, heads-write_resp_headers}
use cf_tunnel.Http2.Serve.{
  WriterCall, respond, call, run_calls, Handlers, http_failed, handle, dispatch, stripped, Ended,
  finish, serve_http,
}
use cf_tunnel.Http2.Websocket.{
  OriginReply, WebsocketError, not_reached, not_writable, copy_failed, copy_error, copy_calls,
  answer_websocket, proxy_websocket, proxy_http,
}

-- One response was begun, of status n.
unfoldable pub HasSent : ℕ → RespWriter → Type 0
HasSent n rp =
    (rp.status_written ≡ true) × (dest : Fields) × (heads rp.events ≡ (wire_status n, dest) ∷ [])

write-written :
    (p : Text) (t : Taken) (rp : RespWriter)
    → rp.status_written ≡ true
    → (write p t rp).status_written ≡ true
unfolding write
write-written p wrote rp y = y
write-written p failed rp y = y
write-written p panicked rp y = y

write-HasSent :
    (n : ℕ) (p : Text) (t : Taken) (rp : RespWriter) → HasSent n rp → HasSent n (write p t rp)
unfolding HasSent
write-HasSent n p t rp (y, dest, e) = (write-written p t rp y, dest, heads-write p t rp ∙ e)

copy_calls-HasSent :
    (n : ℕ) (chunks : List (Text × Taken)) (rp : RespWriter)
    → HasSent n rp
    → HasSent n (run_calls (copy_calls chunks) rp)
unfolding run_calls copy_calls call
copy_calls-HasSent n [] rp h = h
copy_calls-HasSent n ((p, t) ∷ chunks) rp h =
    copy_calls-HasSent n chunks (write p t rp) (write-HasSent n p t rp h)

respond-HasSent : (n : ℕ) (h : Fields) → HasSent n (call (respond n h) (new_writer websocket))
unfolding call HasSent new_writer write_resp_headers heads
respond-HasSent n h =
    (refl, response_dest h [], heads-write_resp_headers n h (new_writer websocket) refl)

begun-HasSent :
    (n : ℕ) (h : Fields) (chunks : List (Text × Taken))
    → HasSent n (run_calls (respond n h ∷ copy_calls chunks) (new_writer websocket))
unfolding run_calls
begun-HasSent n h chunks = copy_calls-HasSent n chunks _ (respond-HasSent n h)

-- The request that the origin is asked.
unfoldable pub outgoing : Target → Request → Request
outgoing target r =
    let kept = del_header upgrade_header r.header in
    rewrite_request (record r { header = restore_websocket true kept }) target

module _ {E : Type 0} where
  -- The status that ProxyWebsocket answers with.
  unfoldable pub answer_status : E ⊎ OriginReply E → ℕ
  answer_status (inl e) = 502
  answer_status (inr p) = p.status

  answer_websocket-HasSent :
      (o : E ⊎ OriginReply E)
      → HasSent (answer_status o) (run_calls (answer_websocket o).0 (new_writer websocket))
  unfolding answer_websocket answer_status copy_calls
  answer_websocket-HasSent (inl e) = begun-HasSent 502 [] []
  answer_websocket-HasSent (inr p) =
      let P : List WriterCall × Option (WebsocketError E) → Type 0 =
        λ a. HasSent p.status (run_calls a.0 (new_writer websocket)) in
      let all = begun-HasSent p.status (clone_header p.header) p.chunks in
      if_cases P (not (p.status == 101)) (λ _. all)
        (λ _.
          if_cases P (not p.is_writable) (λ _. begun-HasSent p.status (clone_header p.header) [])
            (λ _. all))

  -- The status that the edge is to see: 502 for an origin that is not reached.
  unfoldable pub seen_status : E ⊎ OriginReply E → ℕ
  seen_status (inl e) = 502
  seen_status (inr p) = if p.status == 101 then 200 else p.status

  seen_lem : (o : E ⊎ OriginReply E) → wire_status (answer_status o) ≡ seen_status o
  unfolding wire_status answer_status seen_status
  seen_lem (inl e) = refl
  seen_lem (inr p) = refl

  -- The error of two copies: the first that there is.
  unfoldable pub either_copy : Option E → Option E → Option (WebsocketError E)
  either_copy (some e) other = some (copy_failed e)
  either_copy none (some e) = some (copy_failed e)
  either_copy none none = none

  -- Why a websocket fails, if it does: an origin that is not reached or whose body cannot be
  -- written, or a copy that fails.
  unfoldable pub failure_of : E ⊎ OriginReply E → Option (WebsocketError E)
  failure_of (inl e) = some (not_reached e)
  failure_of (inr p) =
      if not (p.status == 101)
      then either_copy p.first_error none
      else if p.is_writable
      then either_copy p.first_error p.second_error
      else some not_writable

  copy_error-either :
      (a b : Option E)
      → (copy_error a ≡ either_copy a none) × (copy_error (a <|> b) ≡ either_copy a b)
  unfolding copy_error either_copy
  copy_error-either none none = (refl, refl)
  copy_error-either none (some e) = (refl, refl)
  copy_error-either (some e) b = (refl, refl)

  failure_lem : (o : E ⊎ OriginReply E) → (answer_websocket o).1 ≡ failure_of o
  unfolding answer_websocket failure_of
  failure_lem (inl e) = refl
  failure_lem (inr p) =
      let (one, two) = copy_error-either p.first_error p.second_error in ground (arith, one, two)

  -- How ServeHTTP ends with an error of the handler, or without one.
  unfoldable pub EndsWith :
      (H : Handlers (WebsocketError E)) → Option (WebsocketError E) → Ended H → Type 0
  EndsWith H none d = (d.aborted ≡ false) × (d.request_error ≡ none)
  EndsWith H (some x) d = (d.aborted ≡ true) × (d.request_error ≡ some (http_failed x))

  finish-HasSent :
      (H : Handlers (WebsocketError E)) (n : ℕ) (a : List WriterCall × Option (WebsocketError E))
      → HasSent n (run_calls a.0 (new_writer websocket))
      → ((dest : Fields) × (heads
              (finish H (handle H http_failed a (new_writer websocket))).writer.events
            ≡ (wire_status n, dest) ∷ []))
        × EndsWith H a.1 (finish H (handle H http_failed a (new_writer websocket)))
  unfolding finish handle EndsWith HasSent
  finish-HasSent H n (calls, none) (y, dest, e) = ((dest, e), (refl, refl))
  finish-HasSent H n (calls, some x) (y, dest, e) =
      unfold write_error_response in rw y ((dest, e), (refl, refl))

  -- A websocket request over HTTP/2 that ProxyWebsocket serves is answered with exactly one
  -- WriteHeader, of status 502 where the origin is not reached and of the origin's status (200 for
  -- 101) otherwise; it is aborted, with the reason, where the origin is not reached, where a body
  -- that switches protocols cannot be written, or with the first error of the copies, and not
  -- aborted otherwise.
  pub answered_once :
      (H : Handlers (WebsocketError E)) (target : Target) (round_trip : Request → E ⊎ OriginReply E)
      (index : ℕ) (r : Request)
      → ((r : Request) → H.proxy_http r true ≡ proxy_http target round_trip r)
      → determine_type r.header ≡ websocket
      → ((dest : Fields) × (heads (serve_http H index r).writer.events
            ≡ (seen_status (round_trip (outgoing target r)), dest) ∷ []))
        × EndsWith H (failure_of (round_trip (outgoing target r))) (serve_http H index r)
  unfolding serve_http proxy_http proxy_websocket dispatch handle_missing outgoing stripped
  answered_once H target round_trip index r g e =
      let o = round_trip (outgoing target r) in
      rw (e, serve_http, dispatch, handle_missing, stripped, g, ← (seen_lem o), ← (failure_lem o))
        (finish-HasSent H (answer_status o) (answer_websocket o) (answer_websocket-HasSent o))
