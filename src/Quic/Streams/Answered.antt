-- ===== src/Quic/Streams/Answered.antt =====
-- internal/cftunnel/runtime/quic_runtime_connection.go: that every request that fails is answered with
-- its error, or its stream is canceled.
use cf_tunnel.Prelude.{
  ℕ, zero, suc, sym, ◌≡◌, refl, ◌∙◌, ◌⊎◌, inl, inr, Bool, true, false, Option, none, some, List, [],
  ◌∷◌, if_cases, Bool-cases, if◌then◌else◌, arith,
}
use cf_tunnel.Text.{Text, codes}
use cf_tunnel.Quic.Message.{Metadata, ConnectRequest, ConnectResponse}
use cf_tunnel.Quic.Headers.{StreamRequest}
use cf_tunnel.Quic.Connection.{
  connect, bytes, StreamWriter, new_writer, put, ack_connection, write_connect, write_header, write,
  StreamCall, respond, set_header, header_call, write_call, read_call, call, run_calls,
}
use cf_tunnel.Quic.Connection.Writer.{
  heads, heads-append, heads-bytes, put-response_sent, write_resp_headers-sent,
}
use cf_tunnel.Quic.Streams.{
  StreamHandlers, StreamError, bad_request, unsupported_type, proxy_failed, is_flow_limit,
  StreamFailure, failed_late, not_answered, FlowCall, ack_call, flow_write, flow_call, run_flow,
  dispatch_http, dispatch_tcp, dispatch_type, dispatch_request, error_response, answer_error,
  finish, handle_request,
}

-- No connect response is on the stream where none is noted.
unfoldable IsNoted : StreamWriter → Type 0
IsNoted w = w.response_sent ≡ false → heads w.sent ≡ []

module _ {E : Type 0} (H : StreamHandlers E) where
  bytes-IsNoted : (p : Text) (w : StreamWriter) → IsNoted w → IsNoted (put H.broken (bytes p) w).0
  unfolding IsNoted
  bytes-IsNoted p w i unsent =
      heads-bytes H.broken p w ∙ i (sym (put-response_sent H.broken (bytes p) w) ∙ unsent)

  -- Where a response is noted, nothing is claimed.
  response_sent-IsNoted : (w : StreamWriter) → w.response_sent ≡ true → IsNoted w
  unfolding IsNoted
  response_sent-IsNoted w y n = ground arith

  call-IsNoted : (c : StreamCall) (w : StreamWriter) → IsNoted w → IsNoted (call H.broken c w)
  unfolding call write_header write
  call-IsNoted (respond n h) w i = response_sent-IsNoted _ (write_resp_headers-sent H.broken n h w)
  call-IsNoted (set_header h) w i = unfold IsNoted in i
  call-IsNoted (header_call n) w i =
      response_sent-IsNoted _ (write_resp_headers-sent H.broken n w.headers w)
  call-IsNoted (write_call p) w i =
      if_cases {A = StreamWriter × Bool} (λ out. IsNoted out.0) w.response_sent
        (λ _. bytes-IsNoted p w i)
        (λ _. response_sent-IsNoted _ (
          put-response_sent H.broken (bytes p) _
          ∙ write_resp_headers-sent H.broken 200 w.headers w))
  call-IsNoted read_call w i = i

  run_calls-IsNoted :
      (calls : List (StreamCall)) (w : StreamWriter)
      → IsNoted w
      → IsNoted (run_calls H.broken calls w)
  unfolding run_calls
  run_calls-IsNoted [] w i = i
  run_calls-IsNoted (c ∷ calls) w i =
      run_calls-IsNoted calls (call H.broken c w) (call-IsNoted c w i)

  run_flow-IsNoted :
      (calls : List FlowCall) (w : StreamWriter) → IsNoted w → IsNoted (run_flow H calls w)
  unfolding run_flow flow_call ack_connection write_connect
  run_flow-IsNoted [] w i = i
  run_flow-IsNoted (ack_call ∷ calls) w i =
      run_flow-IsNoted calls _ (response_sent-IsNoted _ (put-response_sent H.broken _ _))
  run_flow-IsNoted (flow_write p ∷ calls) w i = run_flow-IsNoted calls _ (bytes-IsNoted p w i)

  dispatch_http-IsNoted :
      (websocket : Bool) (r : Option StreamRequest) (w : StreamWriter)
      → IsNoted w
      → IsNoted (dispatch_http H websocket r w).0
  unfolding dispatch_http
  dispatch_http-IsNoted websocket none w i = i
  dispatch_http-IsNoted websocket (some r) w i = run_calls-IsNoted (H.proxy_http r websocket).0 w i

  dispatch_type-IsNoted :
      (k index : ℕ) (r : ConnectRequest) (w : StreamWriter)
      → IsNoted w
      → IsNoted (dispatch_type H k index r w).0
  unfolding dispatch_type dispatch_tcp
  dispatch_type-IsNoted zero index r w i = dispatch_http-IsNoted false _ w i
  dispatch_type-IsNoted (suc zero) index r w i = dispatch_http-IsNoted true _ w i
  dispatch_type-IsNoted (suc (suc zero)) index r w i = run_flow-IsNoted _ w i
  dispatch_type-IsNoted (suc (suc (suc k))) index r w i = i

  -- The connect response that an error is due: its text and, for too many flows alone, the metadata
  -- of the rate limit.
  unfoldable pub limit_metadata : StreamError E → List Metadata
  limit_metadata bad_request = []
  limit_metadata (unsupported_type k) = []
  limit_metadata (proxy_failed e) =
      if H.is_too_many e
      then record { key = codes "FlowConnectRateLimited"; val = codes "true" } ∷ []
      else []

  abbrev pub due : StreamError E → ConnectResponse
  due e = record { error = H.error_text e; metadata = limit_metadata e }

  error_response-due : (e : StreamError E) → error_response H e ≡ due e
  unfolding error_response is_flow_limit limit_metadata
  error_response-due bad_request = refl
  error_response-due (unsupported_type k) = refl
  error_response-due (proxy_failed e) = refl

  -- How a request that failed on a writer ends for the edge: runStream cancels the write side where a
  -- response was noted before, or where this one cannot be written, which leaves no response;
  -- else the one connect response on the stream is that of the error.
  unfoldable pub IsToldOf :
      StreamWriter → StreamError E → StreamWriter × Option (StreamFailure E) → Type 0
  IsToldOf w e out =
      ((w.response_sent ≡ true) × (out ≡ (w, some (failed_late e))))
      ⊎ ((w.response_sent ≡ false)
          × (H.broken (connect (due e)) w ≡ true)
          × (out.1 ≡ some not_answered)
          × (heads out.0.sent ≡ []))
      ⊎ ((w.response_sent ≡ false)
          × (H.broken (connect (due e)) w ≡ false)
          × (out.1 ≡ none)
          × (heads out.0.sent ≡ due e ∷ []))

  answer_error-IsToldOf :
      (e : StreamError E) (w : StreamWriter)
      → w.response_sent ≡ false
      → heads w.sent ≡ []
      → IsToldOf w e (answer_error H e w)
  unfolding answer_error IsToldOf put heads
  answer_error-IsToldOf e w n fresh =
      rw (error_response-due e) (elim (Bool-cases (H.broken (connect (due e)) w)) [
        | inl y ↦ rw (y, put) (inr (inl (n, refl, refl, fresh)))
        | inr k ↦
            rw (k, put)
              (inr
                (inr (n, refl, refl, heads-append w.sent (connect (due e) ∷ []) ∙ rw fresh refl)))
      ])

  finish-IsToldOf :
      (w : StreamWriter) (e : StreamError E) → IsNoted w → IsToldOf w e (finish H (w, some e))
  unfolding finish IsNoted
  finish-IsToldOf w e i =
      if_cases (IsToldOf w e) w.response_sent (λ y. unfold IsToldOf in inl (y, refl))
        (λ n. answer_error-IsToldOf e w n (i n))

  finish-lem :
      (out : StreamWriter × Option (StreamError E))
      → IsNoted out.0
      → ((out.1 ≡ none) × (finish H out ≡ (out.0, none)))
        ⊎ ((e : StreamError E) × (out.1 ≡ some e) × IsToldOf out.0 e (finish H out))
  unfolding finish
  finish-lem (w, none) i = inl (refl, refl)
  finish-lem (w, some e) i = inr (e, refl, finish-IsToldOf w e i)

  -- A request that was read off its QUIC stream, of any type and whatever the origin proxy does,
  -- either succeeds, and nothing is added to what the proxy sent; or fails with an error, and
  -- then: where a response was noted before, nothing is added and the write side is canceled;
  -- else, where the response of the error cannot be written, the write side is canceled with no
  -- response on the stream; else the stream has that one connect response, with the text of the
  -- error and, exactly for too many flows, the metadata of the rate limit.
  pub told :
      (index : ℕ) (r : ConnectRequest)
      → (((dispatch_request H index r).1 ≡ none)
          × (handle_request H index r ≡ ((dispatch_request H index r).0, none)))
        ⊎ ((e : StreamError E) × ((dispatch_request H index r).1 ≡ some e)
            × IsToldOf (dispatch_request H index r).0 e (handle_request H index r))
  unfolding handle_request dispatch_request
  told index r = finish-lem (dispatch_type H r.conn_type index r new_writer) (
      dispatch_type-IsNoted r.conn_type index r new_writer
        (unfold IsNoted in λ _. unfold heads in refl))
