-- ===== src/Http2/Serve.antt =====
-- internal/cftunnel/runtime/http2_runtime_connection.go: RuntimeHTTP2Connection.ServeHTTP and the
-- end of Serve. The control stream, the origin proxy, the JSON decoder and encoder are arguments:
-- what each calls on the response writer, in order, and the error that it returns.
pub mod Answered
pub mod Tracked
use cf_tunnel.Prelude.{
  ℕ, ℤ, ◌<|>◌, Bool, true, false, not, Option, none, some, List, [], ◌∷◌, ◌++◌, if◌then◌else◌,
}
use cf_tunnel.Text.{Text, codes, is_empty}
use cf_tunnel.Wire.{Fields}
use cf_tunnel.Upstream.{upgrade_header}
use cf_tunnel.Origin.Forward.{Request, get_header, del_header}
use cf_tunnel.Http2.{
  RequestType, http, websocket, tcp, control_stream, configuration, determine_type, handle_missing,
  get_request_host, RespWriter, flush, Taken, wrote, failed, panicked, new_writer,
  write_resp_headers, write_header, add_trailer, hijack, write, write_error_response,
}

-- What a handler calls on its runtimeHTTP2RespWriter; Header() gives a map that it may change.
pub data WriterCall : Type 0 where
  respond : ℕ → Fields → WriterCall
  set_header : Fields → WriterCall
  header_call : ℕ → WriterCall
  trailer_call : Text → Text → WriterCall
  hijack_call : WriterCall
  flush_call : WriterCall
  write_call : Text → Taken → WriterCall

unfoldable pub call : WriterCall → RespWriter → RespWriter
call (respond n h) rp = write_resp_headers n h rp
call (set_header h) rp = record rp { resp_headers = h }
call (header_call n) rp = write_header n rp
call (trailer_call name value) rp = add_trailer name value rp
call hijack_call rp = (hijack rp).0
call flush_call rp = record rp { events = rp.events ++ flush ∷ [] }
call (write_call p t) rp = write p t rp

unfoldable pub run_calls : List WriterCall → RespWriter → RespWriter
run_calls [] rp = rp
run_calls (c ∷ calls) rp = run_calls calls (call c rp)

-- protocol.TCPRequest of the HTTP/2 transport
pub record TcpRequest : Type 0 where
  pub dest : Text
  pub cf_ray : Text
  pub conn_index : ℕ

-- AckConnection of HTTPResponseReadWriteAcker: the headers of its 101 response.
unfoldable pub ack_fields : Request → Fields
ack_fields r =
    if is_empty (get_header (codes "Sec-Websocket-Key") r.header)
    then []
    else (codes "Connection", codes "Upgrade" ∷ []) ∷ (codes "Upgrade", codes "websocket" ∷ []) ∷ []

-- requestErr, with the error of the part that failed.
pub data RequestError (E : Type 0) : Type 0 where
  control_failed : E → RequestError E
  not_decoded : RequestError E
  not_encoded : RequestError E
  not_written : RequestError E
  http_failed : E → RequestError E
  host_missing : RequestError E
  tcp_failed : E → RequestError E

-- The parts that a connection serves requests with.
pub record Handlers (E : Type 0) : Type 0 where
  pub control : List WriterCall × Option E
  pub decode_update : Request → Option ℤ
  pub encode_response : ℤ → Option Text
  pub taken : Text → Taken
  pub proxy_http : Request → Bool → List WriterCall × Option E
  pub proxy_tcp : TcpRequest → Request → List WriterCall × Option E
  pub is_too_many : E → Bool

-- UpstreamOrchestrator.UpdateConfig: the version that it says it has applied last.
unfoldable pub update_config : ℤ → ℤ
update_config version = version

module _ {E : Type 0} (H : Handlers E) where
  -- A handler's calls on the writer, and its error.
  unfoldable pub handle :
      (E → RequestError E)
      → List WriterCall × Option E
      → RespWriter
      → RespWriter × Option (RequestError E)
  handle wrap (calls, none) rp = (run_calls calls rp, none)
  handle wrap (calls, some e) rp = (run_calls calls rp, some (wrap e))

  -- `_, err = respWriter.Write(b)`
  unfoldable pub write_response : Text → Taken → RespWriter → RespWriter × Option (RequestError E)
  write_response b failed rp = (write b failed rp, some not_written)
  write_response b wrote rp = (write b wrote rp, none)
  write_response b panicked rp = (write b panicked rp, none)

  -- handleConfigurationUpdate
  unfoldable pub handle_update : Request → RespWriter → RespWriter × Option (RequestError E)
  unfolding update_config
  handle_update r rp = elim (H.decode_update r) [
    | none ↦ (rp, some not_decoded)
    | some version ↦ elim (H.encode_response (update_config version)) [
      | none ↦ (rp, some not_encoded)
      | some b ↦ write_response b (H.taken b) rp
    ]
  ]

  -- `NewTracedRequest(r)` behind stripWebsocketUpgradeHeader
  unfoldable pub stripped : Request → Request
  stripped r = record r { header = del_header upgrade_header r.header }

  unfoldable pub handle_tcp : ℕ → Request → RespWriter → RespWriter × Option (RequestError E)
  unfolding get_request_host
  handle_tcp index r rp = elim (get_request_host r.host (some r.url_host)) [
    | none ↦ (rp, some host_missing)
    | some host ↦
        let request : TcpRequest = record {
          dest = host;
          cf_ray = get_header (codes "Cf-Ray") r.header;
          conn_index = index;
        } in
        handle tcp_failed (H.proxy_tcp request r) rp
  ]

  -- The `switch` of ServeHTTP.
  unfoldable pub dispatch :
      RequestType → ℕ → Request → RespWriter → RespWriter × Option (RequestError E)
  dispatch control_stream index r rp = handle control_failed H.control rp
  dispatch configuration index r rp = handle_update r rp
  dispatch websocket index r rp = handle http_failed (H.proxy_http (stripped r) true) rp
  dispatch http index r rp = handle http_failed (H.proxy_http (stripped r) false) rp
  dispatch tcp index r rp = handle_tcp index r rp

  -- errors.Is(err, errTooManyActiveFlows)
  unfoldable pub is_flow_limit : RequestError E → Bool
  is_flow_limit (control_failed e) = H.is_too_many e
  is_flow_limit not_decoded = false
  is_flow_limit not_encoded = false
  is_flow_limit not_written = false
  is_flow_limit (http_failed e) = H.is_too_many e
  is_flow_limit host_missing = false
  is_flow_limit (tcp_failed e) = H.is_too_many e

  -- What ServeHTTP ends with: the writer, whether it panics with http.ErrAbortHandler, and
  -- requestErr.
  pub record Ended : Type 0 where
    pub writer : RespWriter
    pub aborted : Bool
    pub request_error : Option (RequestError E)

  unfoldable pub finish : RespWriter × Option (RequestError E) → Ended
  finish (rp, none) = record { writer = rp; aborted = false; request_error = none }
  finish (rp, some e) =
      let (rp', written) = write_error_response (is_flow_limit e) rp in
      record { writer = rp'; aborted = not written; request_error = some e }

  -- ServeHTTP, on an http.ResponseWriter that can flush.
  unfoldable pub serve_http : ℕ → Request → Ended
  unfolding finish
  serve_http index r =
      let conn_type = determine_type r.header in
      finish (dispatch conn_type index (handle_missing conn_type r) (new_writer conn_type))

  -- controlStreamErr after the request: set by a control stream that failed only.
  unfoldable pub control_stream_err : Option E → Request → Option E
  control_stream_err before r = elim (determine_type r.header) [
    | control_stream ↦ H.control.1 <|> before
    | http ↦ before
    | websocket ↦ before
    | tcp ↦ before
    | configuration ↦ before
  ]

-- What Serve returns when ServeConn has, by the stop and the error of the control stream at that time.
pub data ServeResult (E : Type 0) : Type 0 where
  stopped : ServeResult E
  control_stream_failed : E → ServeResult E
  edge_closed : ServeResult E

unfoldable pub serve_result : {E : Type 0} → Bool → Option E → ServeResult E
serve_result true e = stopped
serve_result false none = edge_closed
serve_result false (some e) = control_stream_failed e
