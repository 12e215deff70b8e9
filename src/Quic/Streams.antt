-- ===== src/Quic/Streams.antt =====
-- internal/cftunnel/runtime/quic_runtime_connection.go and quic_rpc_server.go: what a connection does
-- with a stream that the edge opened. The origin proxy is an argument: what it calls on the
-- response writer, in order, and its error; so are the decoder of messages and the texts of errors.
pub mod Answered
use cf_tunnel.Prelude.{
  ℕ, zero, suc, Bool, true, false, not, Option, none, some, List, [], ◌∷◌, ◌++◌, if◌then◌else◌,
  Result, ok, err, wrap, ◌>>=◌,
}
use cf_tunnel.Text.{Text, codes}
use cf_tunnel.Quic.Message.{Metadata, ConnectRequest, ConnectResponse, lookup}
use cf_tunnel.Quic.Headers.{StreamRequest, build_http_request}
use cf_tunnel.Quic.Preamble.{
  StreamProtocol, data_stream, rpc_stream, PreambleError, determine_protocol, read_version,
}
use cf_tunnel.Quic.Connection.{
  Sent, connect, bytes, StreamWriter, new_writer, put, ack_connection, StreamCall, run_calls,
}

-- protocol.TCPRequest of the QUIC transport
pub record FlowRequest : Type 0 where
  pub dest : Text
  pub flow_id : Text
  pub conn_index : ℕ

-- What ProxyTCP calls on its ReadWriteAcker.
pub data FlowCall : Type 0 where
  ack_call : FlowCall
  flow_write : Text → FlowCall

pub data StreamError (E : Type 0) : Type 0 where
  bad_request : StreamError E
  unsupported_type : ℕ → StreamError E
  proxy_failed : E → StreamError E

-- The parts that a connection serves streams with.
pub record StreamHandlers (E : Type 0) : Type 0 where
  pub new_request : Text → Text → Option (Text × Text)
  pub proxy_http : StreamRequest → Bool → List StreamCall × Option E
  pub proxy_tcp : FlowRequest → List FlowCall × Option E
  pub is_too_many : E → Bool
  pub error_text : StreamError E → Text
  pub broken : Sent → StreamWriter → Bool
  pub decode : Text → Option ConnectRequest

-- What runStream hears of a stream: an error makes it cancel the write side.
pub data StreamFailure (E : Type 0) : Type 0 where
  bad_preamble : PreambleError → StreamFailure E
  not_decoded : StreamFailure E
  failed_late : StreamError E → StreamFailure E
  not_answered : StreamFailure E

-- runtimeErrorFlowConnectRateLimitedMetadata
abbrev pub rate_limited_metadata : Metadata
rate_limited_metadata = record { key = codes "FlowConnectRateLimited"; val = codes "true" }

module _ {E : Type 0} (H : StreamHandlers E) where
  unfoldable pub flow_call : FlowCall → StreamWriter → StreamWriter
  flow_call ack_call w = (ack_connection H.broken w).0
  flow_call (flow_write p) w = (put H.broken (bytes p) w).0

  unfoldable pub run_flow : List FlowCall → StreamWriter → StreamWriter
  run_flow [] w = w
  run_flow (c ∷ calls) w = run_flow calls (flow_call c w)

  unfoldable pub proxy_error : Option E → Option (StreamError E)
  proxy_error none = none
  proxy_error (some e) = some (proxy_failed e)

  unfoldable pub dispatch_http :
      Bool → Option StreamRequest → StreamWriter → StreamWriter × Option (StreamError E)
  dispatch_http websocket none w = (w, some bad_request)
  dispatch_http websocket (some r) w =
      let (calls, e) = H.proxy_http r websocket in (run_calls H.broken calls w, proxy_error e)

  unfoldable pub dispatch_tcp :
      ℕ → ConnectRequest → StreamWriter → StreamWriter × Option (StreamError E)
  dispatch_tcp index r w =
      let flow : FlowRequest = record {
        dest = r.dest;
        flow_id = elim (lookup (codes "FlowID") r.metadata) [ none ↦ [] | some v ↦ v ];
        conn_index = index;
      } in
      let (calls, e) = H.proxy_tcp flow in (run_flow calls w, proxy_error e)

  -- dispatchRequest, by the type of the request: 0 HTTP, 1 websocket, 2 TCP
  unfoldable pub dispatch_type :
      ℕ → ℕ → ConnectRequest → StreamWriter → StreamWriter × Option (StreamError E)
  dispatch_type zero index r w = dispatch_http false (build_http_request H.new_request r) w
  dispatch_type (suc zero) index r w = dispatch_http true (build_http_request H.new_request r) w
  dispatch_type (suc (suc zero)) index r w = dispatch_tcp index r w
  dispatch_type (suc (suc (suc k))) index r w = (w, some (unsupported_type (suc (suc (suc k)))))

  -- dispatchRequest; whether the connect response was sent is the writer's response_sent.
  unfoldable pub dispatch_request : ℕ → ConnectRequest → StreamWriter × Option (StreamError E)
  dispatch_request index r = dispatch_type r.conn_type index r new_writer

  -- errors.Is(err, errTooManyActiveFlows)
  unfoldable pub is_flow_limit : StreamError E → Bool
  is_flow_limit bad_request = false
  is_flow_limit (unsupported_type k) = false
  is_flow_limit (proxy_failed e) = H.is_too_many e

  -- The connect response of an error.
  unfoldable pub error_response : StreamError E → ConnectResponse
  unfolding is_flow_limit
  error_response e = record {
    error = H.error_text e;
    metadata = if is_flow_limit e then rate_limited_metadata ∷ [] else [];
  }

  unfoldable pub answer_error :
      StreamError E → StreamWriter → StreamWriter × Option (StreamFailure E)
  answer_error e w =
      let (v, failed) = put H.broken (connect (error_response e)) w in
      (v, if failed then some not_answered else none)

  -- handleDataStream, behind the request
  unfoldable pub finish :
      StreamWriter × Option (StreamError E) → StreamWriter × Option (StreamFailure E)
  finish (w, none) = (w, none)
  finish (w, some e) = if w.response_sent then (w, some (failed_late e)) else answer_error e w

  -- handleDataStream
  unfoldable pub handle_request : ℕ → ConnectRequest → StreamWriter × Option (StreamFailure E)
  handle_request index r = finish (dispatch_request index r)

  -- ReadConnectRequestData and handleDataStream; `avail` as for read_version.
  unfoldable pub handle_data_stream : ℕ → ℕ → Text → StreamWriter × Option (StreamFailure E)
  handle_data_stream avail index s = elim (read_version avail s) [
    | err e ↦ (new_writer, some (bad_preamble e))
    | ok (_, message) ↦ elim (H.decode message) [
      | none ↦ (new_writer, some not_decoded)
      | some r ↦ handle_request index r
    ]
  ]

  -- runtimeCloudflaredServer.Serve; a stream of RPCs is served to its end without an error.
  unfoldable pub serve : ℕ → ℕ → Text → StreamWriter × Option (StreamFailure E)
  serve avail index s = elim (determine_protocol s) [
    | err e ↦ (new_writer, some (bad_preamble e))
    | ok (data_stream, rest) ↦ handle_data_stream avail index rest
    | ok (rpc_stream, rest) ↦ (new_writer, none)
  ]
