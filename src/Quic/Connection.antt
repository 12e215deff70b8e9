-- ===== src/Quic/Connection.antt =====
-- internal/cftunnel/runtime/quic_runtime_connection.go with quic_rpc_server.go: the writer of the
-- response on a QUIC stream, and what a connection does with the stream of a request. Which
-- writes of the stream fail is an argument.
pub mod Writer
use cf_tunnel.Prelude.{
  ℕ, Bool, true, false, not, Option, none, some, List, [], ◌∷◌, ◌++◌, if◌then◌else◌,
}
use cf_tunnel.Text.{Text, codes}
use cf_tunnel.Wire.{Fields}
use cf_tunnel.Quic.Message.{Metadata, ConnectRequest, ConnectResponse, lookup}
use cf_tunnel.Quic.Headers.{response_metadata, StreamRequest, build_http_request}

-- What was written on the stream: a connect response, behind its preamble, or bytes.
pub data Sent : Type 0 where
  connect : ConnectResponse → Sent
  bytes : Text → Sent

-- runtimeHTTPResponseAdapter, and runtimeStreamReadWriteAcker, which has no headers.
pub record StreamWriter : Type 0 where
  pub sent : List Sent
  pub headers : Fields
  pub response_sent : Bool

-- newRuntimeHTTPResponseAdapter
abbrev pub new_writer : StreamWriter
new_writer = record { sent = []; headers = []; response_sent = false }

-- What an origin proxy calls on its writer.
pub data StreamCall : Type 0 where
  respond : ℕ → Fields → StreamCall
  set_header : Fields → StreamCall
  header_call : ℕ → StreamCall
  write_call : Text → StreamCall
  read_call : StreamCall

module _ (broken : Sent → StreamWriter → Bool) where
  -- A write on the stream, and whether it failed.
  unfoldable pub put : Sent → StreamWriter → StreamWriter × Bool
  put e w = if broken e w then (w, true) else (record w { sent = w.sent ++ e ∷ [] }, false)

  -- runtimeRequestServerStream.WriteConnectResponseData under the adapters, which note that the
  -- response was sent before it is.
  unfoldable pub write_connect : Text → List Metadata → StreamWriter → StreamWriter × Bool
  write_connect error metadata w =
      put (connect (record { error = error; metadata = metadata }))
        (record w { response_sent = true })

  -- runtimeHTTPResponseAdapter.WriteRespHeaders
  unfoldable pub write_resp_headers : ℕ → Fields → StreamWriter → StreamWriter × Bool
  write_resp_headers status h w = write_connect [] (response_metadata status h) w

  -- runtimeHTTPResponseAdapter.WriteHeader
  unfoldable pub write_header : ℕ → StreamWriter → StreamWriter
  write_header status w = (write_resp_headers status w.headers w).0

  -- runtimeHTTPResponseAdapter.Write
  unfoldable pub write : Text → StreamWriter → StreamWriter × Bool
  write p w =
      if w.response_sent
      then put (bytes p) w
      else put (bytes p) (write_resp_headers 200 w.headers w).0

  -- AckConnection of runtimeStreamReadWriteAcker
  unfoldable pub ack_connection : StreamWriter → StreamWriter × Bool
  ack_connection w = write_connect [] [] w

  unfoldable pub call : StreamCall → StreamWriter → StreamWriter
  call (respond n h) w = (write_resp_headers n h w).0
  call (set_header h) w = record w { headers = h }
  call (header_call n) w = write_header n w
  call (write_call p) w = (write p w).0
  call read_call w = w

  unfoldable pub run_calls : List StreamCall → StreamWriter → StreamWriter
  run_calls [] w = w
  run_calls (c ∷ calls) w = run_calls calls (call c w)
