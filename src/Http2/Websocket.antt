-- ===== src/Http2/Websocket.antt =====
-- internal/cftunnel/origin/proxy.go: Proxy.ProxyWebsocket, which serves the websockets of a route,
-- and what it comes to on an HTTP/2 stream, whose WriteRespHeaders never fails. The transport to the
-- origin and the copies of the two streams are arguments.
pub mod Once
use cf_tunnel.Prelude.{
  ◌<|>◌, ◌⊎◌, ◌&&◌, ℕ, ◌==◌, ◌≡◌, ◌∙◌, refl, Bool, true, false, not, Option, none, some, List, [],
  ◌∷◌, ◌++◌, if◌then◌else◌, if_cases, inl, inr, Option-cases, arith,
}
use cf_tunnel.Text.{Text}
use cf_tunnel.Wire.{Fields}
use cf_tunnel.Origin.{Target}
use cf_tunnel.Origin.Forward.{Header, Request, rewrite_request}
use cf_tunnel.Upstream.{clone_header, restore_websocket}
use cf_tunnel.Http2.{
  websocket, RespWriter, Taken, wrote, failed, panicked, write_resp_headers, write, wire_status,
  response_dest, new_writer, determine_type, handle_missing, write_error_response,
}
use cf_tunnel.Http2.Writer.{heads, heads-write, heads-write_resp_headers}
use cf_tunnel.Http2.Serve.{
  WriterCall, respond, write_call, call, run_calls, Handlers, RequestError, http_failed, handle,
  dispatch, stripped, Ended, finish, serve_http,
}

-- What the origin's transport gives for a websocket request: the status and the headers of its
-- response, whether the body is an io.ReadWriteCloser, the writes to the client with which the
-- body is copied, and the errors of the copies in the order in which they end; of a response that
-- does not switch protocols, the body is copied alone.
pub record OriginReply (E : Type 0) : Type 0 where
  pub status : ℕ
  pub header : Fields
  pub is_writable : Bool
  pub chunks : List (Text × Taken)
  pub first_error : Option E
  pub second_error : Option E

pub data WebsocketError (E : Type 0) : Type 0 where
  not_reached : E → WebsocketError E
  not_writable : WebsocketError E
  copy_failed : E → WebsocketError E

unfoldable pub copy_error : {E : Type 0} → Option E → Option (WebsocketError E)
copy_error none = none
copy_error (some e) = some (copy_failed e)

unfoldable pub copy_calls : List (Text × Taken) → List WriterCall
copy_calls [] = []
copy_calls ((p, t) ∷ chunks) = write_call p t ∷ copy_calls chunks

module _ {E : Type 0} where
  -- ProxyWebsocket behind the transport: its calls on the writer and its error; an origin that is
  -- not reached is `inl`.
  unfoldable pub answer_websocket : E ⊎ OriginReply E → List WriterCall × Option (WebsocketError E)
  answer_websocket (inl e) = (respond 502 [] ∷ [], some (not_reached e))
  answer_websocket (inr p) =
      let begun = respond p.status (clone_header p.header) in
      if not (p.status == 101)
      then (begun ∷ copy_calls p.chunks, copy_error p.first_error)
      else if not p.is_writable
      then (begun ∷ [], some not_writable)
      else (begun ∷ copy_calls p.chunks, copy_error (p.first_error <|> p.second_error))

  -- ProxyWebsocket of a target, on the transport to its origin
  unfoldable pub proxy_websocket :
      Target → (Request → E ⊎ OriginReply E) → Request → List WriterCall × Option (WebsocketError E)
  proxy_websocket target round_trip r = answer_websocket (round_trip (rewrite_request r target))

  -- UpstreamOriginProxy.ProxyHTTP of a websocket, where the handler has a ProxyWebsocket.
  unfoldable pub proxy_http :
      Target → (Request → E ⊎ OriginReply E) → Request → List WriterCall × Option (WebsocketError E)
  proxy_http target round_trip r =
      proxy_websocket target round_trip (record r { header = restore_websocket true r.header })
