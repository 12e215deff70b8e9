-- ===== src/Http2.antt =====
-- internal/cftunnel/runtime/http2_runtime_connection.go: the requests that the edge sends over an
-- HTTP/2 connection, and the writer of their responses. The http.ResponseWriter of net/http is the
-- map `dest` that its Header() gives and what was called on it, in order. Strings are
-- bytes, as in Wire; names of headers are canonical.
pub mod Headers
pub mod Response
pub mod Writer
pub mod Serve
pub mod Websocket
use cf_tunnel.Prelude.{
  ℕ, Bool, true, false, ◌&&◌, ◌||◌, not, Option, none, some, List, [], ◌∷◌, ◌++◌, ◌==◌,
  if◌then◌else◌, keep,
}
use cf_tunnel.Text.{Text, codes, text_eq, is_empty, to_lower, has_prefix, contains}
use cf_tunnel.Wire.{Fields, serialize_headers}
use cf_tunnel.Upstream.{upgrade_header}
use cf_tunnel.Origin.Forward.{Header, Request, get_header}

-- http2RequestType
pub data RequestType : Type 0 where
  http : RequestType
  websocket : RequestType
  tcp : RequestType
  control_stream : RequestType
  configuration : RequestType

-- shouldFlush
unfoldable pub should_flush : RequestType → Bool
should_flush http = false
should_flush websocket = true
should_flush tcp = true
should_flush control_stream = true
should_flush configuration = false

abbrev pub tcp_src_header : Text
tcp_src_header = codes "Cf-Cloudflared-Proxy-Src"

-- determineHTTP2Type, with the tests that it calls
unfoldable pub determine_type : Header → RequestType
determine_type h =
    if text_eq (get_header upgrade_header h) (codes "update-configuration")
    then configuration
    else if text_eq (get_header upgrade_header h) (codes "websocket")
    then websocket
    else if not (is_empty (get_header tcp_src_header h))
    then tcp
    else if text_eq (get_header upgrade_header h) (codes "control-stream")
    then control_stream
    else http

-- handleMissingRequestParts
unfoldable pub handle_missing : RequestType → Request → Request
handle_missing http r = record r {
  url_scheme = if is_empty r.url_scheme then codes "http" else r.url_scheme;
  url_host = if is_empty r.url_host then codes "localhost:8080" else r.url_host;
}
handle_missing websocket r = r
handle_missing tcp r = r
handle_missing control_stream r = r
handle_missing configuration r = r

-- getRequestHost: the host of the URL is there where the request has a URL.
unfoldable pub get_request_host : Text → Option Text → Option Text
get_request_host host url_host = if is_empty host then url_host else some host

-- isControlResponseHeader
unfoldable pub is_control_header : Text → Bool
is_control_header name =
    has_prefix name (codes ":")
    || has_prefix name (codes "cf-int-")
    || has_prefix name (codes "cf-cloudflared-")
    || has_prefix name (codes "cf-proxy-")

-- isWebsocketClientHeader
unfoldable pub is_websocket_header : Text → Bool
is_websocket_header name =
    text_eq name (codes "sec-websocket-accept")
    || text_eq name (codes "connection")
    || text_eq name (codes "upgrade")

-- Header.Get on a map with all its values
unfoldable pub first_value : Text → Fields → Text
first_value k [] = []
first_value k ((j, []) ∷ h) = if text_eq j k then [] else first_value k h
first_value k ((j, v ∷ vs) ∷ h) = if text_eq j k then v else first_value k h

-- `dest[name] = values`
unfoldable pub put_field : Text → List Text → Fields → Fields
put_field k vs [] = (k, vs) ∷ []
put_field k vs ((j, us) ∷ h) =
    let rest = put_field k vs h in if text_eq j k then (k, vs) ∷ h else (j, us) ∷ rest

-- `dest[name]`
unfoldable pub field : Text → Fields → List Text
field k [] = []
field k ((j, vs) ∷ h) = if text_eq j k then vs else field k h

-- shouldFlushResponse
unfoldable pub is_stream_type : Text → Bool
is_stream_type content_type =
    has_prefix content_type (codes "text/event-stream")
    || has_prefix content_type (codes "application/grpc")
    || has_prefix content_type (codes "application/x-ndjson")

unfoldable pub should_flush_response : Fields → Bool
should_flush_response h =
    is_empty (first_value (codes "Content-Length") h)
    || contains (to_lower (first_value (codes "Transfer-Encoding") h)) (codes "chunked")
    || is_stream_type (to_lower (first_value (codes "Content-Type") h))

-- What was called on the http.ResponseWriter: WriteHeader, with the map as it stood, Write, Flush.
-- The status that net/http sends for it is Serve.Answered.sent_status.
pub data Event : Type 0 where
  head : ℕ → Fields → Event
  body : Text → Event
  flush : Event

-- runtimeHTTP2RespWriter
pub record RespWriter : Type 0 where
  pub dest : Fields
  pub events : List Event
  pub flushing : Bool
  pub status_written : Bool
  pub resp_headers : Fields
  pub is_hijacked : Bool

-- newRuntimeHTTP2RespWriter, of a writer that is an http.Flusher
unfoldable pub new_writer : RequestType → RespWriter
new_writer conn_type = record {
  dest = [];
  events = [];
  flushing = should_flush conn_type;
  status_written = false;
  resp_headers = [];
  is_hijacked = false;
}

abbrev pub user_headers_key : Text
user_headers_key = codes "Cf-Cloudflared-Response-Headers"

abbrev pub meta_key : Text
meta_key = codes "Cf-Cloudflared-Response-Meta"

abbrev pub flush_events : Bool → List Event
flush_events b = if b then flush ∷ [] else []

-- The loop of WriteRespHeaders: which headers go to the edge as those of the user.
unfoldable pub is_user_header : Text × List Text → Bool
is_user_header f = not (is_control_header (to_lower f.0)) || is_websocket_header (to_lower f.0)

unfoldable pub put_lengths : Fields → Fields → Fields
put_lengths [] dest = dest
put_lengths ((name, values) ∷ h) dest =
    put_lengths h (
      if text_eq (to_lower name) (codes "content-length") then put_field name values dest else dest)

unfoldable pub response_dest : Fields → Fields → Fields
response_dest h dest = put_field meta_key (codes "{\"src\":\"origin\"}" ∷ []) (
    put_field user_headers_key (serialize_headers (keep is_user_header h) ∷ [])
      (put_lengths h dest))

-- `if status == http.StatusSwitchingProtocols`
unfoldable pub wire_status : ℕ → ℕ
wire_status status = if status == 101 then 200 else status

-- runtimeHTTP2RespWriter.WriteRespHeaders, which never fails
unfoldable pub write_resp_headers : ℕ → Fields → RespWriter → RespWriter
write_resp_headers status h rp =
    let dest = response_dest h rp.dest in
    let flushing = should_flush_response h || rp.flushing in
    if rp.is_hijacked then rp else record rp {
      dest = dest;
      events = rp.events ++ head (wire_status status) dest ∷ flush_events flushing;
      flushing = flushing;
      status_written = true;
    }

-- runtimeHTTP2RespWriter.WriteHeader
unfoldable pub write_header : ℕ → RespWriter → RespWriter
write_header status rp = if rp.is_hijacked then rp else write_resp_headers status rp.resp_headers rp

-- Header.Add
unfoldable pub add_trailer : Text → Text → RespWriter → RespWriter
add_trailer name value rp =
    let key = codes "Trailer:" ++ name in
    if rp.status_written
    then record rp { dest = put_field key (field key rp.dest ++ value ∷ []) rp.dest }
    else rp

-- Why runtimeHTTP2RespWriter.Hijack fails.
pub data HijackError : Type 0 where
  status_not_written : HijackError
  already_hijacked : HijackError

-- runtimeHTTP2RespWriter.Hijack
unfoldable pub hijack : RespWriter → RespWriter × Option HijackError
hijack rp =
    let flushed = record rp { events = rp.events ++ flush_events rp.flushing } in
    if not rp.status_written
    then (rp, some status_not_written)
    else if rp.is_hijacked
    then (flushed, some already_hijacked)
    else (record flushed { is_hijacked = true }, none)

-- What the http.ResponseWriter says to a Write: n bytes were taken, with or without an error, or it
-- panicked, which Write recovers from with no bytes and no error.
pub data Taken : Type 0 where
  wrote : Taken
  failed : Taken
  panicked : Taken

-- runtimeHTTP2RespWriter.Write
unfoldable pub write : Text → Taken → RespWriter → RespWriter
write p wrote rp = record rp { events = rp.events ++ body p ∷ flush_events rp.flushing }
write p failed rp = record rp { events = rp.events ++ body p ∷ [] }
write p panicked rp = record rp { events = rp.events ++ body p ∷ [] }

-- runtimeHTTP2RespWriter.WriteErrorResponse; the argument says whether the error is
-- errTooManyActiveFlows.
unfoldable pub write_error_response : Bool → RespWriter → RespWriter × Bool
write_error_response too_many rp =
    let meta =
      if too_many
      then codes "{\"src\":\"cloudflared\",\"flow_rate_limited\":true}"
      else codes "{\"src\":\"cloudflared\"}" in
    let dest = put_field meta_key (meta ∷ []) rp.dest in
    if rp.status_written then (rp, false) else (
      record rp { dest = dest; events = rp.events ++ head 502 dest ∷ []; status_written = true },
      true,
    )
