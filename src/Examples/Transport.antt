-- ===== src/Examples/Transport.antt =====
-- The two transports at concrete requests and responses.
use cf_tunnel.Prelude.{
  ℕ, ◌≡◌, ◌==◌, if◌then◌else◌, refl, ◌⊎◌, ◌||◌, false, none, some, List, [], ◌∷◌, ◌++◌, ok, arith,
}
use cf_tunnel.Text.{Text, codes, text_eq}
use cf_tunnel.Wire.{Fields, serialize_headers, deserialize_headers}
use cf_tunnel.Wire.RoundTrip.{IsByteFields, headers_of, deserialize-serialize}
use cf_tunnel.Origin.Forward.{Request, get_header}
use cf_tunnel.Upstream.{
  upgrade_header, Call, header_to, status_call, write_call, new_adapter, run, step, finalize,
  write_header, write_bytes, write_known, send_header, pass_write, unless_failed,
}
use cf_tunnel.Upstream.FirstStatus.{first_status}
use cf_tunnel.Upstream.Sent.{HasBegun}
use cf_tunnel.Upstream.Served.{served, exactly_one}
use cf_tunnel.Http2.{
  RespWriter, Taken, wrote, head, http, new_writer, determine_type, handle_missing,
  write_error_response, should_flush, user_headers_key, field, write_resp_headers,
  should_flush_response, flush_events, write,
}
use cf_tunnel.Http2.Headers.{user_headers_lem, for_client}
use cf_tunnel.Http2.Response.{response, single_response}
use cf_tunnel.Http2.Writer.{heads, writer, write_error}
use cf_tunnel.Http2.Serve.{Handlers, serve_http, dispatch, handle, finish, run_calls}
use cf_tunnel.Http2.Serve
use cf_tunnel.Http2.Serve.Answered.{answered, EndsAs, sent_status}

abbrev fields : Fields
fields =
    (codes "Content-Type", codes "text/plain" ∷ [])
    ∷ (codes "Set-Cookie", codes "a=1" ∷ codes "b=2" ∷ [])
    ∷ (codes "Cf-Int-Trace", codes "x" ∷ [])
    ∷ []

fields-IsByteFields : IsByteFields fields
fields-IsByteFields = ground arith

deserialize-serialize_example :
    deserialize_headers (serialize_headers fields) ≡ ok (headers_of fields)
deserialize-serialize_example = deserialize-serialize fields fields-IsByteFields

user_headers_lem_example :
    (dest : Fields) × (sent : Text) × ((write_resp_headers 200 fields (new_writer http)).events
      ≡ (new_writer http).events
        ++ head 200 dest
          ∷ flush_events (should_flush_response fields || (new_writer http).flushing))
    × (field user_headers_key dest ≡ sent ∷ [])
    × (deserialize_headers sent ≡ ok (headers_of (for_client fields)))
unfolding new_writer
user_headers_lem_example = user_headers_lem 200 fields (new_writer http) fields-IsByteFields refl

-- Every write is taken.
abbrev takes : Text → RespWriter → Taken
takes p rp = wrote

abbrev not_found : List Call
not_found = header_to fields ∷ status_call 404 ∷ status_call 200 ∷ write_call (codes "no") ∷ []

single_response_example :
    (heads (response takes http false not_found).events ≡ [])
    ⊎ ((n : ℕ) × (dest : Fields) × (first_status false not_found ≡ some n)
        × (heads (response takes http false not_found).events
            ≡ (if n == 101 then 200 else n, dest) ∷ []))
single_response_example = single_response takes http false not_found

exactly_one_example :
    HasBegun (writer takes) 404 (served (writer takes) false not_found (new_writer http)).0.upstream
unfolding new_writer heads first_status served finalize run step write_header write_bytes
    write_known send_header pass_write unless_failed write_resp_headers write writer write_error
    new_adapter
exactly_one_example =
    exactly_one (writer takes) false not_found (new_writer http) refl refl refl refl refl

abbrev request : Request
request = record { host = codes "a.example"; url_scheme = []; url_host = []; header = [] }

-- The origin cannot be reached.
abbrev handlers : Handlers ℕ
handlers = record {
  control = ([], none);
  decode_update = λ r. none;
  encode_response = λ v. none;
  taken = λ p. wrote;
  proxy_http = λ r websocket. ([], some 7);
  proxy_tcp = λ t r. ([], none);
  is_too_many = λ e. false;
}

-- A control stream that wrote to the edge and then failed.
abbrev control_request : Request
control_request = record {
  host = codes "a.example";
  url_scheme = [];
  url_host = [];
  header = (upgrade_header, codes "control-stream") ∷ [];
}

abbrev control_handlers : Handlers ℕ
control_handlers = record handlers {
  control = (Serve.write_call (codes "hello") wrote ∷ [], some 7);
}

answered_example :
    let t = determine_type control_request.header in
    EndsAs control_handlers
      (dispatch control_handlers t 0 (handle_missing t control_request) (new_writer t))
      (serve_http control_handlers 0 control_request)
answered_example = answered control_handlers 0 control_request

-- The edge is sent a 200, and the 502 behind it is ignored.
late_error :
    let events = (serve_http control_handlers 0 control_request).writer.events in
    sent_status events ≡ some 200
unfolding serve_http determine_type dispatch handle finish write_error_response run_calls Serve.call
    write sent_status get_header text_eq new_writer should_flush handle_missing
late_error = refl
