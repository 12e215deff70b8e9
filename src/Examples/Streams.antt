-- ===== src/Examples/Streams.antt =====
-- Streams over QUIC at concrete messages.
use cf_tunnel.Prelude.{
  ℕ, ◌≡◌, refl, ◌⊎◌, ◌≢◌, ◌==◌, false, none, some, List, [], ◌∷◌, if◌then◌else◌, Result, ok, arith,
}
use cf_tunnel.Text.{Text, codes}
use cf_tunnel.Wire.{Fields, deserialize_headers}
use cf_tunnel.Wire.RoundTrip.{IsByteFields, headers_of}
use cf_tunnel.Quic.Message.{
  Metadata, ConnectRequest, Capnp, write_request, read_request, write_metadata,
}
use cf_tunnel.Quic.Message.RoundTrip.{read-write_request}
use cf_tunnel.Quic.Headers.{response_metadata, request_headers, status_key}
use cf_tunnel.Quic.Headers.Same.{atoi, visible, both_responses}
use cf_tunnel.Http2.{http, new_writer, write_resp_headers, field, user_headers_key}
use cf_tunnel.Http2.Writer.{heads}
use cf_tunnel.Quic.Streams.{StreamHandlers, handle_request, dispatch_request, StreamError}
use cf_tunnel.Quic.Streams.Answered.{told, IsToldOf}

-- A message as its fields.
record Message : Type 0 where
  text : Text
  conn_type : ℕ
  len : ℕ
  keys : ℕ → Text
  vals : ℕ → Text

abbrev put_at : ℕ → Text → (ℕ → Text) → ℕ → Text
put_at i t f j = if j == i then t else f j

ok-injective : {a b : Message} → ◌≡◌ {A = Result (Unit {0}) Message} (ok a) (ok b) → b ≡ a
ok-injective h = ground arith

put_at-same : (i : ℕ) (t : Text) (f : ℕ → Text) → put_at i t f i ≡ t
put_at-same i t f = ground arith

put_at-other : (i j : ℕ) (t : Text) (f : ℕ → Text) → j ≢ i → put_at i t f j ≡ f j
put_at-other i j t f ne = ground arith

abbrev messages : Capnp Message (Unit {0})
messages = record {
  new_root = ok (record { text = []; conn_type = 0; len = 0; keys = λ i. []; vals = λ i. [] });
  set_text = λ t m. ok (record m { text = t });
  set_type = λ k m. record m { conn_type = k };
  new_metadata = λ k m. ok (record m { len = k });
  set_key = λ i t m. ok (record m { keys = put_at i t m.keys });
  set_val = λ i t m. ok (record m { vals = put_at i t m.vals });
  get_text = λ m. ok m.text;
  get_type = λ m. m.conn_type;
  metadata_len = λ m. ok m.len;
  get_key = λ i m. ok (m.keys i);
  get_val = λ i m. ok (m.vals i);
  text-set = λ t m h. rw (ok-injective h) refl;
  text-type = λ k m. refl;
  text-new = λ k m h. rw (ok-injective h) refl;
  text-key = λ i t m h. rw (ok-injective h) refl;
  text-val = λ i t m h. rw (ok-injective h) refl;
  type-set = λ k m. refl;
  type-new = λ k m h. rw (ok-injective h) refl;
  type-key = λ i t m h. rw (ok-injective h) refl;
  type-val = λ i t m h. rw (ok-injective h) refl;
  len-new = λ k m h. rw (ok-injective h) refl;
  len-key = λ i t m h. rw (ok-injective h) refl;
  len-val = λ i t m h. rw (ok-injective h) refl;
  key-set = λ i t m h. rw (ok-injective h, put_at-same i t m.keys) refl;
  key-other = λ i j t m h ne. rw (ok-injective h, put_at-other i j t m.keys ne) refl;
  key-val = λ i j t m h. rw (ok-injective h) refl;
  val-set = λ i t m h. rw (ok-injective h, put_at-same i t m.vals) refl;
  val-other = λ i j t m h ne. rw (ok-injective h, put_at-other i j t m.vals ne) refl;
  val-key = λ i j t m h. rw (ok-injective h) refl;
}

abbrev asked : ConnectRequest
asked = record {
  dest = codes "http://a.example/";
  conn_type = 0;
  metadata =
      record { key = codes "HttpMethod"; val = codes "GET" }
      ∷ record { key = codes "HttpHeader:Accept"; val = codes "*/*" }
      ∷ [];
}

abbrev asked_message : Message
asked_message = record {
  text = codes "http://a.example/";
  conn_type = 0;
  len = 2;
  keys = put_at 1 (codes "HttpHeader:Accept") (put_at 0 (codes "HttpMethod") (λ i. []));
  vals = put_at 1 (codes "*/*") (put_at 0 (codes "GET") (λ i. []));
}

read-write_request_example : read_request messages asked_message ≡ ok asked
unfolding write_request write_metadata
read-write_request_example = read-write_request messages asked refl

abbrev answer_fields : Fields
answer_fields =
    (codes "Content-Type", codes "text/plain" ∷ [])
    ∷ (codes "Vary", codes "a" ∷ codes "b" ∷ [])
    ∷ []

answer_fields-IsByteFields : IsByteFields answer_fields
answer_fields-IsByteFields = ground arith

both_responses_example :
    (text : Text) × (rest : List Metadata) × (dest : Fields) × (sent : Text) × (response_metadata
        404 answer_fields
      ≡ record { key = status_key; val = text } ∷ rest)
    × (atoi 0 text ≡ 404)
    × (request_headers (response_metadata 404 answer_fields) ≡ headers_of answer_fields)
    × (heads (write_resp_headers 404 answer_fields (new_writer http)).events ≡ (404, dest) ∷ [])
    × (field user_headers_key dest ≡ sent ∷ [])
    × (deserialize_headers sent
        ≡ ok (visible (request_headers (response_metadata 404 answer_fields))))
both_responses_example = both_responses 404 answer_fields http answer_fields-IsByteFields

-- The origin cannot be reached, and the stream takes every write.
abbrev stream_handlers : StreamHandlers ℕ
stream_handlers = record {
  new_request = λ method dest. some (dest, dest);
  proxy_http = λ r websocket. ([], some 7);
  proxy_tcp = λ r. ([], none);
  is_too_many = λ e. false;
  error_text = λ e. codes "failed";
  broken = λ e w. false;
  decode = λ s. some asked;
}

told_example :
    (((dispatch_request stream_handlers 0 asked).1 ≡ none)
      × (handle_request stream_handlers 0 asked
          ≡ ((dispatch_request stream_handlers 0 asked).0, none)))
    ⊎ ((e : StreamError ℕ) × ((dispatch_request stream_handlers 0 asked).1 ≡ some e)
        × IsToldOf stream_handlers
            (dispatch_request stream_handlers 0 asked).0
            e
            (handle_request stream_handlers 0 asked))
told_example = told stream_handlers 0 asked
