-- ===== src/Quic/Headers/Same.antt =====
-- internal/cftunnel/runtime/quic_runtime_connection.go and http2_protocol.go: the headers of a response
-- over QUIC against those over HTTP/2.
use cf_tunnel.Prelude.{
  ℕ, zero, suc, ◌+◌, ◌-◌, ◌*◌, ◌/◌, ◌%◌, ◌<◌, ◌==◌, ◌≡◌, refl, sym, ap, Bool, not, ◌&&◌,
  if◌then◌else◌, ◌∙◌, true, false, inl, inr, List, [], ◌∷◌, ◌++◌, ok, arith, Bool-cases,
}
use cf_tunnel.Text.{Text, has_prefix, to_lower}
use cf_tunnel.Text.Laws.{append-has_prefix, trim_prefix-append}
use cf_tunnel.Wire.{Fields, HttpHeader, deserialize_headers}
use cf_tunnel.Wire.RoundTrip.{IsByteFields, values_of, headers_of}
use cf_tunnel.Http2.{RequestType, head, new_writer, write_resp_headers, field, user_headers_key}
use cf_tunnel.Http2.Headers.{
  begins_with, is_one_of, control_prefixes, websocket_names, for_client, user_headers_lem,
}
use cf_tunnel.Http2.Writer.{heads, heads-then}
use cf_tunnel.Quic.Message.{Metadata}
use cf_tunnel.Quic.Headers.{
  digits, itoa, status_key, header_prefix, values_metadata, headers_metadata, response_metadata,
  request_headers,
}

-- strconv.Atoi of digits, from a value on.
unfoldable pub atoi : ℕ → Text → ℕ
atoi v [] = v
atoi v (c ∷ s) = atoi (v * 10 + (c - b'0')) s

small : (n : ℕ) → n / 10 == 0 ≡ true → n < 10
small n h = ground arith

large : (n : ℕ) → n / 10 == 0 ≡ false → 0 < n / 10
large n h = ground arith

digits-last :
    (fuel n : ℕ) (acc : Text) → n / 10 == 0 ≡ true → digits (suc fuel) n acc ≡ (b'0' + n % 10) ∷ acc
unfolding digits
digits-last fuel n acc h = ground arith

digits-more :
    (fuel n : ℕ) (acc : Text)
    → n / 10 == 0 ≡ false
    → digits (suc fuel) n acc ≡ digits fuel (n / 10) ((b'0' + n % 10) ∷ acc)
unfolding digits
digits-more fuel n acc h = ground arith

atoi-digits : (fuel n : ℕ) (acc : Text) → n < fuel → atoi 0 (digits fuel n acc) ≡ atoi n acc
unfolding atoi
atoi-digits zero n acc h = absurd (omega arith)
atoi-digits (suc fuel) n acc h = elim (Bool-cases (n / 10 == 0)) [
  | inl y ↦
      let value : 0 * 10 + (b'0' + n % 10 - b'0') ≡ n = omega (arith, small n y) in
      rw (digits-last fuel n acc y) (ap (λ v. atoi v acc) value)
  | inr k ↦
      let value : n / 10 * 10 + (b'0' + n % 10 - b'0') ≡ n = omega arith in
      rw (digits-more fuel n acc k) (
        atoi-digits fuel (n / 10) ((b'0' + n % 10) ∷ acc) (omega (arith, large n k))
        ∙ ap (λ v. atoi v acc) value)
]

request_headers-append :
    (a b : List Metadata) → request_headers (a ++ b) ≡ request_headers a ++ request_headers b
unfolding request_headers
request_headers-append [] b = refl
request_headers-append (m ∷ a) b = ground (arith, request_headers-append a b)

request_headers-values :
    (name : Text) (values : List Text)
    → request_headers (values_metadata name values) ≡ values_of name values
unfolding request_headers values_metadata values_of
request_headers-values name [] = refl
request_headers-values name (v ∷ vs) =
    rw
      (
        append-has_prefix header_prefix name,
        trim_prefix-append header_prefix name,
        request_headers-values name vs,
      )
      refl

request_headers-fields : (h : Fields) → request_headers (headers_metadata h) ≡ headers_of h
unfolding headers_metadata headers_of request_headers
request_headers-fields [] = refl
request_headers-fields ((name, values) ∷ h) =
    request_headers-append (values_metadata name values) (headers_metadata h)
    ∙ rw (request_headers-values name values, request_headers-fields h) refl

-- Whether a header is for the client, by its name.
abbrev is_for_client : Text → Bool
is_for_client name = not (
    begins_with control_prefixes (to_lower name) && not (is_one_of websocket_names (to_lower name)))

-- The headers for the client.
unfoldable pub visible : List HttpHeader → List HttpHeader
visible [] = []
visible (x ∷ headers) =
    let rest = visible headers in if is_for_client x.name then x ∷ rest else rest

visible-append : (a b : List HttpHeader) → visible (a ++ b) ≡ visible a ++ visible b
unfolding visible
visible-append [] b = refl
visible-append (x ∷ a) b = ground (arith, visible-append a b)

visible-values :
    (name : Text) (values : List Text)
    → visible (values_of name values) ≡ (if is_for_client name then values_of name values else [])
unfolding visible values_of
visible-values name [] = ground arith
visible-values name (v ∷ values) = ground (arith, visible-values name values)

visible-headers : (h : Fields) → headers_of (for_client h) ≡ visible (headers_of h)
unfolding headers_of for_client visible
visible-headers [] = refl
visible-headers ((name, values) ∷ h) = ground (
  arith,
  visible-append (values_of name values) (headers_of h),
  visible-values name values,
  visible-headers h,
)

-- A response of one status and headers of byte strings, over both transports: over QUIC the
-- metadata of WriteRespHeaders holds the text of the status, which reads back as its number, and
-- reads back as all the headers; over HTTP/2 WriteRespHeaders on a fresh writer begins one
-- response, with 200 in place of 101, whose field for the headers reads back as those of them that
-- are left without the control headers of the edge.
pub both_responses :
    (status : ℕ) (h : Fields) (t : RequestType)
    → IsByteFields h
    → (text : Text) × (rest : List Metadata) × (dest : Fields) × (sent : Text) × (response_metadata
          status h
        ≡ record { key = status_key; val = text } ∷ rest)
      × (atoi 0 text ≡ status)
      × (request_headers (response_metadata status h) ≡ headers_of h)
      × (heads (write_resp_headers status h (new_writer t)).events
          ≡ (if status == 101 then 200 else status, dest) ∷ [])
      × (field user_headers_key dest ≡ sent ∷ [])
      × (deserialize_headers sent ≡ ok (visible (request_headers (response_metadata status h))))
unfolding response_metadata itoa request_headers has_prefix atoi new_writer heads
both_responses status h t bytes =
    let (dest, sent, events, here, read) = user_headers_lem status h (new_writer t) bytes refl in
    (
      itoa status,
      headers_metadata h,
      dest,
      sent,
      refl,
      atoi-digits (suc status) status [] (omega arith),
      request_headers-fields h,
      ap heads events ∙ heads-then [] (head (if status == 101 then 200 else status) dest) _,
      here,
      read ∙ ap ok (visible-headers h ∙ ap visible (sym (request_headers-fields h))),
    )
