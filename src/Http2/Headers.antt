-- ===== src/Http2/Headers.antt =====
-- internal/cftunnel/runtime/http2_runtime_connection.go: what the edge reads of the headers of a
-- response that WriteRespHeaders sent.
use cf_tunnel.Prelude.{
  ℕ, ◌≡◌, refl, ◌∙◌, Bool, false, List, [], ◌∷◌, ◌++◌, keep, ok, arith, ◌||◌, ◌&&◌, not,
  if◌then◌else◌, ◌==◌, if_cases,
}
use cf_tunnel.Text.{Text, codes, text_eq, has_prefix, to_lower}
use cf_tunnel.Text.Laws.{text_eq_refl, text_eq_iff}
use cf_tunnel.Wire.{Fields, deserialize_headers, serialize_headers}
use cf_tunnel.Wire.RoundTrip.{IsByteFields, headers_of, deserialize-serialize}
use cf_tunnel.Http2.{
  RespWriter, head, write_resp_headers, response_dest, put_lengths, put_field, field,
  is_user_header, is_control_header, is_websocket_header, user_headers_key, meta_key, wire_status,
  flush_events, should_flush_response,
}

field-put_field : (k : Text) (vs : List Text) (h : Fields) → field k (put_field k vs h) ≡ vs
unfolding field put_field
field-put_field k vs [] = ground (arith, text_eq_refl k)
field-put_field k vs ((j, us) ∷ h) = ground (arith, text_eq_refl k, field-put_field k vs h)

field-put_other :
    (k j : Text) (vs : List Text) (h : Fields)
    → text_eq j k ≡ false
    → field k (put_field j vs h) ≡ field k h
unfolding field put_field
field-put_other k j vs [] ne = ground arith
field-put_other k j vs ((i, us) ∷ h) ne =
    ground (arith, field-put_other k j vs h ne, text_eq_iff i j)

All-keep : (p : Text × List Text → Bool) (h : Fields) → IsByteFields h → IsByteFields (keep p h)
All-keep p [] _ = tt
All-keep p (f ∷ h) (b, bs) =
    if_cases IsByteFields (p f) (λ _. (b, All-keep p h bs)) (λ _. All-keep p h bs)

sent_field :
    (h dest : Fields)
    → field user_headers_key (response_dest h dest) ≡ serialize_headers (keep is_user_header h) ∷ []
unfolding response_dest
sent_field h dest =
    field-put_other user_headers_key meta_key _ _ (unfold text_eq in refl)
    ∙ field-put_field user_headers_key _ (put_lengths h dest)

-- Whether a text begins with one of the prefixes.
unfoldable pub begins_with : List Text → Text → Bool
begins_with [] name = false
begins_with (p ∷ prefixes) name = has_prefix name p || begins_with prefixes name

unfoldable pub is_one_of : List Text → Text → Bool
is_one_of [] name = false
is_one_of (n ∷ names) name = text_eq name n || is_one_of names name

-- The prefixes of the headers that the edge and its connector speak with.
abbrev pub control_prefixes : List Text
control_prefixes = codes ":" ∷ codes "cf-int-" ∷ codes "cf-cloudflared-" ∷ codes "cf-proxy-" ∷ []

abbrev pub websocket_names : List Text
websocket_names = codes "sec-websocket-accept" ∷ codes "connection" ∷ codes "upgrade" ∷ []

-- The headers for the client, in any case: none with a prefix of the edge.
unfoldable pub for_client : Fields → Fields
for_client [] = []
for_client ((name, values) ∷ h) =
    let rest = for_client h in
    if begins_with control_prefixes (to_lower name)
      && not (is_one_of websocket_names (to_lower name))
    then rest
    else (name, values) ∷ rest

keep-for_client : (h : Fields) → keep is_user_header h ≡ for_client h
unfolding for_client is_user_header is_control_header is_websocket_header begins_with is_one_of
keep-for_client [] = refl
keep-for_client ((name, values) ∷ h) = ground (arith, keep-for_client h)

-- Unless the connection was taken over, WriteRespHeaders on headers of byte strings calls
-- WriteHeader once, with 200 in place of 101, and then flushes where it has to; the field Cf-
-- Cloudflared-Response-Headers that goes with it reads back as one header for each value of the
-- headers, in order, without those whose name in lower case begins with ":", "cf-int-", "cf-
-- cloudflared-" or "cf-proxy-".
pub user_headers_lem :
    (status : ℕ) (h : Fields) (rp : RespWriter)
    → IsByteFields h
    → rp.is_hijacked ≡ false
    → (dest : Fields) × (sent : Text) × ((write_resp_headers status h rp).events
        ≡ rp.events
          ++ head (if status == 101 then 200 else status) dest
            ∷ flush_events (should_flush_response h || rp.flushing))
      × (field user_headers_key dest ≡ sent ∷ [])
      × (deserialize_headers sent ≡ ok (headers_of (for_client h)))
unfolding write_resp_headers wire_status
user_headers_lem status h rp bytes kept = (
  response_dest h rp.dest,
  serialize_headers (keep is_user_header h),
  rw kept refl,
  sent_field h rp.dest,
  rw (← (keep-for_client h))
      (deserialize-serialize (keep is_user_header h) (All-keep is_user_header h bytes)),
)
