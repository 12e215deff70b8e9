-- ===== src/Quic/Headers.antt =====
-- internal/cftunnel/runtime/quic_runtime_connection.go: the metadata that carries the headers of a
-- request and of a response over QUIC. Strings are bytes, as in Wire.
pub mod Same
use cf_tunnel.Prelude.{
  ℕ, zero, suc, ◌+◌, ◌/◌, ◌%◌, ◌==◌, Bool, true, false, Option, none, some, List, [], ◌∷◌, ◌++◌,
  if◌then◌else◌,
}
use cf_tunnel.Text.{Text, codes, is_empty, has_prefix, trim_prefix}
use cf_tunnel.Wire.{Fields, HttpHeader}
use cf_tunnel.Quic.Message.{Metadata, ConnectRequest, lookup}

-- strconv.Itoa of a natural number; the fuel is never used up, as Headers.Same shows.
unfoldable pub digits : ℕ → ℕ → Text → Text
digits zero n acc = acc
digits (suc fuel) n acc = elim (n / 10 == 0) [
  | true ↦ (b'0' + n % 10) ∷ acc
  | false ↦ digits fuel (n / 10) ((b'0' + n % 10) ∷ acc)
]

unfoldable pub itoa : ℕ → Text
unfolding digits
itoa n = digits (suc n) n []

abbrev pub status_key : Text
status_key = codes "HttpStatus"

abbrev pub header_prefix : Text
header_prefix = codes "HttpHeader:"

-- The loop of runtimeHTTPResponseAdapter.WriteRespHeaders.
unfoldable pub values_metadata : Text → List Text → List Metadata
values_metadata name [] = []
values_metadata name (value ∷ values) =
    record { key = header_prefix ++ name; val = value } ∷ values_metadata name values

unfoldable pub headers_metadata : Fields → List Metadata
unfolding values_metadata
headers_metadata [] = []
headers_metadata ((name, values) ∷ h) = values_metadata name values ++ headers_metadata h

-- The metadata that WriteRespHeaders sends.
unfoldable pub response_metadata : ℕ → Fields → List Metadata
unfolding headers_metadata itoa
response_metadata status h = record { key = status_key; val = itoa status } ∷ headers_metadata h

-- The loop of buildRuntimeHTTPRequest: what it adds to the header of the request, in order.
unfoldable pub request_headers : List Metadata → List HttpHeader
request_headers [] = []
request_headers (m ∷ ms) =
    let rest = request_headers ms in
    if has_prefix m.key header_prefix
    then record { name = trim_prefix m.key header_prefix; value = m.val } ∷ rest
    else rest

-- The http.Request of buildRuntimeHTTPRequest: http.NewRequestWithContext takes the host from the URL.
pub record StreamRequest : Type 0 where
  pub method : Text
  pub url_host : Text
  pub host : Text
  pub headers : List HttpHeader

-- buildRuntimeHTTPRequest; `new_request` is http.NewRequestWithContext, which gives the host of the
-- URL, and of the request, or an error.
unfoldable pub build_http_request :
    (Text → Text → Option (Text × Text)) → ConnectRequest → Option StreamRequest
build_http_request new_request r =
    let method : Text = elim (lookup (codes "HttpMethod") r.metadata) [ none ↦ [] | some v ↦ v ] in
    elim (new_request method r.dest) [
      | none ↦ none
      | some (url_host, host) ↦ some (record {
        method = method;
        url_host = url_host;
        host = if is_empty host then url_host else host;
        headers = request_headers r.metadata;
      })
    ]
