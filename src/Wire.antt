-- ===== src/Wire.antt =====
-- internal/cftunnel/runtime/http2_protocol.go: how the headers of a request or a response travel
-- inside one header field. A Go string is its list of bytes here, which for ASCII is its text.
-- A header holds the names in the order in which Go's loop meets the keys of the map.
pub mod Base64
pub mod RoundTrip
use cf_tunnel.Prelude.{
  ℕ, zero, suc, ◌+◌, ◌-◌, ◌*◌, ◌/◌, ◌%◌, Option, none, some, List, [], ◌∷◌, ◌++◌, ltb, ◌==◌,
  if◌then◌else◌, length, Result, ok, err, ◌>>=◌, ◌||◌,
}
use cf_tunnel.Text.{Text, codes, text_eq, is_empty, split}

-- http.Header
abbrev pub Fields : Type 0
Fields = List (Text × List Text)

-- HTTPHeader
pub record HttpHeader : Type 0 where
  pub name : Text
  pub value : Text

-- base64.RawStdEncoding: the letter of six bits.
unfoldable pub letter : ℕ → ℕ
letter n =
    if ltb n 26
    then b'A' + n
    else if ltb n 52
    then b'a' + (n - 26)
    else if ltb n 62
    then b'0' + (n - 52)
    else if n == 62
    then b'+'
    else b'/'

-- Encoding.Encode
unfoldable pub encode : Text → Text
unfolding letter
encode [] = []
encode (a ∷ []) = letter (a / 4) ∷ letter (a % 4 * 16) ∷ []
encode (a ∷ b ∷ []) = letter (a / 4) ∷ letter (a % 4 * 16 + b / 16) ∷ letter (b % 16 * 4) ∷ []
encode (a ∷ b ∷ c ∷ rest) =
    letter (a / 4)
    ∷ letter (a % 4 * 16 + b / 16)
    ∷ letter (b % 16 * 4 + c / 64)
    ∷ letter (c % 64)
    ∷ encode rest

-- The six bits of a letter.
unfoldable pub sextet : ℕ → Option ℕ
sextet c =
    if ltb c b'+'
    then none
    else if c == b'+'
    then some 62
    else if c == b'/'
    then some 63
    else if ltb c b'0'
    then none
    else if ltb c 58
    then some (c - b'0' + 52)
    else if ltb c b'A'
    then none
    else if ltb c 91
    then some (c - b'A')
    else if ltb c b'a'
    then none
    else if ltb c 123
    then some (c - b'a' + 26)
    else none

-- Encoding.Decode: line breaks are passed over, any other byte outside the alphabet is an error.
unfoldable pub sextets : Text → Option (List ℕ)
unfolding sextet
sextets [] = some []
sextets (c ∷ s) =
    let rest = sextets s in
    if c == 10 || c == 13 then rest else elim (sextet c) [
      | none ↦ none
      | some n ↦ elim rest [ none ↦ none | some ns ↦ some (n ∷ ns) ]
    ]

-- Four letters are three bytes; one letter alone at the end is an error.
unfoldable pub octets : List ℕ → Option Text
octets [] = some []
octets (p ∷ []) = none
octets (p ∷ q ∷ []) = some ((p * 4 + q / 16) ∷ [])
octets (p ∷ q ∷ r ∷ []) = some ((p * 4 + q / 16) ∷ (q % 16 * 16 + r / 4) ∷ [])
octets (p ∷ q ∷ r ∷ s ∷ rest) = elim (octets rest) [
  | none ↦ none
  | some bs ↦ some ((p * 4 + q / 16) ∷ (q % 16 * 16 + r / 4) ∷ (r % 4 * 64 + s) ∷ bs)
]

-- Encoding.DecodedLen
unfoldable pub decoded_len : ℕ → ℕ
decoded_len n = n / 4 * 3 + n % 4 * 6 / 8

unfoldable pub zeros : ℕ → Text
zeros zero = []
zeros (suc n) = 0 ∷ zeros n

-- What Decode leaves in the buffer of DecodedLen bytes that DeserializeHeaders makes.
unfoldable pub decode : Text → Option Text
unfolding sextets octets decoded_len zeros
decode s = elim (sextets s) [
  | none ↦ none
  | some ns ↦ elim (octets ns) [
    | none ↦ none
    | some bs ↦ some (bs ++ zeros (decoded_len (length s) - length bs))
  ]
]

-- SerializeHeaders: the inner loop over the values of one name, and the loop over the names.
unfoldable pub write_values : Text → List Text → Text → Text
unfolding encode
write_values name [] buf = buf
write_values name (value ∷ values) buf =
    write_values name values
      ((if is_empty buf then buf else buf ++ codes ";") ++ (encode name ++ b':' ∷ encode value))

unfoldable pub write_headers : Fields → Text → Text
unfolding write_values
write_headers [] buf = buf
write_headers ((name, values) ∷ h) buf = write_headers h (write_values name values buf)

unfoldable pub serialize_headers : Fields → Text
unfolding write_headers
serialize_headers h = write_headers h []

-- Why DeserializeHeaders fails.
pub data HeaderError : Type 0 where
  not_a_pair bad_encoding : HeaderError

-- One turn of the loop of DeserializeHeaders.
unfoldable pub decode_pair : List Text → Result HeaderError HttpHeader
unfolding decode
decode_pair (name ∷ value ∷ []) = elim (decode name) [
  | none ↦ err bad_encoding
  | some n ↦ elim (decode value) [
    | none ↦ err bad_encoding
    | some v ↦ ok (record { name = n; value = v })
  ]
]
decode_pair parts = err not_a_pair

unfoldable pub decode_pairs : List Text → Result HeaderError (List HttpHeader)
unfolding decode_pair
decode_pairs [] = ok []
decode_pairs (pair ∷ pairs) =
    let rest = decode_pairs pairs in
    if is_empty pair
    then rest
    else decode_pair (split b':' pair) >>= (λ header. rest >>= (λ headers. ok (header ∷ headers)))

-- DeserializeHeaders
unfoldable pub deserialize_headers : Text → Result HeaderError (List HttpHeader)
unfolding decode_pairs
deserialize_headers s = decode_pairs (split b';' s)
