-- ===== src/Wire/RoundTrip.antt =====
-- internal/cftunnel/runtime/http2_protocol.go: SerializeHeaders against DeserializeHeaders.
use cf_tunnel.Prelude.{
  sym, Bool, true, All-append, ◌≢◌, if◌then◌else◌, ◌≡◌, refl, false, List, [], ◌∷◌, ◌++◌,
  append_assoc, append-nil, All, Result, ok, err, inl, inr, Result-cases, ◌>>=◌, arith,
}
use cf_tunnel.Text.{Text, codes, is_empty, split}
use cf_tunnel.Text.Laws.{split-append, split-Lacks}
use cf_tunnel.Wire.{
  Fields, HttpHeader, HeaderError, encode, decode_pair, decode_pairs, write_values, write_headers,
  serialize_headers, deserialize_headers,
}
use cf_tunnel.Wire.Base64.{IsByteText, decode-encode, encode-Lacks}

-- One header for each value of each name, in order.
unfoldable pub values_of : Text → List Text → List HttpHeader
values_of name [] = []
values_of name (value ∷ values) = record { name = name; value = value } ∷ values_of name values

unfoldable pub headers_of : Fields → List HttpHeader
unfolding values_of
headers_of [] = []
headers_of ((name, values) ∷ h) = values_of name values ++ headers_of h

-- Names and values are bytes.
abbrev pub IsByteFields : Fields → Type 0
IsByteFields = All (λ f. IsByteText f.0 × All IsByteText f.1)

pair_text : Text → Text → Text
pair_text name value = encode name ++ b':' ∷ encode value

decode_pair-pair :
    (name value : Text)
    → IsByteText name
    → IsByteText value
    → decode_pair (split b':' (pair_text name value)) ≡ ok (record { name = name; value = value })
unfolding decode_pair pair_text
decode_pair-pair name value p q = ground (
  arith,
  split-append b':' (encode name) (encode value),
  split-Lacks b':' (encode name) (encode-Lacks name p).0,
  split-Lacks b':' (encode value) (encode-Lacks value q).0,
  decode-encode name p,
  decode-encode value q,
)

-- The headers of two runs of the loop, one after the other.
abbrev both :
    Result HeaderError (List HttpHeader)
    → Result HeaderError (List HttpHeader)
    → Result HeaderError (List HttpHeader)
both first second = first >>= (λ hs. second >>= (λ ks. ok (hs ++ ks)))

turn-both :
    (skip : Bool) (d : Result HeaderError HttpHeader) (r s : Result HeaderError (List HttpHeader))
    → (if skip then both r s else d >>= (λ h. both r s >>= (λ hs. ok (h ∷ hs))))
      ≡ both (if skip then r else d >>= (λ h. r >>= (λ hs. ok (h ∷ hs)))) s
turn-both true d r s = refl
turn-both false (err e) r s = refl
turn-both false (ok h) (err e) s = refl
turn-both false (ok h) (ok hs) (err e) = refl
turn-both false (ok h) (ok hs) (ok ks) = refl

decode_pairs-append :
    (ps qs : List Text) → decode_pairs (ps ++ qs) ≡ both (decode_pairs ps) (decode_pairs qs)
unfolding decode_pairs
decode_pairs-append [] qs = elim (Result-cases (decode_pairs qs)) [
  | inl (ks, e) ↦ rw e refl
  | inr (reason, e) ↦ rw e refl
]
decode_pairs-append (p ∷ ps) qs =
    rw (decode_pairs-append ps qs)
      (turn-both (is_empty p) (decode_pair (split b':' p)) (decode_pairs ps) (decode_pairs qs))

pair_text-full : (name value : Text) → is_empty (pair_text name value) ≡ false
unfolding pair_text encode
pair_text-full [] value = refl
pair_text-full (a ∷ []) value = refl
pair_text-full (a ∷ b ∷ []) value = refl
pair_text-full (a ∷ b ∷ c ∷ name) value = refl

pair_text-split :
    (name value : Text)
    → IsByteText name
    → IsByteText value
    → split b';' (pair_text name value) ≡ pair_text name value ∷ []
unfolding pair_text
pair_text-split name value p q = split-Lacks b';' (encode name ++ b':' ∷ encode value) (
    All-append (λ c. c ≢ b';') (encode name) (b':' ∷ encode value) (encode-Lacks name p).1
      ((λ e. omega arith), (encode-Lacks value q).1))

deserialize-one :
    (name value : Text)
    → IsByteText name
    → IsByteText value
    → deserialize_headers (pair_text name value) ≡ ok (record { name = name; value = value } ∷ [])
unfolding deserialize_headers decode_pairs
deserialize-one name value p q =
    rw (pair_text-split name value p q, pair_text-full name value, decode_pair-pair name value p q)
      refl

deserialize-append :
    (buf piece : Text)
    → deserialize_headers (buf ++ b';' ∷ piece)
      ≡ both (deserialize_headers buf) (deserialize_headers piece)
unfolding deserialize_headers
deserialize-append buf piece =
    rw (split-append b';' buf piece) (decode_pairs-append (split b';' buf) (split b';' piece))

deserialize-none : deserialize_headers [] ≡ ok []
unfolding deserialize_headers decode_pairs split
deserialize-none = refl

-- Writing one header behind others.
deserialize-write :
    (name value buf : Text) {hs : List HttpHeader}
    → IsByteText name
    → IsByteText value
    → deserialize_headers buf ≡ ok hs
    → deserialize_headers ((if is_empty buf then buf else buf ++ codes ";") ++ pair_text name value)
      ≡ ok (hs ++ record { name = name; value = value } ∷ [])
deserialize-write name value [] p q e =
    rw (deserialize-one name value p q) (ground (arith, deserialize-none))
deserialize-write name value (c ∷ buf) {hs = hs} p q e =
    rw
      (
        append_assoc (c ∷ buf) (codes ";") (pair_text name value),
        deserialize-append (c ∷ buf) (pair_text name value),
        e,
        deserialize-one name value p q,
      )
      refl

write_values_lem :
    (name : Text) (values : List Text) (buf : Text) (hs : List HttpHeader)
    → IsByteText name
    → All IsByteText values
    → deserialize_headers buf ≡ ok hs
    → deserialize_headers (write_values name values buf) ≡ ok (hs ++ values_of name values)
unfolding write_values values_of pair_text
write_values_lem name [] buf hs p _ e = rw (append-nil hs) e
write_values_lem name (v ∷ vs) buf hs p (q, qs) e =
    rw (sym (append_assoc hs (record { name = name; value = v } ∷ []) (values_of name vs)))
      (write_values_lem name vs _ _ p qs (deserialize-write name v buf p q e))

write_headers_lem :
    (h : Fields) (buf : Text) (hs : List HttpHeader)
    → IsByteFields h
    → deserialize_headers buf ≡ ok hs
    → deserialize_headers (write_headers h buf) ≡ ok (hs ++ headers_of h)
unfolding write_headers headers_of
write_headers_lem [] buf hs _ e = rw (append-nil hs) e
write_headers_lem ((name, values) ∷ h) buf hs ((p, q), r) e =
    rw (sym (append_assoc hs (values_of name values) (headers_of h)))
      (write_headers_lem h _ _ r (write_values_lem name values buf hs p q e))

-- What DeserializeHeaders reads back from the text that SerializeHeaders writes is one header for
-- each value of each name, in order, for every header of byte strings, empty names and values
-- included.
pub deserialize-serialize :
    (h : Fields) → IsByteFields h → deserialize_headers (serialize_headers h) ≡ ok (headers_of h)
unfolding serialize_headers
deserialize-serialize h bytes = write_headers_lem h [] [] bytes deserialize-none
