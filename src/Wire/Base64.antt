-- ===== src/Wire/Base64.antt =====
-- internal/cftunnel/runtime/http2_protocol.go: headerEncoding, which is base64.RawStdEncoding.
use cf_tunnel.Prelude.{
  ℕ, ◌+◌, ◌-◌, ◌*◌, ◌/◌, ◌%◌, ◌<◌, ◌≡◌, refl, ◌≢◌, some, List, [], ◌∷◌, ◌++◌, length, All, arith,
  append-nil,
}
use cf_tunnel.Text.{Text}
use cf_tunnel.Text.Laws.{Lacks}
use cf_tunnel.Wire.{letter, encode, sextet, sextets, octets, decoded_len, zeros, decode}

abbrev pub IsByteText : Text → Type 0
IsByteText = All (λ b. b < 256)

sextet-letter : (n : ℕ) → n < 64 → sextet (letter n) ≡ some n
unfolding letter sextet
sextet-letter n h = ground arith

letter-visible : (n : ℕ) → n < 64 → 13 < letter n
unfolding letter
letter-visible n h = ground arith

letter-Lacks : (n : ℕ) → n < 64 → (letter n ≢ b':') × (letter n ≢ b';')
unfolding letter
letter-Lacks n h = ground arith

-- Every letter of an encoding is one sextet.
six : Text → List ℕ
six [] = []
six (a ∷ []) = a / 4 ∷ a % 4 * 16 ∷ []
six (a ∷ b ∷ []) = a / 4 ∷ (a % 4 * 16 + b / 16) ∷ b % 16 * 4 ∷ []
six (a ∷ b ∷ c ∷ rest) = a / 4 ∷ (a % 4 * 16 + b / 16) ∷ (b % 16 * 4 + c / 64) ∷ c % 64 ∷ six rest

letters : List ℕ → Text
letters [] = []
letters (n ∷ ns) = letter n ∷ letters ns

encode-letters : (s : Text) → encode s ≡ letters (six s)
unfolding encode six letters
encode-letters [] = refl
encode-letters (a ∷ []) = refl
encode-letters (a ∷ b ∷ []) = refl
encode-letters (a ∷ b ∷ c ∷ s) = ground (arith, encode-letters s)

six-small : (s : Text) → IsByteText s → All (λ n. n < 64) (six s)
unfolding six
six-small [] h = tt
six-small (a ∷ []) (p, _) = (omega arith, (omega arith, tt))
six-small (a ∷ b ∷ []) (p, (q, _)) = (omega arith, (omega arith, (omega arith, tt)))
six-small (a ∷ b ∷ c ∷ s) (p, (q, (r, h))) =
    (omega arith, (omega arith, (omega arith, (omega arith, six-small s h))))

octets-six : (s : Text) → IsByteText s → octets (six s) ≡ some s
unfolding six octets
octets-six [] h = refl
octets-six (a ∷ []) (p, _) = ground arith
octets-six (a ∷ b ∷ []) (p, (q, _)) = ground arith
octets-six (a ∷ b ∷ c ∷ s) (p, (q, (r, h))) = ground (arith, octets-six s h)

sextets-letters : (ns : List ℕ) → All (λ n. n < 64) ns → sextets (letters ns) ≡ some ns
unfolding sextets letters
sextets-letters [] h = refl
sextets-letters (n ∷ ns) (p, h) =
    ground (arith, letter-visible n p, sextet-letter n p, sextets-letters ns h)

length-encode : (s : Text) → decoded_len (length (encode s)) ≡ length s
unfolding decoded_len encode
length-encode [] = refl
length-encode (a ∷ []) = refl
length-encode (a ∷ b ∷ []) = refl
length-encode (a ∷ b ∷ c ∷ s) = omega (arith, length-encode s)

zeros-none : (s : Text) → s ++ zeros (length s - length s) ≡ s
unfolding zeros
zeros-none s = let none_left : length s - length s ≡ 0 = omega arith in rw none_left (append-nil s)

pub decode-encode : (s : Text) → IsByteText s → decode (encode s) ≡ some s
unfolding decode
decode-encode s h =
    let read : sextets (encode s) ≡ some (six s) =
      rw (encode-letters s) (sextets-letters (six s) (six-small s h)) in
    ground (arith, read, octets-six s h, length-encode s, zeros-none s)

letters-Lacks :
    (ns : List ℕ) → All (λ n. n < 64) ns → Lacks b':' (letters ns) × Lacks b';' (letters ns)
unfolding letters
letters-Lacks [] h = (tt, tt)
letters-Lacks (n ∷ ns) (p, h) =
    let (colon, semi) = letters-Lacks ns h in
    let (a, b) = letter-Lacks n p in ((a, colon), (b, semi))

-- An encoding holds neither separator.
pub encode-Lacks : (s : Text) → IsByteText s → Lacks b':' (encode s) × Lacks b';' (encode s)
encode-Lacks s h = rw (encode-letters s) (letters-Lacks (six s) (six-small s h))
