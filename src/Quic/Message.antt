-- ===== src/Quic/Message.antt =====
-- internal/cftunnel/runtime/quic_protocol.go: the messages that open a stream of a request and that
-- answer it. Cap'n Proto is an interface: the accessors of a message, and that a getter gives
-- what was set last.
pub mod RoundTrip
use cf_tunnel.Prelude.{
  ℕ, zero, suc, ◌≡◌, ◌≢◌, Option, none, some, List, [], ◌∷◌, ltb, if◌then◌else◌, length, Result, ok,
  err, ◌>>=◌,
}
use cf_tunnel.Text.{Text, codes, text_eq}

-- runtimeMetadata
pub record Metadata : Type 0 where
  pub key : Text
  pub val : Text

-- runtimeConnectRequest; the type is the uint16 of the wire.
pub record ConnectRequest : Type 0 where
  pub dest : Text
  pub conn_type : ℕ
  pub metadata : List Metadata

-- runtimeConnectResponse
pub record ConnectResponse : Type 0 where
  pub error : Text
  pub metadata : List Metadata

-- The root of a message M that is built with NewRootConnectRequest or NewRootConnectResponse, with
-- errors E: its text (dest or error), its type and its list of metadata.
pub record Capnp (M E : Type 0) : Type 0 where
  pub new_root : Result E M
  pub set_text : Text → M → Result E M
  pub set_type : ℕ → M → M
  pub new_metadata : ℕ → M → Result E M
  pub set_key : ℕ → Text → M → Result E M
  pub set_val : ℕ → Text → M → Result E M
  pub get_text : M → Result E Text
  pub get_type : M → ℕ
  pub metadata_len : M → Result E ℕ
  pub get_key : ℕ → M → Result E Text
  pub get_val : ℕ → M → Result E Text
  pub text-set : (t : Text) (m : M) {n : M} → set_text t m ≡ ok n → get_text n ≡ ok t
  pub text-type : (k : ℕ) (m : M) → get_text (set_type k m) ≡ get_text m
  pub text-new : (k : ℕ) (m : M) {n : M} → new_metadata k m ≡ ok n → get_text n ≡ get_text m
  pub text-key : (i : ℕ) (t : Text) (m : M) {n : M} → set_key i t m ≡ ok n → get_text n ≡ get_text m
  pub text-val : (i : ℕ) (t : Text) (m : M) {n : M} → set_val i t m ≡ ok n → get_text n ≡ get_text m
  pub type-set : (k : ℕ) (m : M) → get_type (set_type k m) ≡ k
  pub type-new : (k : ℕ) (m : M) {n : M} → new_metadata k m ≡ ok n → get_type n ≡ get_type m
  pub type-key : (i : ℕ) (t : Text) (m : M) {n : M} → set_key i t m ≡ ok n → get_type n ≡ get_type m
  pub type-val : (i : ℕ) (t : Text) (m : M) {n : M} → set_val i t m ≡ ok n → get_type n ≡ get_type m
  pub len-new : (k : ℕ) (m : M) {n : M} → new_metadata k m ≡ ok n → metadata_len n ≡ ok k
  pub len-key :
      (i : ℕ) (t : Text) (m : M) {n : M} → set_key i t m ≡ ok n → metadata_len n ≡ metadata_len m
  pub len-val :
      (i : ℕ) (t : Text) (m : M) {n : M} → set_val i t m ≡ ok n → metadata_len n ≡ metadata_len m
  pub key-set : (i : ℕ) (t : Text) (m : M) {n : M} → set_key i t m ≡ ok n → get_key i n ≡ ok t
  pub key-other :
      (i j : ℕ) (t : Text) (m : M) {n : M}
      → set_key i t m ≡ ok n
      → j ≢ i
      → get_key j n ≡ get_key j m
  pub key-val :
      (i j : ℕ) (t : Text) (m : M) {n : M} → set_val i t m ≡ ok n → get_key j n ≡ get_key j m
  pub val-set : (i : ℕ) (t : Text) (m : M) {n : M} → set_val i t m ≡ ok n → get_val i n ≡ ok t
  pub val-other :
      (i j : ℕ) (t : Text) (m : M) {n : M}
      → set_val i t m ≡ ok n
      → j ≢ i
      → get_val j n ≡ get_val j m
  pub val-key :
      (i j : ℕ) (t : Text) (m : M) {n : M} → set_key i t m ≡ ok n → get_val j n ≡ get_val j m

module _ {M E : Type 0} (C : Capnp M E) where
  -- The loop of ToPogs over the metadata, from an index on.
  unfoldable pub write_metadata : ℕ → List Metadata → M → Result E M
  write_metadata i [] m = ok m
  write_metadata i (entry ∷ entries) m =
      C.set_key i entry.key m
      >>= (λ n. C.set_val i entry.val n >>= (λ p. write_metadata (suc i) entries p))

  -- The loop of FromPogs: so many entries, from an index on.
  unfoldable pub read_metadata : ℕ → ℕ → M → Result E (List Metadata)
  read_metadata i zero m = ok []
  read_metadata i (suc k) m = do
    key ← C.get_key i m
    val ← C.get_val i m
    entries ← read_metadata (suc i) k m
    ok (record { key = key; val = val } ∷ entries)

  -- runtimeConnectRequest.ToPogs
  unfoldable pub write_request : ConnectRequest → Result E M
  write_request r = do
    root ← C.new_root
    named ← C.set_text r.dest root
    listed ← C.new_metadata (length r.metadata) (C.set_type r.conn_type named)
    write_metadata 0 r.metadata listed

  -- runtimeConnectRequest.FromPogs
  unfoldable pub read_request : M → Result E ConnectRequest
  read_request m = do
    dest ← C.get_text m
    len ← C.metadata_len m
    metadata ← read_metadata 0 len m
    ok (record { dest = dest; conn_type = C.get_type m; metadata = metadata })

  -- runtimeConnectResponse.ToPogs
  unfoldable pub write_response : ConnectResponse → Result E M
  write_response r = do
    root ← C.new_root
    named ← C.set_text r.error root
    listed ← C.new_metadata (length r.metadata) named
    write_metadata 0 r.metadata listed

  -- runtimeConnectResponse.FromPogs
  unfoldable pub read_response : M → Result E ConnectResponse
  read_response m = do
    error ← C.get_text m
    len ← C.metadata_len m
    metadata ← read_metadata 0 len m
    ok (record { error = error; metadata = metadata })

-- MetadataMap: the value of a key, the last one where it stands twice.
unfoldable pub lookup : Text → List Metadata → Option Text
lookup k [] = none
lookup k (m ∷ ms) = elim (lookup k ms) [
  | some v ↦ some v
  | none ↦ if text_eq m.key k then some m.val else none
]
