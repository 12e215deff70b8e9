-- ===== src/Quic/Message/RoundTrip.antt =====
-- internal/cftunnel/runtime/quic_protocol.go: ToPogs against FromPogs.
use cf_tunnel.Prelude.{
  ℕ, suc, ◌<◌, ◌≡◌, refl, ◌∙◌, List, [], ◌∷◌, length, Result, ok, >>=-eq-ok, arith,
}
use cf_tunnel.Quic.Message.{
  Metadata, ConnectRequest, ConnectResponse, Capnp, write_metadata, read_metadata, write_request,
  read_request, write_response, read_response,
}

module _ {M E : Type 0} (C : Capnp M E) where
  -- What the loop leaves alone: the text, the type, the length and the entries below.
  abbrev IsKept : ℕ → M → M → Type 0
  IsKept i m n =
      (C.get_text n ≡ C.get_text m)
      × (C.get_type n ≡ C.get_type m)
      × (C.metadata_len n ≡ C.metadata_len m)
      × ((j : ℕ) → j < i → (C.get_key j n ≡ C.get_key j m) × (C.get_val j n ≡ C.get_val j m))

  same_message : (i : ℕ) (m n : M) → ◌≡◌ {A = Result E M} (ok m) (ok n) → IsKept i m n
  same_message i m n h =
      let same : n ≡ m = ground arith in rw same (refl, refl, refl, (λ j _. (refl, refl)))

  write_metadata-lem :
      (i : ℕ) (entries : List Metadata) (m : M) {n : M}
      → write_metadata C i entries m ≡ ok n
      → IsKept i m n × (read_metadata C i (length entries) n ≡ ok entries)
  unfolding write_metadata read_metadata
  write_metadata-lem i [] m {n = n} h = (same_message i m n h, refl)
  write_metadata-lem i (entry ∷ entries) m {n = n} h =
      let (p, keyed, h') = >>=-eq-ok (C.set_key i entry.key m) _ h in
      let (q, valued, h'') = >>=-eq-ok (C.set_val i entry.val p) _ h' in
      let ((text, type, len, below), rest) = write_metadata-lem (suc i) entries q h'' in
      let (key, val) = below i (omega arith) in
      let read_key : C.get_key i n ≡ ok entry.key =
        key ∙ C.key-val i i entry.val p valued ∙ C.key-set i entry.key m keyed in
      let read_val : C.get_val i n ≡ ok entry.val = val ∙ C.val-set i entry.val p valued in
      (
        (
          text ∙ C.text-val i entry.val p valued ∙ C.text-key i entry.key m keyed,
          type ∙ C.type-val i entry.val p valued ∙ C.type-key i entry.key m keyed,
          len ∙ C.len-val i entry.val p valued ∙ C.len-key i entry.key m keyed,
          (λ j low.
              let (k, v) = below j (omega arith) in
              (
                k
                    ∙ C.key-val i j entry.val p valued
                    ∙ C.key-other i j entry.key m keyed (λ e. omega arith),
                v
                    ∙ C.val-other i j entry.val p valued (λ e. omega arith)
                    ∙ C.val-key i j entry.key m keyed,
              )),
        ),
        rw (read_key, read_val, rest) refl,
      )

  -- A connect request that ToPogs writes is read back by FromPogs as it was: destination, type,
  -- and metadata in order, however many there are and with keys that stand twice.
  pub read-write_request :
      (r : ConnectRequest) {m : M} → write_request C r ≡ ok m → read_request C m ≡ ok r
  unfolding write_request read_request
  read-write_request r h =
      let (root, _, h') = >>=-eq-ok C.new_root _ h in
      let (named, set, h'') = >>=-eq-ok (C.set_text r.dest root) _ h' in
      let (listed, made, filled) =
        >>=-eq-ok (C.new_metadata (length r.metadata) (C.set_type r.conn_type named)) _ h'' in
      let ((text, type, len, _), rest) = write_metadata-lem 0 r.metadata listed filled in
      let typed = C.set_type r.conn_type named in
      let read_text =
        text
        ∙ C.text-new (length r.metadata) typed made
        ∙ C.text-type r.conn_type named
        ∙ C.text-set r.dest root set in
      let read_type =
        type ∙ C.type-new (length r.metadata) typed made ∙ C.type-set r.conn_type named in
      let read_len = len ∙ C.len-new (length r.metadata) typed made in
      rw (read_text, read_type, read_len, rest) refl

  -- A connect response that ToPogs writes is read back by FromPogs as it was.
  pub read-write_response :
      (r : ConnectResponse) {m : M} → write_response C r ≡ ok m → read_response C m ≡ ok r
  unfolding write_response read_response
  read-write_response r h =
      let (root, _, h') = >>=-eq-ok C.new_root _ h in
      let (named, set, h'') = >>=-eq-ok (C.set_text r.error root) _ h' in
      let (listed, made, filled) = >>=-eq-ok (C.new_metadata (length r.metadata) named) _ h'' in
      let ((text, _, len, _), rest) = write_metadata-lem 0 r.metadata listed filled in
      let read_text =
        text ∙ C.text-new (length r.metadata) named made ∙ C.text-set r.error root set in
      let read_len = len ∙ C.len-new (length r.metadata) named made in
      rw (read_text, read_len, rest) refl
