-- ===== src/Upstream/Tcp/Faithful.antt =====
-- internal/cftunnel/runtime/upstream_origin_proxy.go: what copyTCPStream delivers.
use cf_tunnel.Prelude.{
  ℕ, zero, suc, ◌+◌, ◌≤◌, ◌≡◌, refl, ap, sym, ◌∙◌, Option, none, some, [], ◌∷◌, ◌++◌, append_assoc,
  append-nil, length, length-append, take, drop, arith, Option-cases, inl, inr,
}
use cf_tunnel.Text.{Text}
use cf_tunnel.Upstream.Tcp.{
  Source, more, ends, Taken, CopyError, Copied, write_chunk, read_error, after_chunk, copy_stream,
}

take-drop : (n : ℕ) (p : Text) → take n p ++ drop n p ≡ p
take-drop zero p = refl
take-drop (suc n) [] = refl
take-drop (suc n) (c ∷ p) = ground (arith, take-drop n p)

length-take : (n : ℕ) (p : Text) → n ≤ length p → length (take n p) ≡ n
length-take zero p h = refl
length-take (suc n) [] h = absurd (omega arith)
length-take (suc n) (c ∷ p) h = omega (arith, length-take n p (omega arith))

take-length : (p : Text) → take (length p) p ≡ p
take-length [] = refl
take-length (c ∷ p) = ground (arith, take-length p)

-- All the bytes of a source.
unfoldable pub content : {E : Type 0} → Source E → Text
content (more p source) = p ++ content source
content (ends p e) = p

unfoldable pub end_of : {E : Type 0} → Source E → Option E
end_of (more p source) = end_of source
end_of (ends p e) = e

-- What was delivered, of what was there before and a text that is to come: all of it where there is no
-- error, and then the source ended so; a beginning of it in any case, as long as `written` says.
abbrev pub IsFaithful : {E : Type 0} → Text → ℕ → Text → Option E → Copied E → Type 0
IsFaithful before written text end out =
    (out.error ≡ none → (out.delivered ≡ before ++ text) × (end ≡ none))
    × ((rest : Text) × (out.delivered ++ rest ≡ before ++ text))
    × (out.written + length before ≡ length out.delivered + written)

IsFaithful-text :
    {E : Type 0} (before : Text) (written : ℕ) {text text' : Text} (end : Option E) (out : Copied E)
    → text ≡ text'
    → IsFaithful before written text end out
    → IsFaithful before written text' end out
IsFaithful-text before written end out e i = rw (sym e) i

module _ {E : Type 0} (writer : Text → Text → Taken E)
    (takes : (before p : Text) → (writer before p).count ≤ length p) where
  abbrev IsChunk : Text → Text → Text × ℕ × Option (CopyError E) → Type 0
  IsChunk before p c =
      (c.2 ≡ none → c.0 ≡ before ++ p)
      × ((rest : Text) × (c.0 ++ rest ≡ before ++ p))
      × (length c.0 ≡ length before + c.1)

  chunk-fine :
      (before : Text) (c : ℕ) (p : Text)
      → (write_chunk writer before (c ∷ p)).2 ≡ none
      → (writer before (c ∷ p)).count ≡ length (c ∷ p)
  unfolding write_chunk
  chunk-fine before c p fine = elim (Option-cases (writer before (c ∷ p)).error) [
    | inl e ↦ ground arith
    | inr (reason, e) ↦ ground arith
  ]

  write_chunk-IsChunk : (before p : Text) → IsChunk before p (write_chunk writer before p)
  unfolding write_chunk
  write_chunk-IsChunk before [] = ((λ _. sym (append-nil before)), ([], refl), omega arith)
  write_chunk-IsChunk before (c ∷ p) =
      let n = (writer before (c ∷ p)).count in
      (
        (λ fine.
            ap (λ t. before ++ t)
              (ap (λ k. take k (c ∷ p)) (chunk-fine before c p fine) ∙ take-length (c ∷ p))),
        (
          drop n (c ∷ p),
          append_assoc before (take n (c ∷ p)) (drop n (c ∷ p))
              ∙ ap (λ t. before ++ t) (take-drop n (c ∷ p)),
        ),
        length-append before (take n (c ∷ p))
            ∙ ap (λ k. length before + k) (length-take n (c ∷ p) (takes before (c ∷ p))),
      )

  after-IsFaithful :
      (before p text : Text) (end : Option E) (written : ℕ) (c : Text × ℕ × Option (CopyError E))
      (next : Text → ℕ → Copied E)
      → IsChunk before p c
      → ((d : Text) (w : ℕ) → IsFaithful d w text end (next d w))
      → IsFaithful before written (p ++ text) end (after_chunk writer written c next)
  unfolding after_chunk
  after-IsFaithful before p text end written (d, n, some reason) next (_, (rest, begins), len) go =
      (
        (λ fine. ground arith),
        (
          rest ++ text,
          sym (append_assoc d rest text) ∙ ap (λ t. t ++ text) begins ∙ append_assoc before p text,
        ),
        omega arith,
      )
  after-IsFaithful before p text end written (d, n, none) next (whole, _, len) go =
      let (all, (rest, begins), total) = go d (written + n) in
      let same : d ++ text ≡ before ++ (p ++ text) =
        ap (λ t. t ++ text) (whole refl) ∙ append_assoc before p text in
      ((λ fine. let (e, k) = all fine in (e ∙ same, k)), (rest, begins ∙ same), omega arith)

  end-IsFaithful :
      (e : Option E) (d : Text) (w : ℕ)
      → IsFaithful d w [] e (record { delivered = d; written = w; error = read_error writer e })
  unfolding read_error
  end-IsFaithful none d w = ((λ _. (sym (append-nil d), refl)), ([], refl), omega arith)
  end-IsFaithful (some e) d w = ((λ fine. ground arith), ([], refl), omega arith)

  -- For a writer that takes no more bytes than it is given: copyTCPStream delivers a beginning of
  -- what the source holds, in order and without gaps, and the count that it returns is its length;
  -- where it ends without an error, it has delivered all of it, and the source was at its end.
  pub copy-IsFaithful :
      (before : Text) (written : ℕ) (source : Source E)
      → IsFaithful before written
          (content source)
          (end_of source)
          (copy_stream writer before written source)
  unfolding copy_stream content end_of
  copy-IsFaithful before written (ends p e) = IsFaithful-text before written e _ (append-nil p) (
      after-IsFaithful before p [] e written (write_chunk writer before p) _
        (write_chunk-IsChunk before p) (end-IsFaithful e))
  copy-IsFaithful before written (more p source) =
      after-IsFaithful before p (content source) (end_of source) written
        (write_chunk writer before p) _ (write_chunk-IsChunk before p)
        (λ d w. copy-IsFaithful d w source)
