-- ===== src/Edge/Pool/Held.antt =====
-- internal/cftunnel/runtime/edge_pool.go: bindings under which every index has an address of its own.
use cf_tunnel.Prelude.{
  ℕ, suc, ◌==◌, ◌≡◌, ◌≢◌, ◌<◌, refl, sym, ap, ◌∙◌, true, false, some, List, [], ◌∷◌, length, arith,
  inl, inr, Bool-cases, All, IsDistinct, has,
}
use cf_tunnel.Text.{Text, text_eq}
use cf_tunnel.Text.Laws.{text_eq_iff, text_eq_refl}
use cf_tunnel.Edge.Pool.{in_use, bound, release, bind}

module _ {A : Type 0} (addr_string : A → Text) where
  abbrev pub strings : List A → List Text
  strings [] = []
  strings (a ∷ addrs) = addr_string a ∷ strings addrs

  abbrev pub keys : List (ℕ × A) → List ℕ
  keys [] = []
  keys ((i, a) ∷ m) = i ∷ keys m

  abbrev pub held : List (ℕ × A) → List Text
  held [] = []
  held ((i, a) ∷ m) = addr_string a ∷ held m

  -- Every connection index is below `n`, stands once, and holds an address of its own.
  pub record Apart (n : ℕ) (m : List (ℕ × A)) : Type 0 where
    pub keys_below : All (λ i. i < n) (keys m)
    pub keys_once : IsDistinct ◌==◌ (keys m)
    pub held_once : IsDistinct text_eq (held m)

  pub in_use-has : (t : Text) (m : List (ℕ × A)) → in_use addr_string t m ≡ has text_eq t (held m)
  unfolding in_use
  in_use-has t [] = refl
  in_use-has t ((i, a) ∷ m) = ground (arith, in_use-has t m)

  pub length-held : (m : List (ℕ × A)) → length (held m) ≡ length (keys m)
  length-held [] = refl
  length-held ((i, a) ∷ m) = ap suc (length-held m)

  pub length-strings : (addrs : List A) → length (strings addrs) ≡ length addrs
  length-strings [] = refl
  length-strings (a ∷ addrs) = ap suc (length-strings addrs)

  release-keys :
      (k i : ℕ) (m : List (ℕ × A))
      → has ◌==◌ k (keys m) ≡ false
      → has ◌==◌ k (keys (release i m)) ≡ false
  unfolding release
  release-keys k i [] h = refl
  release-keys k i ((j, a) ∷ m) h = ground (arith, release-keys k i m)

  pub release-held :
      (t : Text) (i : ℕ) (m : List (ℕ × A))
      → has text_eq t (held m) ≡ false
      → has text_eq t (held (release i m)) ≡ false
  unfolding release
  release-held t i [] h = refl
  release-held t i ((j, a) ∷ m) h = ground (arith, release-held t i m)

  release_gone : (i : ℕ) (m : List (ℕ × A)) → has ◌==◌ i (keys (release i m)) ≡ false
  unfolding release
  release_gone i [] = refl
  release_gone i ((j, a) ∷ m) = ground (arith, release_gone i m)

  release-below :
      (n i : ℕ) (m : List (ℕ × A))
      → All (λ k. k < n) (keys m)
      → All (λ k. k < n) (keys (release i m))
  unfolding release
  release-below n i [] h = tt
  release-below n i ((j, a) ∷ m) (p, h) = ground (arith, release-below n i m h)

  release-keys_once :
      (i : ℕ) (m : List (ℕ × A)) → IsDistinct ◌==◌ (keys m) → IsDistinct ◌==◌ (keys (release i m))
  unfolding release
  release-keys_once i [] h = tt
  release-keys_once i ((j, a) ∷ m) (p, h) =
      ground (arith, release-keys_once i m h, release-keys j i m)

  release-held_once :
      (i : ℕ) (m : List (ℕ × A))
      → IsDistinct text_eq (held m)
      → IsDistinct text_eq (held (release i m))
  unfolding release
  release-held_once i [] h = tt
  release-held_once i ((j, a) ∷ m) (p, h) =
      ground (arith, release-held_once i m h, release-held (addr_string a) i m)

  pub release-Apart : (n i : ℕ) (m : List (ℕ × A)) → Apart n m → Apart n (release i m)
  release-Apart n i m h = record {
    keys_below = release-below n i m h.keys_below;
    keys_once = release-keys_once i m h.keys_once;
    held_once = release-held_once i m h.held_once;
  }

  pub bind-Apart :
      (n i : ℕ) (a : A) (m : List (ℕ × A))
      → i < n
      → in_use addr_string (addr_string a) (release i m) ≡ false
      → Apart n m
      → Apart n (bind i a m)
  unfolding bind
  bind-Apart n i a m lt free h =
      let r = release-Apart n i m h in
      record {
        keys_below = (lt, r.keys_below);
        keys_once = (release_gone i m, r.keys_once);
        held_once = (sym (in_use-has (addr_string a) (release i m)) ∙ free, r.held_once);
      }

  bound-held :
      (i : ℕ) (a : A) (m : List (ℕ × A))
      → bound i m ≡ some a
      → has text_eq (addr_string a) (held m) ≡ true
  unfolding bound
  bound-held i a [] h = ground arith
  bound-held i a ((j, b) ∷ m) h = ground (arith, bound-held i a m, text_eq_refl (addr_string b))

  -- An address that an index held is free after its release.
  pub old_free :
      (i : ℕ) (a : A) (m : List (ℕ × A))
      → IsDistinct ◌==◌ (keys m)
      → IsDistinct text_eq (held m)
      → bound i m ≡ some a
      → in_use addr_string (addr_string a) (release i m) ≡ false
  unfolding bound release in_use
  old_free i a [] kd hd e = refl
  old_free i a ((j, b) ∷ m) (k, kd) (t, hd) e = elim (Bool-cases (j == i)) [
    | inl here ↦
        let same : b ≡ a = ground arith in
        rw here (
          in_use-has (addr_string a) (release i m)
          ∙ release-held (addr_string a) i m (rw (← same) t))
    | inr later ↦
        let found : bound i m ≡ some a = ground arith in
        let apart : text_eq (addr_string b) (addr_string a) ≡ false =
          ground (arith, text_eq_iff (addr_string b) (addr_string a), bound-held i a m found) in
        rw (later, apart) (old_free i a m kd hd found)
  ]

  held_ne :
      (m : List (ℕ × A)) (i j : ℕ) (a b : A)
      → IsDistinct text_eq (held m)
      → i ≢ j
      → bound i m ≡ some a
      → bound j m ≡ some b
      → addr_string a ≢ addr_string b
  unfolding bound
  held_ne [] i j a b h ne p q e = ground arith
  held_ne ((k, c) ∷ m) i j a b (once, h) ne p q e =
      ground (arith, held_ne m i j a b h ne, bound-held i a m, bound-held j b m)

  -- Different indices of such a map hold addresses with different texts.
  pub Apart-ne :
      (n : ℕ) (m : List (ℕ × A)) (i j : ℕ) (a b : A)
      → Apart n m
      → i ≢ j
      → bound i m ≡ some a
      → bound j m ≡ some b
      → addr_string a ≢ addr_string b
  Apart-ne n m i j a b h ne p q e = held_ne m i j a b h.held_once ne p q e
