-- ===== src/Edge/Pool/Distinct.antt =====
-- internal/cftunnel/runtime/edge_pool.go: with at least as many distinct addresses as connections,
-- no two connections share an address, whatever they ask for and in whatever order.
use cf_tunnel.Prelude.{
  ℕ, zero, suc, ◌==◌, ◌≡◌, ◌≢◌, ◌↔◌, ◌<◌, ◌≤◌, refl, sym, ap, ◌∙◌, Bool, true, false, ◌||◌, not,
  Option, none, some, List, [], ◌∷◌, length, find, ◌<|>◌, arith, inl, inr, Bool-cases, Option-cases,
  All, All-map, IsDistinct, has, pigeonhole,
}
use cf_tunnel.Text.{Text, text_eq}
use cf_tunnel.Text.Laws.{text_eq_iff}
use cf_tunnel.Edge.Pool.{
  Pool, is_nil, is_excluded, in_use, bound, release, assign, unused_addr, choose, rotate,
}
use cf_tunnel.Edge.Pool.Held.{
  strings, keys, held, Apart, in_use-has, length-held, length-strings, release-held, release-Apart,
  bind-Apart, old_free,
}

abbrev below : ℕ → List ℕ
below zero = []
below (suc n) = n ∷ below n

length-below : (n : ℕ) → length (below n) ≡ n
length-below zero = refl
length-below (suc n) = ap suc (length-below n)

has-below : (i n : ℕ) → i < n → has ◌==◌ i (below n) ≡ true
has-below i zero h = absurd (omega arith)
has-below i (suc n) h = ground (arith, has-below i n)

nat_eq_iff : (a b : ℕ) → (a == b ≡ true) ↔ (a ≡ b)
nat_eq_iff a b = ground arith

module _ {A : Type 0} (addr_string : A → Text) where
  -- If all addresses are in use, they are no more than the bindings.
  All-used :
      (addrs : List A) (m : List (ℕ × A))
      → find (λ a. not (in_use addr_string (addr_string a) m || false)) addrs ≡ none
      → All (λ t. has text_eq t (held addr_string m) ≡ true) (strings addr_string addrs)
  All-used [] m h = tt
  All-used (a ∷ addrs) m h =
      ground (arith, All-used addrs m, in_use-has addr_string (addr_string a) m)

  -- What find returns passes the test.
  find-passes : (p : A → Bool) (addrs : List A) (a : A) → find p addrs ≡ some a → p a ≡ true
  find-passes p [] a h = ground arith
  find-passes p (b ∷ addrs) a h = ground (arith, find-passes p addrs a)

  -- An address that unusedAddrLocked returns is bound to no index.
  unused_free :
      (exclude : Option A) (p : Pool A) (a : A)
      → unused_addr addr_string exclude p ≡ some a
      → in_use addr_string (addr_string a) p.used_by ≡ false
  unfolding unused_addr
  unused_free exclude p a e =
      let passes =
        find-passes
          (λ a. not (
            in_use addr_string (addr_string a) p.used_by
            || is_excluded addr_string exclude (addr_string a)))
          p.addrs a e in
      ground arith

  unbound_lem :
      (i : ℕ) (m : List (ℕ × A)) → bound i m ≡ none → has ◌==◌ i (keys addr_string m) ≡ false
  unfolding bound
  unbound_lem i [] h = refl
  unbound_lem i ((j, a) ∷ m) h = ground (arith, unbound_lem i m)

  -- Beside the bindings of `m` there is room for an index below `n` that has none.
  room :
      (n i : ℕ) (m : List (ℕ × A))
      → i < n
      → bound i m ≡ none
      → Apart addr_string n m
      → length (keys addr_string m) < n
  room n i m lt free h =
      let within =
        All-map (λ k. k < n) (λ k. has ◌==◌ k (below n) ≡ true) (keys addr_string m)
          (λ k. has-below k n) h.keys_below in
      let fits =
        pigeonhole ◌==◌ nat_eq_iff (i ∷ keys addr_string m) (below n)
          (unbound_lem i m free, h.keys_once) (has-below i n lt, within) in
      omega (arith, fits, length-below n)

  -- The addresses of the pool, and room for `n` connections.
  pub record Ample (n : ℕ) (p : Pool A) : Type 0 where
    pub distinct : IsDistinct text_eq (strings addr_string p.addrs)
    pub enough : n ≤ length p.addrs

  -- With room for `n` there is an unused address for an index that has none.
  unused_lem :
      (n i : ℕ) (p : Pool A)
      → i < n
      → bound i p.used_by ≡ none
      → Ample n p
      → Apart addr_string n p.used_by
      → unused_addr addr_string none p ≢ none
  unfolding unused_addr
  unused_lem n i p lt free ample h e =
      let all = All-used p.addrs p.used_by e in
      let few =
        pigeonhole text_eq text_eq_iff (strings addr_string p.addrs) (held addr_string p.used_by)
          ample.distinct all in
      let r = room n i p.used_by lt free h in
      let enough = ample.enough in
      absurd (
        omega (
          arith,
          few,
          r,
          enough,
          length-held addr_string p.used_by,
          length-strings addr_string p.addrs,
        ))

  free_after_release :
      (t : Text) (i : ℕ) (m : List (ℕ × A))
      → in_use addr_string t m ≡ false
      → in_use addr_string t (release i m) ≡ false
  free_after_release t i m free =
      in_use-has addr_string t (release i m)
      ∙ release-held addr_string t i m (sym (in_use-has addr_string t m) ∙ free)

  pub assign-Apart :
      (E : Type 0) (n i : ℕ) (p : Pool A)
      → i < n
      → Ample n p
      → Apart addr_string n p.used_by
      → Apart addr_string n (assign addr_string {E = E} i p).1.used_by
  unfolding assign
  assign-Apart E n i p lt ample h = elim (Option-cases (bound i p.used_by)) [
    | inr (a, old) ↦ rw (old, assign) h
    | inl fresh ↦ elim (Option-cases (unused_addr addr_string none p)) [
      | inl nothing ↦ absurd (unused_lem n i p lt fresh ample h nothing)
      | inr (a, found) ↦
          let chosen : choose addr_string i p ≡ some a = unfold choose in rw found in
          rw (fresh, assign)
            (rw (chosen, assign)
              (bind-Apart addr_string n i a p.used_by lt
                (free_after_release (addr_string a) i p.used_by (unused_free none p a found)) h))
    ]
  ]

  -- What rotate binds is free among the other bindings.
  rotated_free :
      (n i : ℕ) (p : Pool A) (a : A)
      → Apart addr_string n p.used_by
      → (unused_addr addr_string (bound i p.used_by) (record p { used_by = release i p.used_by })
          <|> bound i p.used_by)
        ≡ some a
      → in_use addr_string (addr_string a) (release i p.used_by) ≡ false
  rotated_free n i p a h e =
      elim (Option-cases (
        unused_addr addr_string (bound i p.used_by) (record p { used_by = release i p.used_by }))) [
          | inl nothing ↦ old_free addr_string i a p.used_by h.keys_once h.held_once (ground arith)
          | inr (b, found) ↦
              let same : b ≡ a = ground arith in
              rw (← same) (
                unused_free (bound i p.used_by) (record p { used_by = release i p.used_by }) b
                  found)
        ]

  pub rotate-Apart :
      (n i : ℕ) (p : Pool A)
      → i < n
      → Apart addr_string n p.used_by
      → Apart addr_string n (rotate addr_string i p).used_by
  unfolding rotate
  rotate-Apart n i p lt h = elim (Bool-cases (not p.resolved || is_nil p.addrs)) [
    | inl idle ↦ rw idle h
    | inr busy ↦
        elim (Option-cases (
          unused_addr addr_string (bound i p.used_by) (record p { used_by = release i p.used_by })
          <|> bound i p.used_by)) [
            | inl nothing ↦ rw (busy, nothing) (release-Apart addr_string n i p.used_by h)
            | inr (a, chosen) ↦
                let free = rotated_free n i p a h chosen in
                rw (busy, chosen)
                  (bind-Apart addr_string n i a (release i p.used_by) lt
                    (free_after_release (addr_string a) i (release i p.used_by) free)
                    (release-Apart addr_string n i p.used_by h))
          ]
  ]
