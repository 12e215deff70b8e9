-- ===== src/Edge/Pool/Bindings.antt =====
-- internal/cftunnel/runtime/edge_pool.go: the map of bindings, and what each operation leaves alone.
use cf_tunnel.Prelude.{
  ℕ, ◌==◌, ◌≡◌, ◌≢◌, true, false, Option, none, some, List, [], ◌∷◌, Result, ok, err, if◌then◌else◌,
  ◌<|>◌, arith, inl, inr, Option-cases, Result-cases,
}
use cf_tunnel.Text.{Text}
use cf_tunnel.Edge.Pool.{
  Pool, is_nil, assign, bound, release, bind, ensure_resolved, after_resolve, unused_addr, choose,
  addr_for, rotate,
}

module _ {A : Type 0} where
  pub bound-release :
      (j i : ℕ) (m : List (ℕ × A)) → bound j (release i m) ≡ (if i == j then none else bound j m)
  unfolding bound release
  bound-release j i [] = ground arith
  bound-release j i ((k, a) ∷ m) = ground (arith, bound-release j i m)

  pub bound-bind :
      (j i : ℕ) (a : A) (m : List (ℕ × A))
      → bound j (bind i a m) ≡ (if i == j then some a else bound j m)
  unfolding bind bound
  bound-bind j i a m = ground (arith, bound-release j i m)

module _ {A E : Type 0} where
  pub ensure_resolved-ok :
      (resolve : Option (Result E (List A))) (p q : Pool A)
      → ensure_resolved resolve p ≡ ok q
      → (q.used_by ≡ p.used_by) × (q.resolved ≡ true) × (is_nil q.addrs ≡ false)
  unfolding ensure_resolved
  ensure_resolved-ok none p q e = ground arith
  ensure_resolved-ok (some (err w)) p q e = ground arith
  ensure_resolved-ok (some (ok addrs)) p q e = ground arith

  pub after_resolve-used_by :
      (resolve : Option (Result E (List A))) (p : Pool A)
      → (after_resolve resolve p).used_by ≡ p.used_by
  unfolding after_resolve
  after_resolve-used_by none p = ground arith
  after_resolve-used_by (some (err w)) p = ground arith
  after_resolve-used_by (some (ok addrs)) p = ground arith

  -- A resolved pool with an address stays as it is.
  pub ensure_resolved_again :
      (resolve : Option (Result E (List A))) (q : Pool A)
      → q.resolved ≡ true
      → is_nil q.addrs ≡ false
      → ensure_resolved resolve q ≡ ok q
  unfolding ensure_resolved
  ensure_resolved_again resolve q r n = ground arith

module _ {A E : Type 0} (addr_string : A → Text) where
  -- After an answer the index is bound to an address with that text, in a resolved pool.
  pub addr_for-bound :
      (resolve : Option (Result E (List A))) (i : ℕ) (p p' : Pool A) (t : Text)
      → addr_for addr_string resolve i p ≡ (ok t, p')
      → (a : A) × (bound i p'.used_by ≡ some a)
        × (addr_string a ≡ t)
        × (p'.resolved ≡ true)
        × (is_nil p'.addrs ≡ false)
  unfolding addr_for assign
  addr_for-bound resolve i p p' t e = elim (Result-cases (ensure_resolved resolve p)) [
    | inr (w, failed) ↦ absurd (ground arith)
    | inl (q, found) ↦
        let (_, resolved, full) = ensure_resolved-ok resolve p q found in
        elim (Option-cases (bound i q.used_by)) [
          | inr (a, old) ↦ (a, ground arith, ground arith, ground arith, ground arith)
          | inl fresh ↦ elim (Option-cases (choose addr_string i q)) [
            | inl nothing ↦ absurd (ground arith)
            | inr (a, chosen) ↦ (
              a,
              ground (arith, bound-bind i i a q.used_by),
              ground arith,
              ground arith,
              ground arith,
            )
          ]
        ]
  ]

  -- Once addrFor has answered, it answers the same for the index until the index is rotated,
  -- whatever the resolver would say, and nothing changes in the pool.
  pub addr_for_sticky :
      (resolve resolve' : Option (Result E (List A))) (i : ℕ) (p p' : Pool A) (t : Text)
      → addr_for addr_string resolve i p ≡ (ok t, p')
      → addr_for addr_string resolve' i p' ≡ (ok t, p')
  unfolding addr_for assign
  addr_for_sticky resolve resolve' i p p' t e =
      let (a, here, text, resolved, full) = addr_for-bound resolve i p p' t e in
      ground (arith, ensure_resolved_again resolve' p' resolved full)

  -- AddrFor leaves the bindings of the other indices alone.
  pub bound-addr_for :
      (resolve : Option (Result E (List A))) (i j : ℕ) (p : Pool A)
      → i ≢ j
      → bound j (addr_for addr_string resolve i p).1.used_by ≡ bound j p.used_by
  unfolding addr_for assign
  bound-addr_for resolve i j p ne = elim (Result-cases (ensure_resolved resolve p)) [
    | inr (w, failed) ↦ ground (arith, after_resolve-used_by resolve p)
    | inl (q, found) ↦
        let (same, _, _) = ensure_resolved-ok resolve p q found in
        elim (Option-cases (choose addr_string i q)) [
          | inl nothing ↦ ground arith
          | inr (a, chosen) ↦ ground (arith, bound-bind j i a q.used_by)
        ]
  ]

module _ {A : Type 0} (addr_string : A → Text) where
  -- rotate leaves the bindings of the other indices alone.
  pub bound-rotate :
      (i j : ℕ) (p : Pool A) → i ≢ j → bound j (rotate addr_string i p).used_by ≡ bound j p.used_by
  unfolding rotate
  bound-rotate i j p ne =
      let freed = record p { used_by = release i p.used_by } in
      elim (Option-cases
        (unused_addr addr_string (bound i p.used_by) freed <|> bound i p.used_by)) [
          | inl nothing ↦ ground (arith, bound-release j i p.used_by)
          | inr (a, chosen) ↦
              ground (arith, bound-release j i p.used_by, bound-bind j i a (release i p.used_by))
        ]
