-- ===== src/Edge/Pool/Trace.antt =====
-- internal/cftunnel/runtime/edge_pool.go: sequences of addrFor and rotate, in any interleaving of the
-- connections.
use cf_tunnel.Prelude.{
  ℕ, ◌≡◌, ◌≢◌, ◌<◌, ◌∙◌, true, Option, some, List, [], ◌∷◌, Result, arith, All, if◌then◌else◌, inl,
  inr, Bool-cases,
}
use cf_tunnel.Text.{Text}
use cf_tunnel.Edge.Pool.{
  Pool, is_nil, bound, ensure_resolved, after_resolve, assign, addr_for, rotate,
}
use cf_tunnel.Edge.Pool.Held.{Apart, Apart-ne}
use cf_tunnel.Edge.Pool.Distinct.{Ample, assign-Apart, rotate-Apart}

-- One operation of a connection; the resolver's answer is there for the case that it is asked.
pub data Op (A E : Type 0) : Type 0 where
  ask : Option (Result E (List A)) → ℕ → Op A E
  turn : ℕ → Op A E

module _ {A E : Type 0} where
  abbrev pub index_of : Op A E → ℕ
  index_of (ask _ i) = i
  index_of (turn i) = i

  module _ (addr_string : A → Text) where
    unfoldable pub step : Op A E → Pool A → Pool A
    step (ask resolve i) p = (addr_for addr_string resolve i p).1
    step (turn i) p = rotate addr_string i p

    unfoldable pub run : List (Op A E) → Pool A → Pool A
    run [] p = p
    run (op ∷ ops) p = run ops (step op p)

module _ {A : Type 0} (addr_string : A → Text) where
  -- What every step keeps of a pool that is resolved.
  record Good (n : ℕ) (p : Pool A) : Type 0 where
    resolved : p.resolved ≡ true
    ample : Ample addr_string n p
    apart : Apart addr_string n p.used_by

  Good-of :
      (n : ℕ) (p q : Pool A)
      → Good n p
      → (q.resolved ≡ p.resolved) × (q.addrs ≡ p.addrs)
      → Apart addr_string n q.used_by
      → Good n q
  Good-of n p q g (r, a) apart = record {
    resolved = r ∙ g.resolved;
    ample = record { distinct = rw a g.ample.distinct; enough = rw a g.ample.enough };
    apart = apart;
  }

  assign_frame :
      (E : Type 0) (i : ℕ) (p : Pool A)
      → ((assign addr_string {E = E} i p).1.resolved ≡ p.resolved)
        × ((assign addr_string {E = E} i p).1.addrs ≡ p.addrs)
  unfolding assign
  assign_frame E i p = ground arith

  rotate_frame :
      (i : ℕ) (p : Pool A)
      → ((rotate addr_string i p).resolved ≡ p.resolved)
        × ((rotate addr_string i p).addrs ≡ p.addrs)
  unfolding rotate
  rotate_frame i p = ground arith

  -- On a resolved pool addrFor is `assign`, or fails for want of an address.
  addr_for_resolved :
      {E : Type 0} (resolve : Option (Result E (List A))) (i : ℕ) (p : Pool A)
      → p.resolved ≡ true
      → (addr_for addr_string resolve i p).1
        ≡ (if is_nil p.addrs then p else (assign addr_string {E = E} i p).1)
  unfolding addr_for ensure_resolved after_resolve
  addr_for_resolved resolve i p r = ground arith

  step-Good :
      {E : Type 0} (n : ℕ) (op : Op A E) (p : Pool A)
      → index_of op < n
      → Good n p
      → Good n (step addr_string op p)
  unfolding step
  step-Good n (turn i) p lt g =
      Good-of n p (rotate addr_string i p) g (rotate_frame i p)
        (rotate-Apart addr_string n i p lt g.apart)
  step-Good {E} n (ask resolve i) p lt g = elim (Bool-cases (is_nil p.addrs)) [
    | inl empty ↦ rw (addr_for_resolved resolve i p g.resolved, empty) g
    | inr full ↦
        rw (addr_for_resolved resolve i p g.resolved, full)
          (Good-of n p (assign addr_string {E = E} i p).1 g (assign_frame E i p)
            (assign-Apart addr_string E n i p lt g.ample g.apart))
  ]

  run-Good :
      {E : Type 0} (n : ℕ) (ops : List (Op A E)) (p : Pool A)
      → All (λ op. index_of op < n) ops
      → Good n p
      → Good n (run addr_string ops p)
  unfolding run
  run-Good n [] p lt g = g
  run-Good n (op ∷ ops) p (l, lt) g =
      run-Good n ops (step addr_string op p) lt (step-Good n op p l g)

  -- In a resolved pool with no bindings yet and at least as many addresses, all of different text,
  -- as there are connections, any sequence of addrFor and rotate leaves any two connections that
  -- are bound on different addresses.
  pub run_distinct :
      {E : Type 0} (n : ℕ) (ops : List (Op A E)) (p : Pool A) (i j : ℕ) (a b : A)
      → p.resolved ≡ true
      → p.used_by ≡ []
      → Ample addr_string n p
      → All (λ op. index_of op < n) ops
      → i ≢ j
      → bound i (run addr_string ops p).used_by ≡ some a
      → bound j (run addr_string ops p).used_by ≡ some b
      → addr_string a ≢ addr_string b
  run_distinct n ops p i j a b r fresh ample lt ne e f =
      let start : Good n p = record {
        resolved = r;
        ample = ample;
        apart = rw fresh (record { keys_below = tt; keys_once = tt; held_once = tt });
      } in
      Apart-ne addr_string n (run addr_string ops p).used_by i j a b
        (run-Good n ops p lt start).apart ne e f
