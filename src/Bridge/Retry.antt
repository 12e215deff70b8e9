-- ===== src/Bridge/Retry.antt =====
-- internal/cftunnel/runtime/runner.go: the retry budget of one connection.
use cf_tunnel.Prelude.{
  ℕ, zero, suc, ◌+◌, ◌*◌, ◌^◌, ◌≤◌, ◌<◌, ◌≡◌, ◌≢◌, refl, inl, inr, true, false, Option, none, some,
  Option-cases, List, [], ◌∷◌, get_elem?, All, ℤ, pos, arith, if◌then◌else◌,
}
use native.Mathlib.Numerals.{add-one}
use cf_tunnel.Text.{Text}
use cf_tunnel.Edge.Pool.{Pool, bound}
use cf_tunnel.Edge.Pool.Bindings.{bound-addr_for, bound-rotate}
use cf_tunnel.Bridge.{
  Settings, failed, Lookup, Attempt, ask_address, after_connection, Verdict, exhausted, RetryState,
  retry_start, rotate_edge_address, after_failure, retry_round, run_connection_with_retry,
  backoff_duration,
}
use cf_tunnel.Bridge.Backoff.{backoff_duration-min, min, pow-pos, pow-past}

-- An attempt that asks for its address as it may and fails before the edge accepted it, with the context alive.
abbrev pub dropped : {A E : Type 0} → Lookup A E × E → Attempt A E
dropped (l, e) = record {
  lookup = l;
  outcome = failed e;
  did_connect = false;
  cancelled = false;
  cancelled_wait = false;
}

abbrev pub dropped_all : {A E : Type 0} → List (Lookup A E × E) → List (Attempt A E)
dropped_all [] = []
dropped_all (e ∷ es) = dropped e ∷ dropped_all es

-- The verdict for the error that is one too many, if there is one.
abbrev pub exhausted_by : {A E : Type 0} → ℕ → ℕ → Option (Lookup A E × E) → Option (Verdict E)
exhausted_by i m none = none
exhausted_by i m (some (l, e)) = some (exhausted i (pos m) e)

-- An attempt that served before it failed, with the context alive.
abbrev pub served : {A E : Type 0} → Lookup A E × E → Attempt A E
served (l, e) = record {
  lookup = l;
  outcome = failed e;
  did_connect = true;
  cancelled = false;
  cancelled_wait = false;
}

abbrev pub served_all : {A E : Type 0} → List (Lookup A E × E) → List (Attempt A E)
served_all [] = []
served_all (e ∷ es) = served e ∷ served_all es

abbrev pub settings : ℕ → ℤ → ℤ → Settings
settings m base cap = record { max_conn_retries = pos m; backoff_base = base; backoff_cap = cap }

module _ {A E : Type 0} (addr_string : A → Text) (base cap : ℤ) (m i : ℕ) where
  drops_from :
      (es : List (Lookup A E × E)) (s : RetryState A) (left : ℕ)
      → s.attempts + left ≡ m
      → (run_connection_with_retry addr_string (settings m base cap) i (dropped_all es) s).0
        ≡ exhausted_by i m (get_elem? es left)
  unfolding run_connection_with_retry retry_round after_connection after_failure
  drops_from [] s left h = refl
  drops_from ((l, e) ∷ es) s zero h = ground arith
  drops_from ((l, e) ∷ es) s (suc left) h = ground (
    arith,
    drops_from es
        (record {
          attempts = s.attempts + 1;
          edge_pool =
              rotate_edge_address addr_string (settings m base cap) i
                (ask_address addr_string (settings m base cap) i l s.edge_pool);
          waits = backoff_duration (settings m base cap) (pos (s.attempts + 1)) ∷ s.waits;
        })
        left (omega (arith, h)),
  )

  -- A connection that the edge never accepts is tried m + 1 times, m the retry budget: with at
  -- most m failures the loop goes on, and failure m + 1 ends it with the error of that very
  -- failure.
  pub run_connection_with_retry-dropped_all :
      (es : List (Lookup A E × E)) (pool : Option (Pool A))
      → (run_connection_with_retry addr_string
          (settings m base cap)
          i
          (dropped_all es)
          (retry_start pool)).0
        ≡ exhausted_by i m (get_elem? es m)
  run_connection_with_retry-dropped_all es pool = drops_from es (retry_start pool) m (omega arith)

  retry_round-served :
      (e : Lookup A E × E) (s : RetryState A)
      → 0 < m
      → let (verdict, s') = retry_round addr_string (settings m base cap) i (served e) s in
        (verdict ≡ none) × (s'.attempts ≡ 1)
  unfolding retry_round after_connection after_failure
  retry_round-served e s h = ground arith

  -- Where every attempt serves before it fails, a budget of at least one retry never runs out: the
  -- loop goes on, and its counter stands at one.
  pub run_connection_with_retry-served_all :
      (e : Lookup A E × E) (es : List (Lookup A E × E)) (s : RetryState A)
      → 0 < m
      → let (verdict, s') =
          run_connection_with_retry addr_string (settings m base cap) i (served_all (e ∷ es)) s in
        (verdict ≡ none) × (s'.attempts ≡ 1)
  unfolding run_connection_with_retry
  run_connection_with_retry-served_all e [] s h = ground (arith, retry_round-served e s h)
  run_connection_with_retry-served_all e (d ∷ es) s h =
      let (go_on, _) = retry_round-served e s h in
      rw (go_on, run_connection_with_retry)
        (run_connection_with_retry-served_all d es
          (retry_round addr_string (settings m base cap) i (served e) s).1 h)

module _ {A E : Type 0} (addr_string : A → Text) (r : Settings) (i : ℕ)
    (P : RetryState A → Type 0) where
  -- What every round keeps holds where the loop stands.
  run_keeps :
      ((a : Attempt A E) (s : RetryState A) → P s → P (retry_round addr_string r i a s).1)
      → (attempts : List (Attempt A E)) (s : RetryState A) → P s
      → P (run_connection_with_retry addr_string r i attempts s).1
  unfolding run_connection_with_retry
  run_keeps keeps [] s p = p
  run_keeps keeps (a ∷ rest) s p =
      let next = keeps a s p in
      elim (Option-cases (retry_round addr_string r i a s).0) [
        | inl go_on ↦
            rw (go_on, run_connection_with_retry)
              (run_keeps keeps rest (retry_round addr_string r i a s).1 next)
        | inr (v, over) ↦ rw (over, run_connection_with_retry) next
      ]

-- A wait between two bounds.
abbrev pub Between : ℕ → ℕ → ℤ → Type 0
Between b c w = (n : ℕ) × (w ≡ pos n) × (b ≤ n) × (n ≤ c)

module _ (m b c : ℕ) (b0 : 0 < b) (bc : b ≤ c) (ch : c < 2 ^ 62) where
  backoff_duration-Between :
      (n : ℕ) → Between b c (backoff_duration (settings m (pos b) (pos c)) (pos (n + 1)))
  backoff_duration-Between n =
      rw
        (
          add-one n,
          backoff_duration-min (pos m) b c n b0 (omega (arith, bc, ch)) (omega (arith, b0, bc)) ch,
        )
        (min (b * 2 ^ n) c, refl, ground (arith, pow-past b (2 ^ n) (pow-pos n)), ground arith)

module _ {A : Type 0} (addr_string : A → Text) where
  -- With a base that is positive and at most the cap, and a cap below 2^62 nanoseconds, every wait
  -- between two attempts is at least the base and at most the cap, whatever the attempts come to.
  pub run_connection_with_retry-Between :
      {E : Type 0} (m b c i : ℕ) (attempts : List (Attempt A E)) (pool : Option (Pool A))
      → 0 < b
      → b ≤ c
      → c < 2 ^ 62
      → All
          (Between b c)
          (run_connection_with_retry addr_string
            (settings m (pos b) (pos c))
            i
            attempts
            (retry_start pool)).1.waits
  unfolding retry_round after_connection after_failure
  run_connection_with_retry-Between m b c i attempts pool b0 bc ch =
      run_keeps addr_string (settings m (pos b) (pos c)) i (λ s. All (Between b c) s.waits)
        (λ a s k. ground (
          arith,
          backoff_duration-Between m b c b0 bc ch (if a.did_connect then 0 else s.attempts),
        ))
        attempts (retry_start pool) tt

-- The address that an index holds in a pool that may be missing.
abbrev pub held_by : {A : Type 0} → ℕ → Option (Pool A) → Option A
held_by j none = none
held_by j (some p) = bound j p.used_by

module _ {A : Type 0} (addr_string : A → Text) where
  held_by-ask_address :
      {E : Type 0} (r : Settings) (i j : ℕ) (l : Lookup A E) (pool : Option (Pool A))
      → i ≢ j
      → held_by j (ask_address addr_string r i l pool) ≡ held_by j pool
  unfolding ask_address
  held_by-ask_address r i j l none ne = refl
  held_by-ask_address r i j none (some p) ne = refl
  held_by-ask_address r i j (some resolve) (some p) ne = bound-addr_for addr_string resolve i j p ne

  held_by-rotate :
      (r : Settings) (i j : ℕ) (pool : Option (Pool A))
      → i ≢ j
      → held_by j (rotate_edge_address addr_string r i pool) ≡ held_by j pool
  unfolding rotate_edge_address
  held_by-rotate r i j none ne = refl
  held_by-rotate r i j (some p) ne = bound-rotate addr_string i j p ne

  -- Whatever its attempts come to, and whether they ask the pool for an address or not, the retry
  -- loop of one connection never changes the edge address that the pool holds for another one.
  pub run_connection_with_retry-held_by :
      {E : Type 0} (r : Settings) (i j : ℕ) (attempts : List (Attempt A E)) (s : RetryState A)
      → i ≢ j
      → held_by j (run_connection_with_retry addr_string r i attempts s).1.edge_pool
        ≡ held_by j s.edge_pool
  unfolding retry_round after_connection after_failure
  run_connection_with_retry-held_by r i j attempts s ne =
      run_keeps addr_string r i (λ t. held_by j t.edge_pool ≡ held_by j s.edge_pool)
        (λ a t k.
          let asked = ask_address addr_string r i a.lookup t.edge_pool in
          ground (
            arith,
            held_by-ask_address r i j a.lookup t.edge_pool ne,
            held_by-rotate r i j asked ne,
          ))
        attempts s refl
