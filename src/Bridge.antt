-- ===== src/Bridge.antt =====
-- internal/cftunnel/runtime/runner.go: the bridge that keeps the connections of a session alive. An
-- instance, the resolver's pool and the edge are outside: what one attempt comes to is an argument.
-- A list of attempts stands for the rounds of the retry loop. Durations are int64 nanoseconds.
pub mod Backoff
pub mod Retry
pub mod Fuses
pub mod Supervise
use cf_tunnel.Prelude.{
  ℕ, zero, suc, ◌+◌, ◌-◌, ◌*◌, ◌%◌, ◌^◌, Bool, true, false, ◌&&◌, ◌||◌, not, Option, none, some,
  List, [], ◌∷◌, ◌++◌, Result, ok, err, ℤ, pos, negsuc, ltb_ℤ, leb_ℤ, of_bits64, bits64,
  if◌then◌else◌,
}
use cf_tunnel.Text.{Text}
use cf_tunnel.Edge.Pool.{Pool, addr_for, rotate}

-- The fields of BridgeRunner that the retry loop reads.
pub record Settings : Type 0 where
  pub max_conn_retries : ℤ
  pub backoff_base : ℤ
  pub backoff_cap : ℤ

-- NewBridgeRunner
abbrev pub default_settings : Settings
default_settings = record {
  max_conn_retries = pos 5;
  backoff_base = pos 1000000000;
  backoff_cap = pos 15000000000;
}

-- normalizeHAConnections
unfoldable pub normalize_ha_connections : ℤ → ℕ
normalize_ha_connections (negsuc _) = 1
normalize_ha_connections (pos zero) = 1
normalize_ha_connections (pos (suc n)) = if ltb_ℤ (pos 256) (pos (suc n)) then 256 else suc n

-- delay *= 2
abbrev pub double : ℤ → ℤ
double d = of_bits64 (bits64 d * 2 % 2 ^ 64)

-- The loop of backoffDuration, with the rounds that are left, and what stands behind it.
unfoldable pub backoff_loop : ℤ → ℕ → ℤ → ℤ
backoff_loop cap zero delay = if ltb_ℤ (pos 0) cap && ltb_ℤ cap delay then cap else delay
backoff_loop cap (suc n) delay =
    let rest = backoff_loop cap n (double delay) in
    if ltb_ℤ (pos 0) cap && leb_ℤ cap (double delay) then cap else rest

-- The rounds from 1 below the attempt; an attempt below 1 counts as 1.
abbrev pub rounds : ℤ → ℕ
rounds (negsuc _) = 0
rounds (pos n) = n - 1

-- backoffDuration
unfoldable pub backoff_duration : Settings → ℤ → ℤ
backoff_duration r attempt =
    if leb_ℤ r.backoff_base (pos 0)
    then pos 0
    else backoff_loop r.backoff_cap (rounds attempt) r.backoff_base

-- What runConnectionWithConnectedFuse returns: nil, a nonRetryableError, or another error.
pub data Outcome (E : Type 0) : Type 0 where
  ended : Outcome E
  non_retryable failed : E → Outcome E

-- What the instance factory answers: an instance without or with an HTTP/2 server.
pub data Built (E : Type 0) : Type 0 where
  not_built : E → Built E
  plain http2_server : Built E

-- What an error of a run stands for.
unfoldable pub run_outcome : {E : Type 0} → Option E → Outcome E
run_outcome none = ended
run_outcome (some e) = failed e

-- runConnectionWithConnectedFuse: `local` is LocalEdgeDriver, `driver` the error of
-- NewHTTP2LocalEdgeDriver, `driven` and `run` the errors of the driver's and of the instance's Run.
unfoldable pub run_connection :
    {E : Type 0} → Bool → Built E → Option E → Option E → Option E → Outcome E
unfolding run_outcome
run_connection local (not_built e) driver driven run = non_retryable e
run_connection local plain driver driven run = run_outcome run
run_connection false http2_server driver driven run = run_outcome run
run_connection true http2_server (some e) driven run = non_retryable e
run_connection true http2_server none driven run = run_outcome driven

-- The resolver of the shared pool, nil or with what it gives, where a connection comes to ask for its
-- address; `none` where it does not.
abbrev pub Lookup : Type 0 → Type 0 → Type 0
Lookup A E = Option (Option (Result E (List A)))

-- One round of the loop: whether and with what it asks for an address, what the connection came to,
-- whether the fuse was told that it connected, and whether the context is done behind the
-- connection and behind the wait.
pub record Attempt (A E : Type 0) : Type 0 where
  pub lookup : Lookup A E
  pub outcome : Outcome E
  pub did_connect : Bool
  pub cancelled : Bool
  pub cancelled_wait : Bool

pub data Verdict (E : Type 0) : Type 0 where
  cancelled finished : Verdict E
  gave_up : E → Verdict E
  exhausted : ℕ → ℤ → E → Verdict E

-- The loop's counter, the shared pool if there is one, and the waits so far, the last one first.
pub record RetryState (A : Type 0) : Type 0 where
  pub attempts : ℕ
  pub edge_pool : Option (Pool A)
  pub waits : List ℤ

module _ {A : Type 0} (addr_string : A → Text) (r : Settings) (conn_index : ℕ) where
  -- rotateEdgeAddress
  unfoldable pub rotate_edge_address : Option (Pool A) → Option (Pool A)
  rotate_edge_address none = none
  rotate_edge_address (some p) = some (rotate addr_string conn_index p)

  module _ {E : Type 0} where
    -- addrFor of the pool that edgeProviderForConnIndex hands to the connection
    unfoldable pub ask_address : Lookup A E → Option (Pool A) → Option (Pool A)
    ask_address l none = none
    ask_address none (some p) = some p
    ask_address (some resolve) (some p) = some (addr_for addr_string resolve conn_index p).1

    -- What runConnectionWithRetry does with a failure.
    unfoldable pub after_failure :
        Attempt A E → E → RetryState A → Option (Verdict E) × RetryState A
    after_failure a e s =
        let attempts = (if a.did_connect then 0 else s.attempts) + 1 in
        if ltb_ℤ r.max_conn_retries (pos attempts)
        then (some (exhausted conn_index r.max_conn_retries e), record s { attempts = attempts })
        else (
          if a.cancelled_wait then some cancelled else none,
          record {
            attempts = attempts;
            edge_pool = rotate_edge_address s.edge_pool;
            waits = backoff_duration r (pos attempts) ∷ s.waits;
          },
        )

    -- What it does with what the connection came to.
    unfoldable pub after_connection : Attempt A E → RetryState A → Option (Verdict E) × RetryState A
    unfolding after_failure
    after_connection a s = if a.cancelled then (some cancelled, s) else elim a.outcome [
      | ended ↦ (some finished, s)
      | non_retryable e ↦ (some (gave_up e), s)
      | failed e ↦ after_failure a e s
    ]

    -- One round of runConnectionWithRetry; a verdict ends it.
    unfoldable pub retry_round : Attempt A E → RetryState A → Option (Verdict E) × RetryState A
    retry_round a s = after_connection a (record s { edge_pool = ask_address a.lookup s.edge_pool })

    -- runConnectionWithRetry on the attempts that are made; without a verdict it goes on.
    unfoldable pub run_connection_with_retry :
        List (Attempt A E) → RetryState A → Option (Verdict E) × RetryState A
    run_connection_with_retry [] s = (none, s)
    run_connection_with_retry (a ∷ rest) s =
        let (verdict, s') = retry_round a s in
        elim verdict [ some v ↦ (some v, s') | none ↦ run_connection_with_retry rest s' ]

abbrev pub retry_start : {A : Type 0} → Option (Pool A) → RetryState A
retry_start pool = record { attempts = 0; edge_pool = pool; waits = [] }
