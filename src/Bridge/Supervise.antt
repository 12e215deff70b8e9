-- ===== src/Bridge/Supervise.antt =====
-- internal/cftunnel/runtime/runner.go: runHAConnections as a state machine. Its selects wait for
-- events; a list of events is one interleaving. Where two channels are ready Go picks either, so
-- every list is possible.
pub mod Started
pub mod Early
pub mod Progress
use cf_tunnel.Prelude.{
  ℕ, zero, suc, ◌+◌, ◌-◌, ◌%◌, ◌≤◌, ◌<◌, ◌≡◌, ◌≢◌, refl, sym, Bool, true, false, Option, none, some,
  List, [], ◌∷◌, ◌++◌, All, ℤ, ltb, arith, Bool-cases, inl, inr, if◌then◌else◌,
}
use native.Mathlib.Numerals.{add-one}
use cf_tunnel.Bridge.{normalize_ha_connections}

-- What a select is woken by. The flag says whether the context is done as well by then.
pub data Event (E : Type 0) : Type 0 where
  context_done first_connected wait_over all_ended : Event E
  first_result : Option E → Bool → Event E
  connection_failed : E → Bool → Event E

pub data Stop (E : Type 0) : Type 0 where
  by_context all_done : Stop E
  by_result : Option E → Stop E

-- The first select, the wait before the connection of an index is started, the last select, or the
-- return.
pub data Phase (E : Type 0) : Type 0 where
  waiting running : Phase E
  starting : ℕ → Phase E
  stopped : Stop E → Phase E

-- The connections that were started, by the uint8 of their index, the last one first.
pub record Group (E : Type 0) : Type 0 where
  pub phase : Phase E
  pub started : List ℕ

module _ {E : Type 0} where
  -- `if ctxErr := ctx.Err(); ctxErr != nil { return ctxErr }; return err`
  abbrev stop_with : Option E → Bool → Phase E
  stop_with e done = if done then stopped by_context else stopped (by_result e)

  -- One round of the loop that starts the connections behind the first.
  unfoldable pub start_connection : ℕ → ℕ → List ℕ → Group E
  start_connection ha i started = record {
    phase = if ltb i (ha - 1) then starting (i + 1) else running;
    started = (i % 256) ∷ started;
  }

  -- An event that no select of the phase waits for changes nothing.
  unfoldable pub ha_step : ℕ → Event E → Group E → Group E
  unfolding start_connection
  ha_step ha e g = elim g.phase [
    | waiting ↦ elim e [
      | context_done ↦ record g { phase = stopped by_context }
      | first_connected ↦ start_connection ha 1 g.started
      | wait_over ↦ g
      | all_ended ↦ g
      | first_result r done ↦ record g { phase = stop_with r done }
      | connection_failed x done ↦ g
    ]
    | running ↦ elim e [
      | context_done ↦ record g { phase = stopped by_context }
      | first_connected ↦ g
      | wait_over ↦ g
      | all_ended ↦ record g { phase = stopped all_done }
      | first_result r done ↦ g
      | connection_failed x done ↦ record g { phase = stop_with (some x) done }
    ]
    | starting i ↦ elim e [
      | context_done ↦ record g { phase = stopped by_context }
      | first_connected ↦ g
      | wait_over ↦ start_connection ha i g.started
      | all_ended ↦ g
      | first_result r done ↦ g
      | connection_failed x done ↦ record g { phase = stopped (by_result (some x)) }
    ]
    | stopped s ↦ g
  ]

  abbrev pub group_start : Group E
  group_start = record { phase = waiting; started = 0 ∷ [] }

  -- runHAConnections, on the events that wake it
  unfoldable pub run_ha_connections : ℕ → List (Event E) → Group E → Group E
  run_ha_connections ha [] g = g
  run_ha_connections ha (e ∷ events) g = run_ha_connections ha events (ha_step ha e g)

-- k - 1, ..., 1, 0
abbrev pub below : ℕ → List ℕ
below zero = []
below (suc k) = k ∷ below k

pub below_next : (i : ℕ) (l : List ℕ) → i < 256 → l ≡ below i → (i % 256) ∷ l ≡ below (i + 1)
below_next i l h e = rw (add-one i, e) (ground arith)
