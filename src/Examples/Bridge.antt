-- ===== src/Examples/Bridge.antt =====
-- The bridge and the edge pool at concrete inputs.
use cf_tunnel.Prelude.{
  ℕ, ◌*◌, ◌^◌, ◌≡◌, ◌≢◌, refl, true, false, Option, none, some, List, [], ◌∷◌, Result, ok, pos, All,
  arith,
}
use cf_tunnel.Text.{Text, codes, text_eq}
use cf_tunnel.Edge.Pool.{
  Pool, bound, release, bind, addr_for, assign, choose, unused_addr, in_use, ensure_resolved,
  after_resolve, rotate,
}
use cf_tunnel.Edge.Pool.Distinct.{Ample}
use cf_tunnel.Edge.Pool.Trace.{Op, ask, turn, step, run, run_distinct}
use cf_tunnel.Bridge.{
  Lookup, default_settings, retry_start, run_connection_with_retry, exhausted, backoff_duration,
}
use cf_tunnel.Bridge.Backoff.{backoff_duration-min, min}
use cf_tunnel.Bridge.Retry.{
  dropped_all, served_all, settings, Between, held_by, run_connection_with_retry-dropped_all,
  run_connection_with_retry-served_all, run_connection_with_retry-Between,
  run_connection_with_retry-held_by,
}
use cf_tunnel.Bridge.Fuses.{readiness, connected, connection_fuse, connected-connection_fuse}
use cf_tunnel.Bridge.Supervise.{
  Event, first_connected, wait_over, connection_failed, first_result, running, group_start,
  run_ha_connections, below,
}
use cf_tunnel.Bridge.Supervise.Started.{StartedBelow, run_ha_connections-StartedBelow}
use cf_tunnel.Bridge.Supervise.Progress.{waits, run_ha_connections-waits}

abbrev same : Text → Text
same t = t

abbrev three : List Text
three = codes "a:1" ∷ codes "b:1" ∷ codes "c:1" ∷ []

abbrev resolved_pool : Pool Text
resolved_pool = record { addrs = three; used_by = []; resolved = true }

abbrev answer : Option (Result ℕ (List Text))
answer = some (ok three)

-- The first two attempts come to ask for their address.
abbrev errors : List (Lookup Text ℕ × ℕ)
errors = (some answer, 7) ∷ (some answer, 8) ∷ (none, 9) ∷ []

abbrev later_errors : List (Lookup Text ℕ × ℕ)
later_errors = (some answer, 8) ∷ (none, 9) ∷ []

abbrev used : List (ℕ × Text) → Pool Text
used m = record resolved_pool { used_by = m }

backoff_duration-min_example :
    backoff_duration default_settings (pos 5) ≡ pos (min (1000000000 * 2 ^ 4) 15000000000)
backoff_duration-min_example =
    backoff_duration-min (pos 5) 1000000000 15000000000 4 (omega arith) (omega arith) (omega arith)
      (omega arith)

run_connection_with_retry-dropped_all_example :
    (run_connection_with_retry same
      (settings 1 (pos 1) (pos 4))
      0
      (dropped_all errors)
      (retry_start (some resolved_pool))).0
    ≡ some (exhausted 0 (pos 1) 8)
run_connection_with_retry-dropped_all_example =
    run_connection_with_retry-dropped_all same (pos 1) (pos 4) 1 0 errors (some resolved_pool)

run_connection_with_retry-served_all_example :
    let (verdict, s') =
      run_connection_with_retry same
        (settings 1 (pos 1) (pos 4))
        0
        (served_all errors)
        (retry_start (some resolved_pool)) in
    (verdict ≡ none) × (s'.attempts ≡ 1)
run_connection_with_retry-served_all_example =
    run_connection_with_retry-served_all same (pos 1) (pos 4) 1 0 (some answer, 7) later_errors
      (retry_start (some resolved_pool)) (omega arith)

run_connection_with_retry-Between_example :
    All
      (Between 1 4)
      (run_connection_with_retry same
        (settings 5 (pos 1) (pos 4))
        0
        (dropped_all errors)
        (retry_start (some resolved_pool))).1.waits
run_connection_with_retry-Between_example =
    run_connection_with_retry-Between same 5 1 4 0 (dropped_all errors) (some resolved_pool)
      (omega arith) (omega arith) (omega arith)

abbrev two_bound : Pool Text
two_bound = used ((1, codes "b:1") ∷ (0, codes "a:1") ∷ [])

run_connection_with_retry-held_by_example :
    held_by 1
      (run_connection_with_retry same default_settings 0
        (dropped_all errors)
        (retry_start (some two_bound))).1.edge_pool
    ≡ held_by 1 (some two_bound)
run_connection_with_retry-held_by_example =
    run_connection_with_retry-held_by same default_settings 0 1 (dropped_all errors)
      (retry_start (some two_bound)) (ground arith)

connected-connection_fuse_example :
    let s' =
      connected
        (connection_fuse (some readiness) (some readiness) 1 0)
        (record { ready = false; first_connected = false; tracked = false }) in
    (s'.ready ≡ false) × (s'.tracked ≡ true)
connected-connection_fuse_example =
    connected-connection_fuse 1 0
      (record { ready = false; first_connected = false; tracked = false })

abbrev some_events : List (Event ℕ)
some_events = first_connected ∷ wait_over ∷ connection_failed 3 false ∷ []

run_ha_connections-StartedBelow_example :
    StartedBelow 4 (run_ha_connections 4 some_events group_start).started
run_ha_connections-StartedBelow_example =
    run_ha_connections-StartedBelow 4 some_events (omega arith) (omega arith)

abbrev early_events : List (Event ℕ)
early_events = wait_over ∷ first_result (some 3) false ∷ []

run_ha_connections-waits_example :
    run_ha_connections {E = ℕ} 4 (first_connected ∷ waits 2) group_start
    ≡ record { phase = running; started = below 4 }
run_ha_connections-waits_example = run_ha_connections-waits 2 (omega arith)

abbrev asks : List (Op Text ℕ)
asks = ask none 0 ∷ ask none 1 ∷ turn 0 ∷ []

three_Ample : Ample same 2 resolved_pool
unfolding text_eq
three_Ample = record { distinct = (refl, (refl, (refl, tt))); enough = omega arith }

run_distinct_example : same (codes "c:1") ≢ same (codes "b:1")
unfolding run step addr_for ensure_resolved after_resolve assign bound choose unused_addr in_use
    bind release rotate text_eq
run_distinct_example =
    run_distinct same 2 asks resolved_pool 0 1 (codes "c:1") (codes "b:1") refl refl three_Ample
      (omega arith, (omega arith, (omega arith, tt))) (ground arith) refl refl
