-- ===== src/Bridge/Supervise/Progress.antt =====
-- internal/cftunnel/runtime/runner.go: runHAConnections, where nothing fails.
use cf_tunnel.Prelude.{ℕ, zero, suc, ◌+◌, ◌%◌, ◌≤◌, ◌<◌, ◌≡◌, refl, List, [], ◌∷◌, arith}
use cf_tunnel.Bridge.Supervise.{
  Event, first_connected, wait_over, running, starting, start_connection, ha_step, group_start,
  run_ha_connections, below, below_next,
}

abbrev pub waits : {E : Type 0} → ℕ → List (Event E)
waits zero = []
waits (suc n) = wait_over ∷ waits n

starts :
    {E : Type 0} (ha i : ℕ) (l : List ℕ)
    → i + 1 < ha
    → start_connection {E = E} ha i l ≡ record { phase = starting (i + 1); started = (i % 256) ∷ l }
unfolding start_connection
starts ha i l h = ground arith

starts_from :
    {E : Type 0} (ha n i : ℕ) (l : List ℕ)
    → i + n + 1 ≡ ha
    → ha ≤ 256
    → 0 < i
    → l ≡ below i
    → run_ha_connections {E = E} ha (waits (suc n)) (record { phase = starting i; started = l })
      ≡ record { phase = running; started = below ha }
unfolding run_ha_connections ha_step start_connection
starts_from ha zero i l size few i0 e = let h = below_next i l (ground arith) e in ground arith
starts_from {E} ha (suc n) i l size few i0 e =
    let h = below_next i l (ground arith) e in
    rw (run_ha_connections, starts {E = E} ha i l (ground arith))
      (starts_from {E = E} ha n (i + 1) ((i % 256) ∷ l) (ground arith) few (ground arith) h)

-- In a group of 2 to 256 connections, once the first connection is accepted, and with no failure
-- while the waits between the registrations pass, all connections of the group are started.
pub run_ha_connections-waits :
    {E : Type 0} (n : ℕ)
    → n + 2 ≤ 256
    → run_ha_connections {E = E} (n + 2) (first_connected ∷ waits n) group_start
      ≡ record { phase = running; started = below (n + 2) }
unfolding run_ha_connections ha_step start_connection
run_ha_connections-waits zero h = refl
run_ha_connections-waits {E} (suc n) h =
    rw (run_ha_connections, starts {E = E} (suc n + 2) 1 (0 ∷ []) (ground arith))
      (starts_from {E = E} (suc n + 2) n 2 (1 ∷ 0 ∷ []) (ground arith) h (ground arith) refl)
