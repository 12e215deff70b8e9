-- ===== src/Bridge/Supervise/Early.antt =====
-- internal/cftunnel/runtime/runner.go: runHAConnections, before the first connection is accepted.
use cf_tunnel.Prelude.{ℕ, ◌≡◌, refl, Bool, true, false, List, [], ◌∷◌, All, arith}
use cf_tunnel.Bridge.Supervise.{
  Event, first_connected, Phase, waiting, running, starting, stopped, Group, ha_step, group_start,
  run_ha_connections, below,
}

abbrev pub is_first_connected : {E : Type 0} → Event E → Bool
is_first_connected first_connected = true
is_first_connected _ = false

-- Nothing but connection 0 was started, and nothing else will be.
abbrev Early : {E : Type 0} → Phase E → List ℕ → Type 0
Early waiting l = l ≡ below 1
Early (stopped s) l = l ≡ below 1
Early _ l = ⊥

ha_step-Early :
    {E : Type 0} (ha : ℕ) (p : Phase E) (l : List ℕ) (e : Event E)
    → is_first_connected e ≡ false
    → Early p l
    → let g = ha_step ha e (record { phase = p; started = l }) in Early g.phase g.started
unfolding ha_step
ha_step-Early ha waiting l e h k = ground arith
ha_step-Early ha running l e h k = ground arith
ha_step-Early ha (starting i) l e h k = ground arith
ha_step-Early ha (stopped s) l e h k = k

run_ha-Early :
    {E : Type 0} (ha : ℕ) (events : List (Event E)) (g : Group E)
    → All (λ e. is_first_connected e ≡ false) events
    → Early g.phase g.started
    → let g' = run_ha_connections ha events g in Early g'.phase g'.started
unfolding run_ha_connections
run_ha-Early ha [] g _ k = k
run_ha-Early ha (e ∷ events) g (h, others) k =
    run_ha-Early ha events (ha_step ha e g) others (ha_step-Early ha g.phase g.started e h k)

Early-started : {E : Type 0} (p : Phase E) (l : List ℕ) → Early p l → l ≡ below 1
Early-started waiting l k = k
Early-started running l k = ground arith
Early-started (starting i) l k = ground arith
Early-started (stopped s) l k = k

-- Until the select is woken by the first connection having connected, no other connection is
-- started.
pub run_ha_connections-early :
    {E : Type 0} (ha : ℕ) (events : List (Event E))
    → All (λ e. is_first_connected e ≡ false) events
    → (run_ha_connections ha events group_start).started ≡ 0 ∷ []
run_ha_connections-early ha events others =
    let g = run_ha_connections ha events group_start in
    Early-started g.phase g.started (run_ha-Early ha events group_start others refl)
