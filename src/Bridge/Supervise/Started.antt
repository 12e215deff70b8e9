-- ===== src/Bridge/Supervise/Started.antt =====
-- internal/cftunnel/runtime/runner.go: runHAConnections, the connections that it starts.
use cf_tunnel.Prelude.{
  ℕ, ◌+◌, ◌-◌, ◌≤◌, ◌<◌, ◌≡◌, refl, sym, List, [], ◌∷◌, ltb, arith, Bool-cases, inl, inr,
}
use cf_tunnel.Bridge.Supervise.{
  Event, Phase, waiting, running, starting, stopped, Group, start_connection, ha_step, group_start,
  run_ha_connections, below, below_next,
}

-- The connections 0 to k - 1, at least one, each started once.
abbrev pub StartedBelow : ℕ → List ℕ → Type 0
StartedBelow ha started = (k : ℕ) × (0 < k) × (k ≤ ha) × (started ≡ below k)

module _ (E : Type 0) (ha : ℕ) where
  abbrev SoundAt : Phase E → List ℕ → Type 0
  SoundAt waiting l = l ≡ below 1
  SoundAt running l = l ≡ below ha
  SoundAt (starting i) l = (1 < i) × (i < ha) × (l ≡ below i)
  SoundAt (stopped s) l = StartedBelow ha l

  abbrev Sound : Group E → Type 0
  Sound g = SoundAt g.phase g.started

  module _ (many : 1 < ha) (few : ha ≤ 256) where
    start_connection-Sound :
        (i : ℕ) (l : List ℕ) → 0 < i → i < ha → l ≡ below i → Sound (start_connection ha i l)
    unfolding start_connection
    start_connection-Sound i l i0 lt e = elim (Bool-cases (ltb i (ha - 1))) [
      | inl more ↦ rw more (ground (arith, below_next i l))
      | inr last ↦ rw last (
          let all : i + 1 ≡ ha = ground arith in
          rw (sym all) (below_next i l (omega (arith, lt, few)) e))
    ]

    stop_Sound : (l : List ℕ) (k : ℕ) → 0 < k → k ≤ ha → l ≡ below k → StartedBelow ha l
    stop_Sound l k k0 le e = (k, k0, le, e)

    ha_step-Sound :
        (p : Phase E) (l : List ℕ) (e : Event E)
        → SoundAt p l
        → Sound (ha_step ha e (record { phase = p; started = l }))
    unfolding ha_step
    ha_step-Sound waiting l e h = ground (arith, start_connection-Sound 1 l, stop_Sound l 1)
    ha_step-Sound running l e h = ground (arith, stop_Sound l ha)
    ha_step-Sound (starting i) l e h = ground (arith, start_connection-Sound i l, stop_Sound l i)
    ha_step-Sound (stopped s) l e h = h

    run_ha-Sound :
        (events : List (Event E)) (g : Group E) → Sound g → Sound (run_ha_connections ha events g)
    unfolding run_ha_connections
    run_ha-Sound [] g h = h
    run_ha-Sound (e ∷ events) g h =
        run_ha-Sound events (ha_step ha e g) (ha_step-Sound g.phase g.started e h)

  pub Sound-StartedBelow : (p : Phase E) (l : List ℕ) → 1 < ha → SoundAt p l → StartedBelow ha l
  Sound-StartedBelow waiting l many h = (1, omega arith, omega (arith, many), h)
  Sound-StartedBelow running l many h = (ha, omega (arith, many), omega arith, h)
  Sound-StartedBelow (starting i) l many (i1, lt, h) = (i, omega (arith, i1), omega (arith, lt), h)
  Sound-StartedBelow (stopped s) l many h = h

-- In a group of 2 to 256 connections, whatever wakes the selects and in whatever order, the
-- connections that were started are those of the indices 0 to k - 1 for some k from 1 up to the
-- size of the group: the conversion to uint8 loses nothing and no index is started twice.
pub run_ha_connections-StartedBelow :
    {E : Type 0} (ha : ℕ) (events : List (Event E))
    → 1 < ha
    → ha ≤ 256
    → StartedBelow ha (run_ha_connections ha events group_start).started
run_ha_connections-StartedBelow {E} ha events many few =
    let g = run_ha_connections ha events group_start in
    Sound-StartedBelow E ha g.phase g.started many
      (run_ha-Sound E ha many few events group_start refl)
