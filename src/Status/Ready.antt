-- ===== src/Status/Ready.antt =====
-- internal/cftunnel/multi_runner.go: when the process is ready.
use cf_tunnel.Prelude.{
  ℕ, ◌≤◌, ◌≡◌, ◌↔◌, inl, inr, refl, true, false, Bool-cases, List, [], ◌∷◌, length, All, arith,
  if◌then◌else◌,
}
use cf_tunnel.Text.{Text, codes, text_eq}
use cf_tunnel.Text.Laws.{text_eq_iff}
use cf_tunnel.Status.{Runner}
use cf_tunnel.Status.Multi.{
  MultiRunner, state_of, set_state, shown, tally, is_nil, multi_ready_status,
}

-- The state that a tunnel shows.
abbrev pub shown_state : List (Text × Text) → Runner → Text
shown_state state r = shown (state_of r.name state)

abbrev pub ShowsReady : List (Text × Text) → Runner → Type 0
ShowsReady state r = shown_state state r ≡ codes "ready"

tally_le : (state : List (Text × Text)) (rs : List Runner) → (tally state rs).0 ≤ length rs
unfolding tally
tally_le state [] = omega arith
tally_le state (r ∷ rs) = ground (arith, tally_le state rs)

tally-All :
    (state : List (Text × Text)) (rs : List Runner)
    → ((tally state rs).0 ≡ length rs) ↔ All (ShowsReady state) rs
unfolding tally
tally-All state [] = (λ _. tt, λ _. refl)
tally-All state (r ∷ rs) =
    let le = tally_le state rs in
    let (to, back) = tally-All state rs in
    let (sound, complete) = text_eq_iff (shown_state state r) (codes "ready") in
    elim (Bool-cases (text_eq (shown_state state r) (codes "ready"))) [
      | inl here ↦
          rw here (λ e. (sound here, to (omega (arith, e))), λ (_, h). omega (arith, back h))
      | inr not_here ↦ ground arith
    ]

-- The process is ready if and only if it has tunnels and every one of them shows the state
-- "ready".
pub multi_ready_status-ready :
    (format_int : ℕ → Text) (r : MultiRunner)
    → ((multi_ready_status format_int r).ready ≡ true)
      ↔ ((is_nil r.runners ≡ false) × All (ShowsReady r.state) r.runners)
unfolding multi_ready_status
multi_ready_status-ready format_int r = ground (arith, tally-All r.state r.runners)

-- setState shows at once, for the named tunnel only.
pub state_of-set_state :
    (n m s : Text) (r : MultiRunner)
    → state_of m (set_state n s r).state ≡ (if text_eq n m then s else state_of m r.state)
unfolding state_of set_state
state_of-set_state n m s r = refl
