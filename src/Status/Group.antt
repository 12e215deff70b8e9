-- ===== src/Status/Group.antt =====
-- internal/cftunnel/multi_runner.go: Run, as the events that its goroutines cause. A list of events is
-- one interleaving. A runner's own reports of its state arrive by the callback of its readiness; the
-- copy that the runner keeps of its state is left as it is, since the state in the map goes before it.
use cf_tunnel.Prelude.{
  ℕ, ◌≡◌, ◌⊎◌, inl, inr, refl, sym, ap, ◌∙◌, Bool, true, false, Bool-cases, Option, none, some,
  List, [], ◌∷◌, ◌++◌, get_elem?, All, All-get_elem?, arith, if◌then◌else◌,
}
use cf_tunnel.Text.{Text, codes, text_eq}
use cf_tunnel.Text.Laws.{text_eq_refl}
use cf_tunnel.Status.{RunError, canceled, failure, Runner}
use cf_tunnel.Status.Multi.{MultiRunner, state_of, set_state, shown, multi_ready_status}
use cf_tunnel.Status.Ready.{ShowsReady, multi_ready_status-ready}

pub data Event : Type 0 where
  start : Text → Event
  report : Text → Text → Event
  finish : Text → Option RunError → Event
  cancel : Event

-- The state of Run: the shared states, whether groupCtx is canceled, and the names in runErrs.
pub record GroupState : Type 0 where
  pub multi : MultiRunner
  pub cancelled : Bool
  pub run_errs : List Text

-- The end of a tunnel's goroutine.
unfoldable pub finish_tunnel : Text → Option RunError → GroupState → GroupState
finish_tunnel name (some failure) g = record {
  multi = set_state name (codes "failed") g.multi;
  cancelled = true;
  run_errs = g.run_errs ++ name ∷ [];
}
finish_tunnel name e g = record g {
  multi = set_state name (if g.cancelled then codes "stopped" else codes "exited") g.multi;
}

unfoldable pub group_step : Event → GroupState → GroupState
unfolding finish_tunnel
group_step (start name) g = record g { multi = set_state name (codes "starting") g.multi }
group_step (report name status) g = record g { multi = set_state name status g.multi }
group_step (finish name e) g = finish_tunnel name e g
group_step cancel g = record g { cancelled = true }

unfoldable pub run_group : List Event → GroupState → GroupState
run_group [] g = g
run_group (e ∷ events) g = run_group events (group_step e g)

abbrev pub group_start : MultiRunner → GroupState
group_start r = record { multi = r; cancelled = false; run_errs = [] }

pub data GroupError : Type 0 where
  one : Text → GroupError
  many : List Text → GroupError

-- What Run returns; joinTunnelErrors on the names in front of the errors.
unfoldable pub group_error : List Text → Option GroupError
group_error [] = none
group_error (name ∷ []) = some (one name)
group_error (name ∷ other ∷ names) = some (many (name ∷ other ∷ names))

-- The tunnels that failed, in the order in which they did.
abbrev pub failures : List Event → List Text
failures [] = []
failures (finish name (some failure) ∷ events) = name ∷ failures events
failures (_ ∷ events) = failures events

-- The tunnel whose state an event sets.
abbrev pub sets : Text → Event → Bool
sets name (start n) = text_eq n name
sets name (report n s) = text_eq n name
sets name (finish n e) = text_eq n name
sets name cancel = false

-- What Run returns for the tunnels that failed.
abbrev pub Returns : List Text → Option GroupError → Type 0
Returns names e =
    ((names ≡ []) × (e ≡ none))
    ⊎ ((name : Text) × (names ≡ name ∷ []) × (e ≡ some (one name)))
    ⊎ ((name other : Text) × (rest : List Text) × (names ≡ name ∷ other ∷ rest)
        × (e ≡ some (many (name ∷ other ∷ rest))))

-- What an event leaves as it is.
Frame : Text → Event → GroupState → Type 0
Frame name e g =
    let g' = group_step e g in
    (g'.multi.runners ≡ g.multi.runners)
    × (sets name e ≡ false → state_of name g'.multi.state ≡ state_of name g.multi.state)
    × (g.cancelled ≡ true → g'.cancelled ≡ true)

group_step-Frame : (name : Text) (e : Event) (g : GroupState) → Frame name e g
unfolding Frame group_step finish_tunnel set_state state_of
group_step-Frame name (start n) g = ground arith
group_step-Frame name (report n s) g = ground arith
group_step-Frame name cancel g = ground arith
group_step-Frame name (finish n none) g = ground arith
group_step-Frame name (finish n (some canceled)) g = ground arith
group_step-Frame name (finish n (some failure)) g = ground arith

run_group-Frame :
    (name : Text) (events : List Event) (g : GroupState)
    → All (λ e. sets name e ≡ false) events
    → g.cancelled ≡ true
    → let g' = run_group events g in
      (state_of name g'.multi.state ≡ state_of name g.multi.state) × (g'.cancelled ≡ true)
unfolding run_group Frame
run_group-Frame name [] g _ c = (refl, c)
run_group-Frame name (e ∷ events) g (h, others) c =
    let (_, state, cancelled) = group_step-Frame name e g in
    let (states, done) = run_group-Frame name events (group_step e g) others (cancelled c) in
    (states ∙ state h, done)

runners_kept :
    (events : List Event) (g : GroupState) → (run_group events g).multi.runners ≡ g.multi.runners
unfolding run_group Frame
runners_kept [] g = refl
runners_kept (e ∷ events) g = runners_kept events (group_step e g) ∙ (group_step-Frame [] e g).0

clash : shown (codes "failed") ≡ codes "ready" → ⊥
clash h = ground arith

shows_failed : (s : Text) → s ≡ codes "failed" → shown s ≡ codes "ready" → ⊥
shows_failed s e h = clash (ap shown (sym e) ∙ h)

-- A tunnel that shows another state keeps the process from being ready.
not_ready :
    (format_int : ℕ → Text) (r : MultiRunner) (i : ℕ) (t : Runner)
    → get_elem? r.runners i ≡ some t
    → state_of t.name r.state ≡ codes "failed"
    → (multi_ready_status format_int r).ready ≡ false
not_ready format_int r i t here failed = elim (Bool-cases (multi_ready_status format_int r).ready) [
  | inr off ↦ off
  | inl on ↦
      let (_, all) = (multi_ready_status-ready format_int r).0 on in
      let shows = All-get_elem? (ShowsReady r.state) r.runners i all here in
      elim (shows_failed (state_of t.name r.state) failed shows) [ ]
]

just_failed :
    (name : Text) (g : GroupState)
    → let g' = group_step (finish name (some failure)) g in
      (state_of name g'.multi.state ≡ codes "failed") × (g'.cancelled ≡ true)
unfolding group_step finish_tunnel set_state state_of
just_failed name g = rw (text_eq_refl name) (refl, refl)

-- After a tunnel of the group has failed, and while no later event sets its state, the tunnel's
-- state is "failed", the process is not ready and the group's context is canceled.
pub run_group-failed :
    (format_int : ℕ → Text) (before later : List Event) (r : MultiRunner) (i : ℕ) (t : Runner)
    → get_elem? r.runners i ≡ some t
    → All (λ e. sets t.name e ≡ false) later
    → let g = run_group (finish t.name (some failure) ∷ later) (run_group before (group_start r)) in
      (state_of t.name g.multi.state ≡ codes "failed")
      × ((multi_ready_status format_int g.multi).ready ≡ false)
      × (g.cancelled ≡ true)
unfolding run_group Frame
run_group-failed format_int before later r i t here quiet =
    let g = run_group before (group_start r) in
    let g' = group_step (finish t.name (some failure)) g in
    let (state, cancelled) = run_group-Frame t.name later g' quiet (just_failed t.name g).1 in
    let failed = state ∙ (just_failed t.name g).0 in
    let kept =
      runners_kept later g'
      ∙ (group_step-Frame [] (finish t.name (some failure)) g).0
      ∙ runners_kept before (group_start r) in
    (failed, not_ready format_int (run_group later g').multi i t (rw kept here) failed, cancelled)
