-- ===== src/Supervisor.antt =====
-- internal/runtime/runtime.go: the group of runners that the process is. The select of RunWithOptions
-- waits for events; a list of events is one interleaving. A name in front of a runner's error is
-- an argument, as are the errors themselves; `none` is nil.
use cf_tunnel.Prelude.{
  ℕ, zero, suc, ◌+◌, ◌<◌, ◌≡◌, refl, Bool, true, false, Option, none, some, ◌<|>◌, List, [], ◌∷◌,
  ltb, Bool-cases, inl, inr, All, arith, if◌then◌else◌,
}

pub data Event (E : Type 0) : Type 0 where
  result : Option E → Event E
  shutdown timeout : Event E

pub data Return (E : Type 0) : Type 0 where
  no_runners timed_out : Return E
  first_error : Option E → Return E

pub record Loop (E : Type 0) : Type 0 where
  pub completed : ℕ
  pub first_err : Option E
  pub timer_started : Bool
  pub shutdown_seen : Bool

module _ {E : Type 0} where
  -- What a runner's goroutine sends: the name is put in front of an error that is not
  -- context.Canceled.
  unfoldable pub runner_result : (E → Bool) → (E → E) → Option E → Option E
  runner_result is_canceled named none = none
  runner_result is_canceled named (some e) = some (if is_canceled e then e else named e)

  -- Whether it cancels the group.
  unfoldable pub cancels_group : (E → Bool) → Option E → Bool
  cancels_group is_canceled none = false
  cancels_group is_canceled (some e) = if is_canceled e then false else true

  -- The body of the select, for an event that can occur: the shutdown's channel is read once, the
  -- timer's once it was started.
  unfoldable pub select_step : Bool → Event E → Loop E → Option (Return E) × Loop E
  select_step has_timeout (result e) s =
      (none, record s { completed = s.completed + 1; first_err = s.first_err <|> e })
  select_step has_timeout shutdown s =
      if s.shutdown_seen
      then (none, s)
      else (none, record s { shutdown_seen = true; timer_started = has_timeout })
  select_step has_timeout timeout s = if s.timer_started then (some timed_out, s) else (none, s)

  -- The loop; `none` while it waits.
  unfoldable pub run_loop : Bool → ℕ → List (Event E) → Loop E → Option (Return E)
  run_loop has_timeout runners [] s =
      if ltb s.completed runners then none else some (first_error s.first_err)
  run_loop has_timeout runners (e ∷ events) s =
      let (stop, s') = select_step has_timeout e s in
      let rest = run_loop has_timeout runners events s' in
      if ltb s.completed runners then stop <|> rest else some (first_error s.first_err)

  abbrev loop_start : Loop E
  loop_start = record {
    completed = 0;
    first_err = none;
    timer_started = false;
    shutdown_seen = false;
  }

  -- RunWithOptions, for a number of runners; the flag says that ShutdownTimeout is above 0.
  unfoldable pub run_with_options : Bool → ℕ → List (Event E) → Option (Return E)
  unfolding run_loop
  run_with_options has_timeout zero events = some no_runners
  run_with_options has_timeout (suc n) events = run_loop has_timeout (suc n) events loop_start

  -- The results among the events, and the first error among them.
  abbrev pub results : List (Event E) → ℕ
  results [] = 0
  results (result e ∷ events) = suc (results events)
  results (shutdown ∷ events) = results events
  results (timeout ∷ events) = results events

  abbrev pub first_of : List (Event E) → Option E
  first_of [] = none
  first_of (result e ∷ events) = e <|> first_of events
  first_of (shutdown ∷ events) = first_of events
  first_of (timeout ∷ events) = first_of events

  <|>-assoc : (a b c : Option E) → ((a <|> b) <|> c) ≡ (a <|> (b <|> c))
  <|>-assoc none b c = refl
  <|>-assoc (some a) b c = refl

  none_right : (a : Option E) → (a <|> none) ≡ a
  none_right none = refl
  none_right (some a) = refl

  abbrev pub is_timeout : Event E → Bool
  is_timeout timeout = true
  is_timeout _ = false

  first_of-none : (events : List (Event E)) → results events ≡ 0 → first_of events ≡ none
  first_of-none [] h = refl
  first_of-none (result e ∷ events) h = ground arith
  first_of-none (shutdown ∷ events) h = first_of-none events h
  first_of-none (timeout ∷ events) h = first_of-none events h

  loop_results :
      (has_timeout : Bool) (runners : ℕ) (events : List (Event E)) (s : Loop E)
      → All (λ e. is_timeout e ≡ false) events
      → s.completed + results events ≡ runners
      → run_loop has_timeout runners events s ≡ some (first_error (s.first_err <|> first_of events))
  unfolding run_loop select_step
  loop_results t n [] s h k = ground (arith, none_right s.first_err)
  loop_results t n (result e ∷ events) s (h, others) k = ground (
    arith,
    <|>-assoc s.first_err e (first_of events),
    loop_results t n events
        (record {
          completed = s.completed + 1;
          first_err = s.first_err <|> e;
          timer_started = s.timer_started;
          shutdown_seen = s.shutdown_seen;
        })
        others,
  )
  loop_results t n (shutdown ∷ events) s (h, others) k =
      let none_left = first_of-none events in
      let first = loop_results t n events s others in
      let later =
        loop_results t n events
          (record {
            completed = s.completed;
            first_err = s.first_err;
            timer_started = t;
            shutdown_seen = true;
          })
          others in
      ground (arith, none_right s.first_err)
  loop_results t n (timeout ∷ events) s (h, others) k = ground arith

  -- Where the timer does not fire and every one of the runners, at least one, sends its result,
  -- the group of runners returns the first error among the results in the order in which they
  -- arrived, or nil.
  pub run_with_options-results :
      (has_timeout : Bool) (runners : ℕ) (events : List (Event E))
      → 0 < runners
      → All (λ e. is_timeout e ≡ false) events
      → results events ≡ runners
      → run_with_options has_timeout runners events ≡ some (first_error (first_of events))
  unfolding run_with_options
  run_with_options-results t zero events h others k = ground arith
  run_with_options-results t (suc n) events h others k =
      loop_results t (suc n) events loop_start others (omega (arith, k))

  abbrev pub shuts_down : List (Event E) → Bool
  shuts_down [] = false
  shuts_down (shutdown ∷ events) = true
  shuts_down (result e ∷ events) = shuts_down events
  shuts_down (timeout ∷ events) = shuts_down events

  loop_timed_out :
      (has_timeout : Bool) (runners : ℕ) (events : List (Event E)) (s : Loop E)
      → run_loop has_timeout runners events s ≡ some timed_out
      → s.timer_started ≡ false
      → (has_timeout ≡ true) × (shuts_down events ≡ true)
  unfolding run_loop select_step
  loop_timed_out t n [] s h k = ground arith
  loop_timed_out t n (result e ∷ events) s h k = ground (
    arith,
    loop_timed_out t n events (record {
      completed = s.completed + 1;
      first_err = s.first_err <|> e;
      timer_started = s.timer_started;
      shutdown_seen = s.shutdown_seen;
    }),
  )
  loop_timed_out t n (shutdown ∷ events) s h k = elim (Bool-cases t) [
    | inl on ↦ (on, refl)
    | inr off ↦
        let same = loop_timed_out t n events s in
        let later = loop_timed_out t n events (record {
          completed = s.completed;
          first_err = s.first_err;
          timer_started = t;
          shutdown_seen = true;
        }) in
        ground arith
  ]
  loop_timed_out t n (timeout ∷ events) s h k = ground (arith, loop_timed_out t n events s)

  -- The group of runners gives up waiting only with a timeout configured, and only where a
  -- shutdown is asked for.
  pub run_with_options-timed_out :
      (has_timeout : Bool) (runners : ℕ) (events : List (Event E))
      → run_with_options has_timeout runners events ≡ some timed_out
      → (has_timeout ≡ true) × (shuts_down events ≡ true)
  unfolding run_with_options
  run_with_options-timed_out t zero events h = ground arith
  run_with_options-timed_out t (suc n) events h = loop_timed_out t (suc n) events loop_start h refl
