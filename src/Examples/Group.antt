-- ===== src/Examples/Group.antt =====
-- The tunnels of a process and its runners at concrete events.
use cf_tunnel.Prelude.{ℕ, ◌≡◌, refl, true, false, none, some, List, [], ◌∷◌, arith}
use cf_tunnel.Text.{Text, codes, text_eq}
use cf_tunnel.Supervisor.{
  Event, result, shutdown, first_error, run_with_options, run_with_options-results,
}
use cf_tunnel.Status.{Runner, failure}
use cf_tunnel.Status.Multi.{MultiRunner, state_of, multi_ready_status}
use cf_tunnel.Status.Group.{start, report, finish, run_group, group_start, run_group-failed}

abbrev runner : Text → Runner
runner name = record {
  name = name;
  status = codes "pending";
  edge_protocol = codes "quic";
  target = codes "http://x";
  session = none;
}

abbrev group : MultiRunner
group = record { runners = runner (codes "a") ∷ runner (codes "b") ∷ []; state = []; status = [] }

-- No number is printed.
abbrev no_text : ℕ → Text
no_text n = []

run_group-failed_example :
    let g =
      run_group
        (finish (codes "b") (some failure) ∷ report (codes "a") (codes "ready") ∷ [])
        (run_group (start (codes "a") ∷ start (codes "b") ∷ []) (group_start group)) in
    (state_of (codes "b") g.multi.state ≡ codes "failed")
    × ((multi_ready_status no_text g.multi).ready ≡ false)
    × (g.cancelled ≡ true)
unfolding text_eq
run_group-failed_example =
    run_group-failed no_text (start (codes "a") ∷ start (codes "b") ∷ [])
      (report (codes "a") (codes "ready") ∷ []) group 1 (runner (codes "b")) refl (refl, tt)

abbrev events : List (Event ℕ)
events = result none ∷ shutdown ∷ result (some 3) ∷ []

run_with_options-results_example : run_with_options true 2 events ≡ some (first_error (some 3))
run_with_options-results_example =
    run_with_options-results true 2 events (omega arith) (refl, (refl, (refl, tt))) refl
