-- ===== src/Status/Multi.antt =====
-- internal/cftunnel/multi_runner.go: the tunnels of one process and their states. The maps `state`
-- and `status` are association lists; a missing state is "".
use cf_tunnel.Prelude.{
  ℕ, ◌+◌, Bool, true, false, Option, none, some, List, [], ◌∷◌, ◌++◌, ◌==◌, length, if◌then◌else◌,
}
use cf_tunnel.Text.{Text, codes, text_eq, join}
use cf_tunnel.Status.{
  ReadyStatus, TunnelStatus, StatusPayload, Runner, counts_summary, detail, count_if,
  runner_tunnel_status, or_else, tunnel_name, new_named_runner,
}

pub record MultiRunner : Type 0 where
  pub runners : List Runner
  pub state : List (Text × Text)
  pub status : List (Text × TunnelStatus)

-- NewMultiRunner, on the name, the protocol and the target of each tunnel; `none` is the error for
-- no tunnel.
abbrev pub named_runners : List (Text × Text × Text) → List Runner
named_runners [] = []
named_runners ((name, edge_protocol, target) ∷ tunnels) =
    new_named_runner (tunnel_name name) edge_protocol target ∷ named_runners tunnels

unfoldable pub new_multi_runner : List (Text × Text × Text) → Option MultiRunner
new_multi_runner [] = none
new_multi_runner (t ∷ tunnels) =
    some (record { runners = named_runners (t ∷ tunnels); state = []; status = [] })

unfoldable pub state_of : Text → List (Text × Text) → Text
state_of name [] = []
state_of name ((n, s) ∷ m) = if text_eq n name then s else state_of name m

abbrev zero_status : TunnelStatus
zero_status = record {
  name = [];
  status = [];
  quick_tunnel = false;
  quick_tunnel_url = [];
  hostname = [];
  protocol = [];
  origin_url = [];
}

unfoldable pub status_of : Text → List (Text × TunnelStatus) → TunnelStatus
status_of name [] = zero_status
status_of name ((n, s) ∷ m) = if text_eq n name then s else status_of name m

-- setState
unfoldable pub set_state : Text → Text → MultiRunner → MultiRunner
unfolding status_of
set_state name status r = record r {
  state = (name, status) ∷ r.state;
  status = (name, record (status_of name r.status) { name = name; status = status }) ∷ r.status;
}

-- `if status == "" { status = "pending" }`
abbrev pub shown : Text → Text
shown s = or_else s (codes "pending")

-- The loop of ReadyStatus: how many are ready, how many failed, and the details.
unfoldable pub tally : List (Text × Text) → List Runner → ℕ × ℕ × List Text
tally state [] = (0, 0, [])
tally state (r ∷ runners) =
    let (ready, failed, details) = tally state runners in
    let s = shown (state_of r.name state) in
    (
      count_if (text_eq s (codes "ready")) + ready,
      count_if (text_eq s (codes "failed")) + failed,
      detail r.name s ∷ details,
    )

abbrev pub is_nil : List Runner → Bool
is_nil [] = true
is_nil (_ ∷ _) = false

module _ (format_int : ℕ → Text) where
  -- ReadyStatus
  unfoldable pub multi_ready_status : MultiRunner → ReadyStatus
  unfolding join
  multi_ready_status r =
      let total = length r.runners in
      let (ready, failed, details) = tally r.state r.runners in
      if is_nil r.runners
      then record {
        ready = false;
        summary = codes "mode=multi total=0 ready=0 failed=0 details=[]";
      }
      else record {
        ready = ready == total;
        summary =
            codes "mode=multi"
            ++ counts_summary format_int total ready failed (join (codes ",") details);
      }

-- The inner loop of Status: the status of the first runner with the name, where there is one.
unfoldable pub snapshot_of : Text → List Runner → TunnelStatus → TunnelStatus
snapshot_of name [] snapshot = snapshot
snapshot_of name (r ∷ runners) snapshot =
    if text_eq r.name name then runner_tunnel_status r else snapshot_of name runners snapshot

-- The outer loop of Status, for one name.
unfoldable pub tunnel_status_of : MultiRunner → Text → TunnelStatus
tunnel_status_of r name =
    let snapshot = snapshot_of name r.runners (status_of name r.status) in
    record snapshot {
      name = or_else snapshot.name name;
      status = shown (or_else (state_of name r.state) snapshot.status);
    }

abbrev pub map_tunnels : MultiRunner → List Text → List TunnelStatus
map_tunnels r [] = []
map_tunnels r (n ∷ names) = tunnel_status_of r n ∷ map_tunnels r names

abbrev pub names_of : List Runner → List Text
names_of [] = []
names_of (r ∷ runners) = r.name ∷ names_of runners

module _ (format_int : ℕ → Text) (sort_strings : List Text → List Text) where
  -- Status
  unfoldable pub multi_status : MultiRunner → StatusPayload
  multi_status r =
      let s = multi_ready_status format_int r in
      record {
        mode = codes "multi";
        ready = s.ready;
        summary = s.summary;
        tunnel = none;
        tunnels = map_tunnels r (sort_strings (names_of r.runners));
      }
