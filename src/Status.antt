-- ===== src/Status.antt =====
-- internal/health/runner.go, internal/cftunnel/runner.go and internal/cftunnel/multi_runner.go: the
-- states of the tunnels and what /ready and /status answer. The text of an int and sort.Strings are
-- arguments; the mutexes make each operation one step.
pub mod Multi
pub mod Ready
pub mod Group
use cf_tunnel.Prelude.{
  ℕ, ◌≡◌, refl, Bool, true, false, ◌||◌, ◌&&◌, Option, none, some, List, [], ◌∷◌, ◌++◌, ◌==◌,
  length, if◌then◌else◌,
}
use cf_tunnel.Text.{Text, codes, text_eq, is_empty, trim_space}
use cf_tunnel.Session.{Session}

-- health.ReadyStatus
pub record ReadyStatus : Type 0 where
  pub ready : Bool
  pub summary : Text

-- health.TunnelStatus
pub record TunnelStatus : Type 0 where
  pub name : Text
  pub status : Text
  pub quick_tunnel : Bool
  pub quick_tunnel_url : Text
  pub hostname : Text
  pub protocol : Text
  pub origin_url : Text

-- health.StatusPayload
pub record StatusPayload : Type 0 where
  pub mode : Text
  pub ready : Bool
  pub summary : Text
  pub tunnel : Option TunnelStatus
  pub tunnels : List TunnelStatus

-- `if status.Summary == "" { status.Summary = "not ready" }`
abbrev summary_or_default : Text → Text
summary_or_default s = if is_empty s then codes "not ready" else s

-- health.Runner.ReadyStatus, with what the provider answers, or no provider
unfoldable pub health_ready_status : Option ReadyStatus → ReadyStatus
health_ready_status none = record { ready = false; summary = codes "not ready" }
health_ready_status (some s) = record s { summary = summary_or_default s.summary }

-- health.Runner.Status
unfoldable pub health_status : Option StatusPayload → StatusPayload
health_status none = record {
  mode = [];
  ready = false;
  summary = codes "not ready";
  tunnel = none;
  tunnels = [];
}
health_status (some s) = record s { summary = summary_or_default s.summary }

-- The handler of /ready: the status code and the body.
unfoldable pub ready_response : Option ReadyStatus → ℕ × Text
unfolding health_ready_status
ready_response provider =
    let s = health_ready_status provider in (if s.ready then 200 else 503, s.summary)

-- How a run ended.
pub data RunError : Type 0 where
  canceled failure : RunError

-- statusForRunError; the flag says that the context was canceled.
unfoldable pub status_for_run_error : Bool → Option RunError → Text
status_for_run_error true e = codes "stopped"
status_for_run_error false none = codes "exited"
status_for_run_error false (some canceled) = codes "stopped"
status_for_run_error false (some failure) = codes "failed"

-- `if strings.TrimSpace(name) == "" { name = "cftunnel" }`
unfoldable pub tunnel_name : Text → Text
tunnel_name name = if is_empty (trim_space name) then codes "cftunnel" else name

-- Runner: the fields that its status is computed from.
pub record Runner : Type 0 where
  pub name : Text
  pub status : Text
  pub edge_protocol : Text
  pub target : Text
  pub session : Option Session

-- newNamedRunnerWithReadiness; the configuration gives the protocol and the target.
unfoldable pub new_named_runner : Text → Text → Text → Runner
unfolding tunnel_name
new_named_runner name edge_protocol target = record {
  name = tunnel_name name;
  status = codes "pending";
  edge_protocol = edge_protocol;
  target = target;
  session = none;
}

-- `if s != "" { t = s }`
abbrev pub or_else : Text → Text → Text
or_else s t = if is_empty s then t else s

-- "ready=%d failed=%d details=[%s]"
unfoldable pub counts_summary : (ℕ → Text) → ℕ → ℕ → ℕ → Text → Text
counts_summary format_int total ready failed details =
    codes " total="
    ++ (format_int total
        ++ (codes " ready="
            ++ (format_int ready
                ++ (codes " failed="
                    ++ (format_int failed ++ (codes " details=[" ++ (details ++ codes "]")))))))

abbrev pub detail : Text → Text → Text
detail name status = name ++ b':' ∷ status

abbrev pub count_if : Bool → ℕ
count_if b = if b then 1 else 0

module _ (format_int : ℕ → Text) where
  -- Runner.ReadyStatus
  unfoldable pub runner_ready_status : Runner → ReadyStatus
  unfolding counts_summary
  runner_ready_status r = record {
    ready = text_eq r.status (codes "ready");
    summary =
        codes "mode=single"
        ++ counts_summary format_int 1 (count_if (text_eq r.status (codes "ready")))
            (count_if (text_eq r.status (codes "failed"))) (detail r.name r.status);
  }

-- The TunnelStatus of Runner.Status
unfoldable pub runner_tunnel_status : Runner → TunnelStatus
runner_tunnel_status r = elim r.session [
  | none ↦ record {
    name = r.name;
    status = r.status;
    quick_tunnel = false;
    quick_tunnel_url = [];
    hostname = [];
    protocol = r.edge_protocol;
    origin_url = r.target;
  }
  | some s ↦ record {
    name = r.name;
    status = r.status;
    quick_tunnel = s.quick_tunnel;
    quick_tunnel_url = s.public_url;
    hostname = s.hostname;
    protocol = or_else s.edge_protocol r.edge_protocol;
    origin_url = or_else s.origin.url r.target;
  }
]

module _ (format_int : ℕ → Text) where
  -- Runner.Status
  unfoldable pub runner_status : Runner → StatusPayload
  unfolding runner_ready_status runner_tunnel_status
  runner_status r =
      let s = runner_ready_status format_int r in
      record {
        mode = codes "single";
        ready = s.ready;
        summary = s.summary;
        tunnel = some (runner_tunnel_status r);
        tunnels = [];
      }

-- Runner.Run: the states that it sets, in order, for a preparation that fails or gives a session,
-- a context that is canceled by the end, and what the bridge's Run returns. With a session the
-- states between "starting" and the last are those that the connections set.
unfoldable pub run_states : Bool → Option RunError → Option RunError → List Text
unfolding status_for_run_error
run_states cancelled (some e) bridge =
    codes "starting" ∷ status_for_run_error cancelled (some e) ∷ []
run_states cancelled none bridge = codes "starting" ∷ status_for_run_error cancelled bridge ∷ []
