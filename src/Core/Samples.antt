-- ===== src/Core/Samples.antt =====
-- Two small graphs, an engine over a call counter, and the theorems at work on them.
use hermes_vps.Prelude.{
  ℕ, ◌+◌, ◌≡◌, refl, ◌≢◌, ◌↔◌, true, false, String, Option, none, some, List, [], ◌∷◌, ◌==◌, elem,
  All,
}
use hermes_vps.Prelude.Dict.{NodupKeys, Dict, lookup, keys}
use hermes_vps.Prelude.Flow.{ok, raise}
use hermes_vps.Value.{pos, Fields, bool, str, dict, end, field}
use hermes_vps.Text.{strip}
use hermes_vps.Core.Interfaces.{
  SideEffectLevel, destructive, RunnerMode, docker_nix, nix_develop, host, RunRequest, RunResult,
  argv, value, unset, Exception, permission_error,
}
use hermes_vps.Core.Session.{DestructiveApprovalAudit, new_log, add_destructive_approval}
use hermes_vps.Core.Actions.{fixed, ActionDescriptor, ActionGraph}
use hermes_vps.Core.Actions.Validate.{out_of_fuel, validate_graph}
use hermes_vps.Core.Actions.Validity.{IsValid, validate_graph_iff, validate_graph-ne-out_of_fuel}
use hermes_vps.Core.Actions.Policy.{validate}
use hermes_vps.Core.Actions.Policy.Guard.{Guarded, validate-Guarded}
use hermes_vps.Core.Actions.Ready.{is_succeeded}
use hermes_vps.Core.Actions.Outcome.{Runtime, normalize_action_result}
use hermes_vps.Core.Engine.{
  EngineResult, result, raise_exception, all_status, enforce_host_override_gate, token_text,
  host_override_value, raised, denial, run,
}
use hermes_vps.Core.Engine.Execute.{Engine, Ambient}
use hermes_vps.Core.Engine.Execute.Attempts.{AnyError}
use hermes_vps.Core.Engine.Execute.Success.{Reliable}
use hermes_vps.Core.Engine.Outcomes.{RunOk}
use hermes_vps.Core.Engine.Runs.{AnyStatus, run-Report, run-completes}
use hermes_vps.Core.Runner.Run.{Spawn, Completed, completed, run_request}
use hermes_vps.Core.Runner.Run.Child.{IsOfChild, run_request-IsOfChild}
use hermes_vps.Core.Runner.{Runner, Machine, ended, RunnerFactory, get}
use hermes_vps.Core.Runner.Lock.{FirstGet, get_lem}
use hermes_vps.Core.Engine.Gates.{run-denied}

abbrev pub plain_runtime : Runtime
plain_runtime = record { sub = λ p s. s; repr = λ v. "value"; parse_int = λ s. none }

abbrev sample_action : String → List String → SideEffectLevel → Option ℕ → Fields → ActionDescriptor
sample_action id deps level timeout metadata = record {
  action_id = id;
  label = id;
  deps = deps;
  side_effect_level = level;
  timeout_s = timeout;
  allow_failure = false;
  retry_policy = record { kind = fixed; max_attempts = pos 2; delay_seconds = 0 };
  preconditions = [];
  rollback_hint = none;
  repair_hint = none;
  metadata = metadata;
}

abbrev sample_policy : String → Fields
sample_policy level =
    field "policy"
      (dict (
        field "side_effect_level" (str level) (
          field "approval_required" (bool true)
            (field "command_backed" (bool true) (field "timeout" (str "bounded") end)))))
      end

abbrev backup_then_destroy : Dict ActionDescriptor
backup_then_destroy =
    (
      "destroy",
      sample_action "destroy" ("backup" ∷ []) destructive (some 30) (sample_policy "destructive"),
    )
    ∷ ("backup", sample_action "backup" [] SideEffectLevel.none (some 5) (sample_policy "none"))
    ∷ []

abbrev pub sample_graph : ActionGraph
sample_graph = record {
  name = "destroy";
  actions = backup_then_destroy;
  policy_gate_enabled = true;
}

-- Each handler call counts one up, and returns an empty result; the clock is the count.
abbrev pub counting_engine : RunnerMode → Option String → Engine ℕ
counting_engine mode token = record {
  graph = sample_graph;
  mode = mode;
  handler = λ a context w. (ok end, context, w + 1);
  event_sink = none;
  now = λ w. (w, w);
  require_host_override_token = true;
  host_override_token = token;
}

abbrev pub sample_ambient : Ambient ℕ
sample_ambient = record { context = end; audit_log = some (new_log "s" "/repo" 0); world = 0 }

pub sample_keys : NodupKeys backup_then_destroy
sample_keys = unfold keys elem in (refl, (refl, tt))

validate_graph_iff_example :
    (validate_graph backup_then_destroy ≡ ok tt) ↔ IsValid backup_then_destroy
validate_graph_iff_example = validate_graph_iff backup_then_destroy

validate_graph-ne-out_of_fuel_example : validate_graph backup_then_destroy ≢ raise out_of_fuel
validate_graph-ne-out_of_fuel_example = validate_graph-ne-out_of_fuel backup_then_destroy

pub valid_sample : validate sample_graph ≡ ok tt
unfolding validate keys lookup
valid_sample = refl

validate-Guarded_example : All (λ s. Guarded s.1) backup_then_destroy
validate-Guarded_example = validate-Guarded sample_graph refl valid_sample

run-Report_example :
    RunOk
      (counting_engine docker_nix none)
      AnyStatus
      AnyError
      (run plain_runtime (counting_engine docker_nix none) sample_ambient).0
run-Report_example =
    run-Report plain_runtime (counting_engine docker_nix none) sample_ambient sample_keys

abbrev empty_result : Fields
empty_result = elim (normalize_action_result plain_runtime end) [ ok d ↦ d | raise e ↦ end ]

empty_result-normal : normalize_action_result plain_runtime end ≡ ok empty_result
unfolding normalize_action_result
empty_result-normal = refl

counting_engine-Reliable : Reliable plain_runtime (counting_engine docker_nix none)
counting_engine-Reliable = record {
  handler_returns = λ a context w. (end, empty_result, refl, empty_result-normal);
  sink_accepts = λ sink p event w. cc;
}

gate_open :
    (enforce_host_override_gate plain_runtime (counting_engine docker_nix none) sample_ambient).0
    ≡ ok tt
unfolding enforce_host_override_gate
gate_open = refl

wrong_token :
    (token_text plain_runtime (counting_engine host (some "yes")) == host_override_value) ≡ false
unfolding token_text strip
wrong_token = refl

run-completes_example :
    (r : EngineResult) × ((run plain_runtime (counting_engine docker_nix none) sample_ambient).0
      ≡ result r)
    × (keys r.states ≡ keys backup_then_destroy)
    × (all_status is_succeeded r.states ≡ true)
    × (r.completed ≡ true)
    × (r.failed ≡ false)
run-completes_example =
    run-completes plain_runtime (counting_engine docker_nix none) sample_ambient
      counting_engine-Reliable sample_keys valid_sample gate_open

run-denied_example :
    (exc : Exception) × (entry : DestructiveApprovalAudit) × (exc ≡ raised permission_error denial)
    × (entry.approved ≡ false)
    × (entry.action_id ≡ "host_override_preflight")
    × (entry.token_used ≡ none)
    × (run plain_runtime (counting_engine host (some "yes")) sample_ambient ≡ (
      raise_exception exc,
      record {
        context = end;
        audit_log = some (add_destructive_approval entry (new_log "s" "/repo" 0));
        world = 0;
      },
    ))
run-denied_example =
    run-denied plain_runtime (counting_engine host (some "yes")) sample_ambient
      (new_log "s" "/repo" 0) valid_sample refl refl wrong_token refl

abbrev docker_machine : Machine
docker_machine = record {
  python3 = "/usr/bin/python3";
  path = "/usr/bin";
  has_nix = false;
  has_docker = true;
  docker_info = ended (pos 0) "" "";
}

abbrev sample_factory : RunnerFactory
sample_factory = record {
  repo_root = "/repo";
  allow_host_override = false;
  override_reason = "";
  audit_log = some (new_log "s" "/repo" 0);
  locked = none;
  selection = none;
}

get_lem_example : FirstGet docker_machine 7 sample_factory (get docker_machine 7 sample_factory)
get_lem_example = get_lem docker_machine 7 sample_factory refl

abbrev quiet_spawn : Spawn → ℕ → Completed × ℕ
quiet_spawn request w = (completed (pos 0) "done" "", w + 1)

abbrev list_request : RunRequest
list_request = record {
  command = argv ("tofu" ∷ "plan" ∷ []);
  cwd = none;
  env = some (("TF_IN_AUTOMATION", value "1") ∷ ("SECRET", unset) ∷ []);
  timeout_s = some 60;
  stream = false;
  side_effect_level = SideEffectLevel.none;
  shell = false;
}

abbrev nix_runner : Runner
nix_runner = record { mode = nix_develop; prefix_argv = "nix" ∷ "develop" ∷ [] }

abbrev list_result : RunResult
list_result = record {
  exit_code = pos 0;
  stdout = "done";
  stderr = "";
  started_at = 0;
  finished_at = 1;
  runner_mode = nix_develop;
  redactions_applied = true;
  output_truncated = false;
}

run_request-IsOfChild_example :
    IsOfChild quiet_spawn
      (("SECRET", "x") ∷ [])
      (λ code. "")
      (λ w. (w, w))
      100
      nix_runner
      list_request
      0
      list_result
unfolding run_request elem keys
run_request-IsOfChild_example =
    run_request-IsOfChild quiet_spawn (("SECRET", "x") ∷ []) (λ code. "") (λ w. (w, w)) 100
      nix_runner list_request 0 list_result (refl, tt) refl
