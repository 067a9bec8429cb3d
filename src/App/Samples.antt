-- ===== src/App/Samples.antt =====
-- The application's theorems at work on small projects.
use hermes_vps.Prelude.{
  ◌⊎◌, ◌≡◌, refl, ◌↔◌, true, false, String, List, none, some, [], ◌∷◌, map, ◌==◌, elem,
  if◌then◌else◌, All,
}
use hermes_vps.Prelude.Dict.{lookup, keys}
use hermes_vps.Prelude.Flow.{ok, raise}
use hermes_vps.Core.Interfaces.{docker_nix, nix_develop, runner_unavailable}
use hermes_vps.Core.Actions.{failed, ActionRuntimeState}
use hermes_vps.Core.Samples.{
  plain_runtime, counting_engine, sample_ambient, sample_keys, valid_sample, sample_graph,
}
use hermes_vps.Core.Actions.Ready.{initial_state}
use hermes_vps.Core.Engine.{run, EngineResult, raised}
use hermes_vps.App.Config.{
  hetzner, linode, provider_image, same_provider, ProjectConfigDraft, change_provider, EnvChange,
  redacted_diff, secret_keys, create_patch, load, validate,
}
use hermes_vps.App.Config.Review.{validate-change_provider}
use hermes_vps.App.Config.Patches.{
  redacted_diff-AllAlike, create_patch-load, KeepsSecrets, create_patch-KeepsSecrets,
}
use hermes_vps.Value.{end}
use hermes_vps.Text.{strip}
use hermes_vps.App.Shell.{deployment, ControlPanelShell, new_shell, request_host_override}
use hermes_vps.App.Shell.Session.{launched, requested, HasReason, Reachable-HasReason}
use hermes_vps.App.Startup.{blocked, PanelStartupResult, Files, evaluate_panel_startup}
use hermes_vps.App.Startup.Verdicts.{Verdict, evaluate_panel_startup_lem}
use hermes_vps.App.Errors.{CliError, graph_failure_from_result}
use hermes_vps.App.Errors.Runs.{IsReported, run-IsReported}
use hermes_vps.App.Errors.Codes.{Failing, graph_failure_from_result-Failing}
use hermes_vps.App.Snapshot.{
  OperatorSnapshot, RemoteKnownStatus, fresh, configure, fix_configuration, monitor, Project,
  build_operator_snapshot, select_primary_action,
}
use hermes_vps.App.Snapshot.Action.{
  IsHealthy, select_primary_action_iff, build_operator_snapshot-blocked,
}

-- A file that names hetzner, and is empty for every other key.
abbrev read_sample : String → String
read_sample key = if key == "TF_VAR_cloud_provider" then "hetzner" else ""

abbrev edited : ProjectConfigDraft
edited = change_provider linode (load read_sample)

abbrev token_change : String → EnvChange
token_change new = record { key = "HCLOUD_TOKEN"; old = ""; new = new; secret = true }

redacted_diff-AllAlike_example :
    redacted_diff (token_change "first" ∷ []) ≡ redacted_diff (token_change "second" ∷ [])
redacted_diff-AllAlike_example =
    redacted_diff-AllAlike (token_change "first" ∷ []) (token_change "second" ∷ [])
      ((refl, refl, λ p. cc, refl, refl), tt)

create_patch-load_example : create_patch read_sample (load read_sample) ≡ []
create_patch-load_example = create_patch-load read_sample hetzner refl

loaded-KeepsSecrets : KeepsSecrets (load read_sample)
unfolding load
loaded-KeepsSecrets = record { hcloud = refl; linode = refl; api_key = refl; telegram = refl }

create_patch-KeepsSecrets_example :
    All (λ c. elem c.key secret_keys ≡ false) (create_patch read_sample (load read_sample))
create_patch-KeepsSecrets_example =
    create_patch-KeepsSecrets read_sample (load read_sample) loaded-KeepsSecrets

other_provider : same_provider linode (load read_sample).provider.provider ≡ false
unfolding load lookup
other_provider = refl

validate-change_provider_example :
    let after = change_provider linode (load read_sample) in
    let asked : List String = "server.location" ∷ "server.server_type" ∷ [] in
    (map (λ i. i.field) (validate after) ≡ asked)
    × (after.review_required_fields ≡ asked)
    × (after.server ≡ record (load read_sample).server {
      location = "";
      server_type = "";
      image = provider_image linode;
    })
    × (after.provider ≡ record (load read_sample).provider { provider = linode })
    × (after.hermes ≡ (load read_sample).hermes)
    × (after.gateway ≡ (load read_sample).gateway)
    × (after.original_env ≡ (load read_sample).original_env)
validate-change_provider_example = validate-change_provider linode (load read_sample) other_provider

abbrev sample_files : Files
sample_files = record {
  env_exists = true;
  env_is_file = true;
  env_mode = 384;
  env_readable = true;
  lines = some ("# project" ∷ "TF_VAR_cloud_provider = hetzner" ∷ []);
  directory = λ path. true;
}

evaluate_panel_startup_lem_example :
    Verdict (ok nix_develop) sample_files (evaluate_panel_startup (ok nix_develop) sample_files)
evaluate_panel_startup_lem_example = evaluate_panel_startup_lem (ok nix_develop) sample_files

run-IsReported_example :
    IsReported "destroy" none sample_graph
      (run plain_runtime (counting_engine docker_nix none) sample_ambient).0
run-IsReported_example =
    run-IsReported plain_runtime (counting_engine docker_nix none) sample_ambient "destroy" none
      sample_keys valid_sample

abbrev late : ActionRuntimeState
late = record (initial_state "destroy") {
  status = failed;
  attempts = 2;
  last_error = some "command timed out";
}

abbrev pub late_run : EngineResult
late_run = record {
  graph_name = "destroy";
  states = ("destroy", late) ∷ ("backup", initial_state "backup") ∷ [];
  completed = false;
  failed = true;
  cancelled = false;
  host_override = none;
  generated_at = 0;
}

graph_failure_from_result-Failing_example :
    (err : CliError) × (graph_failure_from_result "destroy" sample_graph late_run ≡ ok err)
    × Failing err.category
unfolding keys
graph_failure_from_result-Failing_example =
    graph_failure_from_result-Failing "destroy" sample_graph late_run refl

abbrev healthy_status : RemoteKnownStatus
healthy_status = record {
  state = fresh;
  status = some "ok";
  recorded_at = some "2026-01-01T00:00:00Z";
  detail = "";
}

abbrev healthy : OperatorSnapshot
healthy = record {
  env_file = record { exists = true; readable = true; mode = some "600"; key_count = 1; keys = [] };
  provider = record { selection = some "hetzner"; valid = true; detail = "" };
  runner_mode = some "nix_develop";
  provider_directory = record {
    path = some "opentofu/providers/hetzner";
    exists = true;
    detail = "present";
  };
  opentofu = record {
    state_present = true;
    output_present = true;
    plan_present = false;
    state_files = [];
    output_keys = [];
  };
  remote_status = record {
    bootstrap = healthy_status;
    verify = healthy_status;
    monitoring = healthy_status;
  };
  local_health = record { status = "ok"; checks = []; detail = "local checks ok" };
  primary_action = configure;
}

select_primary_action_iff_example : (select_primary_action healthy ≡ monitor) ↔ IsHealthy healthy
select_primary_action_iff_example = select_primary_action_iff healthy

abbrev sample_project : Project
sample_project = record {
  values = ("TF_VAR_cloud_provider", "aws") ∷ [];
  env_exists = true;
  env_readable = true;
  env_mode = some "600";
  directory = λ path. false;
  opentofu = λ selection. healthy.opentofu;
  payload = end;
}

-- No runner was found at launch.
abbrev no_runner_startup : PanelStartupResult
no_runner_startup =
    evaluate_panel_startup (raise (raised runner_unavailable "no runner")) sample_files

blocked_startup : no_runner_startup.state ≡ blocked
unfolding evaluate_panel_startup
blocked_startup = refl

build_operator_snapshot-blocked_example :
    let r =
      build_operator_snapshot
        (record { sub = λ p s. s; repr = λ v. "value"; parse_int = λ s. none })
        (λ t. false)
        no_runner_startup
        sample_project in
    (r.primary_action ≡ configure) ⊎ (r.primary_action ≡ fix_configuration)
build_operator_snapshot-blocked_example =
    build_operator_snapshot-blocked
      (record { sub = λ p s. s; repr = λ v. "value"; parse_int = λ s. none }) (λ t. false)
      no_runner_startup sample_project blocked_startup

abbrev overridden_shell : ControlPanelShell
overridden_shell = (request_host_override true " outage " (new_shell none deployment)).1

overridden_shell-session : overridden_shell.session ≡ some (record { override_reason = "outage" })
unfolding request_host_override strip
overridden_shell-session = refl

Reachable-HasReason_example :
    HasReason ((true, " outage ") ∷ []) (record { override_reason = "outage" })
Reachable-HasReason_example =
    Reachable-HasReason overridden_shell ((true, " outage ") ∷ [])
      (record { override_reason = "outage" })
      (requested (new_shell none deployment) true " outage " [] (launched none deployment))
      overridden_shell-session
