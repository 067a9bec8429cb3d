-- ===== src/App/Workflows/Samples.antt =====
-- The workflows' theorems at work on a small project, whose world tells whether the runtime
-- directory is there.
use hermes_vps.Prelude.{
  ◌⊎◌, ◌≢◌, All, ◌≡◌, refl, sym, ◌↔◌, Bool, true, false, String, none, some, List, [], ◌∷◌, ◌==◌,
  eq_refl, elem, if◌then◌else◌,
}
use hermes_vps.Prelude.Dict.{NodupKeys, keys}
use hermes_vps.Prelude.Flow.{Result, ok, raise, Holds, ok-inj}
use hermes_vps.Core.Actions.{ActionGraph, failed}
use hermes_vps.Value
use hermes_vps.Value.{int, pos, Fields, str, end, field}
use hermes_vps.Text.{codes, strip}
use hermes_vps.Core.Interfaces.{RunResult, docker_nix, Exception, other}
use hermes_vps.Core.Session.{new_log}
use hermes_vps.Core.Actions.Outcome.{Runtime}
use hermes_vps.Core.Engine.{raised}
use hermes_vps.Core.Engine.Execute.{Ambient}
use hermes_vps.App.Workflows.{
  unsupported, Workflow, deploy, workflow_name, workflow_graph, build_graph, tofu_plan,
  monitoring_graph,
}
use hermes_vps.App.Workflows.Graphs.{IsPipeline, build_graph-IsPipeline, workflow_graph-valid}
use hermes_vps.App.Workflows.Monitoring.{Probes, run_monitoring_graph}
use hermes_vps.App.Workflows.Monitoring.Warnings.{
  probe_ids, HasHint, EndsWithHealth, run_monitoring_graph_lem,
}
use hermes_vps.App.Preview.{
  GraphPreviewPresentation, preview_from_graph, count_statuses, zero_counts, progress_summary,
}
use hermes_vps.App.Preview.Order.{Follows}
use hermes_vps.App.Preview.Rows.{Numbered, row_ids, preview_from_graph-Follows}
use hermes_vps.App.Preview.Progress.{occurrences, sum_counts, progress_summary-get}
use hermes_vps.App.Workflows.Environment.{
  Os, BootstrapSelection, auth_path, parse_bootstrap_port, validate_bootstrap_environment,
  resolve_provider,
}
use hermes_vps.App.Workflows.Environment.Accepted.{IsPort, parse_bootstrap_port_iff}
use hermes_vps.App.Workflows.Environment.Selection.{
  IsAccepted, validate_bootstrap_environment-IsAccepted,
}
use hermes_vps.App.Workflows.Handler.{Effects, Setup}
use hermes_vps.App.Workflows.Handler.Remote.{
  Target, runtime_dir, read_target, execute_bootstrap_remote,
}
use hermes_vps.App.Workflows.Handler.Results.{IsClean, execute_bootstrap_remote-IsClean}
use hermes_vps.App.Workflows.Handler.Artifact.{Keeps, Raises, execute_bootstrap_remote-Raises}
use hermes_vps.App.Workflows.Handler.Dispatch.{handle}
use hermes_vps.App.Workflows.Handler.Exits.{ExitsZero, Anything, handle-ExitsZero}
use hermes_vps.App.Workflows.Operate.{Operator, Order, Stop}
use hermes_vps.App.Workflows.Operate.Destroy.{is_approved}
use hermes_vps.App.Workflows.Operate.Start.{run_operational_graph}
use hermes_vps.App.Workflows.Operate.Unapproved.{KeptByReads, run_operational_graph-unapproved}

build_graph-IsPipeline_example :
    ((w : Workflow) × (workflow_name w ≡ "deploy")
      × ((g : ActionGraph) × (build_graph "deploy" ≡ ok g) × IsPipeline w g))
    ⊎ (((w : Workflow) → workflow_name w ≢ "deploy")
        × (build_graph "deploy" ≡ raise (unsupported "deploy")))
build_graph-IsPipeline_example = build_graph-IsPipeline "deploy"

parse_bootstrap_port_iff_example :
    (parse_bootstrap_port "2222" ≡ ok 2222) ↔ IsPort (codes "2222") 2222
parse_bootstrap_port_iff_example = parse_bootstrap_port_iff "2222" 2222

abbrev env_lines : List String
env_lines =
    "# project" ∷ "BOOTSTRAP_SSH_PRIVATE_KEY_PATH = /keys/id" ∷ "BOOTSTRAP_SSH_PORT=2222"
    ∷ "TF_VAR_hermes_provider=nous" ∷ "HERMES_AGENT_VERSION=1.2.3" ∷ "TELEGRAM_BOT_TOKEN=t"
    ∷ "TELEGRAM_ALLOWLIST_IDS=5,-7" ∷ "TF_VAR_allowed_tcp_ports=[80, 443]" ∷ []

abbrev sample_os : Os
sample_os = record {
  variable = λ name. none;
  is_file = λ path. true;
  is_dir = λ path. true;
  mode = λ path. 384;
  is_readable = λ path. true;
  lines = λ path. some env_lines;
  user_path = λ path. path;
}

abbrev sample_selection : BootstrapSelection
sample_selection = record {
  provider = "hetzner";
  tf_dir = "/repo/opentofu/providers/hetzner";
  key_path = "/keys/id";
  ssh_port = 2222;
  raw_allowed_ports = "[80, 443]";
  hermes_provider = "nous";
  hermes_api_key = "";
  hermes_agent_version = "1.2.3";
  telegram_bot_token = "t";
  telegram_allowlist_ids = "5,-7";
  telegram_poll_timeout = "30";
  hermes_model = "";
  hermes_agent_release_tag = "";
  hermes_auth_json_path = "/repo/bootstrap/runtime/hermes-auth.json";
}

sample-valid : validate_bootstrap_environment sample_os "/repo" "hetzner" ≡ ok sample_selection
unfolding validate_bootstrap_environment
sample-valid = refl

validate_bootstrap_environment-IsAccepted_example :
    IsAccepted sample_os "/repo" "hetzner" sample_selection
validate_bootstrap_environment-IsAccepted_example =
    validate_bootstrap_environment-IsAccepted sample_os "/repo" "hetzner" sample_selection
      sample-valid

abbrev done : RunResult
done = record {
  exit_code = pos 0;
  stdout = "10.0.0.1";
  stderr = "";
  started_at = 0;
  finished_at = 1;
  runner_mode = docker_nix;
  redactions_applied = true;
  output_truncated = false;
}

abbrev copy_other : String → String → Bool → Result Exception (Unit {0}) × Bool
copy_other source target w =
    if source == target then (raise (raised other "same file"), w) else (ok tt, w)

abbrev sample_effects : Effects Bool
sample_effects = record {
  run = λ request w. (ok done, w);
  is_file = λ path w. true;
  exists = λ path w. w;
  make_dir = λ path w. (ok tt, true);
  write_text = λ path text w. (ok tt, w);
  change_mode = λ path mode w. (ok tt, w);
  copy = copy_other;
  remove_tree = λ path w. false;
}

abbrev sample_runtime : Runtime
sample_runtime = record { sub = λ p s. s; repr = λ v. "2222"; parse_int = λ s. none }

abbrev sample_setup : Setup Bool
sample_setup = record {
  rt = sample_runtime;
  effects = sample_effects;
  describe = λ text r. text;
  config = some sample_selection;
}

abbrev sample_context : Fields
sample_context = field "provider" (str "hetzner") (
    field "repo_root" (str "/repo") (
      field "bootstrap_target_ip" (str "10.0.0.1")
        (field "bootstrap_target_user" (str "admin") end)))

abbrev sample_state : Fields × Bool
sample_state = (sample_context, false)

repo_root-there : Value.get "repo_root" sample_context ≡ some (str "/repo")
unfolding Value.get
repo_root-there = refl

execute_bootstrap_remote-IsClean_example :
    IsClean sample_setup
      (runtime_dir "/repo")
      sample_state
      (execute_bootstrap_remote sample_setup sample_state)
execute_bootstrap_remote-IsClean_example =
    execute_bootstrap_remote-IsClean sample_setup (λ dir w. refl) sample_state "/repo"
      repo_root-there

abbrev sample_target : Target
sample_target = record {
  config = sample_selection;
  repo_root = "/repo";
  ip = "10.0.0.1";
  user = "admin";
  port = "2222";
}

sample_target-read : read_target sample_setup sample_state ≡ (ok sample_target, sample_state)
unfolding read_target Value.get
sample_target-read = refl

copy_other_self :
    (path : String) (w : Bool) → (exc : Exception) × ((copy_other path path w).0 ≡ raise exc)
copy_other_self path w = (raised other "same file", rw (eq_refl path) refl)

sample_effects-Keeps : Keeps sample_effects (auth_path "/repo")
sample_effects-Keeps = record {
  make_dir = λ dir w there. refl;
  write_text = λ q text w there. refl;
  change_mode = λ q m w there. refl;
}

execute_bootstrap_remote-Raises_example :
    Raises sample_setup (execute_bootstrap_remote sample_setup sample_state)
execute_bootstrap_remote-Raises_example =
    execute_bootstrap_remote-Raises sample_setup copy_other_self sample_target refl
      sample_effects-Keeps sample_state sample_target-read refl

tofu_plan-listed :
    elem tofu_plan.action_id
      ("tofu_init" ∷ "tofu_init_upgrade" ∷ "tofu_plan" ∷ "tofu_apply" ∷ "tofu_destroy" ∷ [])
    ≡ true
unfolding elem
tofu_plan-listed = refl

handle-ExitsZero_example :
    Holds ExitsZero Anything (handle sample_setup tofu_plan sample_context false).0
handle-ExitsZero_example =
    handle-ExitsZero sample_setup tofu_plan sample_context false tofu_plan-listed

abbrev sample_operator : Operator Bool
sample_operator = record {
  rt = sample_runtime;
  effects = sample_effects;
  describe = λ text r. text;
  os = λ w. sample_os;
  glob = λ pattern dir w. (dir ∷ []);
  resolve = λ path w. path;
  sort_unique = λ paths. paths;
  archive = λ path dir files w. (ok tt, true);
  now = λ w. (7, w);
  stamp = λ t. "19700101T000007Z";
  iso_time = λ t. "1970-01-01T00:00:07+00:00";
  mode = docker_nix;
}

-- The token is for the other provider.
abbrev sample_order : Order
sample_order = record {
  action = "destroy";
  repo_root = "/repo";
  provider_override = some "hetzner";
  host_override_token = none;
  override_reason = none;
  approve_destructive = some "DESTROY:linode";
  confirmation_mode = "headless";
}

abbrev sample_ambient : Ambient Bool
sample_ambient = record { context = end; audit_log = some (new_log "s" "/repo" 0); world = false }

sample_reads : KeptByReads (λ w. w ≡ false) sample_operator "/repo"
sample_reads = record { run = λ provider name w same. same; now = λ w same. same }

sample_order-denied :
    (provider : String)
    → resolve_provider sample_os (some "hetzner") ≡ ok provider
    → is_approved (some "DESTROY:linode") provider ≡ false
unfolding resolve_provider elem strip
sample_order-denied provider e = let same : "hetzner" ≡ provider = ok-inj e in rw (sym same) refl

run_operational_graph-unapproved_example :
    ((run_operational_graph sample_operator sample_order sample_ambient).1.world ≡ false)
    × ((stop : Stop) × ((run_operational_graph sample_operator sample_order sample_ambient).0
          ≡ raise stop))
run_operational_graph-unapproved_example =
    run_operational_graph-unapproved (λ w. w ≡ false) sample_operator sample_order sample_ambient
      sample_reads refl sample_order-denied refl

abbrev sample_probes : Probes
sample_probes = record {
  os = sample_os;
  which = λ command. command == "tofu";
  age = λ path. 3;
  oct = λ mode. "0o600";
  iso_time = λ probe. "1970-01-01T00:00:07+00:00";
}

run_monitoring_graph_lem_example :
    (probe_ids (run_monitoring_graph sample_probes "/repo" none) ≡ keys monitoring_graph.actions)
    × All HasHint (run_monitoring_graph sample_probes "/repo" none)
    × EndsWithHealth (run_monitoring_graph sample_probes "/repo" none)
run_monitoring_graph_lem_example = run_monitoring_graph_lem sample_probes "/repo" none

deploy-distinct : NodupKeys (workflow_graph deploy).actions
deploy-distinct = unfold keys elem in (refl, (refl, (refl, (refl, (refl, (refl, (refl, tt)))))))

preview_from_graph-Follows_example :
    (p : GraphPreviewPresentation) × (preview_from_graph "deploy"
        (workflow_graph deploy)
        (some "hetzner")
        none
        none
      ≡ ok p)
    × Numbered 1 p.actions
    × Follows (workflow_graph deploy).actions [] (row_ids p.actions)
    × ((k : String)
        → elem k (keys (workflow_graph deploy).actions) ≡ true
        → elem k (row_ids p.actions) ≡ true)
preview_from_graph-Follows_example =
    preview_from_graph-Follows "deploy" (workflow_graph deploy) (some "hetzner") none none
      deploy-distinct (workflow_graph-valid deploy)

abbrev three_statuses : List String
three_statuses = "failed" ∷ "blocked" ∷ "failed" ∷ []

progress_summary-get_example :
    (Value.get "failed" (progress_summary three_statuses none)
      ≡ some (int (pos (occurrences "failed" three_statuses))))
    × (Value.get "total" (progress_summary three_statuses none) ≡ some (int (pos 3)))
    × (sum_counts (count_statuses three_statuses zero_counts) ≡ 3)
progress_summary-get_example = progress_summary-get three_statuses none failed
