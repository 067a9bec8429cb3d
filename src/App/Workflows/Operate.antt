-- ===== src/App/Workflows/Operate.antt =====
-- hermes_vps_app/operational.py: `run_operational_graph`, with the preview, the approval and the
-- backup that precede a destroy. The action context and the audit log stand beside the world.
pub mod Destroy
pub mod Start
pub mod Unapproved
use hermes_vps.Prelude.{
  ℕ, Bool, true, false, not, ◌&&◌, String, Option, none, some, List, [], ◌∷◌, ◌++◌, ◌==◌, elem,
  length, map, if◌then◌else◌,
}
use hermes_vps.Prelude.Flow.{Result, ok, raise, Flow, pure, throw, lift, ◌>>=◌, ◌>>◌}
use hermes_vps.Value
use hermes_vps.Value.{ℤ, pos, Value, null, Items, Fields, bool, int, str, list, dict, end, field}
use hermes_vps.Text.{◌<>◌, strip}
use hermes_vps.Core.Interfaces.{
  RunnerMode, host, RunRequest, RunResult, Exception, permission_error,
}
use hermes_vps.Core.Session.{DestructiveApprovalAudit, SessionAuditLog, add_destructive_approval}
use hermes_vps.Core.Actions.{ActionGraph}
use hermes_vps.Core.Actions.Outcome.{Runtime}
use hermes_vps.Core.Engine.{RunOutcome, raised, run, host_override_value}
use hermes_vps.Core.Engine.Execute.{Engine, Ambient}
use hermes_vps.App.Workflows.{BuildError, build_graph}
use hermes_vps.App.Workflows.Environment.{
  Os, EnvironmentError, Checked, InitSelection, BootstrapSelection, resolve_provider,
  validate_init_environment, validate_bootstrap_environment,
}
use hermes_vps.App.Workflows.Handler.{
  Effects, Setup, request, provider_env, tofu, output_words, is_zero, items_of,
}
use hermes_vps.App.Workflows.Handler.Dispatch.{handle}

-- What the machine and the standard library supply. `glob` is `tf_dir.rglob` with a pattern, as
-- texts; `resolve` is `Path.resolve`; `sort_unique` is `sorted` of the set of a list; `archive` makes
-- the tar file and sets its mode, with each state file by its name relative to the directory, and
-- `stamp` and `iso_time` are the two texts of the clock's time.
pub record Operator (W : Type 0) : Type 0 where
  pub rt : Runtime
  pub effects : Effects W
  pub describe : String → RunResult → String
  pub os : W → Os
  pub glob : String → String → W → List String
  pub resolve : String → W → String
  pub sort_unique : List String → List String
  pub archive : String → String → List String → W → Result Exception (Unit {0}) × W
  pub now : W → ℕ × W
  pub stamp : ℕ → String
  pub iso_time : ℕ → String
  pub mode : RunnerMode

-- The arguments.
pub record Order : Type 0 where
  pub action : String
  pub repo_root : String
  pub provider_override : Option String
  pub host_override_token : Option String
  pub override_reason : Option String
  pub approve_destructive : Option String
  pub confirmation_mode : String

-- What is raised before the engine runs.
pub data Stop : Type 0 where
  environment : EnvironmentError → Stop
  graph : BuildError → Stop
  exception : Exception → Stop

abbrev pub Op : Type 0 → Type 0 → Type 0
Op W A = Flow (Ambient W) Stop A

abbrev pub or_blank : Option String → String
or_blank none = ""
or_blank (some s) = s

abbrev pub error_as : {A E : Type 0} → (E → Stop) → Result E A → Result Stop A
error_as f (ok a) = ok a
error_as f (raise e) = raise (f e)

module _ {W : Type 0} (o : Operator W) where
  unfoldable pub put_context : String → Value → Op W (Unit {0})
  unfolding Value.put
  put_context key v amb = (ok tt, record amb { context = Value.put key v amb.context })

  unfoldable pub read_time : Op W ℕ
  read_time amb = let (t, w) = o.now amb.world in (ok t, record amb { world = w })

  unfoldable pub in_world : {A : Type 0} → (W → Result Exception A × W) → Op W A
  in_world op amb = let (r, w) = op amb.world in (error_as exception r, record amb { world = w })

  unfoldable pub checked : {A : Type 0} → (Os → Checked A) → Op W A
  checked f amb = (error_as environment (f (o.os amb.world)), amb)
