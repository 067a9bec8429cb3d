-- ===== src/App/Errors.antt =====
-- hermes_vps_app/error_taxonomy.py: categories of failures, their exit codes and guidance.
pub mod Codes
pub mod Runs
use hermes_vps.Prelude.{
  ℕ, Bool, true, false, not, ◌&&◌, ◌||◌, String, Option, none, some, List, [], ◌∷◌, ◌==◌,
  if◌then◌else◌,
}
use hermes_vps.Prelude.Dict.{Dict, lookup}
use hermes_vps.Prelude.Flow.{Result, ok, raise}
use hermes_vps.Text.{◌<>◌, strip, mentions}
use hermes_vps.Core.Interfaces.{
  ExceptionClass, runner_unavailable, runner_detection_error, command_not_found, command_failed,
  command_timeout, output_limit_exceeded, redaction_error, permission_error, value_error, key_error,
  Exception, RunnerSelection,
}
use hermes_vps.Core.Actions.{ActionStatus, ActionGraph, ActionDescriptor, ActionRuntimeState}
use hermes_vps.Core.Actions.Ready.{States}
use hermes_vps.Core.Engine.{EngineResult, raised}

pub data ErrorCategory : Type 0 where
  success usage_config_error preflight_failure no_runner command_failure timed_out : ErrorCategory
  destructive_approval_denied host_override_denied output_limit bad_redaction internal_error :
      ErrorCategory

-- `EXIT_CODES`
abbrev pub exit_code : ErrorCategory → ℕ
exit_code success = 0
exit_code usage_config_error = 10
exit_code preflight_failure = 20
exit_code no_runner = 30
exit_code command_failure = 40
exit_code timed_out = 41
exit_code destructive_approval_denied = 42
exit_code host_override_denied = 43
exit_code output_limit = 50
exit_code bad_redaction = 60
exit_code internal_error = 99

-- `RECOVERY_GUIDANCE`
abbrev pub guidance : ErrorCategory → String
guidance success = "No recovery needed."
guidance usage_config_error = "Fix CLI arguments or provider configuration, then rerun the command."
guidance preflight_failure =
    "Fix local preflight inputs such as .env permissions and provider directories, then rerun."
guidance no_runner = "Activate the project toolchain or install nix/docker before rerunning."
guidance command_failure =
    "Inspect the failed action, fix the underlying tool error, then rerun the failed scope."
guidance timed_out = "Increase readiness or command timeout budget, then rerun the failed scope."
guidance destructive_approval_denied =
    "Review the destroy preview and pass the exact approval flag only if destruction is intended."
guidance host_override_denied =
    "Use a hermetic runner, or provide the audited host override token and reason."
guidance output_limit = "Reduce command output or raise the configured output cap before rerunning."
guidance bad_redaction =
    "Stop and fix redaction configuration before rerunning to avoid leaking secrets."
guidance internal_error =
    "Rerun with logs; if it repeats, file an internal bug with sanitized context."

pub record CliError : Type 0 where
  pub category : ErrorCategory
  pub message : String
  pub workflow : Option String
  pub graph_id : Option String
  pub action_id : Option String
  pub action_status : Option ActionStatus
  pub repair_scope : Option String
  pub runner_selection : Option RunnerSelection

-- `_category_from_message`
unfoldable pub category_from_message : String → ErrorCategory
unfolding mentions
category_from_message m =
    if mentions "timed out" m || mentions "timeout" m
    then timed_out
    else if mentions "output exceeded" m || mentions "output limit" m
    then output_limit
    else if mentions "redaction" m
    then bad_redaction
    else if mentions "runner" m && mentions "unavailable" m
    then no_runner
    else if mentions "command failed" m
        || mentions "command exited" m
        || mentions "failed to resolve" m
        || mentions "remote" m
    then command_failure
    else internal_error

-- The tests on the class, once the message is not about a host override.
category_of_class : ExceptionClass → String → ErrorCategory
unfolding mentions
category_of_class permission_error m =
    if mentions "destructive approval" m then destructive_approval_denied else usage_config_error
category_of_class runner_detection_error m = no_runner
category_of_class runner_unavailable m = no_runner
category_of_class command_not_found m = no_runner
category_of_class command_timeout m = timed_out
category_of_class output_limit_exceeded m = output_limit
category_of_class redaction_error m = bad_redaction
category_of_class command_failed m = command_failure
category_of_class value_error m =
    if mentions "provider must be" m || mentions "unsupported action" m
    then usage_config_error
    else preflight_failure
category_of_class _ m = internal_error

abbrev is_redaction_error : ExceptionClass → Bool
is_redaction_error redaction_error = true
is_redaction_error _ = false

-- `_category_from_exception`
unfoldable pub category_from_exception : Exception → ErrorCategory
unfolding category_of_class mentions
category_from_exception exc =
    if is_redaction_error exc.class
    then bad_redaction
    else if mentions "host override" exc.text || mentions "host runner override" exc.text
    then host_override_denied
    else category_of_class exc.class exc.text

-- `_exception_repair_scope`
unfoldable pub exception_repair_scope : ErrorCategory → Option String → Option String
exception_repair_scope category none = none
exception_repair_scope preflight_failure (some w) =
    some ("fix local preflight inputs and rerun " <> w)
exception_repair_scope usage_config_error (some w) =
    some ("fix invocation/configuration and rerun " <> w)
exception_repair_scope no_runner (some w) = some ("restore runner and rerun " <> w)
exception_repair_scope destructive_approval_denied (some w) =
    some "review destroy preview; rerun destroy with explicit approval if intended"
exception_repair_scope host_override_denied (some w) =
    some ("rerun " <> w <> " in hermetic runner or with audited host override")
exception_repair_scope _ (some w) = some ("rerun " <> w <> " after repair")

-- `_default_repair_scope`
abbrev default_repair_scope : String → String
default_repair_scope action_id = if not (action_id == "") then "failed node" else "full panel"

-- `_repair_scope_from_hint`
unfoldable pub repair_scope_from_hint : Option String → Option String
unfolding mentions strip
repair_scope_from_hint none = none
repair_scope_from_hint (some hint) =
    let trimmed = strip hint in
    if mentions "subtree" trimmed
    then some "failed subtree"
    else if mentions "full panel" trimmed || mentions "full" trimmed
    then some "full panel"
    else if mentions "node" trimmed
    then some "failed node"
    else some hint

abbrev pub is_error : Option String → Bool
is_error none = false
is_error (some text) = not (text == "")

-- The first state with an error text.
unfoldable pub first_error : States → Option (String × ActionRuntimeState)
first_error [] = none
first_error ((id, st) ∷ states) =
    let later = first_error states in if is_error st.last_error then some (id, st) else later

abbrev or_text : Option String → String → String
or_text none default = default
or_text (some text) default = if text == "" then default else text

-- x or y, for the repair scopes
abbrev or_scope : Option String → String → Option String
or_scope none default = some default
or_scope (some text) default = some (if text == "" then default else text)

-- An unclassified failure of a named action is a command failure.
abbrev at_action : String → ErrorCategory → ErrorCategory
at_action id internal_error = if id == "" then internal_error else command_failure
at_action id category = category

failure_at : String → EngineResult → String → ActionRuntimeState → ActionDescriptor → CliError
unfolding category_from_message repair_scope_from_hint
failure_at workflow result id st descriptor =
    let detail = or_text st.last_error (workflow <> " graph failed") in
    record {
      category = at_action id (category_from_message detail);
      message = detail;
      workflow = some workflow;
      graph_id = some result.graph_name;
      action_id = some id;
      action_status = some st.status;
      repair_scope =
          or_scope (repair_scope_from_hint descriptor.repair_hint) (default_repair_scope id);
      runner_selection = none;
    }

failure_of :
    String
    → ActionGraph
    → EngineResult
    → Option (String × ActionRuntimeState)
    → Result Exception CliError
unfolding failure_at lookup
failure_of workflow graph result none = ok (record {
  category = internal_error;
  message = workflow <> " graph failed without a classified action error";
  workflow = some workflow;
  graph_id = some result.graph_name;
  action_id = none;
  action_status = none;
  repair_scope = some "rerun full panel";
  runner_selection = none;
})
failure_of workflow graph result (some (id, st)) = elim (lookup id graph.actions) [
  | none ↦ raise (raised key_error id)
  | some descriptor ↦ ok (failure_at workflow result id st descriptor)
]

unfoldable pub graph_failure_from_result :
    String → ActionGraph → EngineResult → Result Exception CliError
unfolding failure_of first_error
graph_failure_from_result workflow graph result =
    failure_of workflow graph result (first_error result.states)

-- What is raised: an exception with the name of its class, or a `CliGraphFailure` with its
-- workflow, graph and result.
pub data Raised : Type 0 where
  other : String → Exception → Raised
  graph_failure : String → ActionGraph → EngineResult → Raised

unfoldable pub classify_exception : Raised → Option String → Result Exception CliError
unfolding category_from_exception exception_repair_scope graph_failure_from_result
classify_exception (graph_failure name graph r) workflow = graph_failure_from_result name graph r
classify_exception (other name exc) workflow =
    let category = category_from_exception exc in
    ok (record {
      category = category;
      message = or_text (some exc.text) name;
      workflow = workflow;
      graph_id = none;
      action_id = none;
      action_status = none;
      repair_scope = exception_repair_scope category workflow;
      runner_selection = exc.selection;
    })
