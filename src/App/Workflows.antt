-- ===== src/App/Workflows.antt =====
-- hermes_vps_app/operational.py: the operator's workflows, as action graphs.
pub mod Graphs
pub mod Environment
pub mod Handler
pub mod Operate
pub mod Monitoring
mod Samples
use hermes_vps.Prelude.{
  ℕ, Bool, true, false, not, String, Option, none, some, List, [], ◌∷◌, ◌==◌, if◌then◌else◌,
  is_some,
}
use hermes_vps.Prelude.Dict.{Dict, lookup, insert}
use hermes_vps.Prelude.Flow.{Result, ok, raise}
use hermes_vps.Value
use hermes_vps.Value.{ℤ, pos, Fields, bool, str, dict, end, field}
use hermes_vps.Text.{◌<>◌}
use hermes_vps.Core.Interfaces.{SideEffectLevel, low, high, destructive, Exception, value_error}
use hermes_vps.Core.Actions.{RetryPolicyKind, RetryPolicy, ActionDescriptor, ActionGraph}
use hermes_vps.Core.Actions.Policy.{InvalidGraph, validate, level_name}
use hermes_vps.Core.Engine.{raised}

abbrev pub command_timeout_s : ℕ
command_timeout_s = 900

abbrev pub remote_command_timeout_s : ℕ
remote_command_timeout_s = 1800

-- `_policy`
abbrev policy_metadata : SideEffectLevel → Bool → String → Bool → Fields
policy_metadata level command_backed timeout approval_required =
    let policy = field "side_effect_level" (str (level_name level)) (
      field "command_backed" (bool command_backed)
        (field "timeout" (str timeout) (field "approval_required" (bool approval_required) end))) in
    if approval_required
    then field "policy" (dict policy) (field "approval_required" (bool true) end)
    else field "policy" (dict policy) end

-- The defaults of `RetryPolicy` and `ActionDescriptor`.
abbrev no_retry : RetryPolicy
no_retry = record { kind = RetryPolicyKind.none; max_attempts = pos 1; delay_seconds = 0 }

-- `_action`
abbrev action_of :
    String
    → String
    → SideEffectLevel
    → List String
    → Option ℕ
    → Bool
    → Bool
    → Option String
    → ActionDescriptor
action_of id label level deps timeout_s approval_required command_backed repair_hint = record {
  action_id = id;
  label = label;
  deps = deps;
  side_effect_level = level;
  timeout_s = timeout_s;
  allow_failure = false;
  retry_policy = no_retry;
  preconditions = [];
  rollback_hint = none;
  repair_hint = repair_hint;
  metadata =
      policy_metadata level command_backed (if is_some timeout_s then "bounded" else "no_timeout")
        approval_required;
}

-- `_action` with its defaults
abbrev plain_action : String → String → SideEffectLevel → ActionDescriptor
plain_action id label level = action_of id label level [] (some command_timeout_s) false true none

-- `_monitoring_action`
abbrev monitoring_action : String → String → List String → ActionDescriptor
monitoring_action id label deps = action_of id label SideEffectLevel.none deps none false false none

-- The entries of `_action_definitions`.
abbrev pub tofu_init : ActionDescriptor
tofu_init = plain_action "tofu_init" "tofu init" low

abbrev pub tofu_init_upgrade : ActionDescriptor
tofu_init_upgrade = plain_action "tofu_init_upgrade" "tofu init -upgrade" low

abbrev pub tofu_plan : ActionDescriptor
tofu_plan = plain_action "tofu_plan" "tofu plan" low

abbrev pub tofu_apply : ActionDescriptor
tofu_apply = plain_action "tofu_apply" "tofu apply" high

abbrev pub tofu_destroy : ActionDescriptor
tofu_destroy =
    action_of "tofu_destroy" "tofu destroy" destructive [] (some command_timeout_s) true true none

abbrev pub bootstrap_resolve_target : ActionDescriptor
bootstrap_resolve_target = plain_action "bootstrap_resolve_target" "resolve bootstrap target" low

abbrev pub bootstrap_execute_remote : ActionDescriptor
bootstrap_execute_remote =
    action_of "bootstrap_execute_remote" "execute bootstrap remote" high
      ("bootstrap_resolve_target" ∷ []) (some remote_command_timeout_s) false true none

abbrev pub verify_resolve_target : ActionDescriptor
verify_resolve_target =
    action_of "verify_resolve_target" "resolve verify target" low [] (some command_timeout_s) false
      true (some "rerun failed node")

abbrev pub verify_execute_remote : ActionDescriptor
verify_execute_remote =
    action_of "verify_execute_remote" "execute verify remote" high ("verify_resolve_target" ∷ [])
      (some remote_command_timeout_s) false true (some "rerun failed subtree")

abbrev listed : List ActionDescriptor → Dict ActionDescriptor
listed [] = []
listed (a ∷ as') = (a.action_id, a) ∷ listed as'

-- replace(descriptor, deps=deps)
abbrev with_deps : ActionDescriptor → List String → ActionDescriptor
with_deps a deps = record a { deps = deps }

-- The workflows: the keys of `graph_specs`.
pub data Workflow : Type 0 where
  init init_upgrade plan apply destroy bootstrap verify up deploy : Workflow

abbrev pub workflow_name : Workflow → String
workflow_name init = "init"
workflow_name init_upgrade = "init-upgrade"
workflow_name plan = "plan"
workflow_name apply = "apply"
workflow_name destroy = "destroy"
workflow_name bootstrap = "bootstrap"
workflow_name verify = "verify"
workflow_name up = "up"
workflow_name deploy = "deploy"

abbrev pub workflows : List Workflow
workflows = init ∷ init_upgrade ∷ plan ∷ apply ∷ destroy ∷ bootstrap ∷ verify ∷ up ∷ deploy ∷ []

-- `graph_specs[action]`, with the dependencies that `up` and `deploy` put in.
abbrev pub workflow_actions : Workflow → Dict ActionDescriptor
workflow_actions init = listed (tofu_init ∷ [])
workflow_actions init_upgrade = listed (tofu_init_upgrade ∷ [])
workflow_actions plan = listed (tofu_plan ∷ [])
workflow_actions apply = listed (tofu_apply ∷ [])
workflow_actions destroy = listed (tofu_destroy ∷ [])
workflow_actions bootstrap = listed (bootstrap_resolve_target ∷ bootstrap_execute_remote ∷ [])
workflow_actions verify = listed (verify_resolve_target ∷ verify_execute_remote ∷ [])
workflow_actions up = listed (
    tofu_init
    ∷ with_deps tofu_plan ("tofu_init" ∷ [])
    ∷ with_deps tofu_apply ("tofu_plan" ∷ [])
    ∷ [])
workflow_actions deploy = listed (
    tofu_init
    ∷ with_deps tofu_plan ("tofu_init" ∷ [])
    ∷ with_deps tofu_apply ("tofu_plan" ∷ [])
    ∷ with_deps bootstrap_resolve_target ("tofu_apply" ∷ [])
    ∷ with_deps bootstrap_execute_remote ("bootstrap_resolve_target" ∷ [])
    ∷ with_deps verify_resolve_target ("bootstrap_execute_remote" ∷ [])
    ∷ with_deps verify_execute_remote ("verify_resolve_target" ∷ [])
    ∷ [])

-- action not in graph_specs
unfoldable pub find_workflow : List Workflow → String → Option Workflow
find_workflow [] name = none
find_workflow (w ∷ ws) name = if workflow_name w == name then some w else find_workflow ws name

abbrev pub workflow_graph : Workflow → ActionGraph
workflow_graph w = record {
  name = workflow_name w;
  actions = workflow_actions w;
  policy_gate_enabled = true;
}

pub data BuildError : Type 0 where
  unsupported : String → BuildError
  invalid : InvalidGraph → BuildError

validated : ActionGraph → Result InvalidGraph (Unit {0}) → Result BuildError ActionGraph
validated graph (ok _) = ok graph
validated graph (raise e) = raise (invalid e)

built : String → Option Workflow → Result BuildError ActionGraph
unfolding validated validate
built name none = raise (unsupported name)
built name (some w) = validated (workflow_graph w) (validate (workflow_graph w))

unfoldable pub build_graph : String → Result BuildError ActionGraph
unfolding built find_workflow
build_graph name = built name (find_workflow workflows name)

abbrev monitoring_actions : Dict ActionDescriptor
monitoring_actions = listed (
    monitoring_action "runner_toolchain_readiness" "local runner/toolchain readiness" []
    ∷ monitoring_action "env_file_posture" ".env/.env.example posture" []
    ∷ monitoring_action "provider_resolution" "provider selection resolution" []
    ∷ monitoring_action "provider_directory" "provider directory existence"
        ("provider_resolution" ∷ [])
    ∷ monitoring_action "local_command_availability" "local command availability" []
    ∷ monitoring_action "saved_plan_summary" "saved plan presence/staleness summary"
        ("provider_resolution" ∷ [])
    ∷ monitoring_action "logs_read_only" "read-only logs view" []
    ∷ monitoring_action "hardening_audit_read_only" "read-only hardening audit view" []
    ∷ monitoring_action "health_probe" "on-demand local health probe summary"
        ("runner_toolchain_readiness" ∷ "env_file_posture" ∷ "provider_directory" ∷ [])
    ∷ [])

abbrev pub monitoring_graph : ActionGraph
monitoring_graph = record {
  name = "monitoring-local-readiness";
  actions = monitoring_actions;
  policy_gate_enabled = true;
}

unfoldable pub build_monitoring_graph : Result BuildError ActionGraph
unfolding validated validate
build_monitoring_graph = validated monitoring_graph (validate monitoring_graph)
