-- ===== src/App/Shell.antt =====
-- hermes_vps_app/panel_shell.py: `ControlPanelShell`, the panel's entry to the workflows, with its
-- host override session.
pub mod Session
use hermes_vps.Prelude.{
  ℕ, Bool, true, false, not, String, Option, none, some, List, [], ◌∷◌, ◌++◌, ◌==◌, elem, map,
  if◌then◌else◌,
}
use hermes_vps.Prelude.Dict.{Dict, lookup, keys}
use hermes_vps.Prelude.Flow.{Result, ok, raise, and_then, lift, ◌>>=◌}
use hermes_vps.Value.{Value, Fields, bool, str, end, field}
use hermes_vps.Text.{◌<>◌, strip}
use hermes_vps.Core.Interfaces.{Exception, value_error}
use hermes_vps.Core.Actions.{ActionDescriptor, ActionGraph}
use hermes_vps.Core.Actions.Policy.{InvalidGraph, validate, level_name}
use hermes_vps.Core.Engine.{RunOutcome, raised}
use hermes_vps.App.Startup.{PanelStartupState, configuration_required, dashboard_ready, blocked}
use hermes_vps.App.Workflows.{BuildError, invalid, build_graph, build_monitoring_graph}
use hermes_vps.App.Workflows.Operate.{Operator, Order, Stop, graph, exception, Op}
use hermes_vps.App.Workflows.Operate.Start.{run_operational_graph}

pub data InitialPanel : Type 0 where
  configuration deployment maintenance monitoring : InitialPanel

abbrev pub deployment_advanced_workflows : List String
deployment_advanced_workflows = "init" ∷ "plan" ∷ "apply" ∷ "bootstrap" ∷ "verify" ∷ []

abbrev pub maintenance_workflows : List String
maintenance_workflows = "destroy" ∷ "down" ∷ []

pub record ShellAction : Type 0 where
  pub action_id : String
  pub label : String
  pub workflow : String
  pub panel : String
  pub side_effect_level : String
  pub state_change_label : String
  pub execution_mode : String

-- What an approved request keeps for the launch: its reason; the other entries are fixed.
pub record HostOverrideSession : Type 0 where
  pub override_reason : String

-- `startup_state` is the state of the startup result, if there is one.
pub record ControlPanelShell : Type 0 where
  pub startup_state : Option PanelStartupState
  pub initial_panel : InitialPanel
  pub session : Option HostOverrideSession

-- `__init__`
abbrev pub new_shell : Option PanelStartupState → InitialPanel → ControlPanelShell
new_shell startup_state initial_panel = record {
  startup_state = startup_state;
  initial_panel = initial_panel;
  session = none;
}

abbrev state_label : PanelStartupState → String
state_label dashboard_ready = "dashboard_ready"
state_label configuration_required = "configuration_required"
state_label blocked = "blocked"

abbrev label_or_ready : Option PanelStartupState → String
label_or_ready none = "dashboard_ready"
label_or_ready (some s) = state_label s

abbrev panel_label : InitialPanel → String → String
panel_label configuration label = "configuration_reconfigure"
panel_label _ label = label

-- `initial_state_label`
abbrev pub initial_state_label : ControlPanelShell → String
initial_state_label shell = elim shell.startup_state [
  | some configuration_required ↦ "configuration_required"
  | state ↦ panel_label shell.initial_panel (label_or_ready state)
]

-- The answer of `request_host_override`.
pub data Answer : Type 0 where
  refused : String → Answer
  approved : HostOverrideSession → Answer

abbrev not_enabled : String
not_enabled =
    "Host override is hidden behind the advanced unsafe environment path; explicitly enable it to continue."

abbrev no_reason : String
no_reason = "Host override requires a non-empty audited reason before runner=host can be selected."

answer_of : Bool → String → Answer
answer_of enable clean_reason =
    if not enable
    then refused not_enabled
    else if clean_reason == ""
    then refused no_reason
    else approved (record { override_reason = clean_reason })

-- A refusal ends the session.
abbrev session_of : Answer → Option HostOverrideSession
session_of (refused message) = none
session_of (approved session) = some session

unfoldable pub request_host_override :
    Bool → String → ControlPanelShell → Answer × ControlPanelShell
unfolding strip answer_of
request_host_override enable reason shell =
    let answer = answer_of enable (strip reason) in
    (answer, record shell { session = session_of answer })

-- `host_override_session`
abbrev pub host_override_session : ControlPanelShell → Option Fields
host_override_session shell = elim shell.session [
  | none ↦ none
  | some session ↦ some (
      field "approved" (bool true) (
        field "runner_mode" (str "host") (
          field "override_reason" (str session.override_reason)
            (field "scope" (str "per-launch") (field "requires_token" (bool true) end)))))
]

shell_action : String → String → String → String → ActionDescriptor → ShellAction
shell_action panel workflow state_change_label execution_mode a = record {
  action_id = a.action_id;
  label = a.label;
  workflow = workflow;
  panel = panel;
  side_effect_level = level_name a.side_effect_level;
  state_change_label = state_change_label;
  execution_mode = execution_mode;
}

-- The descriptors of these ids, which are keys.
described : Dict ActionDescriptor → List String → List ActionDescriptor
unfolding lookup
described actions [] = []
described actions (id ∷ ids) =
    let rest = described actions ids in elim (lookup id actions) [ none ↦ rest | some a ↦ a ∷ rest ]

validated : Result InvalidGraph (Unit {0}) → Result BuildError (Unit {0})
validated (ok _) = ok tt
validated (raise e) = raise (invalid e)

-- `_actions_for_graph`; `sort` is `sorted`.
unfoldable pub actions_for_graph :
    (List String → List String)
    → ActionGraph
    → String
    → String
    → String
    → String
    → Result BuildError (List ShellAction)
unfolding validated validate described shell_action keys
actions_for_graph sort g panel workflow state_change_label execution_mode =
    and_then (validated (validate g)) λ _. ok (
      map (shell_action panel workflow state_change_label execution_mode)
        (described g.actions (sort (keys g.actions))))

-- The actions of a list of workflows, one after the other.
each_workflow :
    (String → Result BuildError (List ShellAction))
    → List String
    → Result BuildError (List ShellAction)
each_workflow actions [] = ok []
each_workflow actions (workflow ∷ workflows) =
    and_then (actions workflow)
      λ first. and_then (each_workflow actions workflows) λ rest. ok (first ++ rest)

-- "down" runs the graph of "destroy".
abbrev pub operational_action : String → String
operational_action action = if action == "down" then "destroy" else action

-- `maintenance_actions`
unfoldable pub maintenance_actions :
    (List String → List String) → Result BuildError (List ShellAction)
unfolding each_workflow actions_for_graph build_graph
maintenance_actions sort =
    each_workflow
      (λ workflow.
        and_then (build_graph (operational_action workflow))
          λ g. actions_for_graph sort g "maintenance" workflow "state-changing" "bounded")
      maintenance_workflows

-- `deployment_actions`
unfoldable pub deployment_actions :
    (List String → List String) → Result BuildError (List ShellAction)
unfolding actions_for_graph build_graph
deployment_actions sort =
    and_then (build_graph "deploy")
      λ g. actions_for_graph sort g "deployment" "deploy" "state-changing" "bounded"

-- `deployment_advanced_actions`
unfoldable pub deployment_advanced_actions :
    (List String → List String) → Result BuildError (List ShellAction)
unfolding each_workflow actions_for_graph build_graph
deployment_advanced_actions sort =
    each_workflow
      (λ workflow.
        and_then (build_graph workflow)
          λ g. actions_for_graph sort g "deployment" workflow "state-changing" "bounded")
      deployment_advanced_workflows

-- `monitoring_actions`
unfoldable pub shell_monitoring_actions :
    (List String → List String) → Result BuildError (List ShellAction)
unfolding actions_for_graph build_monitoring_graph
shell_monitoring_actions sort =
    and_then build_monitoring_graph
      λ g. actions_for_graph sort g "monitoring" "monitoring" "read-only" "on-demand"

-- `_validate_deployment_advanced_workflow`
unfoldable pub validate_deployment_advanced_workflow : String → Result Stop (Unit {0})
unfolding elem
validate_deployment_advanced_workflow action =
    if elem action deployment_advanced_workflows
    then ok tt
    else raise (
        exception (
          raised value_error
            "deployment advanced action must be one of: init, plan, apply, bootstrap, verify"))

-- `_validate_maintenance_workflow`
unfoldable pub validate_maintenance_workflow : String → Result Stop (Unit {0})
unfolding elem
validate_maintenance_workflow action =
    if elem action maintenance_workflows
    then ok tt
    else raise (exception (raised value_error "maintenance action must be one of: destroy, down"))

-- The runs up to the engine's outcome, which is then presented.
module _ {W : Type 0} (o : Operator W) where
  -- `run_maintenance_action`
  unfoldable pub run_maintenance_action : Order → Op W RunOutcome
  unfolding validate_maintenance_workflow run_operational_graph
  run_maintenance_action order = lift (validate_maintenance_workflow order.action) >>= λ _.
      run_operational_graph o (record order { action = operational_action order.action })

  -- A call with the defaults: no reason, no token of approval, and no audit log.
  with_defaults : Order → Op W RunOutcome
  unfolding run_operational_graph
  with_defaults order amb =
      let (r, after) =
        run_operational_graph o
          (record order {
            override_reason = none;
            approve_destructive = none;
            confirmation_mode = "headless";
          })
          (record amb { audit_log = none }) in
      (r, record after { audit_log = amb.audit_log })

  -- `run_deployment_action`
  unfoldable pub run_deployment_action : Order → Op W RunOutcome
  unfolding validate_deployment_advanced_workflow with_defaults
  run_deployment_action order =
      lift (validate_deployment_advanced_workflow order.action) >>= λ _. with_defaults order

  -- `run_deployment`
  unfoldable pub run_deployment : Order → Op W RunOutcome
  unfolding with_defaults
  run_deployment order = with_defaults (record order { action = "deploy" })
