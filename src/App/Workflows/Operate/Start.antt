-- ===== src/App/Workflows/Operate/Start.antt =====
-- hermes_vps_app/operational.py: `run_operational_graph`, which starts the engine.
use hermes_vps.Prelude.{
  Bool, true, false, String, Option, none, some, List, [], ◌∷◌, ◌==◌, elem, if◌then◌else◌,
}
use hermes_vps.Prelude.Flow.{ok, pure, lift, ◌>>=◌, ◌>>◌}
use hermes_vps.Value
use hermes_vps.Value.{ℤ, pos, Value, null, Items, Fields, bool, int, str, list, dict, end, field}
use hermes_vps.Text.{strip}
use hermes_vps.Core.Actions.{ActionGraph}
use hermes_vps.Core.Engine.{RunOutcome, run}
use hermes_vps.Core.Engine.Execute.{Engine}
use hermes_vps.App.Workflows.{build_graph}
use hermes_vps.App.Workflows.Environment.{
  InitSelection, BootstrapSelection, resolve_provider, validate_init_environment,
  validate_bootstrap_environment,
}
use hermes_vps.App.Workflows.Handler.Dispatch.{handle}
use hermes_vps.App.Workflows.Operate.{Operator, Order, graph, Op, or_blank, error_as, checked}
use hermes_vps.App.Workflows.Operate.Destroy.{before_destroy}

abbrev pub bootstrapping : List String
bootstrapping = "bootstrap" ∷ "verify" ∷ "deploy" ∷ []

module _ {W : Type 0} (o : Operator W) where
  unfoldable pub bootstrap_config : Bool → Order → String → Op W (Option BootstrapSelection)
  unfolding checked validate_bootstrap_environment
  bootstrap_config false order provider = pure none
  bootstrap_config true order provider =
      checked o (λ os. validate_bootstrap_environment os order.repo_root provider) >>= λ config.
      pure (some config)

  unfoldable pub start_context : Order → InitSelection → Fields
  unfolding strip Value.put
  start_context order selection =
      let reason = strip (or_blank order.override_reason) in
      let base =
        field "provider" (str selection.provider)
          (field "tf_dir" (str selection.tf_dir) (field "repo_root" (str order.repo_root) end)) in
      if reason == "" then base else Value.put "override_reason" (str reason) base

  unfoldable pub set_context : Fields → Op W (Unit {0})
  set_context context amb = (ok tt, record amb { context = context })

  engine_of : Order → ActionGraph → Option BootstrapSelection → Engine W
  unfolding handle
  engine_of order g config = record {
    graph = g;
    mode = o.mode;
    handler =
        handle (record { rt = o.rt; effects = o.effects; describe = o.describe; config = config });
    event_sink = none;
    now = o.now;
    require_host_override_token = true;
    host_override_token = order.host_override_token;
  }

  unfoldable pub run_engine : Order → Option BootstrapSelection → ActionGraph → Op W RunOutcome
  unfolding engine_of run
  run_engine order config g amb =
      let (r, after) = run o.rt (engine_of order g config) amb in (ok r, after)

  unfoldable pub run_graph : Order → Option BootstrapSelection → Op W RunOutcome
  unfolding build_graph run_engine
  run_graph order config =
      lift (error_as graph (build_graph order.action)) >>= run_engine order config

  unfoldable pub prepare : Order → InitSelection → Op W RunOutcome
  unfolding set_context start_context bootstrap_config before_destroy run_graph elem
  prepare order selection =
      set_context (start_context order selection)
      >> (bootstrap_config (elem order.action bootstrapping) order selection.provider >>= λ config.
          before_destroy o (order.action == "destroy") order selection >> run_graph order config)

  -- `run_operational_graph`
  unfoldable pub run_operational_graph : Order → Op W RunOutcome
  unfolding checked resolve_provider validate_init_environment prepare
  run_operational_graph order =
      checked o (λ os. resolve_provider os order.provider_override) >>= λ provider.
      checked o (λ os. validate_init_environment os order.repo_root provider) >>= prepare order
