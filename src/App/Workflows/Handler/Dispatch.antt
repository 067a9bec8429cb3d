-- ===== src/App/Workflows/Handler/Dispatch.antt =====
-- `OperationalActionHandler.run`: the call for each action.
use hermes_vps.Prelude.{true, String, Option, some, [], ◌∷◌, ◌==◌, if◌then◌else◌}
use hermes_vps.Prelude.Flow.{Result, pure, ◌>>=◌}
use hermes_vps.Value
use hermes_vps.Value.{Value, null, Items, nil, Fields, bool, list, dict, end, field, or_null}
use hermes_vps.Core.Interfaces.{Exception}
use hermes_vps.Core.Actions.{ActionDescriptor}
use hermes_vps.App.Workflows.Handler.{
  Setup, Act, tofu, plan_words, from_context, run_checked, run_apply, resolve_bootstrap_target,
}
use hermes_vps.App.Workflows.Handler.Remote.{execute_bootstrap_remote, execute_verify_remote}

abbrev pub with_backup : Option Value → Fields → Fields
with_backup (some (dict backup)) result = Value.put "backup" (dict backup) result
with_backup _ result = result

abbrev target_summary : Fields → Fields
target_summary preview = field "provider" (or_null (Value.get "provider" preview)) (
    field "tf_dir" (or_null (Value.get "tf_dir" preview)) (
      field "state_file_count" (or_null (Value.get "state_file_count" preview)) (
        field "state_files" (Value.get_or "state_files" (list nil) preview)
          (field "safe_outputs" (Value.get_or "safe_outputs" (dict end) preview) end))))

abbrev pub with_preview : Option Value → Fields → Fields
with_preview (some (dict preview)) result =
    Value.put "target_summary" (dict (target_summary preview)) result
with_preview _ result = result

module _ {W : Type 0} (h : Setup W) where
  -- The result of a destroy tells of the backup and of what was destroyed.
  unfoldable pub with_destroyed : Fields → Act W Fields
  unfolding Value.get Value.get_or Value.put
  with_destroyed result s =
      pure
        (with_preview (Value.get "destroy_preview" s.0)
          (with_backup (Value.get "destroy_backup" s.0) result))
        s

  -- The chain of tests on the action's id.
  unfoldable pub dispatch : String → String → String → Act W Fields
  unfolding run_checked run_apply resolve_bootstrap_target execute_bootstrap_remote
      execute_verify_remote with_destroyed
  dispatch id provider repo_root =
      if id == "tofu_init"
      then run_checked h repo_root provider (tofu provider ("init" ∷ []))
      else if id == "tofu_init_upgrade"
      then run_checked h repo_root provider (tofu provider ("init" ∷ "-upgrade" ∷ []))
      else if id == "tofu_plan"
      then run_checked h repo_root provider (tofu provider plan_words)
      else if id == "tofu_apply"
      then run_apply h repo_root provider
      else if id == "tofu_destroy"
      then run_checked h repo_root provider (tofu provider ("destroy" ∷ [])) >>= with_destroyed
      else if id == "bootstrap_resolve_target"
      then resolve_bootstrap_target h
      else if id == "bootstrap_execute_remote"
      then execute_bootstrap_remote h
      else if id == "verify_resolve_target"
      then resolve_bootstrap_target h
      else if id == "verify_execute_remote"
      then execute_verify_remote h
      else pure (field "ok" (bool true) end)

  -- `OperationalActionHandler.run`, as the engine calls it.
  unfoldable pub handle : ActionDescriptor → Fields → W → Result Exception Fields × Fields × W
  unfolding from_context dispatch
  handle action context w =
      let (r, (context', w')) =
        (do
          provider ← from_context h "provider"
          repo_root ← from_context h "repo_root"
          dispatch action.action_id provider repo_root)
          (context, w) in
      (r, context', w')
