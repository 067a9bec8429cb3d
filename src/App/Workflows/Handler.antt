-- ===== src/App/Workflows/Handler.antt =====
-- hermes_vps_app/operational.py: `OperationalActionHandler`. A handler call changes the action
-- context and the world, a type of which the runner and the file system are operations.
pub mod Remote
pub mod Dispatch
pub mod Results
pub mod Artifact
pub mod Exits
use hermes_vps.Prelude.{
  ℕ, Bool, true, false, not, ◌&&◌, ◌||◌, String, Option, none, some, List, [], ◌∷◌, ◌==◌,
  if◌then◌else◌,
}
use hermes_vps.Prelude.Flow.{Result, ok, raise, Flow, pure, throw, ◌>>=◌, ◌>>◌}
use hermes_vps.Value
use hermes_vps.Value.{
  ℤ, pos, Value, Items, nil, item, Fields, bool, int, str, list, dict, end, field, or_null,
}
use hermes_vps.Text.{◌<>◌, strip, codes, is_infix, join}
use hermes_vps.Core.Interfaces.{
  RunRequest, RunResult, argv, low, value, EnvSetting, Exception, message, run_result,
  command_failed, key_error, is_command_failed,
}
use hermes_vps.Core.Actions.{ActionDescriptor}
use hermes_vps.Core.Actions.Outcome.{Runtime, text_of}
use hermes_vps.Core.Engine.{raised}
use hermes_vps.Core.Engine.Execute.{mode_name}
use hermes_vps.App.Workflows.Environment.{BootstrapSelection}

-- The runner and the file system. `run` is `runner.run`; `make_dir` makes the parents too;
-- `remove_tree` is `shutil.rmtree(path, ignore_errors=True)`; `copy` is `shutil.copy2`.
pub record Effects (W : Type 0) : Type 0 where
  pub run : RunRequest → W → Result Exception RunResult × W
  pub is_file : String → W → Bool
  pub exists : String → W → Bool
  pub make_dir : String → W → Result Exception (Unit {0}) × W
  pub write_text : String → String → W → Result Exception (Unit {0}) × W
  pub change_mode : String → ℕ → W → Result Exception (Unit {0}) × W
  pub copy : String → String → W → Result Exception (Unit {0}) × W
  pub remove_tree : String → W → W

-- `describe` is str() of an exception with a text and a result, and `config` what the context holds
-- as `bootstrap_config`.
pub record Setup (W : Type 0) : Type 0 where
  pub rt : Runtime
  pub effects : Effects W
  pub describe : String → RunResult → String
  pub config : Option BootstrapSelection

abbrev pub Act : Type 0 → Type 0 → Type 0
Act W A = Flow (Fields × W) Exception A

abbrev pub is_zero : ℤ → Bool
is_zero (pos ℕ.zero) = true
is_zero _ = false

abbrev pub failed_with : String → Exception
failed_with text = raised command_failed text

abbrev pub request : String → Option (List (String × EnvSetting)) → List String → RunRequest
request repo_root env command = record {
  command = argv command;
  cwd = some repo_root;
  env = env;
  timeout_s = none;
  stream = false;
  side_effect_level = low;
  shell = false;
}

abbrev pub provider_env : String → Option (List (String × EnvSetting))
provider_env provider = some (("TF_VAR_cloud_provider", value provider) ∷ [])

-- ["tofu", f"-chdir=opentofu/providers/{provider}", …]
abbrev pub tofu : String → List String → List String
tofu provider words = "tofu" ∷ ("-chdir=opentofu/providers/" <> provider) ∷ words

abbrev pub plan_words : List String
plan_words = "plan" ∷ "-out=tofuplan" ∷ []

abbrev pub output_words : String → List String
output_words name = "output" ∷ "-raw" ∷ name ∷ []

abbrev pub items_of : List String → Items
items_of [] = nil
items_of (word ∷ words) = item (str word) (items_of words)

abbrev pub command_result : List String → RunResult → Fields
command_result command r = field "kind" (str "command") (
    field "command" (list (items_of command)) (
      field "exit_code" (int r.exit_code) (
        field "stdout" (str r.stdout) (
          field "stderr" (str r.stderr) (
            field "output_truncated" (bool r.output_truncated) (
              field "runner_mode" (str (mode_name r.runner_mode))
                (field "redactions_applied" (bool r.redactions_applied) end)))))))

-- The message of a saved plan that must be made again.
unfoldable pub is_stale : String → Bool
unfolding is_infix
is_stale text =
    is_infix (codes "Saved plan is stale") (codes text)
    || (is_infix (codes "Failed to load") (codes text) && is_infix (codes "tofuplan") (codes text))
    || is_infix (codes "No such file or directory") (codes text)

abbrev alias_request : String → String → RunRequest
alias_request repo_root server_ip =
    request repo_root none
      ("./scripts/update_ssh_alias.sh" ∷ ".ssh/config" ∷ "hermes-vps" ∷ server_ip ∷ [])

module _ {W : Type 0} (h : Setup W) where
  unfoldable pub run_request : RunRequest → Act W RunResult
  run_request req (context, w) = let (r, w') = h.effects.run req w in (r, (context, w'))

  unfoldable pub on_files : (W → Result Exception (Unit {0}) × W) → Act W (Unit {0})
  on_files op (context, w) = let (r, w') = op w in (r, (context, w'))

  -- The command's exit code must be 0.
  checked_exit : List String → RunResult → Act W Fields
  checked_exit command r =
      let text =
        "command failed with exit code "
        <> text_of h.rt (int r.exit_code)
        <> ": "
        <> join " " command in
      if is_zero r.exit_code
      then pure (command_result command r)
      else throw (record {
        class = command_failed;
        args = message text ∷ run_result r ∷ [];
        text = h.describe text r;
        selection = none;
      })

  -- `_run_checked`
  unfoldable pub run_checked : String → String → List String → Act W Fields
  unfolding run_request checked_exit
  run_checked repo_root provider command =
      run_request (request repo_root (provider_env provider) command) >>= checked_exit command

  -- A run whose exit code must be 0, or the failure has this text.
  expect : String → RunResult → Act W RunResult
  expect text r = if is_zero r.exit_code then pure r else throw (failed_with text)

  unfoldable pub run_expecting : String → RunRequest → Act W RunResult
  unfolding run_request expect
  run_expecting text req = run_request req >>= expect text

  -- The first apply has raised: a stale plan is made again and applied, once.
  apply_again : Act W Fields → Act W Fields → Exception → Act W Fields
  unfolding is_stale
  apply_again plan apply exc =
      if is_command_failed exc.class && is_stale exc.text then plan >> apply else throw exc

  rescue :
      (Exception → Act W Fields)
      → Result Exception Fields × (Fields × W)
      → Result Exception Fields × (Fields × W)
  rescue handler (ok d, s) = (ok d, s)
  rescue handler (raise exc, s) = handler exc s

  plan_if_missing : Bool → Act W Fields → Act W (Unit {0})
  plan_if_missing true plan = pure tt
  plan_if_missing false plan = plan >> pure tt

  apply_saved : String → Act W Fields → Act W Fields → Act W Fields
  unfolding plan_if_missing rescue apply_again
  apply_saved plan_path plan apply =
      (λ s. plan_if_missing (h.effects.is_file plan_path s.1) plan s)
      >> (λ s. rescue (apply_again plan apply) (apply s))

  -- The SSH alias for the address that OpenTofu has put out.
  update_alias : String → Fields → RunResult → Act W Fields
  unfolding run_expecting strip Value.put
  update_alias repo_root applied output =
      let server_ip = strip output.stdout in
      run_expecting "ssh alias reconciliation failed" (alias_request repo_root server_ip)
      >> pure (Value.put "public_ipv4" (str server_ip) applied)

  -- What follows a successful apply.
  after_apply : String → String → Fields → Act W Fields
  unfolding run_expecting update_alias
  after_apply repo_root provider applied =
      run_expecting "failed to resolve public_ipv4 output"
        (request repo_root (provider_env provider) (tofu provider (output_words "public_ipv4")))
      >>= update_alias repo_root applied

  -- `_run_apply`
  unfoldable pub run_apply : String → String → Act W Fields
  unfolding apply_saved after_apply run_checked
  run_apply repo_root provider =
      apply_saved (repo_root <> "/opentofu/providers/" <> provider <> "/tofuplan")
        (run_checked repo_root provider (tofu provider plan_words))
        (run_checked repo_root provider (tofu provider ("apply" ∷ "tofuplan" ∷ [])))
      >>= after_apply repo_root provider

  text_at : String → Option Value → Result Exception String
  text_at key none = raise (raised key_error key)
  text_at key (some v) = ok (text_of h.rt v)

  -- str(context[key])
  unfoldable pub from_context : String → Act W String
  unfolding Value.get text_at
  from_context key s = (text_at key (Value.get key s.0), s)

  -- context[key] = text
  put_context : String → String → Act W (Unit {0})
  unfolding Value.put
  put_context key text (context, w) = (ok tt, (Value.put key (str text) context, w))

  -- `_resolve_bootstrap_target`
  unfoldable pub resolve_bootstrap_target : Act W Fields
  unfolding from_context run_expecting put_context strip
  resolve_bootstrap_target = do
    repo_root ← from_context "repo_root"
    provider ← from_context "provider"
    ip_out ←
        run_expecting "failed to resolve public_ipv4 output"
          (request repo_root (provider_env provider) (tofu provider (output_words "public_ipv4")))
    admin_out ←
        run_expecting "failed to resolve admin_username output" (
          request repo_root (provider_env provider) (tofu provider (output_words "admin_username")))
    put_context "bootstrap_target_ip" (strip ip_out.stdout)
    put_context "bootstrap_target_user" (strip admin_out.stdout)
    pure (
        field "public_ipv4" (str (strip ip_out.stdout))
          (field "admin_username" (str (strip admin_out.stdout)) end))

  config_at : Option BootstrapSelection → Result Exception BootstrapSelection
  config_at none = raise (raised key_error "bootstrap_config")
  config_at (some config) = ok config

  -- context["bootstrap_config"]
  unfoldable pub config_of : Act W BootstrapSelection
  unfolding config_at
  config_of s = (config_at h.config, s)
