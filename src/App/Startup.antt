-- ===== src/App/Startup.antt =====
-- hermes_vps_app/panel_startup.py: the panel's launch-time gate.
pub mod Verdicts
use Prim.Native.Char.{code}
use Prim.Native.Nat.{◌%◌}
use hermes_vps.Prelude.{
  ℕ, zero, suc, ◌+◌, ◌≡◌, refl, ◌↔◌, Bool, true, false, not, ◌&&◌, ◌||◌, String, Option, none, some,
  List, [], ◌∷◌, ◌++◌, ◌==◌, arith, nat_eq, elem, if◌then◌else◌, is_some,
}
use hermes_vps.Prelude.Dict.{Dict, lookup, insert}
use hermes_vps.Prelude.Flow.{Result, ok, raise, and_then}
use hermes_vps.Text.{◌<>◌, strip, mentions}
use hermes_vps.Core.Interfaces.{RunnerMode, RunnerSelection, Exception}
use hermes_vps.Core.Engine.Execute.{mode_name}

pub data PanelStartupState : Type 0 where
  dashboard_ready configuration_required blocked : PanelStartupState

pub record StartupStep : Type 0 where
  pub name : String
  pub label : String
  pub status : String
  pub detail : String

pub record RemediationScreen : Type 0 where
  pub title : String
  pub summary : String
  pub fix_steps : List String
  pub execution_enabled : Bool

pub record PanelStartupResult : Type 0 where
  pub state : PanelStartupState
  pub steps : List StartupStep
  pub runner_mode : Option String
  pub remediation : String
  pub provider : Option String
  pub remediation_screen : Option RemediationScreen

-- What the gate reads of the file system. `lines` is `splitlines()` of the text of `.env`, or
-- nothing where reading it raises OSError; `directory` is `is_dir()` below the repository.
pub record Files : Type 0 where
  pub env_exists : Bool
  pub env_is_file : Bool
  pub env_mode : ℕ
  pub env_readable : Bool
  pub lines : Option (List String)
  pub directory : String → Bool

abbrev pub valid_providers : List String
valid_providers = "hetzner" ∷ "linode" ∷ []

-- text.split(c, 1), where the character with that code is there
unfoldable pub split_once : ℕ → String → Option (String × String)
split_once c String.[] = none
split_once c (String.◌∷◌ d s) =
    let later = split_once c s in
    if nat_eq (code d) c
    then some ("", s)
    else (elim later [ none ↦ none | some (before, after) ↦ some (String.◌∷◌ d before, after) ])

abbrev starts_comment : String → Bool
starts_comment String.[] = false
starts_comment (String.◌∷◌ c s) = nat_eq (code c) 35

-- A line that assigns: not blank, not a comment, with a "=".
unfoldable pub assignment : String → Option (String × String)
unfolding strip split_once
assignment line =
    let stripped = strip line in
    if starts_comment stripped then none else (elim (split_once 61 stripped) [
      | none ↦ none
      | some (key, value) ↦ some (strip key, strip value)
    ])

abbrev assign : Option (String × String) → Dict String → Dict String
assign none values = values
assign (some (key, value)) values = insert key value values

unfoldable pub parse_env : List String → Dict String → Dict String
unfolding assignment insert
parse_env [] values = values
parse_env (line ∷ lines) values = parse_env lines (assign (assignment line) values)

abbrev pub parsed : Option (List String) → Result String (Dict String)
unfolding parse_env
parsed none = raise ".env is not readable"
parsed (some lines) = ok (parse_env lines [])

-- `_read_env_values`, raising the text of a `PanelStartupBlocked`. `mode & 0o077` is the rest
-- modulo 64.
unfoldable pub read_env_values : Files → Result String (Dict String)
unfolding parse_env
read_env_values files =
    if not files.env_is_file
    then raise ".env is not a regular file"
    else if not (nat_eq (files.env_mode % 64) 0)
    then raise ".env permissions are too broad; expected mode 600"
    else if not files.env_readable
    then raise ".env is not readable"
    else parsed files.lines

abbrev or_whole : String → Option (String × String) → String
or_whole text none = text
or_whole text (some (before, after)) = after

-- message.split(":", 1)[-1].strip()
unfoldable pub suffix_of : String → String
unfolding strip split_once
suffix_of message = strip (or_whole message (split_once 58 message))

-- `_runner_remediation`
unfoldable pub runner_remediation : Exception → String
unfolding mentions
runner_remediation exc =
    if mentions "docker" exc.text
    then "Docker fallback unavailable. Start Docker or activate/install nix/direnv, then restart just panel."
    else "Runner unavailable. Activate direnv+nix shell, install nix, or install Docker fallback, then restart just panel."

abbrev disabled_screen : String → String → List String → RemediationScreen
disabled_screen title summary fix_steps = record {
  title = title;
  summary = summary;
  fix_steps = fix_steps;
  execution_enabled = false;
}

-- `_runner_remediation_screen`
unfoldable pub runner_remediation_screen : Exception → RemediationScreen
unfolding mentions
runner_remediation_screen exc =
    if mentions "docker" exc.text
    then disabled_screen "Docker fallback unavailable"
        "The panel detected Docker fallback mode, but Docker cannot execute the hermetic nix runner."
        ("Run `docker info` and start Docker if the daemon is stopped."
          ∷ "Ensure the current user can run Docker without a permission error."
          ∷ "Preferred fix: run `direnv allow` or `nix develop --impure` so the panel uses a hermetic nix runner without Docker fallback."
          ∷ "If Docker is missing, install Docker or install/activate nix+direnv, then restart `just panel`."
          ∷ [])
    else disabled_screen "Runner unavailable"
        "No hermetic runner is available, so panel execution is blocked before any workflow can run."
        ("Preferred fix: run `direnv allow` in the repository and restart `just panel`."
          ∷ "Alternative fix: run `nix develop --impure` and launch the panel from that shell."
          ∷ "Fallback fix: install Docker and ensure `docker info` succeeds, then restart `just panel`."
          ∷ [])

-- `_local_remediation`
unfoldable pub local_remediation : String → String
unfolding mentions suffix_of
local_remediation message =
    if mentions "permissions" message
    then "Fix .env permissions with: chmod 600 .env"
    else if mentions "not readable" message
    then "Make .env readable by the current user and keep permissions at mode 600."
    else if mentions "provider must" message
    then "Set TF_VAR_cloud_provider in .env to hetzner or linode."
    else if mentions "provider directory" message
    then "Create or restore the provider directory: " <> suffix_of message
    else "Fix local panel startup validation and restart just panel."

-- `_local_remediation_screen`
unfoldable pub local_remediation_screen : String → RemediationScreen
unfolding mentions suffix_of
local_remediation_screen message =
    if mentions "permissions" message
    then disabled_screen "Unsafe .env permissions"
        "The .env file is readable by users other than the current owner."
        ("Run `chmod 600 .env` from the repository root."
          ∷ "Restart `just panel` after correcting permissions." ∷ [])
    else if mentions "not readable" message
    then disabled_screen "Unreadable .env" "The current user cannot read .env safely." (
        "Make .env readable by the current user only."
        ∷ "Run `chmod 600 .env` and restart `just panel`." ∷ [])
    else if mentions "provider must" message
    then disabled_screen "Invalid provider"
        "TF_VAR_cloud_provider must select a supported local provider before workflows are enabled."
        ("Set `TF_VAR_cloud_provider=hetzner` or `TF_VAR_cloud_provider=linode` in .env."
          ∷ "Ensure the matching opentofu/providers/<provider> directory exists."
          ∷ "Restart `just panel` after saving .env." ∷ [])
    else if mentions "provider directory" message
    then disabled_screen "Missing provider directory"
        ("The selected provider directory is missing: " <> suffix_of message)
        (("Restore the provider files or run `mkdir -p "
            <> suffix_of message
            <> "` if scaffolding a new provider directory.")
          ∷ "Confirm .env selects the intended provider, then restart `just panel`."
          ∷ [])
    else disabled_screen "Startup validation blocked" "Local startup validation failed."
        ("Fix the reported local validation issue and restart `just panel`." ∷ [])

abbrev detection_step : String → String → StartupStep
detection_step status detail = record {
  name = "runner_detection";
  label = "Detect runner and lock mode";
  status = status;
  detail = detail;
}

abbrev validation_step : String → String → StartupStep
validation_step status detail = record {
  name = "local_validation";
  label = "Validate local configuration";
  status = status;
  detail = detail;
}

-- values.get("TF_VAR_cloud_provider", "").strip()
abbrev pub provider_in : Dict String → String
provider_in values = strip (elim (lookup "TF_VAR_cloud_provider" values) [ none ↦ "" | some v ↦ v ])

check_provider : Files → String → Result String String
unfolding elem
check_provider files provider =
    if not (elem provider valid_providers)
    then raise "provider must be hetzner or linode"
    else if not (files.directory ("opentofu/providers/" <> provider))
    then raise ("OpenTofu provider directory not found: opentofu/providers/" <> provider)
    else ok provider

-- The body of the second `try`.
unfoldable pub validate_local : Files → Result String String
unfolding read_env_values check_provider lookup strip
validate_local files =
    and_then (read_env_values files) (λ values. check_provider files (provider_in values))

abbrev mode_of_selection : Option RunnerSelection → Option String
mode_of_selection none = none
mode_of_selection (some selection) = some (mode_name selection.mode)

no_runner : Exception → PanelStartupResult
unfolding runner_remediation runner_remediation_screen
no_runner exc = record {
  state = blocked;
  steps = detection_step "blocked" "Runner unavailable before panel startup." ∷ [];
  runner_mode = mode_of_selection exc.selection;
  remediation = runner_remediation exc;
  provider = none;
  remediation_screen = some (runner_remediation_screen exc);
}

locked_step : String → StartupStep
locked_step mode = detection_step "ok" ("runner locked: " <> mode)

no_env : String → PanelStartupResult
unfolding locked_step
no_env mode = record {
  state = configuration_required;
  steps =
      locked_step mode
      ∷ validation_step "configuration_required"
          ".env is missing; configuration is required before operational workflows are enabled."
      ∷ [];
  runner_mode = some mode;
  remediation = "Create .env from .env.example, edit required values, then run chmod 600 .env.";
  provider = none;
  remediation_screen = none;
}

validated : String → Result String String → PanelStartupResult
unfolding locked_step local_remediation local_remediation_screen
validated mode (raise message) = record {
  state = blocked;
  steps = locked_step mode ∷ validation_step "blocked" message ∷ [];
  runner_mode = some mode;
  remediation = local_remediation message;
  provider = none;
  remediation_screen = some (local_remediation_screen message);
}
validated mode (ok provider) = record {
  state = dashboard_ready;
  steps =
      locked_step mode
      ∷ validation_step "ok"
          ("provider=" <> provider <> "; *** secrets redacted; provider directory present")
      ∷ [];
  runner_mode = some mode;
  remediation = "Panel is ready.";
  provider = some provider;
  remediation_screen = none;
}

-- if not env_path.exists(): ...
with_env : Bool → String → Files → PanelStartupResult
unfolding no_env validated validate_local
with_env false mode files = no_env mode
with_env true mode files = validated mode (validate_local files)

-- `runner_factory.get()` has raised, or returned a runner with a mode.
unfoldable pub evaluate_panel_startup : Result Exception RunnerMode → Files → PanelStartupResult
unfolding no_runner with_env
evaluate_panel_startup (raise exc) files = no_runner exc
evaluate_panel_startup (ok mode) files = with_env files.env_exists (mode_name mode) files
