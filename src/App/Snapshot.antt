-- ===== src/App/Snapshot.antt =====
-- hermes_vps_app/operator_snapshot.py: what an operator sees of the project, and what to do next.
pub mod Action
use hermes_vps.Prelude.{
  ℕ, length, map, Bool, true, false, not, ◌&&◌, ◌||◌, String, Option, none, some, List, [], ◌∷◌,
  ◌++◌, ◌==◌, elem, any, is_some, if◌then◌else◌,
}
use hermes_vps.Prelude.Dict.{Dict, lookup, insert, keys}
use hermes_vps.Value
use hermes_vps.Value.{Value, Fields, null, str, dict}
use hermes_vps.Text.{◌<>◌, join}
use hermes_vps.Core.Actions.Outcome.{Runtime, text_of}
use hermes_vps.App.Config.{secret_keys}
use hermes_vps.App.Startup.{PanelStartupState, blocked, PanelStartupResult, valid_providers}

pub data PrimaryAction : Type 0 where
  configure fix_configuration deploy bootstrap_verify monitor_fix monitor : PrimaryAction

pub data RemoteStatusState : Type 0 where
  unknown fresh stale failed : RemoteStatusState

pub record EnvKeySnapshot : Type 0 where
  pub present : Bool
  pub secret : Bool

pub record EnvFileSnapshot : Type 0 where
  pub exists : Bool
  pub readable : Bool
  pub mode : Option String
  pub key_count : ℕ
  pub keys : Dict EnvKeySnapshot

pub record ProviderSnapshot : Type 0 where
  pub selection : Option String
  pub valid : Bool
  pub detail : String

pub record ProviderDirectorySnapshot : Type 0 where
  pub path : Option String
  pub exists : Bool
  pub detail : String

pub record OpenTofuSnapshot : Type 0 where
  pub state_present : Bool
  pub output_present : Bool
  pub plan_present : Bool
  pub state_files : List String
  pub output_keys : List String

pub record RemoteKnownStatus : Type 0 where
  pub state : RemoteStatusState
  pub status : Option String
  pub recorded_at : Option String
  pub detail : String

pub record RemoteStatusSnapshot : Type 0 where
  pub bootstrap : RemoteKnownStatus
  pub verify : RemoteKnownStatus
  pub monitoring : RemoteKnownStatus

pub record LocalHealthSummary : Type 0 where
  pub status : String
  pub checks : List String
  pub detail : String

pub record OperatorSnapshot : Type 0 where
  pub env_file : EnvFileSnapshot
  pub provider : ProviderSnapshot
  pub runner_mode : Option String
  pub provider_directory : ProviderDirectorySnapshot
  pub opentofu : OpenTofuSnapshot
  pub remote_status : RemoteStatusSnapshot
  pub local_health : LocalHealthSummary
  pub primary_action : PrimaryAction

abbrev pub needs_attention : RemoteStatusState → Bool
needs_attention failed = true
needs_attention stale = true
needs_attention _ = false

abbrev pub is_unknown : RemoteStatusState → Bool
is_unknown unknown = true
is_unknown _ = false

unfoldable pub select_primary_action : OperatorSnapshot → PrimaryAction
select_primary_action s =
    let remote = s.remote_status in
    if not s.env_file.exists
    then configure
    else if s.local_health.status == "blocked"
        || not s.provider.valid
        || not s.provider_directory.exists
    then fix_configuration
    else if not s.opentofu.state_present
    then deploy
    else if needs_attention remote.bootstrap.state
        || needs_attention remote.verify.state
        || needs_attention remote.monitoring.state
    then monitor_fix
    else if is_unknown remote.bootstrap.state || is_unknown remote.verify.state
    then bootstrap_verify
    else if is_unknown remote.monitoring.state
    then monitor_fix
    else monitor

-- x or None, and the first text that is there
abbrev present : Option String → Option String
present none = none
present (some text) = if text == "" then none else some text

abbrev first_of : Option String → Option String → Option String
first_of none y = present y
first_of (some x) y = if x == "" then present y else some x

provider_detail : Option String → ProviderSnapshot
unfolding elem
provider_detail none = record { selection = none; valid = false; detail = "provider not selected" }
provider_detail (some selection) =
    if not (elem selection valid_providers)
    then record {
      selection = some selection;
      valid = false;
      detail = "provider must be hetzner or linode";
    }
    else record {
      selection = some selection;
      valid = true;
      detail = "provider selected: " <> selection;
    }

-- `_provider_snapshot`
unfoldable pub provider_snapshot : PanelStartupResult → Dict String → ProviderSnapshot
unfolding provider_detail lookup
provider_snapshot startup values =
    provider_detail (first_of startup.provider (lookup "TF_VAR_cloud_provider" values))

-- `_provider_directory_snapshot`; `directory` is `is_dir()` below the repository.
unfoldable pub provider_directory_snapshot :
    (String → Bool) → Option String → ProviderDirectorySnapshot
provider_directory_snapshot directory none = record {
  path = none;
  exists = false;
  detail = "provider directory unknown until provider is selected";
}
provider_directory_snapshot directory (some provider) =
    let rel = "opentofu/providers/" <> provider in
    let exists = directory rel in
    record {
      path = some rel;
      exists = exists;
      detail = if exists then "present" else "missing: " <> rel;
    }

-- str(v) of a value that is there and not None
abbrev text_or_none : Runtime → Option Value → Option String
text_or_none rt none = none
text_or_none rt (some null) = none
text_or_none rt (some v) = some (text_of rt v)

abbrev is_good : Option String → Bool
is_good none = false
is_good (some text) = text == "ok" || text == "succeeded" || text == "healthy"

known : RemoteStatusState → Option String → Option String → String → RemoteKnownStatus
known state status recorded_at detail = record {
  state = state;
  status = status;
  recorded_at = recorded_at;
  detail = detail;
}

-- The status of a recorded item.
status_of : Runtime → (String → Bool) → String → Fields → RemoteKnownStatus
unfolding known Value.get
status_of rt is_old key item =
    let status = text_or_none rt (Value.get "status" item) in
    let recorded_at = text_or_none rt (Value.get "recorded_at" item) in
    if not (is_good status)
    then known failed status recorded_at (key <> " last known status requires attention")
    else if (elim recorded_at [ none ↦ true | some t ↦ is_old t ])
    then known stale status recorded_at
        (key <> " last known status is stale; rerun on-demand check")
    else known fresh status recorded_at (key <> " last known status is fresh")

abbrev unchecked : String → RemoteKnownStatus
unfolding known
unchecked key =
    known unknown none none
      (key <> " not checked locally; remote status unknown until run on demand")

abbrev status_in : Runtime → (String → Bool) → String → Option Value → RemoteKnownStatus
status_in rt is_old key (some (dict item)) = status_of rt is_old key item
status_in rt is_old key _ = unchecked key

-- `_known_status`; `is_old` is the part of `_is_stale` that reads a time: whether it cannot be
-- parsed, or is longer ago than the limit.
unfoldable pub known_status : Runtime → (String → Bool) → Fields → String → RemoteKnownStatus
unfolding status_of Value.get
known_status rt is_old payload key = status_in rt is_old key (Value.get key payload)

-- `_remote_status_snapshot`, of the payload read
unfoldable pub remote_status_snapshot : Runtime → (String → Bool) → Fields → RemoteStatusSnapshot
unfolding known_status
remote_status_snapshot rt is_old payload = record {
  bootstrap = known_status rt is_old payload "bootstrap";
  verify = known_status rt is_old payload "verify";
  monitoring = known_status rt is_old payload "monitoring";
}

abbrev is_600 : Option String → Bool
is_600 none = false
is_600 (some mode) = mode == "600"

abbrev one_if : Bool → String → List String
one_if true text = text ∷ []
one_if false text = []

abbrev is_blocked : PanelStartupState → Bool
is_blocked blocked = true
is_blocked _ = false

abbrev pub problems_of :
    PanelStartupResult
    → EnvFileSnapshot
    → ProviderSnapshot
    → ProviderDirectorySnapshot
    → List String
problems_of startup env_file provider directory =
    one_if (not env_file.exists) ".env missing"
    ++ one_if (env_file.exists && not (is_600 env_file.mode)) ".env permissions are not 600"
    ++ one_if (not provider.valid) provider.detail
    ++ one_if (not directory.exists && is_some provider.selection) directory.detail
    ++ one_if (is_blocked startup.state) startup.remediation

abbrev checks_of :
    EnvFileSnapshot → ProviderSnapshot → ProviderDirectorySnapshot → OpenTofuSnapshot → List String
checks_of env_file provider directory opentofu =
    one_if env_file.exists ".env present"
    ++ one_if provider.valid "provider selected"
    ++ one_if directory.exists "provider directory present"
    ++ one_if true
        (if opentofu.state_present then "OpenTofu state present" else "OpenTofu state not present")
    ++ one_if true (
        if opentofu.output_present
        then "OpenTofu outputs present"
        else "OpenTofu outputs not present")

summary_of : List String → List String → LocalHealthSummary
unfolding join
summary_of [] checks = record { status = "ok"; checks = checks; detail = "local checks ok" }
summary_of (p ∷ problems) checks = record {
  status = "blocked";
  checks = checks;
  detail = join "; " (p ∷ problems);
}

-- `_local_health_summary`
unfoldable pub local_health_summary :
    PanelStartupResult
    → EnvFileSnapshot
    → ProviderSnapshot
    → ProviderDirectorySnapshot
    → OpenTofuSnapshot
    → LocalHealthSummary
unfolding summary_of
local_health_summary startup env_file provider directory opentofu =
    summary_of (problems_of startup env_file provider directory)
      (checks_of env_file provider directory opentofu)

abbrev required_structure_keys : List String
required_structure_keys =
    "TF_VAR_cloud_provider" ∷ "TF_VAR_server_location" ∷ "TF_VAR_server_type"
    ∷ "TF_VAR_server_image" ∷ "TF_VAR_hostname" ∷ "TF_VAR_admin_username" ∷ "TF_VAR_admin_group"
    ∷ "BOOTSTRAP_SSH_PRIVATE_KEY_PATH" ∷ "BOOTSTRAP_SSH_PORT" ∷ "TF_VAR_hermes_provider"
    ∷ "TF_VAR_hermes_model" ∷ "HERMES_AGENT_VERSION" ∷ "HERMES_API_KEY" ∷ "TELEGRAM_BOT_TOKEN"
    ∷ "TELEGRAM_ALLOWLIST_IDS" ∷ []

-- What the file says of a key: that it holds something, not what.
key_snapshot : Dict String → String → EnvKeySnapshot
unfolding lookup elem
key_snapshot values key = record {
  present = is_some (present (lookup key values));
  secret = elem key secret_keys;
}

-- The loop over the other keys of the file.
add_keys : Dict String → List String → Dict EnvKeySnapshot → Dict EnvKeySnapshot
unfolding key_snapshot elem keys insert
add_keys values [] d = d
add_keys values (key ∷ more) d =
    add_keys values more (if elem key (keys d) then d else insert key (key_snapshot values key) d)

-- `_env_file_snapshot`; `mode` is the octal text of the file's mode, where it can be read.
unfoldable pub env_file_snapshot : Bool → Bool → Option String → Dict String → EnvFileSnapshot
unfolding add_keys key_snapshot keys
env_file_snapshot exists readable mode values = record {
  exists = exists;
  readable = exists && readable;
  mode = if exists then mode else none;
  key_count = length values;
  keys =
      add_keys values (keys values)
        (map (λ key. (key, key_snapshot values key)) required_structure_keys);
}

-- What `build_operator_snapshot` reads: of `.env`, its values, whether it exists and is readable,
-- and its mode; of a provider's OpenTofu directory, its files; and the recorded remote statuses.
pub record Project : Type 0 where
  pub values : Dict String
  pub env_exists : Bool
  pub env_readable : Bool
  pub env_mode : Option String
  pub directory : String → Bool
  pub opentofu : Option String → OpenTofuSnapshot
  pub payload : Fields

with_action : OperatorSnapshot → OperatorSnapshot
unfolding select_primary_action
with_action s = record s { primary_action = select_primary_action s }

incomplete_snapshot : Runtime → (String → Bool) → PanelStartupResult → Project → OperatorSnapshot
unfolding env_file_snapshot provider_snapshot provider_directory_snapshot remote_status_snapshot
    local_health_summary
incomplete_snapshot rt is_old startup p =
    let env_file = env_file_snapshot p.env_exists p.env_readable p.env_mode p.values in
    let provider = provider_snapshot startup p.values in
    let directory = provider_directory_snapshot p.directory provider.selection in
    let tofu = p.opentofu provider.selection in
    record {
      env_file = env_file;
      provider = provider;
      runner_mode = startup.runner_mode;
      provider_directory = directory;
      opentofu = tofu;
      remote_status = remote_status_snapshot rt is_old p.payload;
      local_health = local_health_summary startup env_file provider directory tofu;
      primary_action = configure;
    }

unfoldable pub build_operator_snapshot :
    Runtime → (String → Bool) → PanelStartupResult → Project → OperatorSnapshot
unfolding with_action incomplete_snapshot
build_operator_snapshot rt is_old startup p = with_action (incomplete_snapshot rt is_old startup p)
