-- ===== src/App/Config.antt =====
-- hermes_vps_app/config_model.py: config drafts and the changes that they make to `.env`.
-- `read` is `_env(self.env_path, key)`: what the file holds for a key, or the empty text.
pub mod Changes
pub mod Patches
pub mod Review
use hermes_vps.Prelude.{
  Bool, true, false, not, ◌&&◌, String, Option, none, some, List, [], ◌∷◌, ◌++◌, map, ◌==◌, elem,
  if◌then◌else◌,
}
use hermes_vps.Prelude.Dict.{Dict, lookup, insert}
use hermes_vps.Text.{◌<>◌, join}

pub data CloudProvider : Type 0 where
  hetzner linode : CloudProvider

abbrev pub provider_name : CloudProvider → String
provider_name hetzner = "hetzner"
provider_name linode = "linode"

abbrev pub secret_keys : List String
secret_keys = "HCLOUD_TOKEN" ∷ "LINODE_TOKEN" ∷ "HERMES_API_KEY" ∷ "TELEGRAM_BOT_TOKEN" ∷ []

abbrev pub provider_image : CloudProvider → String
provider_image hetzner = "debian-13"
provider_image linode = "linode/debian13"

pub record SecretDraft : Type 0 where
  pub present : Bool
  pub replacement : Option String

abbrev pub keep_existing : Bool → SecretDraft
keep_existing present = record { present = present; replacement = none }

abbrev pub replace : String → SecretDraft
replace value = record { present = not (value == ""); replacement = some value }

abbrev pub display : SecretDraft → String
display secret = elim secret.replacement [
  | some value ↦ "<replacement pending>"
  | none ↦ if secret.present then "<set: keep existing>" else "<unset>"
]

pub record ProviderConfigDraft : Type 0 where
  pub provider : CloudProvider
  pub hcloud_token : SecretDraft
  pub linode_token : SecretDraft

pub record ServerConfigDraft : Type 0 where
  pub location : String
  pub server_type : String
  pub image : String
  pub hostname : String
  pub admin_username : String
  pub admin_group : String
  pub ssh_private_key_path : String
  pub ssh_port : String
  pub add_ssh_alias : Bool

pub record HermesConfigDraft : Type 0 where
  pub provider : String
  pub model : String
  pub agent_version : String
  pub agent_release_tag : String
  pub api_key : SecretDraft

pub record GatewayConfigDraft : Type 0 where
  pub telegram_bot_token : SecretDraft
  pub telegram_allowlist_ids : String
  pub telegram_poll_timeout : String

pub record ProjectConfigDraft : Type 0 where
  pub provider : ProviderConfigDraft
  pub server : ServerConfigDraft
  pub hermes : HermesConfigDraft
  pub gateway : GatewayConfigDraft
  pub review_required_fields : List String
  pub original_env : Dict String

abbrev pub same_provider : CloudProvider → CloudProvider → Bool
same_provider hetzner hetzner = true
same_provider linode linode = true
same_provider _ _ = false

unfoldable pub change_provider : CloudProvider → ProjectConfigDraft → ProjectConfigDraft
change_provider provider draft =
    if same_provider provider draft.provider.provider then draft else record draft {
      provider = record draft.provider { provider = provider };
      server = record draft.server {
        location = "";
        server_type = "";
        image = provider_image provider;
      };
      review_required_fields = "server.location" ∷ "server.server_type" ∷ [];
    }

unfoldable pub to_display_dict : ProjectConfigDraft → Dict (Dict String)
to_display_dict draft =
    (
      "provider",
      ("provider", provider_name draft.provider.provider)
          ∷ ("hcloud_token", display draft.provider.hcloud_token)
          ∷ ("linode_token", display draft.provider.linode_token)
          ∷ [],
    )
    ∷ (
      "server",
      ("location", draft.server.location)
          ∷ ("server_type", draft.server.server_type)
          ∷ ("image", draft.server.image)
          ∷ ("hostname", draft.server.hostname)
          ∷ ("admin_username", draft.server.admin_username)
          ∷ ("admin_group", draft.server.admin_group)
          ∷ ("ssh_private_key_path", draft.server.ssh_private_key_path)
          ∷ ("ssh_port", draft.server.ssh_port)
          ∷ ("ssh_alias", if draft.server.add_ssh_alias then "active" else "inactive")
          ∷ [],
    )
    ∷ (
      "hermes",
      ("provider", draft.hermes.provider)
          ∷ ("model", draft.hermes.model)
          ∷ ("agent_version", draft.hermes.agent_version)
          ∷ ("agent_release_tag", draft.hermes.agent_release_tag)
          ∷ ("api_key", display draft.hermes.api_key)
          ∷ [],
    )
    ∷ (
      "gateway",
      ("telegram_bot_token", display draft.gateway.telegram_bot_token)
          ∷ ("telegram_allowlist_ids", draft.gateway.telegram_allowlist_ids)
          ∷ ("telegram_poll_timeout", draft.gateway.telegram_poll_timeout)
          ∷ [],
    )
    ∷ []

pub record EnvChange : Type 0 where
  pub key : String
  pub old : String
  pub new : String
  pub secret : Bool

-- `_secret_state`
abbrev pub secret_state : String → Bool → String
secret_state value replacing =
    if replacing && not (value == "")
    then "<replaced>"
    else if not (value == "")
    then "<set>"
    else "<unset>"

unfoldable pub redacted_line : EnvChange → String
redacted_line change =
    if not change.secret
    then change.key <> ": " <> change.old <> " -> " <> change.new
    else change.key
      <> ": "
      <> secret_state change.old false
      <> " -> "
      <> secret_state change.new true

-- `EnvPatch` is the tuple of its changes.
abbrev pub EnvPatch : Type 0
EnvPatch = List EnvChange

-- The dict comprehension: a later change of a key takes the place of an earlier one.
unfoldable pub collect : EnvPatch → Dict String → Dict String
unfolding insert
collect [] d = d
collect (change ∷ changes) d = collect changes (insert change.key change.new d)

abbrev pub values : EnvPatch → Dict String
values changes = collect changes []

unfoldable pub redacted_diff : EnvPatch → String
unfolding redacted_line join
redacted_diff [] = "No changes."
redacted_diff (change ∷ changes) = join "\n" (map redacted_line (change ∷ changes))

pub record ConfigValidationIssue : Type 0 where
  pub field : String
  pub message : String

-- `_present`
abbrev pub is_present : String → Bool
is_present value = not (value == "") && not (value == "***")

abbrev pub known_keys : List String
known_keys =
    "TF_VAR_cloud_provider" ∷ "HCLOUD_TOKEN" ∷ "LINODE_TOKEN" ∷ "TF_VAR_server_location"
    ∷ "TF_VAR_server_type" ∷ "TF_VAR_server_image" ∷ "TF_VAR_hostname" ∷ "TF_VAR_admin_username"
    ∷ "TF_VAR_admin_group" ∷ "BOOTSTRAP_SSH_PRIVATE_KEY_PATH" ∷ "BOOTSTRAP_SSH_PORT"
    ∷ "TF_VAR_hermes_provider" ∷ "TF_VAR_hermes_model" ∷ "HERMES_AGENT_VERSION"
    ∷ "HERMES_AGENT_RELEASE_TAG" ∷ "HERMES_API_KEY" ∷ "TELEGRAM_BOT_TOKEN"
    ∷ "TELEGRAM_ALLOWLIST_IDS" ∷ "TELEGRAM_POLL_TIMEOUT" ∷ []

-- values.get(key, default)
abbrev pub get_or : String → String → Dict String → String
get_or key default d = elim (lookup key d) [ none ↦ default | some v ↦ v ]

abbrev pub read_known_values : (String → String) → Dict String
read_known_values read = map (λ key. (key, read key)) known_keys

abbrev provider_of : String → CloudProvider
provider_of name = if name == "linode" then linode else hetzner

-- `values.get("TF_VAR_cloud_provider") or "hetzner"`, which is the empty text or the provider's.
abbrev draft_of : Dict String → ProjectConfigDraft
draft_of env = record {
  provider = record {
    provider = provider_of (get_or "TF_VAR_cloud_provider" "hetzner" env);
    hcloud_token = keep_existing (is_present (get_or "HCLOUD_TOKEN" "" env));
    linode_token = keep_existing (is_present (get_or "LINODE_TOKEN" "" env));
  };
  server = record {
    location = get_or "TF_VAR_server_location" "" env;
    server_type = get_or "TF_VAR_server_type" "" env;
    image = get_or "TF_VAR_server_image" "" env;
    hostname = get_or "TF_VAR_hostname" "" env;
    admin_username = get_or "TF_VAR_admin_username" "" env;
    admin_group = get_or "TF_VAR_admin_group" "" env;
    ssh_private_key_path = get_or "BOOTSTRAP_SSH_PRIVATE_KEY_PATH" "" env;
    ssh_port = get_or "BOOTSTRAP_SSH_PORT" "22" env;
    add_ssh_alias = true;
  };
  hermes = record {
    provider = get_or "TF_VAR_hermes_provider" "" env;
    model = get_or "TF_VAR_hermes_model" "" env;
    agent_version = get_or "HERMES_AGENT_VERSION" "" env;
    agent_release_tag = get_or "HERMES_AGENT_RELEASE_TAG" "" env;
    api_key = keep_existing (is_present (get_or "HERMES_API_KEY" "" env));
  };
  gateway = record {
    telegram_bot_token = keep_existing (is_present (get_or "TELEGRAM_BOT_TOKEN" "" env));
    telegram_allowlist_ids = get_or "TELEGRAM_ALLOWLIST_IDS" "" env;
    telegram_poll_timeout = get_or "TELEGRAM_POLL_TIMEOUT" "30" env;
  };
  review_required_fields = [];
  original_env = env;
}

unfoldable pub load : (String → String) → ProjectConfigDraft
unfolding lookup
load read = draft_of (read_known_values read)

-- `_add_secret_if_replaced`, at the end of the dict, where no earlier entry has the key.
abbrev pub replaced : String → SecretDraft → Dict String
replaced key secret = elim secret.replacement [ none ↦ [] | some value ↦ (key, value) ∷ [] ]

abbrev plain_env : ProjectConfigDraft → Dict String
plain_env draft =
    ("TF_VAR_cloud_provider", provider_name draft.provider.provider)
    ∷ ("TF_VAR_server_location", draft.server.location)
    ∷ ("TF_VAR_server_type", draft.server.server_type)
    ∷ ("TF_VAR_server_image", draft.server.image)
    ∷ ("TF_VAR_hostname", draft.server.hostname)
    ∷ ("TF_VAR_admin_username", draft.server.admin_username)
    ∷ ("TF_VAR_admin_group", draft.server.admin_group)
    ∷ ("BOOTSTRAP_SSH_PRIVATE_KEY_PATH", draft.server.ssh_private_key_path)
    ∷ ("BOOTSTRAP_SSH_PORT", draft.server.ssh_port)
    ∷ ("TF_VAR_hermes_provider", draft.hermes.provider)
    ∷ ("HERMES_AGENT_VERSION", draft.hermes.agent_version)
    ∷ ("HERMES_AGENT_RELEASE_TAG", draft.hermes.agent_release_tag)
    ∷ ("TELEGRAM_ALLOWLIST_IDS", draft.gateway.telegram_allowlist_ids)
    ∷ ("TELEGRAM_POLL_TIMEOUT", draft.gateway.telegram_poll_timeout)
    ∷ []

abbrev model_env : ProjectConfigDraft → Dict String
model_env draft =
    if not (draft.hermes.model == "") then ("TF_VAR_hermes_model", draft.hermes.model) ∷ [] else []

abbrev secret_env : ProjectConfigDraft → Dict String
secret_env draft =
    replaced "HCLOUD_TOKEN" draft.provider.hcloud_token
    ++ replaced "LINODE_TOKEN" draft.provider.linode_token
    ++ replaced "HERMES_API_KEY" draft.hermes.api_key
    ++ replaced "TELEGRAM_BOT_TOKEN" draft.gateway.telegram_bot_token

-- `_desired_env`
abbrev pub desired_env : ProjectConfigDraft → Dict String
desired_env draft = plain_env draft ++ model_env draft ++ secret_env draft

-- The loop of `create_patch`.
unfoldable pub changes_from : Dict String → Dict String → EnvPatch
unfolding lookup elem
changes_from original [] = []
changes_from original ((key, new) ∷ desired) =
    let old = get_or key "" original in
    let later = changes_from original desired in
    if not (old == new)
    then record { key = key; old = old; new = new; secret = elem key secret_keys } ∷ later
    else later

abbrev original_of : (String → String) → Dict String → Dict String
original_of read [] = read_known_values read
original_of read (e ∷ env) = e ∷ env

abbrev model_cleared : ProjectConfigDraft → Dict String → EnvPatch
model_cleared draft original =
    let old = get_or "TF_VAR_hermes_model" "" original in
    if draft.hermes.model == "" && not (old == "")
    then record { key = "TF_VAR_hermes_model"; old = old; new = ""; secret = false } ∷ []
    else []

unfoldable pub create_patch : (String → String) → ProjectConfigDraft → EnvPatch
unfolding changes_from lookup
create_patch read draft =
    let original = original_of read draft.original_env in
    changes_from original (desired_env draft) ++ model_cleared draft original

-- The type of a draft's provider leaves the first test of `validate`, on its name, false.
unfoldable pub validate : ProjectConfigDraft → List ConfigValidationIssue
validate draft =
    (if draft.server.location == ""
      then record { field = "server.location"; message = "region/location requires review" } ∷ []
      else [])
    ++ (if draft.server.server_type == ""
        then record { field = "server.server_type"; message = "server type requires review" } ∷ []
        else [])
    ++ (if not (draft.server.image == provider_image draft.provider.provider)
        then record {
          field = "server.image";
          message = "server image should be " <> provider_image draft.provider.provider;
        }
          ∷ []
        else [])
