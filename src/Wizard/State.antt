-- ===== src/Wizard/State.antt =====
-- scripts/configure_state.py: `WizardState`, its validations and its recap; and the patterns of
-- scripts/configure_logic.py.
pub mod Pinned
use hermes_vps.Prelude.{
  ℕ, Bool, true, false, not, ◌&&◌, ◌||◌, String, Option, none, some, List, [], ◌∷◌, ◌++◌, ◌==◌,
  nat_eq, leb, elem, if◌then◌else◌,
}
use hermes_vps.Prelude.Dict.{Dict, lookup, insert}
use hermes_vps.Prelude.Flow.{Result, ok, raise}
use hermes_vps.Text.{◌<>◌, codes}
use hermes_vps.Text.Regex.{
  Regex, chars, seq, star, fullmatch, plus, optional, char, digits, is_digit,
}

-- The fields that the methods below read.
pub record WizardState : Type 0 where
  pub provider : String
  pub provider_token_replace : Bool
  pub provider_token_input : String
  pub server_image : String
  pub location : String
  pub server_type : String
  pub hostname : String
  pub admin_username : String
  pub admin_group : String
  pub ssh_private_key_path : String
  pub hermes_agent_version : String
  pub hermes_agent_release_tag : String
  pub hermes_provider : String
  pub hermes_model : String
  pub hermes_auth_method : String
  pub telegram_bot_token_replace : Bool
  pub telegram_bot_token_input : String
  pub telegram_allowlist_ids : String
  pub add_ssh_alias : Bool
  pub original_values : Dict String

-- `server_image_for_provider`, raising the text of a ValueError
unfoldable pub server_image_for_provider : String → Result String String
server_image_for_provider provider =
    if provider == "linode"
    then ok "linode/debian13"
    else if provider == "hetzner"
    then ok "debian-13"
    else raise ("unsupported provider for server image mapping: " <> provider)

abbrev pub is_alphanumeric : ℕ → Bool
is_alphanumeric c = is_digit c || (leb 65 c && leb c 90) || (leb 97 c && leb c 122)

-- [0-9]+\.[0-9]+\.[0-9]+(?:[.-][0-9A-Za-z]+)*
abbrev pub semver_pattern : Regex
semver_pattern = seq digits (
    seq (char 46) (
      seq digits (
        seq (char 46) (
          seq digits
            (star (seq (chars λ c. nat_eq c 46 || nat_eq c 45) (plus (chars is_alphanumeric))))))))

-- The same after a "v".
abbrev pub release_tag_pattern : Regex
release_tag_pattern = seq (char 118) semver_pattern

-- -?[0-9]+(?:,-?[0-9]+)*
abbrev pub allowlist_pattern : Regex
allowlist_pattern =
    let integer : Regex = seq (optional (char 45)) digits in
    seq integer (star (seq (char 44) integer))

unfoldable pub is_valid_semver : String → Bool
unfolding fullmatch
is_valid_semver value = fullmatch semver_pattern (codes value)

unfoldable pub is_valid_release_tag : String → Bool
unfolding fullmatch
is_valid_release_tag value = fullmatch release_tag_pattern (codes value)

unfoldable pub is_valid_telegram_allowlist : String → Bool
unfolding fullmatch
is_valid_telegram_allowlist value = fullmatch allowlist_pattern (codes value)

unfoldable pub release_tag_for_version : String → String
unfolding is_valid_semver
release_tag_for_version version = if not (is_valid_semver version) then "" else "v" <> version

unfoldable pub provider_token_env_key : WizardState → String
provider_token_env_key s = if s.provider == "hetzner" then "HCLOUD_TOKEN" else "LINODE_TOKEN"

-- if test: errors[key] = message
abbrev pub error_if : Bool → String → String → Dict String → Dict String
error_if true key message errors = insert key message errors
error_if false key message errors = errors

unfoldable pub validate_cloud : WizardState → Dict String
unfolding elem insert
validate_cloud s =
    error_if (s.provider_token_replace && s.provider_token_input == "") "provider_token"
      "Token cannot be empty."
      (error_if (not (elem s.provider ("hetzner" ∷ "linode" ∷ []))) "provider"
        "Choose cloud provider." [])

unfoldable pub validate_server : WizardState → Dict String
unfolding insert
validate_server s = error_if (s.admin_group == "") "admin_group" "SSH group required." (
    error_if (s.admin_username == "") "admin_username" "Admin username required." (
      error_if (s.hostname == "") "hostname" "Hostname required." (
        error_if (s.server_type == "") "server_type" "Choose server type."
          (error_if (s.location == "") "location" "Choose region." []))))

-- The release tag follows a valid version; otherwise it stays.
unfoldable pub with_release_tag : WizardState → WizardState
unfolding is_valid_semver release_tag_for_version
with_release_tag s =
    if not (is_valid_semver s.hermes_agent_version)
    then s
    else record s { hermes_agent_release_tag = release_tag_for_version s.hermes_agent_version }

unfoldable pub hermes_errors : WizardState → Dict String → Dict String
unfolding is_valid_release_tag elem insert
hermes_errors s errors =
    error_if (not (elem s.hermes_auth_method ("api_key" ∷ "oauth" ∷ []))) "hermes_auth_method"
      "Choose authentication method."
      (error_if (s.hermes_model == "") "hermes_model" "Choose Hermes model." (
        error_if (s.hermes_provider == "") "hermes_provider" "Choose Hermes provider." (
          error_if (not (is_valid_release_tag s.hermes_agent_release_tag))
            "hermes_agent_release_tag" "Use release tag format vYYYY.M.D (or semver tag)." errors)))

-- `validate_hermes`: the errors, and the state with its release tag.
unfoldable pub validate_hermes : WizardState → Dict String × WizardState
unfolding with_release_tag hermes_errors is_valid_semver insert
validate_hermes s =
    let after = with_release_tag s in
    (
      hermes_errors after (
          error_if (not (is_valid_semver s.hermes_agent_version)) "hermes_agent_version"
            "Use pinned semantic version (example: 0.10.0)." []),
      after,
    )

unfoldable pub validate_telegram : WizardState → Dict String
unfolding is_valid_telegram_allowlist insert
validate_telegram s =
    let errors =
      error_if (s.telegram_bot_token_replace && s.telegram_bot_token_input == "")
        "telegram_bot_token" "Telegram bot token cannot be empty." [] in
    if s.telegram_allowlist_ids == ""
    then insert "telegram_allowlist_ids" "Allowlist required." errors
    else error_if (not (is_valid_telegram_allowlist s.telegram_allowlist_ids))
        "telegram_allowlist_ids" "Use comma-separated integers: 12345,-100987654321" errors

pub record RecapRow : Type 0 where
  pub key : String
  pub old : String
  pub new : String

abbrev text_or_blank : Option String → String
text_or_blank none = ""
text_or_blank (some s) = s

-- `add`: the row of a key, where the value is new
unfoldable pub add_row : Dict String → String → String → List RecapRow → List RecapRow
unfolding lookup
add_row original key new rows =
    let old = text_or_blank (lookup key original) in
    if old == new then rows else record { key = key; old = old; new = new } ∷ rows

unfoldable pub recap_rows : WizardState → List RecapRow
unfolding add_row
recap_rows s =
    let add = add_row s.original_values in
    add "TF_VAR_cloud_provider" s.provider (
      add "TF_VAR_server_image" s.server_image (
        add "TF_VAR_server_location" s.location (
          add "TF_VAR_server_type" s.server_type (
            add "TF_VAR_hostname" s.hostname (
              add "TF_VAR_admin_username" s.admin_username (
                add "TF_VAR_admin_group" s.admin_group (
                  add "BOOTSTRAP_SSH_PRIVATE_KEY_PATH" s.ssh_private_key_path (
                    add "HERMES_AGENT_VERSION" s.hermes_agent_version (
                      add "HERMES_AGENT_RELEASE_TAG" s.hermes_agent_release_tag (
                        add "TF_VAR_hermes_provider" s.hermes_provider (
                          add "TF_VAR_hermes_model" s.hermes_model (
                            add "TELEGRAM_ALLOWLIST_IDS" s.telegram_allowlist_ids (
                              add "SSH_ALIAS" (if s.add_ssh_alias then "active" else "inactive")
                                [])))))))))))))
