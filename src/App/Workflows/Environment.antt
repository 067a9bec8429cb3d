-- ===== src/App/Workflows/Environment.antt =====
-- hermes_vps_app/operational.py: what a workflow asks of the environment before it runs.
pub mod Accepted
pub mod Selection
use Prim.Native.Nat.{◌%◌}
use hermes_vps.Prelude.{
  ℕ, zero, suc, ◌+◌, ◌*◌, Bool, true, false, not, ◌&&◌, ◌||◌, String, Option, none, some, List, [],
  ◌∷◌, ◌==◌, ltb, leb, nat_eq, any, elem, length, if◌then◌else◌, ◌-◌,
}
use hermes_vps.Prelude.Dict.{Dict, lookup}
use hermes_vps.Prelude.Flow.{Result, ok, raise, and_then}
use hermes_vps.Text.{◌<>◌, strip, codes, is_space}
use hermes_vps.Text.Regex.{
  Regex, chars, seq, alt, star, fullmatch, plus, optional, char, digits, is_digit,
}
use hermes_vps.App.Startup.{valid_providers, parse_env}

-- What the code asks of the machine. Paths are texts. `lines` is `splitlines()` of the text of a
-- file, or nothing where reading it raises, and `user_path` is `str(Path(os.path.expanduser(p)))`.
pub record Os : Type 0 where
  pub variable : String → Option String
  pub is_file : String → Bool
  pub is_dir : String → Bool
  pub mode : String → ℕ
  pub is_readable : String → Bool
  pub lines : String → Option (List String)
  pub user_path : String → String

-- A ValueError with its text, `int` on a text of more than 4300 digits, and a file that cannot be
-- read as text.
pub data EnvironmentError : Type 0 where
  value_error : String → EnvironmentError
  too_many_digits : EnvironmentError
  unreadable : String → EnvironmentError

abbrev pub Checked : Type 0 → Type 0
Checked A = Result EnvironmentError A

abbrev pub oauth_providers : List String
oauth_providers = "openai-codex" ∷ "nous" ∷ "qwen-oauth" ∷ "google-gemini-cli" ∷ []

pub record InitSelection : Type 0 where
  pub provider : String
  pub tf_dir : String

pub record BootstrapSelection : Type 0 where
  pub provider : String
  pub tf_dir : String
  pub key_path : String
  pub ssh_port : ℕ
  pub raw_allowed_ports : String
  pub hermes_provider : String
  pub hermes_api_key : String
  pub hermes_agent_version : String
  pub telegram_bot_token : String
  pub telegram_allowlist_ids : String
  pub telegram_poll_timeout : String
  pub hermes_model : String
  pub hermes_agent_release_tag : String
  pub hermes_auth_json_path : String

-- if not test: raise ValueError(text)
abbrev pub require : Bool → String → Checked (Unit {0})
require true text = ok tt
require false text = raise (value_error text)

abbrev pub or_default : String → Option String → String
or_default default none = default
or_default default (some s) = s

-- x or y
abbrev or_text : String → String → String
or_text x y = if x == "" then y else x

abbrev pub candidate : Os → Option String → String
candidate os none = strip (or_default "" (os.variable "TF_VAR_cloud_provider"))
candidate os (some override) = strip override

unfoldable pub resolve_provider : Os → Option String → Checked String
unfolding elem strip
resolve_provider os override =
    let name = candidate os override in
    if elem name valid_providers
    then ok name
    else raise (value_error "provider must be one of: hetzner, linode")

-- path.stat().st_mode & 0o077 is 0
abbrev pub is_private : Os → String → Bool
is_private os path = nat_eq (os.mode path % 64) 0

abbrev pub env_path : String → String
env_path repo_root = repo_root <> "/.env"

abbrev pub tf_dir_of : String → String → String
tf_dir_of repo_root provider = repo_root <> "/opentofu/providers/" <> provider

unfoldable pub validate_init_environment : Os → String → String → Checked InitSelection
validate_init_environment os repo_root provider =
    let tf_dir = tf_dir_of repo_root provider in
    and_then (require (os.is_file (env_path repo_root)) ".env is missing") λ _.
      and_then
        (require (is_private os (env_path repo_root))
          ".env permissions are too broad; expected mode 600")
        λ _.
          and_then
            (require (os.is_dir tf_dir) ("OpenTofu provider directory not found: " <> tf_dir))
            λ _. ok (record { provider = provider; tf_dir = tf_dir })

-- The number that a list of digits writes, after what was read before it.
abbrev pub number_from : ℕ → List ℕ → ℕ
number_from n [] = n
number_from n (c ∷ cs) = number_from (n * 10 + (c - 48)) cs

-- int(text), on a text of digits
abbrev pub int_of_digits : List ℕ → Checked ℕ
int_of_digits cs = if ltb 4300 (length cs) then raise too_many_digits else ok (number_from 0 cs)

abbrev pub in_range : ℕ → Bool
in_range port = leb 1 port && leb port 65535

-- `_parse_bootstrap_port`
unfoldable pub parse_bootstrap_port : String → Checked ℕ
unfolding fullmatch
parse_bootstrap_port port_raw =
    and_then (require (fullmatch digits (codes port_raw)) "BOOTSTRAP_SSH_PORT must be numeric") λ _.
      and_then (int_of_digits (codes port_raw)) λ port.
        and_then (require (in_range port) "BOOTSTRAP_SSH_PORT must be between 1 and 65535")
          λ _. ok port

abbrev spaces : Regex
spaces = star (chars is_space)

-- -?[0-9]+
abbrev integer : Regex
integer = seq (optional (char 45)) digits

-- \[\s*-?[0-9]+(\s*,\s*-?[0-9]+)*\s*\]|\[\s*\]
abbrev pub ports_pattern : Regex
ports_pattern =
    alt
      (seq (char 91) (
        seq spaces (
          seq integer
            (seq (star (seq spaces (seq (char 44) (seq spaces integer)))) (seq spaces (char 93))))))
      (seq (char 91) (seq spaces (char 93)))

-- The characters `"`, `'`, `\`, the backquote and `$`.
abbrev pub is_quoting : ℕ → Bool
is_quoting c = nat_eq c 34 || nat_eq c 39 || nat_eq c 92 || nat_eq c 96 || nat_eq c 36

-- `_validate_allowed_tcp_ports`
unfoldable pub validate_allowed_tcp_ports : String → Checked (Unit {0})
unfolding fullmatch
validate_allowed_tcp_ports raw =
    and_then
      (require (not (any is_quoting (codes raw)))
        "TF_VAR_allowed_tcp_ports contains unsupported characters")
      λ _.
        require (fullmatch ports_pattern (codes raw))
          "TF_VAR_allowed_tcp_ports must be JSON-like numeric array syntax"

abbrev pub is_alphanumeric : ℕ → Bool
is_alphanumeric c = is_digit c || (leb 65 c && leb c 90) || (leb 97 c && leb c 122)

-- [0-9]+\.[0-9]+\.[0-9]+([.-][0-9A-Za-z]+)*
abbrev pub version_pattern : Regex
version_pattern = seq digits (
    seq (char 46) (
      seq digits (
        seq (char 46) (
          seq digits
            (star (seq (chars λ c. nat_eq c 46 || nat_eq c 45) (plus (chars is_alphanumeric))))))))

-- -?[0-9]+(,-?[0-9]+)*
abbrev pub allowlist_pattern : Regex
allowlist_pattern = seq integer (star (seq (char 44) integer))

-- env_values.get(key, default)
abbrev pub value_of : Dict String → String → String → String
value_of values key default = or_default default (lookup key values)

read_env : Os → String → Checked (Dict String)
unfolding parse_env
read_env os path = elim (os.lines path) [
  | none ↦ raise (unreadable path)
  | some lines ↦ ok (parse_env lines [])
]

abbrev key_text : Dict String → String
key_text values = strip (value_of values "BOOTSTRAP_SSH_PRIVATE_KEY_PATH" "")

unfoldable pub check_key : Os → Dict String → Checked String
unfolding lookup strip
check_key os values =
    let path = os.user_path (key_text values) in
    and_then (require (not (key_text values == "")) "BOOTSTRAP_SSH_PRIVATE_KEY_PATH is required")
      λ _. and_then (require (os.is_file path) "SSH private key not found") λ _.
        and_then (require (os.is_readable path) "SSH private key is not readable") λ _.
          and_then
            (require (is_private os path)
              "SSH private key permissions are too broad; expected mode 600")
            λ _. ok path

abbrev pub auth_path : String → String
auth_path repo_root = (repo_root <> "/bootstrap/runtime") <> "/hermes-auth.json"

-- The tests on the provider's API key or artifact.
unfoldable pub check_credentials : Os → String → String → String → Checked (Unit {0})
unfolding elem
check_credentials os repo_root hermes_provider api_key =
    if elem hermes_provider oauth_providers
    then require (os.is_file (auth_path repo_root) || not (api_key == ""))
        "OAuth provider selected but no auth artifact found"
    else require (not (api_key == "")) "HERMES_API_KEY must be set"

unfoldable pub check_version : String → Checked (Unit {0})
unfolding fullmatch
check_version version =
    and_then (require (not (version == "")) "HERMES_AGENT_VERSION must be set") λ _.
      require (fullmatch version_pattern (codes version))
        "HERMES_AGENT_VERSION must be a pinned semantic version"

unfoldable pub check_allowlist : String → Checked (Unit {0})
unfolding fullmatch
check_allowlist ids = and_then (require (not (ids == "")) "TELEGRAM_ALLOWLIST_IDS must be set") λ _.
    require (fullmatch allowlist_pattern (codes ids))
      "TELEGRAM_ALLOWLIST_IDS must be comma-separated integers"

-- The selection that the values make, with the port and the key that were checked.
selection_of : InitSelection → String → Dict String → String → ℕ → BootstrapSelection
unfolding lookup strip
selection_of init repo_root values key_path ssh_port = record {
  provider = init.provider;
  tf_dir = init.tf_dir;
  key_path = key_path;
  ssh_port = ssh_port;
  raw_allowed_ports = value_of values "TF_VAR_allowed_tcp_ports" "[]";
  hermes_provider =
      or_text (strip (value_of values "TF_VAR_hermes_provider" "openrouter")) "openrouter";
  hermes_api_key = value_of values "HERMES_API_KEY" "";
  hermes_agent_version = value_of values "HERMES_AGENT_VERSION" "";
  telegram_bot_token = value_of values "TELEGRAM_BOT_TOKEN" "";
  telegram_allowlist_ids = value_of values "TELEGRAM_ALLOWLIST_IDS" "";
  telegram_poll_timeout = value_of values "TELEGRAM_POLL_TIMEOUT" "30";
  hermes_model = strip (value_of values "TF_VAR_hermes_model" "");
  hermes_agent_release_tag = value_of values "HERMES_AGENT_RELEASE_TAG" "";
  hermes_auth_json_path = auth_path repo_root;
}

-- The tests after the port's, in their order.
check_selection : Os → String → BootstrapSelection → Checked BootstrapSelection
unfolding check_credentials check_version check_allowlist validate_allowed_tcp_ports
check_selection os repo_root s =
    and_then (check_credentials os repo_root s.hermes_provider s.hermes_api_key) λ _.
      and_then (check_version s.hermes_agent_version) λ _.
        and_then (require (not (s.telegram_bot_token == "")) "TELEGRAM_BOT_TOKEN must be set") λ _.
          and_then (check_allowlist s.telegram_allowlist_ids)
            λ _. and_then (validate_allowed_tcp_ports s.raw_allowed_ports) λ _. ok s

abbrev port_text : Dict String → String
port_text values = or_text (strip (value_of values "BOOTSTRAP_SSH_PORT" "22")) "22"

unfoldable pub validate_bootstrap_environment : Os → String → String → Checked BootstrapSelection
unfolding validate_init_environment read_env check_key parse_bootstrap_port selection_of
    check_selection
validate_bootstrap_environment os repo_root provider =
    and_then (validate_init_environment os repo_root provider) λ init.
      and_then (read_env os (env_path repo_root)) λ values.
        and_then (check_key os values) λ key_path.
          and_then (parse_bootstrap_port (port_text values)) λ ssh_port.
            check_selection os repo_root (selection_of init repo_root values key_path ssh_port)
