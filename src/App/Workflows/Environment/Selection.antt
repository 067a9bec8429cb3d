-- ===== src/App/Workflows/Environment/Selection.antt =====
-- What an accepted selection has: all that the workflows rely on.
use hermes_vps.Prelude.{ℕ, ◌≤◌, ◌≡◌, ◌∙◌, sym, ap, ◌≢◌, true, not, String, ◌==◌, all}
use mathlib.Core.Path.{subst}
use hermes_vps.Prelude.Dict.{Dict}
use hermes_vps.Prelude.Flow.{ok, and_then-ok, ok-inj}
use hermes_vps.Text.{codes}
use hermes_vps.App.Workflows.Environment.{
  Os, InitSelection, BootstrapSelection, check_allowlist, check_credentials, check_key,
  validate_init_environment, validate_bootstrap_environment, check_selection, env_path, tf_dir_of,
  is_private, check_version, validate_allowed_tcp_ports,
}
use hermes_vps.App.Workflows.Environment.{
  key_text, selection_of, read_env, port_text, parse_bootstrap_port,
}
use hermes_vps.App.Workflows.Environment.Accepted.{
  require-then, given-ne, check_version-IsPlain, check_allowlist-all,
  check_credentials-HasCredentials, validate_allowed_tcp_ports-IsPlain, parse_bootstrap_port_iff,
  IsPlain, HasCredentials, is_list_char,
}

-- What a workflow relies on in a selection.
pub record IsAccepted (os : Os) (repo_root provider : String) (s : BootstrapSelection)
    : Type 0 where
  pub same_provider : s.provider ≡ provider
  pub env_private :
      (os.is_file (env_path repo_root) ≡ true) × (is_private os (env_path repo_root) ≡ true)
  pub tf_dir_exists : (s.tf_dir ≡ tf_dir_of repo_root provider) × (os.is_dir s.tf_dir ≡ true)
  pub key_private :
      (os.is_file s.key_path ≡ true)
      × (os.is_readable s.key_path ≡ true)
      × (is_private os s.key_path ≡ true)
  pub port_bounds : (1 ≤ s.ssh_port) × (s.ssh_port ≤ 65535)
  pub credentials : HasCredentials os repo_root s.hermes_provider s.hermes_api_key
  pub version : (s.hermes_agent_version ≢ "") × IsPlain s.hermes_agent_version
  pub token : s.telegram_bot_token ≢ ""
  pub allowlist :
      (s.telegram_allowlist_ids ≢ "") × (all is_list_char (codes s.telegram_allowlist_ids) ≡ true)
  pub ports : IsPlain s.raw_allowed_ports

pub validate_init_environment-ok :
    (os : Os) (repo_root provider : String) {init : InitSelection}
    → validate_init_environment os repo_root provider ≡ ok init
    → (os.is_file (env_path repo_root) ≡ true)
      × (is_private os (env_path repo_root) ≡ true)
      × (os.is_dir (tf_dir_of repo_root provider) ≡ true)
      × (init ≡ record { provider = provider; tf_dir = tf_dir_of repo_root provider })
unfolding validate_init_environment
validate_init_environment-ok os repo_root provider e =
    let (present, e1) = require-then (os.is_file (env_path repo_root)) ".env is missing" _ e in
    let (private, e2) =
      require-then (is_private os (env_path repo_root))
        ".env permissions are too broad; expected mode 600" _ e1 in
    let (there, e3) = require-then (os.is_dir (tf_dir_of repo_root provider)) _ _ e2 in
    (present, private, there, sym (ok-inj e3))

check_key-ok :
    (os : Os) (values : Dict String) {path : String}
    → check_key os values ≡ ok path
    → (os.is_file path ≡ true) × (os.is_readable path ≡ true) × (is_private os path ≡ true)
unfolding check_key
check_key-ok os values e =
    let path = os.user_path (key_text values) in
    let (given, e1) =
      require-then (not (key_text values == "")) "BOOTSTRAP_SSH_PRIVATE_KEY_PATH is required" _ e in
    let (present, e2) = require-then (os.is_file path) "SSH private key not found" _ e1 in
    let (readable, e3) =
      require-then (os.is_readable path) "SSH private key is not readable" _ e2 in
    let (private, e4) =
      require-then (is_private os path)
        "SSH private key permissions are too broad; expected mode 600" _ e3 in
    subst (λ p. (os.is_file p ≡ true) × (os.is_readable p ≡ true) × (is_private os p ≡ true))
      (ok-inj e4) (present, readable, private)

check_selection-ok :
    (os : Os) (repo_root : String) (s : BootstrapSelection) {t : BootstrapSelection}
    → check_selection os repo_root s ≡ ok t
    → (s ≡ t)
      × HasCredentials os repo_root s.hermes_provider s.hermes_api_key
      × ((s.hermes_agent_version ≢ "") × IsPlain s.hermes_agent_version)
      × (s.telegram_bot_token ≢ "")
      × ((s.telegram_allowlist_ids ≢ "")
          × (all is_list_char (codes s.telegram_allowlist_ids) ≡ true))
      × IsPlain s.raw_allowed_ports
unfolding check_selection
check_selection-ok os repo_root s e =
    let (_, credentials, e1) =
      and_then-ok (check_credentials os repo_root s.hermes_provider s.hermes_api_key) _ e in
    let (_, version, e2) = and_then-ok (check_version s.hermes_agent_version) _ e1 in
    let (token, e3) =
      require-then (not (s.telegram_bot_token == "")) "TELEGRAM_BOT_TOKEN must be set" _ e2 in
    let (_, allowlist, e4) = and_then-ok (check_allowlist s.telegram_allowlist_ids) _ e3 in
    let (_, ports, e5) = and_then-ok (validate_allowed_tcp_ports s.raw_allowed_ports) _ e4 in
    (
      ok-inj e5,
      check_credentials-HasCredentials os repo_root s.hermes_provider s.hermes_api_key credentials,
      check_version-IsPlain s.hermes_agent_version version,
      given-ne s.telegram_bot_token token,
      check_allowlist-all s.telegram_allowlist_ids allowlist,
      validate_allowed_tcp_ports-IsPlain s.raw_allowed_ports ports,
    )

-- The selection of values that have passed all the tests.
selection_of-IsAccepted :
    (os : Os) (repo_root provider : String) (init : InitSelection) (values : Dict String)
    (key_path : String) (ssh_port : ℕ) {t : BootstrapSelection}
    → validate_init_environment os repo_root provider ≡ ok init
    → check_key os values ≡ ok key_path
    → parse_bootstrap_port (port_text values) ≡ ok ssh_port
    → check_selection os repo_root (selection_of init repo_root values key_path ssh_port) ≡ ok t
    → IsAccepted os repo_root provider t
unfolding selection_of
selection_of-IsAccepted os repo_root provider init values key_path ssh_port started key port e =
    let (same, credentials, version, token, allowlist, ports) =
      check_selection-ok os repo_root (selection_of init repo_root values key_path ssh_port) e in
    let (present, private, there, init_same) =
      validate_init_environment-ok os repo_root provider started in
    let (_, _, _, _, low, high) = (parse_bootstrap_port_iff (port_text values) ssh_port).0 port in
    let same_dir : init.tf_dir ≡ tf_dir_of repo_root provider = ap (λ i. i.tf_dir) init_same in
    subst (IsAccepted os repo_root provider) same (record {
      same_provider = ap (λ i. i.provider) init_same;
      env_private = (present, private);
      tf_dir_exists = (same_dir, ap os.is_dir same_dir ∙ there);
      key_private = check_key-ok os values key;
      port_bounds = (low, high);
      credentials = credentials;
      version = version;
      token = token;
      allowlist = allowlist;
      ports = ports;
    })

-- A selection that `validate_bootstrap_environment` returns is of the provider, with its directory
-- there; the `.env` file and the SSH key are private files, the key readable, the port lies between
-- 1 and 65535, there are credentials, a token and an allowlist of digits, commas and minus signs,
-- and the version and the allowed ports have no character that ends or expands a quoted text.
pub validate_bootstrap_environment-IsAccepted :
    (os : Os) (repo_root provider : String) (s : BootstrapSelection)
    → validate_bootstrap_environment os repo_root provider ≡ ok s
    → IsAccepted os repo_root provider s
unfolding validate_bootstrap_environment
validate_bootstrap_environment-IsAccepted os repo_root provider s e =
    let (init, started, e1) = and_then-ok (validate_init_environment os repo_root provider) _ e in
    let (values, read, e2) = and_then-ok (read_env os (env_path repo_root)) _ e1 in
    let (key_path, key, e3) = and_then-ok (check_key os values) _ e2 in
    let (ssh_port, port, e4) = and_then-ok (parse_bootstrap_port (port_text values)) _ e3 in
    selection_of-IsAccepted os repo_root provider init values key_path ssh_port started key port e4
