-- ===== src/App/Workflows/Handler/Remote.antt =====
-- The remote half of `OperationalActionHandler`: bootstrap and verification over SSH.
use hermes_vps.Prelude.{
  ℕ, Bool, true, false, String, none, List, [], ◌∷◌, ◌++◌, ◌==◌, if◌then◌else◌,
}
use hermes_vps.Prelude.Flow.{Result, pure, ◌>>=◌, ◌>>◌}
use hermes_vps.Value.{pos, Fields, bool, int, str, end, field}
use hermes_vps.Text.{◌<>◌, join}
use hermes_vps.Core.Interfaces.{Exception}
use hermes_vps.Core.Actions.Outcome.{text_of}
use hermes_vps.App.Workflows.Environment.{BootstrapSelection}
use hermes_vps.App.Workflows.Handler.{
  Setup, Act, request, run_expecting, from_context, config_of, on_files,
}

-- What both remote actions read before they run a command.
pub record Target : Type 0 where
  pub config : BootstrapSelection
  pub repo_root : String
  pub ip : String
  pub user : String
  pub port : String

abbrev pub address : Target → String
address t = t.user <> "@" <> t.ip

-- ["ssh", "-i", key_path, "-p", port, "-o", …, f"{user}@{ip}"]
abbrev ssh_base : Target → List String
ssh_base t =
    "ssh"
    ∷ "-i"
    ∷ t.config.key_path
    ∷ "-p"
    ∷ t.port
    ∷ "-o"
    ∷ "StrictHostKeyChecking=accept-new"
    ∷ address t
    ∷ []

abbrev target_result : Target → Fields
target_result t = field "ok" (bool true) (field "target" (str (address t)) end)

-- "\n".join(lines) + "\n"
abbrev text_of_lines : List String → String
text_of_lines lines = join "\n" lines <> "\n"

abbrev model_line : String → List String
model_line model = if model == "" then [] else ("HERMES_MODEL=" <> model) ∷ []

abbrev hermes_env_text : BootstrapSelection → String
hermes_env_text config = text_of_lines (
    model_line config.hermes_model
    ++ (("HERMES_PROVIDER=" <> config.hermes_provider)
        ∷ ("HERMES_API_KEY=" <> config.hermes_api_key)
        ∷ ("HERMES_AGENT_VERSION=" <> config.hermes_agent_version)
        ∷ []))

abbrev telegram_env_text : BootstrapSelection → String
telegram_env_text config = text_of_lines (
    ("TELEGRAM_BOT_TOKEN=" <> config.telegram_bot_token)
    ∷ ("TELEGRAM_ALLOWLIST_IDS=" <> config.telegram_allowlist_ids)
    ∷ ("TELEGRAM_POLL_TIMEOUT=" <> config.telegram_poll_timeout)
    ∷ "HERMES_COMMAND=/usr/local/bin/hermes"
    ∷ "HERMES_SYSTEM_PROMPT=You are Hermes Agent running on a personal production VPS."
    ∷ [])

abbrev rsync_command : Target → List String
rsync_command t =
    "rsync"
    ∷ "-az"
    ∷ "--delete"
    ∷ "--rsync-path=sudo rsync"
    ∷ "--chmod=D0700,F0600"
    ∷ "-e"
    ∷ ("ssh -i " <> t.config.key_path <> " -p " <> t.port <> " -o StrictHostKeyChecking=accept-new")
    ∷ "bootstrap"
    ∷ "templates"
    ∷ (address t <> ":/root/hermes-vps-stage/")
    ∷ []

abbrev remote_script : BootstrapSelection → String
remote_script config =
    "sudo bash -c 'set -euo pipefail; " <> "install -d -m 0750 /etc/hermes /etc/telegram-gateway; "
    <> "install -m 0600 -o root -g root /root/hermes-vps-stage/bootstrap/runtime/hermes.env /etc/hermes/hermes.env; "
    <> "install -m 0600 -o root -g root /root/hermes-vps-stage/bootstrap/runtime/telegram-gateway.env /etc/telegram-gateway/gateway.env; "
    <> "bash /root/hermes-vps-stage/bootstrap/10-base.sh; " <> "TF_VAR_allowed_tcp_ports=\""
    <> config.raw_allowed_ports <> "\" bash /root/hermes-vps-stage/bootstrap/20-hardening.sh; "
    <> "if [[ -f /root/hermes-vps-stage/bootstrap/runtime/hermes-auth.json ]]; then "
    <> "id -u hermes >/dev/null 2>&1 || useradd --system --create-home --home-dir /var/lib/hermes --shell /usr/sbin/nologin hermes; "
    <> "install -d -m 0700 -o hermes -g hermes /var/lib/hermes/.hermes; "
    <> "install -m 0600 -o hermes -g hermes /root/hermes-vps-stage/bootstrap/runtime/hermes-auth.json /var/lib/hermes/.hermes/auth.json; "
    <> "fi; " <> "HERMES_AGENT_VERSION=\"" <> config.hermes_agent_version
    <> "\" HERMES_AGENT_RELEASE_TAG=\"" <> config.hermes_agent_release_tag
    <> "\" bash /root/hermes-vps-stage/bootstrap/30-hermes.sh; "
    <> "bash /root/hermes-vps-stage/bootstrap/40-telegram-gateway.sh; "
    <> "bash /root/hermes-vps-stage/bootstrap/90-verify.sh; "
    <> "find /root/hermes-vps-stage/bootstrap/runtime -maxdepth 1 -type f \\( -name \"*.env\" -o -name \"hermes-auth.json\" \\) -exec rm -f {} + 2>/dev/null || true; "
    <> "rm -rf /root/hermes-vps-stage/bootstrap/runtime'"

-- stat.S_IRUSR | stat.S_IWUSR
abbrev owner_only : ℕ
owner_only = 384

abbrev pub runtime_dir : String → String
runtime_dir repo_root = repo_root <> "/bootstrap/runtime"

module _ {W : Type 0} (h : Setup W) where
  unfoldable pub read_target : Act W Target
  unfolding from_context config_of
  read_target = do
    repo_root ← from_context h "repo_root"
    config ← config_of h
    ip ← from_context h "bootstrap_target_ip"
    user ← from_context h "bootstrap_target_user"
    pure (record {
      config = config;
      repo_root = repo_root;
      ip = ip;
      user = user;
      port = text_of h.rt (int (pos config.ssh_port));
    })

  verify_target : Target → Act W Fields
  unfolding run_expecting
  verify_target t =
      run_expecting h "remote verification failed" (
        request t.repo_root none
          (ssh_base t ++ ("sudo bash /root/hermes-vps-stage/bootstrap/90-verify.sh" ∷ [])))
      >> pure (target_result t)

  -- `_execute_verify_remote`
  unfoldable pub execute_verify_remote : Act W Fields
  unfolding read_target verify_target
  execute_verify_remote = read_target >>= verify_target

  unfoldable pub copy_auth : Bool → String → String → Act W (Unit {0})
  unfolding on_files
  copy_auth false source target = pure tt
  copy_auth true source target =
      on_files h (h.effects.copy source target)
      >> on_files h (h.effects.change_mode target owner_only)

  unfoldable pub copy_artifact : Target → Act W (Unit {0})
  unfolding copy_auth
  copy_artifact t s =
      copy_auth (h.effects.is_file t.config.hermes_auth_json_path s.1)
        t.config.hermes_auth_json_path (runtime_dir t.repo_root <> "/hermes-auth.json") s

  -- The three commands.
  run_remote : Target → Act W Fields
  unfolding run_expecting
  run_remote t = do
    run_expecting h "remote staging directory creation failed" (
        request t.repo_root none
          (ssh_base t ++ ("sudo install -d -m 0700 -o root -g root /root/hermes-vps-stage" ∷ [])))
    run_expecting h "remote rsync failed" (request t.repo_root none (rsync_command t))
    run_expecting h "remote bootstrap execution failed"
        (request t.repo_root none (ssh_base t ++ (remote_script t.config ∷ [])))
    pure (target_result t)

  unfoldable pub copy_and_run : Target → Act W Fields
  unfolding copy_artifact run_remote
  copy_and_run t = copy_artifact t >> run_remote t

  abbrev pub write_hermes_env : Target → W → Result Exception (Unit {0}) × W
  write_hermes_env t =
      h.effects.write_text (runtime_dir t.repo_root <> "/hermes.env") (hermes_env_text t.config)

  abbrev pub write_telegram_env : Target → W → Result Exception (Unit {0}) × W
  write_telegram_env t =
      h.effects.write_text (runtime_dir t.repo_root <> "/telegram-gateway.env")
        (telegram_env_text t.config)

  abbrev pub close_hermes_env : Target → W → Result Exception (Unit {0}) × W
  close_hermes_env t = h.effects.change_mode (runtime_dir t.repo_root <> "/hermes.env") owner_only

  abbrev pub close_telegram_env : Target → W → Result Exception (Unit {0}) × W
  close_telegram_env t =
      h.effects.change_mode (runtime_dir t.repo_root <> "/telegram-gateway.env") owner_only

  -- The body of the `try`: the files, then the commands.
  unfoldable pub bootstrap_target : Target → Act W Fields
  unfolding on_files copy_and_run
  bootstrap_target t =
      on_files h (write_hermes_env t)
      >> (on_files h (write_telegram_env t)
          >> (on_files h (close_hermes_env t)
              >> (on_files h (close_telegram_env t) >> copy_and_run t)))

  -- `_cleanup_runtime`
  unfoldable pub cleanup_runtime : String → W → W
  cleanup_runtime dir w = if h.effects.exists dir w then h.effects.remove_tree dir w else w

  -- finally: self._cleanup_runtime(runtime_dir)
  unfoldable pub finally_clean : String → Act W Fields → Act W Fields
  unfolding cleanup_runtime
  finally_clean dir body s = let (r, (context, w)) = body s in (r, (context, cleanup_runtime dir w))

  unfoldable pub staged : Target → Act W Fields
  unfolding on_files finally_clean bootstrap_target
  staged t =
      on_files h (h.effects.make_dir (runtime_dir t.repo_root))
      >> finally_clean (runtime_dir t.repo_root) (bootstrap_target t)

  -- `_execute_bootstrap_remote`
  unfoldable pub execute_bootstrap_remote : Act W Fields
  unfolding read_target staged
  execute_bootstrap_remote = read_target >>= staged
