-- ===== src/App/Workflows/Monitoring.antt =====
-- hermes_vps_app/operational.py: `run_monitoring_graph`, the local probes of the operator's panel.
pub mod Warnings
use Prim.Native.Nat.{◌%◌}
use hermes_vps.Prelude.{
  ℕ, zero, suc, ◌+◌, Bool, true, false, not, ◌&&◌, ◌||◌, String, Option, none, some, List, [], ◌∷◌,
  ◌++◌, ◌==◌, nat_eq, ltb, length, if◌then◌else◌, is_some,
}
use hermes_vps.Prelude.Flow.{Result, ok, raise}
use hermes_vps.Value.{
  pos, Value, null, Items, nil, item, Fields, bool, int, str, list, dict, end, field,
}
use hermes_vps.Text.{◌<>◌}
use hermes_vps.App.Workflows.Environment.{
  Os, EnvironmentError, value_error, resolve_provider, env_path, tf_dir_of,
}
use hermes_vps.App.Workflows.Handler.{items_of}

-- A check's payload; its fixed fields are `runner_mode` and `source_command`.
pub record Check : Type 0 where
  pub probe_id : String
  pub severity : String
  pub summary : String
  pub evidence : Fields
  pub observed_time : String
  pub remediation_hint : Option String

-- What the probes ask beside `Os`: `which` is `shutil.which`, `age` the seconds since a file was
-- changed, rounded up, `oct` the octal text of a mode, and `iso_time` the time of each check.
pub record Probes : Type 0 where
  pub os : Os
  pub which : String → Bool
  pub age : String → ℕ
  pub oct : ℕ → String
  pub iso_time : String → String

abbrev pub default_hint : String
default_hint = "Review the probe evidence and repair the local input before rerunning monitoring."

abbrev hint_of : Option String → String → Option String
hint_of (some hint) severity = some hint
hint_of none severity = if severity == "ok" then none else some default_hint

abbrev ok_or_warn : Bool → String
ok_or_warn true = "ok"
ok_or_warn false = "warn"

abbrev hint_unless : Bool → String → Option String
hint_unless true hint = none
hint_unless false hint = some hint

abbrev text_or_null : Option String → Value
text_or_null none = null
text_or_null (some s) = str s

abbrev and_is_file : Os → Option String → Bool
and_is_file os none = false
and_is_file os (some path) = os.is_file path

abbrev is_stale_plan : Probes → Option String → Bool
is_stale_plan p none = false
is_stale_plan p (some path) = ltb 86400 (p.age path)

abbrev pub not_ok : Check → Bool
not_ok c = not (c.severity == "ok")

-- sum(1 for check in checks if check.get("severity") != "ok")
abbrev pub count_warnings : List Check → ℕ
count_warnings [] = 0
count_warnings (c ∷ checks) =
    if not_ok c then suc (count_warnings checks) else count_warnings checks

module _ (p : Probes) where
  -- `_monitoring_check`
  abbrev pub monitoring_check : String → String → String → Fields → Option String → Check
  monitoring_check probe_id severity summary evidence hint = record {
    probe_id = probe_id;
    severity = severity;
    summary = summary;
    evidence = evidence;
    observed_time = p.iso_time probe_id;
    remediation_hint = hint_of hint severity;
  }

  unfoldable pub toolchain_check : Check
  toolchain_check =
      monitoring_check "runner_toolchain_readiness"
        (ok_or_warn (p.which "python3" && p.which "tofu")) "Local toolchain probes completed"
        (field "python3" (bool (p.which "python3")) (field "tofu" (bool (p.which "tofu")) end)) none

  env_mode : String → Option ℕ
  env_mode repo_root =
      if p.os.is_file (env_path repo_root) then some (p.os.mode (env_path repo_root)) else none

  is_secure : Option ℕ → Bool
  is_secure none = false
  is_secure (some mode) = nat_eq (mode % 64) 0

  mode_value : Option ℕ → Value
  mode_value none = null
  mode_value (some mode) = str (p.oct mode)

  unfoldable pub env_check : String → Check
  unfolding env_mode is_secure mode_value
  env_check repo_root =
      let exists = p.os.is_file (env_path repo_root) in
      let example = p.os.is_file (repo_root <> "/.env.example") in
      let secure = is_secure (env_mode repo_root) in
      monitoring_check "env_file_posture" (ok_or_warn (exists && example && secure))
        "Environment file posture evaluated"
        (field ".env_present" (bool exists) (
          field ".env_example_present" (bool example) (
            field ".env_mode" (mode_value (env_mode repo_root))
              (field ".env_secure" (bool secure) end))))
        none

  -- The error's text; `resolve_provider` raises a ValueError with a text only.
  error_text : EnvironmentError → String
  error_text (value_error text) = text
  error_text _ = ""

  unfoldable pub provider_check : Result EnvironmentError String → Check
  unfolding error_text
  provider_check (ok provider) =
      monitoring_check "provider_resolution" "ok" "Provider resolved"
        (field "provider" (str provider) end) none
  provider_check (raise e) =
      monitoring_check "provider_resolution" "warn" "Provider resolution failed"
        (field "error" (str (error_text e)) end) none

  unfoldable pub resolved : Result EnvironmentError String → Option String
  resolved (ok provider) = some provider
  resolved (raise e) = none

  unfoldable pub dir_of : String → Option String → Option String
  dir_of repo_root none = none
  dir_of repo_root (some provider) = some (tf_dir_of repo_root provider)

  is_dir_there : Option String → Bool
  is_dir_there none = false
  is_dir_there (some dir) = p.os.is_dir dir

  unfoldable pub directory_check : Option String → Option String → Check
  unfolding is_dir_there
  directory_check provider dir =
      monitoring_check "provider_directory" (ok_or_warn (is_dir_there dir))
        "Provider directory checked"
        (field "provider" (text_or_null provider)
          (field "path" (text_or_null dir) (field "exists" (bool (is_dir_there dir)) end)))
        none

  unfoldable pub commands_check : Check
  commands_check =
      monitoring_check "local_command_availability"
        (ok_or_warn (p.which "tofu" && p.which "ssh" && p.which "rsync"))
        "Local command availability checked"
        (field "tofu" (bool (p.which "tofu"))
          (field "ssh" (bool (p.which "ssh")) (field "rsync" (bool (p.which "rsync")) end)))
        none

  unfoldable pub plan_of : Option String → Option String
  plan_of none = none
  plan_of (some dir) = some (dir <> "/tofuplan")

  unfoldable pub plan_check : Option String → Check
  plan_check path =
      let exists = and_is_file p.os path in
      let stale = exists && is_stale_plan p path in
      monitoring_check "saved_plan_summary" (ok_or_warn (not stale))
        "Saved plan checked without mutation"
        (field "path" (text_or_null path)
          (field "present" (bool exists) (field "stale" (bool stale) end)))
        none

  unfoldable pub logs_check : Check
  logs_check =
      monitoring_check "logs_read_only" "ok"
        "Read-only log surfaces cataloged without tailing remote output"
        (field "sources"
          (list (
            items_of (
              "/var/log/hermes/hermes.log" ∷ "/var/log/telegram-gateway/gateway.log"
              ∷ "journalctl -u hermes -u telegram-gateway" ∷ [])))
          (field "remote_execution" (bool false) (field "mutation" (bool false) end)))
        none

  unfoldable pub hardening_check : String → Check
  hardening_check repo_root =
      let hardening = p.os.is_file (repo_root <> "/bootstrap/20-hardening.sh") in
      let verify = p.os.is_file (repo_root <> "/bootstrap/90-verify.sh") in
      monitoring_check "hardening_audit_read_only" (ok_or_warn (hardening && verify))
        "Hardening audit inputs inspected without mutation"
        (field "hardening_script_present" (bool hardening)
          (field "verify_script_present" (bool verify) (field "audit_mode" (str "read-only") end)))
        (hint_unless (hardening && verify)
          "Restore bootstrap hardening/verify scripts before relying on audit output.")

  -- The checks before the last.
  unfoldable pub local_checks : String → Option String → List Check
  unfolding toolchain_check env_check provider_check resolved dir_of directory_check commands_check
      plan_of plan_check logs_check hardening_check resolve_provider
  local_checks repo_root override =
      let result = resolve_provider p.os override in
      let dir = dir_of repo_root (resolved result) in
      toolchain_check
      ∷ env_check repo_root
      ∷ provider_check result
      ∷ directory_check (resolved result) dir
      ∷ commands_check
      ∷ plan_check (plan_of dir)
      ∷ logs_check
      ∷ hardening_check repo_root
      ∷ []

  unfoldable pub health_check : List Check → Check
  health_check checks =
      let healthy = nat_eq (count_warnings checks) 0 in
      monitoring_check "health_probe" (ok_or_warn healthy)
        "On-demand health probes rendered for operator review"
        (field "warning_count" (int (pos (count_warnings checks)))
          (field "probe_count" (int (pos (length checks))) (field "mode" (str "read-only") end)))
        (hint_unless healthy
          "Inspect warning probes and rerun monitoring after local inputs are repaired.")

  -- `run_monitoring_graph`: its `local_readiness` checks; the rest of the payload is fixed.
  unfoldable pub run_monitoring_graph : String → Option String → List Check
  unfolding local_checks health_check
  run_monitoring_graph repo_root override =
      let checks = local_checks repo_root override in checks ++ (health_check checks ∷ [])
