-- ===== src/App/Workflows/Operate/Destroy.antt =====
-- hermes_vps_app/operational.py: what precedes a destroy: preview, approval and backup.
use hermes_vps.Prelude.{
  ℕ, Bool, true, false, not, ◌&&◌, String, Option, none, some, List, [], ◌∷◌, ◌++◌, ◌==◌, length,
  if◌then◌else◌,
}
use hermes_vps.Prelude.Flow.{ok, pure, throw, ◌>>=◌, ◌>>◌}
use hermes_vps.Value
use hermes_vps.Value.{ℤ, pos, Value, null, Items, Fields, bool, int, str, list, dict, end, field}
use hermes_vps.Text.{◌<>◌, strip}
use hermes_vps.Core.Interfaces.{RunnerMode, host, RunRequest, RunResult, permission_error}
use hermes_vps.Core.Session.{DestructiveApprovalAudit, SessionAuditLog, add_destructive_approval}
use hermes_vps.Core.Engine.{raised, host_override_value}
use hermes_vps.App.Workflows.Environment.{InitSelection}
use hermes_vps.App.Workflows.Handler.{request, provider_env, tofu, output_words, is_zero, items_of}
use hermes_vps.App.Workflows.Operate.{
  Operator, Order, exception, Op, or_blank, put_context, read_time, in_world,
}

pub record DestroyPreview : Type 0 where
  pub provider : String
  pub tf_dir : String
  pub backup_root : String
  pub backup_dir : String
  pub state_files : List String
  pub safe_outputs : Fields

abbrev is_host : RunnerMode → Bool
is_host host = true
is_host _ = false

abbrev pub expected_token : String → String
expected_token provider = "DESTROY:" <> provider

-- approve_destructive == expected
abbrev pub is_approved : Option String → String → Bool
is_approved none provider = false
is_approved (some token) provider = token == expected_token provider

abbrev pub denial_text : String
denial_text = "destructive approval required: pass --approve-destructive DESTROY:<provider>"

-- The change of the last entry of a list.
abbrev update_last :
    (DestructiveApprovalAudit → DestructiveApprovalAudit)
    → List DestructiveApprovalAudit
    → List DestructiveApprovalAudit
update_last f [] = []
update_last f (x ∷ []) = f x ∷ []
update_last f (x ∷ y ∷ xs) = x ∷ update_last f (y ∷ xs)

abbrev pub output_names : List String
output_names = "public_ipv4" ∷ "admin_username" ∷ "server_id" ∷ "resource_id" ∷ "instance_id" ∷ []

abbrev pub output_request : String → String → String → RunRequest
output_request repo_root provider name =
    request repo_root (provider_env provider) (tofu provider (output_words name))

-- The stripped stdout of a run that ended with 0, unless it is blank.
abbrev safe_value : RunResult → Option String
safe_value r =
    let value = strip r.stdout in
    if is_zero r.exit_code && not (value == "") then some value else none

abbrev add_output : String → Option String → Fields → Fields
add_output name none outputs = outputs
add_output name (some value) outputs = Value.put name (str value) outputs

abbrev bool_of_files : List String → Bool
bool_of_files [] = false
bool_of_files (f ∷ fs) = true

module _ {W : Type 0} (o : Operator W) where
  existing : List String → W → List String
  existing [] w = []
  existing (p ∷ ps) w =
      let rest = existing ps w in if o.effects.is_file p w then o.resolve p w ∷ rest else rest

  -- `_list_local_state_files`
  unfoldable pub list_local_state_files : String → W → List String
  unfolding existing
  list_local_state_files tf_dir w =
      o.sort_unique (existing (o.glob "*.tfstate" tf_dir w ++ o.glob "*.tfstate.backup" tf_dir w) w)

  -- The loop over the names of the outputs, with `_read_safe_output`.
  unfoldable pub read_outputs : String → String → List String → Fields → Op W Fields
  unfolding in_world Value.put
  read_outputs repo_root provider [] outputs = pure outputs
  read_outputs repo_root provider (name ∷ names) outputs =
      in_world o (o.effects.run (output_request repo_root provider name)) >>= λ r.
      read_outputs repo_root provider names (add_output name (safe_value r) outputs)

  unfoldable pub preview_with : String → String → String → List String → Fields → DestroyPreview
  preview_with repo_root provider tf_dir state_files safe_outputs = record {
    provider = provider;
    tf_dir = tf_dir;
    backup_root = repo_root <> "/.state-backups";
    backup_dir = repo_root <> "/.state-backups/" <> provider;
    state_files = state_files;
    safe_outputs = safe_outputs;
  }

  -- `build_destroy_preview`
  unfoldable pub build_destroy_preview : String → String → String → Op W DestroyPreview
  unfolding list_local_state_files read_outputs preview_with
  build_destroy_preview repo_root provider tf_dir amb =
      let files = list_local_state_files tf_dir amb.world in
      (read_outputs repo_root provider output_names end >>= λ outputs.
      pure (preview_with repo_root provider tf_dir files outputs))
        amb

  make_dirs : DestroyPreview → Op W (Unit {0})
  unfolding in_world
  make_dirs p = do
    in_world o (o.effects.make_dir p.backup_root)
    in_world o (o.effects.make_dir p.backup_dir)
    in_world o (o.effects.change_mode p.backup_root 448)
    in_world o (o.effects.change_mode p.backup_dir 448)

  archive_files : DestroyPreview → Op W (Value × String)
  unfolding read_time in_world
  archive_files p = do
    t ← read_time o
    let path = p.backup_dir <> "/tfstate-" <> o.stamp t <> ".tar.gz" in
        (in_world o (o.archive path p.tf_dir p.state_files)
          >> in_world o (o.effects.change_mode path 384)
          >> pure (str path, "created"))

  -- `_backup_state_files`
  unfoldable pub backup_state_files : DestroyPreview → Op W (Value × String)
  unfolding make_dirs archive_files
  backup_state_files p =
      make_dirs p
      >> (if bool_of_files p.state_files then archive_files p else pure (null, "skipped_no_state"))

  unfoldable pub preview_fields : DestroyPreview → Fields
  preview_fields p = field "provider" (str p.provider) (
      field "tf_dir" (str p.tf_dir) (
        field "backup_root" (str p.backup_root) (
          field "backup_dir" (str p.backup_dir) (
            field "state_files" (list (items_of p.state_files)) (
              field "state_file_count" (int (pos (length p.state_files)))
                (field "safe_outputs" (dict p.safe_outputs) end))))))

  approval_details : Order → DestroyPreview → ℕ → Fields
  unfolding strip
  approval_details order p t = field "provider" (str p.provider) (
      field "tf_dir" (str p.tf_dir) (
        field "confirmation_mode" (str order.confirmation_mode) (
          field "target_summary"
            (dict (
              field "state_file_count" (int (pos (length p.state_files))) (
                field "state_files" (list (items_of p.state_files))
                  (field "safe_outputs" (dict p.safe_outputs) end))))
            (field "host_override_required" (bool (is_host o.mode)) (
              field "host_override_approved"
                (bool (strip (or_blank order.host_override_token) == host_override_value))
                (field "timestamp" (str (o.iso_time t)) end))))))

  unfoldable pub approval_of : Order → DestroyPreview → Bool → ℕ → ℕ → DestructiveApprovalAudit
  unfolding approval_details
  approval_of order p approved t at = record {
    action_id = "tofu_destroy";
    approved = approved;
    approved_by = if order.confirmation_mode == "headless" then "cli_flag" else "operator";
    token_used = if approved then some (expected_token p.provider) else none;
    flag_used = some "approve_destructive";
    details = approval_details order p t;
    approved_at = at;
  }

  unfoldable pub log_approval : DestructiveApprovalAudit → Op W (Unit {0})
  unfolding add_destructive_approval
  log_approval entry amb = (
    ok tt,
    record amb {
      audit_log = elim amb.audit_log [
        | none ↦ none
        | some log ↦ some (add_destructive_approval entry log)
      ];
    },
  )

  -- if audit_log is not None: audit_log.add_destructive_approval(...)
  unfoldable pub record_approval :
      Order → DestroyPreview → Bool → Option SessionAuditLog → Op W (Unit {0})
  unfolding read_time approval_of log_approval
  record_approval order p approved none = pure tt
  record_approval order p approved (some log) = do
    t ← read_time o
    at ← read_time o
    log_approval (approval_of order p approved t at)

  unfoldable pub record_in_log : Order → DestroyPreview → Bool → Op W (Unit {0})
  unfolding record_approval
  record_in_log order p approved amb = record_approval order p approved amb.audit_log amb

  with_backup : Value → String → DestructiveApprovalAudit → DestructiveApprovalAudit
  unfolding Value.put
  with_backup path status entry = record entry {
    details = Value.put "backup_status" (str status) (Value.put "backup_path" path entry.details);
  }

  log_backup : Value → String → Option SessionAuditLog → Option SessionAuditLog
  unfolding with_backup
  log_backup path status none = none
  log_backup path status (some log) = some (record log {
    destructive_approvals = update_last (with_backup path status) log.destructive_approvals;
  })

  record_backup : Value → String → Op W (Unit {0})
  unfolding log_backup
  record_backup path status amb =
      (ok tt, record amb { audit_log = log_backup path status amb.audit_log })

  -- The backup, and where it is recorded.
  unfoldable pub back_up : DestroyPreview → Op W (Unit {0})
  unfolding backup_state_files put_context record_backup
  back_up p = backup_state_files p >>= λ backup.
      (put_context o "destroy_backup"
          (dict (field "status" (str backup.1) (field "path" backup.0 end)))
        >> record_backup backup.0 backup.1)

  unfoldable pub decide : DestroyPreview → Bool → Op W (Unit {0})
  unfolding back_up
  decide p true = back_up p
  decide p false = throw (exception (raised permission_error denial_text))

  unfoldable pub approve_destroy : Order → DestroyPreview → Op W (Unit {0})
  unfolding put_context preview_fields record_in_log decide
  approve_destroy order p =
      let approved = is_approved order.approve_destructive p.provider in
      put_context o "destroy_preview" (dict (preview_fields p))
      >> (record_in_log order p approved >> decide p approved)

  -- if action == "destroy": ...
  unfoldable pub before_destroy : Bool → Order → InitSelection → Op W (Unit {0})
  unfolding build_destroy_preview approve_destroy
  before_destroy false order selection = pure tt
  before_destroy true order selection =
      build_destroy_preview order.repo_root selection.provider selection.tf_dir
      >>= approve_destroy order
