-- ===== src/Core/Session.antt =====
-- hermes_control_core/session.py: the audit log of a session.
use hermes_vps.Prelude.{ℕ, Bool, String, Option, none, some, List, [], ◌∷◌, ◌++◌}
use hermes_vps.Value.{Fields, end}
use hermes_vps.Core.Interfaces.{RunnerMode}

pub record RunnerSelectionAudit : Type 0 where
  pub mode : RunnerMode
  pub reason : String
  pub lock_scope : String
  pub guidance : String
  pub detected_at : ℕ

pub record DestructiveApprovalAudit : Type 0 where
  pub action_id : String
  pub approved : Bool
  pub approved_by : String
  pub token_used : Option String
  pub flag_used : Option String
  pub details : Fields
  pub approved_at : ℕ

pub record RedactionAudit : Type 0 where
  pub action_id : String
  pub redactions_applied : Bool
  pub redaction_errors : List String
  pub recorded_at : ℕ

pub record SessionAuditLog : Type 0 where
  pub session_id : String
  pub repo_root : String
  pub created_at : ℕ
  pub runner_selection : Option RunnerSelectionAudit
  pub destructive_approvals : List DestructiveApprovalAudit
  pub redactions : List RedactionAudit
  pub metadata : Fields

-- The constructor's defaults.
abbrev pub new_log : String → String → ℕ → SessionAuditLog
new_log session_id repo_root now = record {
  session_id = session_id;
  repo_root = repo_root;
  created_at = now;
  runner_selection = none;
  destructive_approvals = [];
  redactions = [];
  metadata = end;
}

unfoldable pub set_runner_selection :
    RunnerMode → String → String → String → ℕ → SessionAuditLog → SessionAuditLog
set_runner_selection mode reason lock_scope guidance now log = record log {
  runner_selection = some (record {
    mode = mode;
    reason = reason;
    lock_scope = lock_scope;
    guidance = guidance;
    detected_at = now;
  });
}

unfoldable pub add_destructive_approval :
    DestructiveApprovalAudit → SessionAuditLog → SessionAuditLog
add_destructive_approval entry log = record log {
  destructive_approvals = log.destructive_approvals ++ (entry ∷ []);
}

unfoldable pub add_redaction_record : RedactionAudit → SessionAuditLog → SessionAuditLog
add_redaction_record entry log = record log { redactions = log.redactions ++ (entry ∷ []) }
