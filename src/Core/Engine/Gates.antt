-- ===== src/Core/Engine/Gates.antt =====
-- The gates in front of a run: the policy gate of the graph and the host override gate.
use hermes_vps.Prelude.{◌≡◌, refl, true, false, none, some, ◌==◌}
use hermes_vps.Prelude.Flow.{ok}
use hermes_vps.Core.Interfaces.{host, Exception, permission_error}
use hermes_vps.Core.Session.{SessionAuditLog, DestructiveApprovalAudit, add_destructive_approval}
use hermes_vps.Core.Actions.Policy.{validate}
use hermes_vps.Core.Actions.Outcome.{Runtime}
use hermes_vps.Core.Engine.{
  raised, denial, raise_exception, enforce_host_override_gate, host_override_value, token_text,
  record_approval, approval_details, run, run_valid, outcome,
}
use hermes_vps.Core.Engine.Execute.{Engine, Ambient, read_clock}

-- A run in host mode that requires the override token, and whose stripped token is not the
-- audited value, raises PermissionError: the context stays, nothing but the clock is asked (so no
-- handler and no event sink), and exactly one denied approval is added to the audit log. The
-- graph is valid, and there is an audit log.
pub run-denied :
    {W : Type 0} (rt : Runtime) (e : Engine W) (amb : Ambient W) (log : SessionAuditLog)
    → validate e.graph ≡ ok tt
    → e.mode ≡ host
    → e.require_host_override_token ≡ true
    → (token_text rt e == host_override_value) ≡ false
    → amb.audit_log ≡ some log
    → (exc : Exception) × (entry : DestructiveApprovalAudit) × (exc
        ≡ raised permission_error denial)
      × (entry.approved ≡ false)
      × (entry.action_id ≡ "host_override_preflight")
      × (entry.token_used ≡ none)
      × (run rt e amb ≡ (
        raise_exception exc,
        record {
          context = amb.context;
          audit_log = some (add_destructive_approval entry log);
          world = (e.now amb.world).1;
        },
      ))
unfolding run run_valid enforce_host_override_gate record_approval outcome read_clock
run-denied rt e amb log valid mode required wrong audited =
    rw (valid, mode, required, wrong, audited)
      (
        raised permission_error denial,
        record {
          action_id = "host_override_preflight";
          approved = false;
          approved_by = "engine_preflight";
          token_used = none;
          flag_used = some "allow_host_override";
          details = approval_details rt e false amb.context;
          approved_at = (e.now amb.world).0;
        },
        refl,
        refl,
        refl,
        refl,
        refl,
      )
