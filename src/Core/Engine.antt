-- ===== src/Core/Engine.antt =====
-- hermes_control_core/engine.py: `Engine.run`. The world that the handler, the event sink and the
-- clock read and change is a type `W`; the action context and the audit log are kept beside it.
pub mod Execute
pub mod Entries
pub mod Loop
pub mod Outcomes
pub mod Runs
pub mod Gates
use hermes_vps.Prelude.{
  ℕ, zero, suc, ◌+◌, ◌≡◌, Bool, true, false, not, ◌&&◌, ◌||◌, String, Option, none, some, List, [],
  ◌∷◌, ◌==◌, leb, all, any, length, if◌then◌else◌,
}
use hermes_vps.Prelude.Dict.{Dict, lookup, insert}
use hermes_vps.Prelude.Flow.{Result, ok, raise, and_then, Flow, pure, throw, lift, ◌>>=◌, ◌>>◌}
use hermes_vps.Value
use hermes_vps.Value.{Value, Fields, bool, str, dict, end, field, truthy, or_null}
use hermes_vps.Text.{strip}
use hermes_vps.Core.Interfaces.{
  RunnerMode, host, Exception, permission_error, runtime_error, key_error, ExceptionClass,
}
use hermes_vps.Core.Session.{SessionAuditLog, add_destructive_approval}
use hermes_vps.Core.Actions.{
  ActionStatus, blocked, skipped, failed, succeeded, cancelled, running, ActionDescriptor,
  ActionRuntimeState, ActionGraph, is_open,
}
use hermes_vps.Core.Actions.Policy.{InvalidGraph, validate}
use hermes_vps.Core.Actions.Ready.{States, initial_states, ready_from}
use hermes_vps.Core.Actions.Outcome.{Runtime, text_of, or_else}
use hermes_vps.Core.Engine.Execute.{Engine, Ambient, Eng, read_clock, execute_one}

abbrev pub raised : ExceptionClass → String → Exception
raised class text = record { class = class; args = []; text = text; selection = none }

abbrev pub is_running : ActionStatus → Bool
is_running running = true
is_running _ = false

abbrev pub is_failed : ActionStatus → Bool
is_failed failed = true
is_failed _ = false

abbrev pub is_blocked : ActionStatus → Bool
is_blocked blocked = true
is_blocked _ = false

-- status in {SUCCEEDED, SKIPPED, CANCELLED}
abbrev pub is_settled : ActionStatus → Bool
is_settled succeeded = true
is_settled skipped = true
is_settled cancelled = true
is_settled _ = false

-- any(test(st.status) for st in states.values())
abbrev pub any_status : (ActionStatus → Bool) → States → Bool
any_status test states = any (λ s. test s.1.status) states

abbrev pub all_status : (ActionStatus → Bool) → States → Bool
all_status test states = all (λ s. test s.1.status) states

abbrev is_host : RunnerMode → Bool
is_host host = true
is_host _ = false

abbrev or_blank : Option String → String
or_blank none = ""
or_blank (some s) = s

pub record EngineResult : Type 0 where
  pub graph_name : String
  pub states : States
  pub completed : Bool
  pub failed : Bool
  pub cancelled : Bool
  pub host_override : Option Fields
  pub generated_at : ℕ

-- The `for` loop over the ready actions ends, or returns at once on a failure.
pub data Round : Type 0 where
  next : States → Round
  stop : States → Round

-- How the `while` loop ends. `out_of_fuel` is the model's own.
pub data Ended : Type 0 where
  finished : States → Ended
  failed_fast : States → Ended
  out_of_fuel : Ended

pub data RunOutcome : Type 0 where
  invalid : InvalidGraph → RunOutcome
  raise_exception : Exception → RunOutcome
  result : EngineResult → RunOutcome
  no_fuel : RunOutcome

abbrev pub host_override_value : String
host_override_value = "I-ACK-HOST-OVERRIDE"

abbrev pub denial : String
denial =
    "Host override denied before engine execution: provide the audited host override token and non-secret override reason."

-- `_should_fail_fast`
unfoldable pub should_fail_fast : Dict ActionDescriptor → States → Result Exception Bool
should_fail_fast actions [] = ok false
should_fail_fast actions ((id, st) ∷ rest) =
    let later = should_fail_fast actions rest in
    if not (is_failed st.status) then later else (elim (lookup id actions) [
      | none ↦ raise (raised key_error id)
      | some descriptor ↦ if descriptor.allow_failure then later else ok true
    ])

-- The flags of a result that was not cut short.
abbrev pub completed_of : States → Bool
completed_of states =
    not (any_status is_failed states)
    && not (any_status is_blocked states)
    && all_status is_settled states

module _ {W : Type 0} (rt : Runtime) (e : Engine W) where
  end_round : Bool → (States → Eng W Round) → States → Eng W Round
  end_round true again states = pure (stop states)
  end_round false again states = again states

  -- if self._should_fail_fast(states): return ...
  check_round : (States → Eng W Round) → States → Eng W Round
  unfolding end_round should_fail_fast
  check_round again states = lift (should_fail_fast e.graph.actions states) >>= λ fail_fast.
      end_round fail_fast again states

  -- The `for` loop over the ready actions.
  run_ready : List ActionDescriptor → States → Eng W Round
  unfolding check_round
  run_ready [] states = pure (next states)
  run_ready (action ∷ actions) states = elim (lookup action.action_id states) [
    | none ↦ throw (raised key_error action.action_id)
    | some st ↦ elim (is_blocked st.status) [
      | true ↦ run_ready actions states
      | false ↦ execute_one rt e action st >>= λ st'.
          check_round (run_ready actions) (insert action.action_id st' states)
    ]
  ]

  after_round : (States → Eng W Ended) → Round → Eng W Ended
  after_round again (next states) = again states
  after_round again (stop states) = pure (failed_fast states)

  -- One turn of the `while` loop over unresolved states; `again` is the next turn.
  turn : (States → Eng W Ended) → List ActionDescriptor → States → Eng W Ended
  unfolding run_ready after_round
  turn again [] states = pure (finished states)
  turn again (a ∷ more) states = run_ready (a ∷ more) states >>= after_round again

  pub loop : ℕ → States → Eng W Ended
  unfolding turn ready_from
  loop zero states = pure out_of_fuel
  loop (suc fuel) states = elim (any_status is_running states) [
    | true ↦ throw (raised runtime_error "unexpected RUNNING state in synchronous engine")
    | false ↦ elim (any_status is_open states) [
      | false ↦ pure (finished states)
      | true ↦
          let (ready, after) = ready_from e.graph.actions states in turn (loop fuel) ready after
    ]
  ]

  -- str(self.context.get("override_reason") or "").strip()
  override_reason : Fields → String
  unfolding strip Value.get
  override_reason context =
      strip (text_of rt (or_else (or_null (Value.get "override_reason" context)) (str "")))

  unfoldable pub token_text : String
  unfolding strip
  token_text = strip (or_blank e.host_override_token)

  approval_details : Bool → Fields → Fields
  unfolding override_reason token_text Value.put
  approval_details approved context =
      let reason = override_reason context in
      let base =
        field "runner_mode" (str "host")
          (field "token_provided" (bool (not (token_text == ""))) end) in
      let named = if reason == "" then base else Value.put "override_reason" (str reason) base in
      if approved
      then named
      else Value.put "denial_reason" (str "missing_or_invalid_host_override_token") named

  -- `_record_host_override_approval`
  record_approval : Bool → Option SessionAuditLog → Eng W (Unit {0})
  unfolding read_clock approval_details add_destructive_approval
  record_approval approved none = pure tt
  record_approval approved (some log) = do
    t ← read_clock rt e
    λ amb. (
      ok tt,
      record amb {
        audit_log = some (
            add_destructive_approval
              (record {
                action_id = "host_override_preflight";
                approved = approved;
                approved_by = "engine_preflight";
                token_used = none;
                flag_used = some "allow_host_override";
                details = approval_details approved amb.context;
                approved_at = t;
              })
              log);
      },
    )

  -- `_enforce_host_override_gate`
  unfoldable pub enforce_host_override_gate : Eng W (Unit {0})
  unfolding record_approval token_text
  enforce_host_override_gate amb =
      (if not (is_host e.mode)
          then pure tt
          else if not e.require_host_override_token
          then record_approval true amb.audit_log
          else if token_text == host_override_value
          then record_approval true amb.audit_log
          else (do record_approval false amb.audit_log; throw (raised permission_error denial)))
        amb

  -- `_host_override_summary`
  host_override_summary : Fields → Option Fields
  unfolding override_reason Value.put
  host_override_summary context =
      let reason = override_reason context in
      let base = field "approved" (bool true) (field "runner_mode" (str "host") end) in
      if not (is_host e.mode)
      then none
      else some (if reason == "" then base else Value.put "override_reason" (str reason) base)

  result_of : States → Bool → Bool → Ambient W → EngineResult × Ambient W
  unfolding host_override_summary
  result_of states done lost amb =
      let (t, w) = e.now amb.world in
      (
        record {
          graph_name = e.graph.name;
          states = states;
          completed = done;
          failed = lost;
          cancelled = false;
          host_override = host_override_summary amb.context;
          generated_at = t;
        },
        record amb { world = w },
      )

  outcome : Result Exception Ended → Ambient W → RunOutcome × Ambient W
  unfolding result_of
  outcome (raise exc) amb = (raise_exception exc, amb)
  outcome (ok out_of_fuel) amb = (no_fuel, amb)
  outcome (ok (failed_fast states)) amb =
      let (r, after) = result_of states false true amb in (result r, after)
  outcome (ok (finished states)) amb =
      let (r, after) = result_of states (completed_of states) (any_status is_failed states) amb in
      (result r, after)

  abbrev pub fuel_of : ℕ
  fuel_of = suc (length e.graph.actions)

  -- What follows the validation.
  run_valid : Result InvalidGraph (Unit {0}) → Ambient W → RunOutcome × Ambient W
  unfolding outcome loop enforce_host_override_gate initial_states execute_one
  run_valid (raise err) amb = (invalid err, amb)
  run_valid (ok _) amb =
      let (r, after) =
        (do enforce_host_override_gate; loop fuel_of (initial_states e.graph.actions)) amb in
      outcome r after

  -- `Engine.run`. `initial_runtime_states` validates the same graph again, to the same effect.
  unfoldable pub run : Ambient W → RunOutcome × Ambient W
  unfolding run_valid validate
  run amb = run_valid (validate e.graph) amb
