-- ===== src/Core/Engine/Execute.antt =====
-- The engine's state, its events, and `_execute_one`: one action, with its attempts.
pub mod Attempts
pub mod Success
use hermes_vps.Prelude.{
  ℕ, zero, suc, ◌+◌, Bool, true, false, not, String, Option, none, some, List, [], ◌∷◌, ◌==◌, leb,
  if◌then◌else◌,
}
use hermes_vps.Prelude.Flow.{Result, ok, raise, and_then, Flow, pure, lift, ◌>>=◌, ◌>>◌}
use hermes_vps.Value
use hermes_vps.Value.{Value, Fields, bool, int, str, dict, end, field, truthy}
use hermes_vps.Core.Interfaces.{
  RunnerMode, direnv_nix, nix_develop, docker_nix, host, RunResult, Exception, Argument, message,
  run_result, is_command_failed,
}
use hermes_vps.Core.Session.{SessionAuditLog}
use hermes_vps.Core.Actions.{
  ActionStatus, running, succeeded, failed, skipped, RetryPolicyKind, ActionDescriptor,
  ActionRuntimeState, ActionEvent, ActionGraph, at_least_one,
}
use hermes_vps.Core.Actions.Outcome.{Runtime, redact_text, normalize_action_result}

abbrev pub mode_name : RunnerMode → String
mode_name direnv_nix = "direnv_nix"
mode_name nix_develop = "nix_develop"
mode_name docker_nix = "docker_nix"
mode_name host = "host"

abbrev pub Sink : Type 0 → Type 0
Sink W = ActionEvent → W → Option Exception × W

abbrev sent : Option Exception → Result Exception (Unit {0})
sent none = ok tt
sent (some exc) = raise exc

-- `handler.run` gets the action and the context, which it may change; a raise is a result here.
-- An event sink may raise too.
pub record Engine (W : Type 0) : Type 0 where
  pub graph : ActionGraph
  pub mode : RunnerMode
  pub handler : ActionDescriptor → Fields → W → Result Exception Fields × Fields × W
  pub event_sink : Option (Sink W)
  pub now : W → ℕ × W
  pub require_host_override_token : Bool
  pub host_override_token : Option String

-- What a run changes beside the states of its actions.
pub record Ambient (W : Type 0) : Type 0 where
  pub context : Fields
  pub audit_log : Option SessionAuditLog
  pub world : W

abbrev pub Eng : Type 0 → Type 0 → Type 0
Eng W A = Flow (Ambient W) Exception A

-- `result["redactions"]["applied"]`, where these are dicts
abbrev applied_in : Option Value → Bool
applied_in (some (dict r)) = truthy (Value.get_or "applied" (bool true) r)
applied_in _ = true

abbrev redactions_of : Option Value → Bool
redactions_of (some (dict d)) = applied_in (Value.get "redactions" d)
redactions_of _ = true

-- The loop of `_execute_one` returns, or runs to its end with the last exception.
pub data Attempted : Type 0 where
  returned : ActionRuntimeState → Attempted
  gave_up : ActionRuntimeState → Option Exception → Attempted

-- What a `try` body left: the exception, if one was raised, and the state it changed.
abbrev pub Tried : Type 0
Tried = Option Exception × ActionRuntimeState

abbrev result_fields : RunResult → Fields
result_fields r = field "kind" (str "command") (
    field "ok" (bool false) (
      field "exit_code" (int r.exit_code) (
        field "stdout" (str r.stdout) (
          field "stderr" (str r.stderr) (
            field "output_truncated" (bool r.output_truncated) (
              field "runner_mode" (str (mode_name r.runner_mode))
                (field "redactions_applied" (bool r.redactions_applied) end)))))))

abbrev is_no_retry : RetryPolicyKind → Bool
is_no_retry RetryPolicyKind.none = true
is_no_retry _ = false

abbrev error_of : Result Exception (Unit {0}) → Option Exception
error_of (ok _) = none
error_of (raise exc) = some exc

-- `_can_retry`
unfoldable pub can_retry : ActionDescriptor → ℕ → Bool
can_retry action attempts =
    if leb (at_least_one action.retry_policy.max_attempts) attempts
    then false
    else not (is_no_retry action.retry_policy.kind)

abbrev or_empty : Option Fields → Fields
or_empty none = end
or_empty (some d) = d

abbrev or_blank : Option String → String
or_blank none = ""
or_blank (some s) = s

abbrev keep_result : Option Fields → ActionRuntimeState → ActionRuntimeState
keep_result none st = st
keep_result (some d) st = record st { result = some d }

module _ {W : Type 0} (rt : Runtime) (e : Engine W) where
  unfoldable pub read_clock : Eng W ℕ
  read_clock amb = let (t, w) = e.now amb.world in (ok t, record amb { world = w })

  send : Sink W → ActionEvent → Eng W (Unit {0})
  send sink event amb =
      let (failure, w) = sink event amb.world in (sent failure, record amb { world = w })

  event_at : ActionDescriptor → ActionStatus → String → Fields → ℕ → ActionEvent
  unfolding Value.get Value.get_or
  event_at action status text details t = record {
    action_id = action.action_id;
    status = status;
    at = t;
    message = text;
    details = details;
    action_label = some action.label;
    runner_mode = some (mode_name e.mode);
    redactions_applied = redactions_of (Value.get "result" details);
  }

  emit_to : Option (Sink W) → ActionDescriptor → ActionStatus → String → Fields → Eng W (Unit {0})
  unfolding read_clock send event_at
  emit_to none action status text details = pure tt
  emit_to (some sink) action status text details = do
    t ← read_clock
    send sink (event_at action status text details t)

  -- `_emit`. Without a sink the clock is not read.
  emit : ActionDescriptor → ActionStatus → String → Fields → Eng W (Unit {0})
  unfolding emit_to
  emit action status text details = emit_to e.event_sink action status text details

  first_message : Exception → List Argument → String
  first_message exc (message m ∷ _) = if m == "" then exc.text else m
  first_message exc _ = exc.text

  -- `_exception_message`
  unfoldable pub exception_message : Exception → String
  unfolding first_message
  exception_message exc =
      redact_text rt (if is_command_failed exc.class then first_message exc exc.args else exc.text)

  -- The loop over `exc.args`: the first that looks like a run result.
  result_from_args : List Argument → Result Exception (Option Fields)
  result_from_args [] = ok none
  result_from_args (run_result r ∷ _) =
      and_then (normalize_action_result rt (result_fields r)) (λ d. ok (some d))
  result_from_args (_ ∷ args) = result_from_args args

  -- `_result_from_exception`
  unfoldable pub result_from_exception : Exception → Result Exception (Option Fields)
  unfolding result_from_args
  result_from_exception exc =
      if is_command_failed exc.class then result_from_args exc.args else ok none

  -- The `try` body behind the handler's call. An exception of the last `_emit` is caught like the
  -- handler's, with the state already changed.
  tried_normal :
      ActionDescriptor
      → ActionRuntimeState
      → Result Exception Fields
      → Ambient W
      → Tried × Ambient W
  unfolding emit
  tried_normal action st (raise exc) amb = ((some exc, st), amb)
  tried_normal action st (ok d) amb =
      let (t, w) = e.now amb.world in
      let st' = record st {
        status = succeeded;
        finished_at = some t;
        last_error = none;
        result = some d;
      } in
      let (reply, after) =
        emit action succeeded "action succeeded" (field "result" (dict d) end)
          (record amb { world = w }) in
      ((error_of reply, st'), after)

  tried_result :
      ActionDescriptor
      → ActionRuntimeState
      → Result Exception Fields
      → Ambient W
      → Tried × Ambient W
  unfolding tried_normal
  tried_result action st (raise exc) amb = ((some exc, st), amb)
  tried_result action st (ok raw) amb = tried_normal action st (normalize_action_result rt raw) amb

  try_once : ActionDescriptor → ActionRuntimeState → Ambient W → Tried × Ambient W
  unfolding tried_result
  try_once action st amb =
      let (r, context', w) = e.handler action amb.context amb.world in
      tried_result action st r (record amb { context = context'; world = w })

  -- The `except` branch, up to the test for a retry.
  note_failure : Exception → ActionRuntimeState → Eng W ActionRuntimeState
  note_failure exc st = do
    found ← lift (result_from_exception exc)
    pure (keep_result found (record st { last_error = some (exception_message exc) }))

  -- if not self._can_retry(...): break
  retry_or_stop :
      Bool
      → (ActionRuntimeState → Exception → Eng W Attempted)
      → Exception
      → ActionRuntimeState
      → Eng W Attempted
  retry_or_stop true again exc st = again st exc
  retry_or_stop false again exc st = pure (gave_up st (some exc))

  -- What follows one try: the return, the next round, or the `break`.
  after_try : Bool → (ActionRuntimeState → Exception → Eng W Attempted) → Tried → Eng W Attempted
  unfolding note_failure retry_or_stop
  after_try retry again (none, st) = pure (returned st)
  after_try retry again (some exc, st) = note_failure exc st >>= retry_or_stop retry again exc

  -- `while attempts < max_attempts`: `left` is the difference.
  attempt_loop : ActionDescriptor → ℕ → ℕ → ActionRuntimeState → Option Exception → Eng W Attempted
  unfolding try_once after_try
  attempt_loop action zero attempts st last_error amb = (ok (gave_up st last_error), amb)
  attempt_loop action (suc left) attempts st last_error amb =
      let (tried, after) = try_once action (record st { attempts = attempts + 1 }) amb in
      after_try (can_retry action (attempts + 1))
        (λ st' exc. attempt_loop action left (attempts + 1) st' (some exc)) tried after

  abbrev final_error : Option Exception → ActionRuntimeState → Option String
  final_error none st = st.last_error
  final_error (some exc) st = some (exception_message exc)

  -- if action.allow_failure: ...
  tolerate : ActionDescriptor → Bool → ActionRuntimeState → Eng W ActionRuntimeState
  unfolding emit
  tolerate action true st = do
    emit action skipped "failure tolerated by allow_failure" end
    pure (record st { status = skipped })
  tolerate action false st = pure st

  failed_state : ActionRuntimeState → Option Exception → ℕ → ActionRuntimeState
  failed_state st last_error t = record st {
    status = failed;
    finished_at = some t;
    last_error = final_error last_error st;
  }

  failure_details : ActionRuntimeState → Fields
  failure_details st =
      field "error" (str (or_blank st.last_error)) (field "result" (dict (or_empty st.result)) end)

  report_failure : ActionDescriptor → ActionRuntimeState → Eng W ActionRuntimeState
  unfolding emit tolerate failure_details
  report_failure action st = do
    emit action failed "action failed" (failure_details st)
    tolerate action action.allow_failure st

  -- What follows the loop.
  finish : ActionDescriptor → Attempted → Eng W ActionRuntimeState
  unfolding report_failure failed_state read_clock
  finish action (returned st) = pure st
  finish action (gave_up st last_error) = do
    t ← read_clock
    report_failure action (failed_state st last_error t)

  -- What follows the first reading of the clock.
  start : ActionDescriptor → ActionRuntimeState → Eng W ActionRuntimeState
  unfolding attempt_loop finish emit
  start action st = do
    emit action running "action started" end
    attempted ← attempt_loop action (at_least_one action.retry_policy.max_attempts) 0 st none
    finish action attempted

  -- `_execute_one`, from the action's state to its state after.
  unfoldable pub execute_one : ActionDescriptor → ActionRuntimeState → Eng W ActionRuntimeState
  unfolding start read_clock
  execute_one action st = do
    t ← read_clock
    start action (record st { status = running; started_at = some t })
