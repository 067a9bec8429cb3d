-- ===== src/App/Errors/Codes.antt =====
-- Exit codes of failures.
use hermes_vps.Prelude.{
  ◌≡◌, refl, sym, ◌∙◌, ap, Bool, true, false, ◌||◌, String, Option, none, some, [], ◌∷◌, ◌==◌,
  arith, if◌then◌else◌, Bool-cases, Option-cases, inl, inr, is_some, ◌≤◌, elem, elem-tail, eq_iff,
}
use hermes_vps.Prelude.Dict.{lookup, keys, elem-keys}
use hermes_vps.Prelude.Flow.{ok}
use hermes_vps.Text.{◌<>◌, mentions}
use hermes_vps.Core.Interfaces.{
  ExceptionClass, runner_unavailable, runner_detection_error, command_not_found, command_failed,
  command_timeout, output_limit_exceeded, redaction_error, permission_error, value_error, Exception,
}
use hermes_vps.Core.Actions.{ActionGraph, ActionDescriptor, ActionRuntimeState}
use hermes_vps.Core.Actions.Ready.{States}
use hermes_vps.Core.Engine.{EngineResult}
use hermes_vps.App.Errors.{
  ErrorCategory, success, usage_config_error, preflight_failure, no_runner, command_failure,
  timed_out, destructive_approval_denied, host_override_denied, output_limit, bad_redaction,
  internal_error, exit_code, CliError, category_of_class, category_from_exception,
  category_from_message, or_text, is_error, first_error, at_action, failure_at, failure_of,
  graph_failure_from_result,
}

abbrev pub Failing : ErrorCategory → Type 0
Failing c = 1 ≤ exit_code c

category_of_class-Failing : (k : ExceptionClass) (m : String) → Failing (category_of_class k m)
unfolding category_of_class
category_of_class-Failing permission_error m =
    elim (Bool-cases (mentions "destructive approval" m)) [
      | inl e ↦ rw e (omega arith)
      | inr e ↦ rw e (omega arith)
    ]
category_of_class-Failing value_error m =
    elim (Bool-cases (mentions "provider must be" m || mentions "unsupported action" m)) [
      | inl e ↦ rw e (omega arith)
      | inr e ↦ rw e (omega arith)
    ]
category_of_class-Failing runner_detection_error m = omega arith
category_of_class-Failing runner_unavailable m = omega arith
category_of_class-Failing command_not_found m = omega arith
category_of_class-Failing command_timeout m = omega arith
category_of_class-Failing output_limit_exceeded m = omega arith
category_of_class-Failing redaction_error m = omega arith
category_of_class-Failing command_failed m = omega arith
category_of_class-Failing _ m = omega arith

if-Failing : (b : Bool) (c d : ErrorCategory) → Failing c → Failing d → Failing (if b then c else d)
if-Failing true c d h k = h
if-Failing false c d h k = k

pub category_from_exception-Failing : (exc : Exception) → Failing (category_from_exception exc)
unfolding category_from_exception
category_from_exception-Failing exc = ground (arith, category_of_class-Failing exc.class exc.text)

category_from_message-Failing : (m : String) → Failing (category_from_message m)
unfolding category_from_message
category_from_message-Failing m = ground arith

at_action-Failing : (id : String) (c : ErrorCategory) → Failing c → Failing (at_action id c)
at_action-Failing id internal_error h =
    if-Failing (id == "") internal_error command_failure (omega arith) (omega arith)
at_action-Failing id success h = h
at_action-Failing id usage_config_error h = h
at_action-Failing id preflight_failure h = h
at_action-Failing id no_runner h = h
at_action-Failing id command_failure h = h
at_action-Failing id timed_out h = h
at_action-Failing id destructive_approval_denied h = h
at_action-Failing id host_override_denied h = h
at_action-Failing id output_limit h = h
at_action-Failing id bad_redaction h = h

name_in : String → Option (String × ActionRuntimeState) → String
name_in default none = default
name_in default (some (id, st)) = id

first_error-key :
    (states : States) (id : String) (st : ActionRuntimeState)
    → first_error states ≡ some (id, st)
    → elem id (keys states) ≡ true
unfolding first_error keys elem name_in
first_error-key [] id st e = cc
first_error-key ((j, w) ∷ states) id st e = elim (Bool-cases (is_error w.last_error)) [
  | inl found ↦ ground (arith, eq_iff j id, first_is e found)
  | inr later ↦ elem-tail id j (keys states) (first_error-key states id st (rest_is e later))
]
  where
    picked : Bool → Option (String × ActionRuntimeState)
    picked b = if b then some (j, w) else first_error states

    first_is :
        picked (is_error w.last_error) ≡ some (id, st) → is_error w.last_error ≡ true → j ≡ id
    first_is e p = ap (name_in j) (sym (ap picked p) ∙ e)

    rest_is :
        picked (is_error w.last_error) ≡ some (id, st)
        → is_error w.last_error ≡ false
        → first_error states ≡ some (id, st)
    rest_is e p = sym (ap picked p) ∙ e

failure_at-Failing :
    (workflow : String) (result : EngineResult) (id : String) (st : ActionRuntimeState)
    (a : ActionDescriptor)
    → Failing (failure_at workflow result id st a).category
unfolding failure_at
failure_at-Failing workflow result id st a =
    at_action-Failing id
      (category_from_message (or_text st.last_error (workflow <> " graph failed")))
      (category_from_message-Failing (or_text st.last_error (workflow <> " graph failed")))

-- A failed run whose states have the keys of its graph is reported, not crashed on, and never
-- with the exit code of success.
pub graph_failure_from_result-Failing :
    (workflow : String) (graph : ActionGraph) (result : EngineResult)
    → keys result.states ≡ keys graph.actions
    → (err : CliError) × (graph_failure_from_result workflow graph result ≡ ok err)
      × Failing err.category
unfolding graph_failure_from_result
graph_failure_from_result-Failing workflow graph result h =
    go (first_error result.states) (λ id st e. h2 id (first_error-key result.states id st e))
  where
    h2 :
        (id : String)
        → elem id (keys result.states) ≡ true
        → is_some (lookup id graph.actions) ≡ true
    h2 id m = cc (elem-keys id graph.actions, m, h)

    go :
        (o : Option (String × ActionRuntimeState))
        → ((id : String) (st : ActionRuntimeState)
            → o ≡ some (id, st)
            → is_some (lookup id graph.actions) ≡ true)
        → (err : CliError) × (failure_of workflow graph result o ≡ ok err) × Failing err.category
    go none k = (_, unfold failure_of in refl, omega arith)
    go (some (id, st)) k = elim (Option-cases (lookup id graph.actions)) [
      | inl absent ↦ absurd (cc (k id st refl, absent))
      | inr (a, found) ↦
          rw (found, failure_of)
            (failure_at workflow result id st a, refl, failure_at-Failing workflow result id st a)
    ]
