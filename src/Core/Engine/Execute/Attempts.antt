-- ===== src/Core/Engine/Execute/Attempts.antt =====
-- What `_execute_one` leaves: the final statuses and the number of attempts.
use hermes_vps.Prelude.{
  ℕ, zero, suc, ◌+◌, ◌≤◌, ◌≡◌, refl, Bool, true, false, Option, none, some, arith, inl, inr, ◌⊎◌,
}
use hermes_vps.Prelude.Flow.{
  Result, ok, raise, pure, lift, ◌>>=◌, Holds, Ensures, Ensures-pure, Ensures-bind, Ensures-then,
}
use hermes_vps.Value.{ℤ, pos, negsuc, Fields, end}
use hermes_vps.Core.Interfaces.{Exception}
use hermes_vps.Core.Actions.{
  running, succeeded, failed, skipped, ActionDescriptor, ActionRuntimeState, at_least_one,
}
use hermes_vps.Core.Actions.Outcome.{Runtime, normalize_action_result}
use hermes_vps.Core.Engine.Execute.{
  Engine, Ambient, Eng, keep_result, exception_message, Attempted, returned, gave_up, Tried,
  can_retry, read_clock, emit, result_from_exception, tried_normal, tried_result, try_once,
  note_failure, retry_or_stop, tolerate, after_try, attempt_loop, start, report_failure,
  failed_state, failure_details, finish, execute_one,
}

-- The state of an action after `_execute_one`.
pub record Executed (a : ActionDescriptor) (st : ActionRuntimeState) : Type 0 where
  pub ending :
      (st.status ≡ succeeded)
      ⊎ ((st.status ≡ failed) × (a.allow_failure ≡ false))
      ⊎ ((st.status ≡ skipped) × (a.allow_failure ≡ true))
  pub at_least : 1 ≤ st.attempts
  pub at_most : st.attempts ≤ at_least_one a.retry_policy.max_attempts

abbrev pub AnyError : Exception → Type 0
AnyError exc = Unit

-- A `try` body that raised nothing has succeeded; none changes the count.
abbrev Fair : ActionRuntimeState → Tried → Type 0
Fair st tried = (tried.1.attempts ≡ st.attempts) × (tried.0 ≡ none → tried.1.status ≡ succeeded)

abbrev Within : ℕ → ActionRuntimeState → Type 0
Within limit st = (1 ≤ st.attempts) × (st.attempts ≤ limit)

abbrev Fitting : ℕ → Attempted → Type 0
Fitting limit (returned st) = (st.status ≡ succeeded) × Within limit st
Fitting limit (gave_up st exc) = Within limit st

module _ {W : Type 0} (rt : Runtime) (e : Engine W) where
  tried_normal-Fair :
      (a : ActionDescriptor) (st : ActionRuntimeState) (r : Result Exception Fields)
      (amb : Ambient W)
      → Fair st (tried_normal rt e a st r amb).0
  unfolding tried_normal
  tried_normal-Fair a st (raise exc) amb = (refl, λ p. cc)
  tried_normal-Fair a st (ok d) amb = (refl, λ p. refl)

  try_once-Fair :
      (a : ActionDescriptor) (st : ActionRuntimeState) (amb : Ambient W)
      → Fair st (try_once rt e a st amb).0
  unfolding try_once
  try_once-Fair a st amb =
      let (r, context', w) = e.handler a amb.context amb.world in
      go r (record amb { context = context'; world = w })
    where
      go :
          (r : Result Exception Fields) (after : Ambient W)
          → Fair st (tried_result rt e a st r after).0
      go (raise exc) after = (refl, λ p. cc)
      go (ok raw) after = tried_normal-Fair a st (normalize_action_result rt raw) after

  note_failure-attempts :
      (exc : Exception) (st : ActionRuntimeState)
      → Ensures (λ st'. st'.attempts ≡ st.attempts) AnyError (note_failure rt e exc st)
  unfolding note_failure
  note_failure-attempts exc st = record { run = λ amb. go (result_from_exception rt e exc) amb }
    where
      go :
          (r : Result Exception (Option Fields)) (amb : Ambient W)
          → Holds
              (λ st'. st'.attempts ≡ st.attempts)
              AnyError
              ((lift r >>= λ found. pure (
                  keep_result found (record st { last_error = some (exception_message rt e exc) })))
                amb).0
      go (ok none) amb = refl
      go (ok (some d)) amb = refl
      go (raise x) amb = tt

  after_try-Fitting :
      (limit : ℕ) (retry : Bool) (again : ActionRuntimeState → Exception → Eng W Attempted)
      (st : ActionRuntimeState) (t : Tried)
      → Within limit st
      → Fair st t
      → ((st' : ActionRuntimeState) (exc : Exception)
          → st'.attempts ≡ st.attempts
          → Ensures (Fitting limit) AnyError (again st' exc))
      → Ensures (Fitting limit) AnyError (after_try rt e retry again t)
  unfolding after_try
  after_try-Fitting limit retry again st (none, st') w f h =
      Ensures-pure (returned st') (f.1 refl, (omega arith, omega arith))
  after_try-Fitting limit retry again st (some exc, st') w f h =
      Ensures-bind (λ s. s.attempts ≡ st'.attempts) (Fitting limit) (note_failure rt e exc st') _
        (note_failure-attempts exc st') (λ s q. choose retry s (omega arith))
    where
      choose :
          (b : Bool) (s : ActionRuntimeState)
          → s.attempts ≡ st.attempts
          → Ensures (Fitting limit) AnyError (retry_or_stop rt e b again exc s)
      choose true s q = h s exc q
      choose false s q = Ensures-pure (gave_up s (some exc)) (omega arith, omega arith)

  attempt_loop-Fitting :
      (a : ActionDescriptor) (limit left attempts : ℕ) (st : ActionRuntimeState)
      (last : Option Exception)
      → attempts + left ≤ limit
      → 1 ≤ attempts + left
      → (1 ≤ attempts → st.attempts ≡ attempts)
      → Ensures (Fitting limit) AnyError (attempt_loop rt e a left attempts st last)
  unfolding attempt_loop
  attempt_loop-Fitting a limit zero attempts st last h k p = record {
    run = λ amb. omega (arith, p);
  }
  attempt_loop-Fitting a limit (suc left) attempts st last h k p = record {
    run = λ amb.
        let st1 = record st { attempts = attempts + 1 } in
        let (tried, after) = try_once rt e a st1 amb in
        (after_try-Fitting limit (can_retry a (attempts + 1))
            (λ st' exc. attempt_loop rt e a left (attempts + 1) st' (some exc)) st1 tried
            (omega arith, omega arith) (try_once-Fair a st1 amb)
            (λ st' exc q.
              attempt_loop-Fitting a limit left (attempts + 1) st' (some exc) (omega arith)
                (omega arith) (λ _. q))).run
          after;
  }

  any_run : {A : Type 0} (P : A → Type 0) (m : Eng W A) → ((x : A) → P x) → Ensures P AnyError m
  any_run {A} P m h = record { run = λ amb. go (m amb).0 }
    where
      go : (r : Result Exception A) → Holds P AnyError r
      go (ok x) = h x
      go (raise exc) = tt

  tolerate-Executed :
      (a : ActionDescriptor) (b : Bool) (st : ActionRuntimeState)
      → a.allow_failure ≡ b
      → st.status ≡ failed
      → Within (at_least_one a.retry_policy.max_attempts) st
      → Ensures (Executed a) AnyError (tolerate rt e a b st)
  unfolding tolerate
  tolerate-Executed a true st q f h =
      Ensures-then (λ u. Unit) (Executed a) (emit rt e a skipped _ end) _
        (any_run (λ u. Unit) _ (λ u. tt))
        (Ensures-pure _ (record { ending = inr (inr (refl, q)); at_least = h.0; at_most = h.1 }))
  tolerate-Executed a false st q f h =
      Ensures-pure st (record { ending = inr (inl (f, q)); at_least = h.0; at_most = h.1 })

  report_failure-Executed :
      (a : ActionDescriptor) (st : ActionRuntimeState)
      → st.status ≡ failed
      → Within (at_least_one a.retry_policy.max_attempts) st
      → Ensures (Executed a) AnyError (report_failure rt e a st)
  unfolding report_failure
  report_failure-Executed a st f h =
      Ensures-then (λ u. Unit) (Executed a)
        (emit rt e a failed "action failed" (failure_details rt e st))
        (tolerate rt e a a.allow_failure st) (any_run (λ u. Unit) _ (λ u. tt))
        (tolerate-Executed a a.allow_failure st refl f h)

  finish-Executed :
      (a : ActionDescriptor) (r : Attempted)
      → Fitting (at_least_one a.retry_policy.max_attempts) r
      → Ensures (Executed a) AnyError (finish rt e a r)
  unfolding finish
  finish-Executed a (returned st) h =
      Ensures-pure st (record { ending = inl h.0; at_least = h.1.0; at_most = h.1.1 })
  finish-Executed a (gave_up st exc) h =
      Ensures-bind (λ t. Unit) (Executed a) (read_clock rt e)
        (λ t. report_failure rt e a (failed_state rt e st exc t))
        (any_run (λ t. Unit) (read_clock rt e) (λ t. tt))
        (λ t _. report_failure-Executed a (failed_state rt e st exc t) refl h)

  start-Executed :
      (a : ActionDescriptor) (st : ActionRuntimeState)
      → Ensures (Executed a) AnyError (start rt e a st)
  unfolding start
  start-Executed a st =
      Ensures-then (λ u. Unit) (Executed a) (emit rt e a running "action started" end) _
        (any_run (λ u. Unit) _ (λ u. tt))
        (Ensures-bind (Fitting limit) (Executed a) (attempt_loop rt e a limit 0 st none)
          (finish rt e a)
          (attempt_loop-Fitting a limit limit 0 st none (omega arith)
            (limit_pos a.retry_policy.max_attempts) (λ p. absurd (omega arith)))
          (finish-Executed a))
    where
      limit : ℕ
      limit = at_least_one a.retry_policy.max_attempts

      limit_pos : (m : ℤ) → 1 ≤ 0 + at_least_one m
      limit_pos (pos n) = omega arith
      limit_pos (negsuc n) = omega arith

  -- What `_execute_one` leaves of an action, whatever its handler, the event sink and the retry
  -- policy do: unless an exception leaves `_execute_one`, the action has succeeded, failed, or
  -- (with allow_failure only) been skipped after a failure, and it was tried at least once and at
  -- most max(1, max_attempts) times.
  pub execute_one-Executed :
      (a : ActionDescriptor) (st : ActionRuntimeState)
      → Ensures (Executed a) AnyError (execute_one rt e a st)
  unfolding execute_one
  execute_one-Executed a st =
      Ensures-bind (λ t. Unit) (Executed a) (read_clock rt e)
        (λ t. start rt e a (record st { status = running; started_at = some t }))
        (any_run (λ t. Unit) (read_clock rt e) (λ t. tt))
        (λ t _. start-Executed a (record st { status = running; started_at = some t }))
