-- ===== src/Core/Engine/Execute/Success.antt =====
-- `_execute_one` where nothing goes wrong.
use hermes_vps.Prelude.{ℕ, zero, suc, ◌+◌, ◌≡◌, refl, String, Option, none, some, ◌≤◌, arith, Bool}
use hermes_vps.Prelude.Flow.{Result, ok, Holds, Ensures, Ensures-pure, Ensures-bind, Ensures-then}
use hermes_vps.Value.{ℤ, pos, negsuc, Fields, end}
use hermes_vps.Core.Interfaces.{Exception}
use hermes_vps.Core.Actions.{
  ActionStatus, running, succeeded, ActionDescriptor, ActionRuntimeState, ActionEvent, at_least_one,
}
use hermes_vps.Core.Actions.Outcome.{Runtime, normalize_action_result}
use hermes_vps.Core.Engine.Execute.{
  Engine, Sink, Ambient, Eng, Attempted, returned, Tried, can_retry, read_clock, event_at, emit_to,
  emit, tried_result, try_once, after_try, gave_up, attempt_loop, finish, start, execute_one,
}

-- The handler always returns what can be normalized, and the event sink never raises.
pub record Reliable {W : Type 0} (rt : Runtime) (e : Engine W) : Type 0 where
  pub handler_returns :
      (a : ActionDescriptor) (context : Fields) (w : W)
      → (raw : Fields) × (d : Fields) × ((e.handler a context w).0 ≡ ok raw)
        × (normalize_action_result rt raw ≡ ok d)
  pub sink_accepts :
      (sink : Sink W)
      → e.event_sink ≡ some sink
      → (event : ActionEvent) (w : W) → (sink event w).0 ≡ none

abbrev pub NoError : Exception → Type 0
NoError exc = ⊥

module _ {W : Type 0} (rt : Runtime) (e : Engine W) (reliable : Reliable rt e) where
  emit_to-ok :
      (o : Option (Sink W)) (a : ActionDescriptor) (s : ActionStatus) (text : String) (d : Fields)
      → e.event_sink ≡ o
      → (amb : Ambient W) → (emit_to rt e o a s text d amb).0 ≡ ok tt
  unfolding emit_to
  emit_to-ok none a s text d q amb = refl
  emit_to-ok (some sink) a s text d q amb =
      let (t, w) = e.now amb.world in
      rw (reliable.sink_accepts sink q (event_at rt e a s text d t) w) refl

  emit-ok :
      (a : ActionDescriptor) (s : ActionStatus) (text : String) (d : Fields) (amb : Ambient W)
      → (emit rt e a s text d amb).0 ≡ ok tt
  unfolding emit
  emit-ok a s text d amb = emit_to-ok e.event_sink a s text d refl amb

  emit-NoError :
      (a : ActionDescriptor) (s : ActionStatus) (text : String) (d : Fields)
      → Ensures (λ u. Unit) NoError (emit rt e a s text d)
  emit-NoError a s text d = record { run = λ amb. rw (emit-ok a s text d amb) tt }

  abbrev Done : Tried → Type 0
  Done t = (t.0 ≡ none) × (t.1.status ≡ succeeded)

  try_once-Done :
      (a : ActionDescriptor) (st : ActionRuntimeState) (amb : Ambient W)
      → Done (try_once rt e a st amb).0
  unfolding try_once
  try_once-Done a st amb =
      let (raw, d, h, n) = reliable.handler_returns a amb.context amb.world in
      let (r, context', w) = e.handler a amb.context amb.world in
      go raw d r n h (record amb { context = context'; world = w })
    where
      go :
          (raw d : Fields) (r : Result Exception Fields)
          → normalize_action_result rt raw ≡ ok d
          → r ≡ ok raw
          → (after : Ambient W) → Done (tried_result rt e a st r after).0
      go raw d r n h after = rw (h, n) (rw emit-ok refl, refl)

  abbrev Returned : Attempted → Type 0
  Returned (returned st) = st.status ≡ succeeded
  Returned _ = ⊥

  attempt_loop-Returned :
      (a : ActionDescriptor) (left attempts : ℕ) (st : ActionRuntimeState) (last : Option Exception)
      → 1 ≤ left
      → Ensures Returned NoError (attempt_loop rt e a left attempts st last)
  unfolding attempt_loop
  attempt_loop-Returned a zero attempts st last h = absurd (omega arith)
  attempt_loop-Returned a (suc left) attempts st last h = record {
    run = λ amb.
        let st1 = record st { attempts = attempts + 1 } in
        let (tried, after) = try_once rt e a st1 amb in
        go (can_retry a (attempts + 1))
          (λ st' exc. attempt_loop rt e a left (attempts + 1) st' (some exc)) tried after
          (try_once-Done a st1 amb);
  }
    where
      go :
          (retry : Bool) (again : ActionRuntimeState → Exception → Eng W Attempted) (t : Tried)
          (after : Ambient W)
          → Done t
          → Holds Returned NoError (after_try rt e retry again t after).0
      go retry again (none, st') after d = d.1
      go retry again (some exc, st') after d = absurd (cc (d.0))

  start-succeeded :
      (a : ActionDescriptor) (st : ActionRuntimeState)
      → Ensures (λ st'. st'.status ≡ succeeded) NoError (start rt e a st)
  unfolding start
  start-succeeded a st =
      Ensures-then (λ u. Unit) (λ st'. st'.status ≡ succeeded)
        (emit rt e a running "action started" end) _ (emit-NoError a running "action started" end)
        (Ensures-bind Returned (λ st'. st'.status ≡ succeeded) (attempt_loop rt e a limit 0 st none)
          (finish rt e a)
          (attempt_loop-Returned a limit 0 st none (limit_pos a.retry_policy.max_attempts)) ends)
    where
      limit : ℕ
      limit = at_least_one a.retry_policy.max_attempts

      limit_pos : (m : ℤ) → 1 ≤ at_least_one m
      limit_pos (pos n) = omega arith
      limit_pos (negsuc n) = omega arith

      ends :
          (r : Attempted)
          → Returned r
          → Ensures (λ st'. st'.status ≡ succeeded) NoError (finish rt e a r)
      ends (returned st') h = unfold finish in Ensures-pure st' h
      ends (gave_up st' exc) h = absurd h

  -- With a reliable handler and sink the first attempt succeeds, whatever the retry policy.
  pub execute_one-succeeded :
      (a : ActionDescriptor) (st : ActionRuntimeState)
      → Ensures (λ st'. st'.status ≡ succeeded) NoError (execute_one rt e a st)
  unfolding execute_one
  execute_one-succeeded a st =
      Ensures-bind (λ t. Unit) (λ st'. st'.status ≡ succeeded) (read_clock rt e)
        (λ t. start rt e a (record st { status = running; started_at = some t }))
        (record { run = λ amb. tt })
        (λ t _. start-succeeded a (record st { status = running; started_at = some t }))
