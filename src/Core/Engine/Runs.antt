-- ===== src/Core/Engine/Runs.antt =====
-- `Engine.run` as a whole: what every run returns, and when a run completes.
use mathlib.Core.Path.{subst}
use hermes_vps.Prelude.{
  ℕ, zero, suc, ◌<◌, ◌≡◌, refl, sym, ◌∙◌, ◌≢◌, Bool, true, false, String, some, List, [], ◌∷◌,
  arith, inl, inr, all, elem, All, All-map, Option-cases,
}
use hermes_vps.Prelude.Dict.{NodupKeys, Dict, lookup, keys, All-lookup, elem-keys}
use hermes_vps.Prelude.Flow.{Result, ok, raise, Holds, Ensures, Ensures-map}
use hermes_vps.Core.Interfaces.{Exception}
use hermes_vps.Core.Actions.{
  ActionStatus, pending, running, ready, succeeded, failed, skipped, blocked, cancelled,
  ActionDescriptor, ActionRuntimeState, is_open,
}
use hermes_vps.Core.Actions.Validity.{IsValid, DepsKnown-IsClosed}
use hermes_vps.Core.Actions.Policy.{validate}
use hermes_vps.Core.Actions.Ready.{
  States, is_succeeded, is_lost, has_status, wait, run_now, readiness,
}
use hermes_vps.Core.Actions.Outcome.{Runtime}
use hermes_vps.Core.Actions.Frontier.{keys-NodupKeys, Calm, All-self, readiness_iff}
use hermes_vps.Core.Engine.{
  is_failed, any_status, is_settled, all_status, EngineResult, RunOutcome, invalid, raise_exception,
  result, no_fuel, enforce_host_override_gate, run,
}
use hermes_vps.Core.Engine.Execute.{Engine, Ambient, execute_one}
use hermes_vps.Core.Engine.Execute.Attempts.{Executed, AnyError, execute_one-Executed}
use hermes_vps.Core.Engine.Execute.Success.{Reliable, NoError, execute_one-succeeded}
use hermes_vps.Core.Engine.Entries.{Settled, EntryOk, StatesOk}
use hermes_vps.Core.Engine.Outcomes.{RunOk, validate-IsValid, run-RunOk}

abbrev pub AnyStatus : ActionStatus → Type 0
AnyStatus k = Unit

Holds-any : (r : Result Exception (Unit {0})) → Holds (λ _. Unit {0}) AnyError r
Holds-any (ok _) = tt
Holds-any (raise e) = tt

-- Every run ends: it refuses the graph, raises, or returns a result. A result has one state for
-- each action, in the graph's order; a state is pending and untried, or the action was executed
-- (between one and max(1, max_attempts) attempts; succeeded, skipped with allow_failure, or
-- failed without it) and all its dependencies have succeeded. The flags failed and completed say
-- whether some state is FAILED and whether all are settled, cancelled is never set, and if
-- nothing failed then no action is left that could start. The keys of the graph are distinct.
pub run-Report :
    {W : Type 0} (rt : Runtime) (e : Engine W) (amb : Ambient W)
    → NodupKeys e.graph.actions
    → RunOk e AnyStatus AnyError (run rt e amb).0
run-Report rt e amb distinct_keys =
    run-RunOk rt e AnyStatus AnyError tt both distinct_keys amb
      (Holds-any (enforce_host_override_gate rt e amb).0)
  where
    both :
        (a : ActionDescriptor) (st : ActionRuntimeState)
        → Ensures (λ st'. Executed a st' × Unit {0}) AnyError (execute_one rt e a st)
    both a st =
        Ensures-map (Executed a) (λ st'. Executed a st' × Unit {0}) AnyError (execute_one rt e a st)
          (λ st' x. (x, tt)) (execute_one-Executed rt e a st)

-- PENDING or SUCCEEDED
abbrev Undisturbed : ActionStatus → Type 0
Undisturbed pending = Unit
Undisturbed succeeded = Unit
Undisturbed _ = ⊥

abbrev AllSucceeded : Dict ActionDescriptor → States → Type 0
AllSucceeded actions states =
    All (λ n. has_status is_succeeded (lookup n states) ≡ true) (keys actions)

-- Every action has a state in order, and nothing is left to run.
module _ (actions : Dict ActionDescriptor) (valid : IsValid actions)
    (distinct_keys : NodupKeys actions) (states : States)
    (h : StatesOk Undisturbed actions false states) where
  calm : All Calm states
  calm =
      All-map (EntryOk Undisturbed actions false states) Calm states (λ s k. go s.1.status k.extra)
        h.entries
    where
      go : (k : ActionStatus) → Undisturbed k → is_lost k ≡ false
      go pending u = refl
      go succeeded u = refl
      go ready u = refl
      go running u = refl
      go blocked u = refl
      go skipped u = refl
      go failed u = absurd u
      go cancelled u = absurd u

  found_state :
      (n : String)
      → elem n (keys actions) ≡ true
      → (st : ActionRuntimeState) × (lookup n states ≡ some st)
  found_state n m = elim (Option-cases (lookup n states)) [
    | inr s ↦ s
    | inl absent ↦ absurd (cc (m, elem-keys n states, absent, h.same_keys))
  ]

  -- An unresolved action whose dependencies have all succeeded is not left waiting.
  waits_not_pending :
      (n : String) (a : ActionDescriptor) (st : ActionRuntimeState)
      → lookup n states ≡ some st
      → readiness a states (lookup n states) ≡ wait
      → all (λ d. has_status is_succeeded (lookup d states)) a.deps ≡ true
      → st.status ≢ pending
  waits_not_pending n a st found waits deps p = cc (waiting, starts)
    where
      waiting : readiness a states (some st) ≡ wait
      waiting = rw (sym found) waits

      starts : readiness a states (some st) ≡ run_now
      starts = readiness_iff states calm a st ∙ (rw (p, deps) refl)

  module _ (stuck : All (λ s. readiness s.1 states (lookup s.0 states) ≡ wait) actions) where
    Below : ℕ → Type 0
    Below bound =
        (d : String)
        → valid.2.0 d < bound
        → elem d (keys actions) ≡ true
        → has_status is_succeeded (lookup d states) ≡ true

    deps_succeed :
        (bound : ℕ) (ds : List String)
        → Below bound
        → All (λ d. elem d (keys actions) ≡ true) ds
        → All (λ d. valid.2.0 d < bound) ds
        → all (λ d. has_status is_succeeded (lookup d states)) ds ≡ true
    unfolding Below
    deps_succeed bound [] b k r = refl
    deps_succeed bound (d ∷ ds) b k r = rw (b d r.0 k.0, deps_succeed bound ds b k.1 r.1) refl

    succeeds_step :
        (n : String) (st : ActionRuntimeState)
        → lookup n states ≡ some st
        → Below (valid.2.0 n)
        → has_status is_succeeded (lookup n states) ≡ true
    succeeds_step n st found below = rw found (go st.status refl entry.extra)
      where
        entry : EntryOk Undisturbed actions false states (n, st)
        entry = All-lookup (EntryOk Undisturbed actions false states) n states h.entries found

        deps : all (λ d. has_status is_succeeded (lookup d states)) entry.action.deps ≡ true
        deps =
            deps_succeed (valid.2.0 n) entry.action.deps below
              (DepsKnown-IsClosed actions valid.1 n entry.action entry.listed)
              (valid.2.1 n entry.action entry.listed)

        waits : readiness entry.action states (lookup n states) ≡ wait
        waits =
            All-lookup (λ s. readiness s.1 states (lookup s.0 states) ≡ wait) n actions stuck
              entry.listed

        go : (k : ActionStatus) → st.status ≡ k → Undisturbed k → is_succeeded k ≡ true
        go succeeded p u = refl
        go pending p u = absurd (waits_not_pending n entry.action st found waits deps p)
        go ready p u = absurd u
        go running p u = absurd u
        go blocked p u = absurd u
        go skipped p u = absurd u
        go failed p u = absurd u
        go cancelled p u = absurd u

    succeeds : (bound : ℕ) → Below bound
    unfolding Below
    succeeds zero n l m = absurd (omega arith)
    succeeds (suc bound) n l m =
        let (st, found) = found_state n m in
        succeeds_step n st found (unfold Below in λ d r k. succeeds bound d (omega arith) k)

  succeeded_unless_open :
      (l : States)
      → All (EntryOk Undisturbed actions false states) l
      → any_status is_open l ≡ false
      → all_status is_succeeded l ≡ true
  succeeded_unless_open [] k o = refl
  succeeded_unless_open ((id, st) ∷ l) k o =
      rw (go st.status k.0.extra (ground arith), succeeded_unless_open l k.1 (ground arith)) refl
    where
      go : (k : ActionStatus) → Undisturbed k → is_open k ≡ false → is_succeeded k ≡ true
      go succeeded u o = refl
      go pending u o = cc
      go ready u o = absurd u
      go running u o = absurd u
      go blocked u o = absurd u
      go skipped u o = absurd u
      go failed u o = absurd u
      go cancelled u o = absurd u

  succeeded_if_stuck :
      All (λ s. readiness s.1 states (lookup s.0 states) ≡ wait) actions
      → (l : States) → All (λ s. lookup s.0 states ≡ some s.1) l
      → all_status is_succeeded l ≡ true
  succeeded_if_stuck stuck [] k = refl
  succeeded_if_stuck stuck ((id, st) ∷ l) k = rw (one, succeeded_if_stuck stuck l k.1) refl
    where
      member : elem id (keys actions) ≡ true
      member = cc (elem-keys id states, k.0, h.same_keys)

      one : is_succeeded st.status ≡ true
      one =
          subst (λ o. has_status is_succeeded o ≡ true) k.0
            (unfold Below in succeeds stuck (suc (valid.2.0 id)) id (omega arith) member)

  everything_succeeds : Settled actions states → all_status is_succeeded states ≡ true
  everything_succeeds (inl o) = succeeded_unless_open states h.entries o
  everything_succeeds (inr stuck) =
      succeeded_if_stuck stuck states
        (All-self states (keys-NodupKeys states actions h.same_keys distinct_keys))

succeeded-settled : (l : States) → all_status is_succeeded l ≡ true → all_status is_settled l ≡ true
succeeded-settled [] h = refl
succeeded-settled ((id, st) ∷ l) h =
    rw (go st.status (ground arith), succeeded-settled l (ground arith)) refl
  where
    go : (k : ActionStatus) → is_succeeded k ≡ true → is_settled k ≡ true
    go succeeded p = refl
    go _ p = cc

-- The run of a valid graph whose keys are distinct, where the host override gate passes, every
-- handler call returns a result that can be normalized, and the event sink never raises: it
-- returns a result in which every action of the graph has succeeded, completed is set and failed
-- is not.
pub run-completes :
    {W : Type 0} (rt : Runtime) (e : Engine W) (amb : Ambient W)
    → Reliable rt e
    → NodupKeys e.graph.actions
    → validate e.graph ≡ ok tt
    → (enforce_host_override_gate rt e amb).0 ≡ ok tt
    → (r : EngineResult) × ((run rt e amb).0 ≡ result r)
      × (keys r.states ≡ keys e.graph.actions)
      × (all_status is_succeeded r.states ≡ true)
      × (r.completed ≡ true)
      × (r.failed ≡ false)
run-completes rt e amb reliable distinct_keys valid gate = go (run rt e amb).0 refl ok_run
  where
    both :
        (a : ActionDescriptor) (st : ActionRuntimeState)
        → Ensures (λ st'. Executed a st' × Undisturbed st'.status) NoError (execute_one rt e a st)
    both a st = record {
      run = λ amb'.
          join (execute_one rt e a st amb').0 ((execute_one-Executed rt e a st).run amb')
            ((execute_one-succeeded rt e reliable a st).run amb');
    }
      where
        join :
            (r : Result Exception ActionRuntimeState)
            → Holds (Executed a) AnyError r
            → Holds (λ st'. st'.status ≡ succeeded) NoError r
            → Holds (λ st'. Executed a st' × Undisturbed st'.status) NoError r
        join (ok st') x y = (x, rw y tt)
        join (raise exc) x y = y

    ok_run : RunOk e Undisturbed NoError (run rt e amb).0
    ok_run = run-RunOk rt e Undisturbed NoError tt both distinct_keys amb (rw gate tt)

    go :
        (o : RunOutcome)
        → (run rt e amb).0 ≡ o
        → RunOk e Undisturbed NoError o
        → (r : EngineResult) × ((run rt e amb).0 ≡ result r)
          × (keys r.states ≡ keys e.graph.actions)
          × (all_status is_succeeded r.states ≡ true)
          × (r.completed ≡ true)
          × (r.failed ≡ false)
    go (invalid err) p k = cc
    go (raise_exception exc) p k = absurd k
    go no_fuel p k = absurd k
    go (result r) p k =
        let calm_run = none_disturbed r.failed r.states r.states k.0.states_ok.entries in
        let fine = k.0.failed_flag ∙ calm_run in
        let h = subst (λ b. StatesOk Undisturbed e.graph.actions b r.states) fine k.0.states_ok in
        let done =
          everything_succeeds e.graph.actions (validate-IsValid e valid) distinct_keys r.states h
            (k.1 fine) in
        (r, p, h.same_keys, done, k.0.completed_flag ∙ succeeded-settled r.states done, fine)
      where
        none_disturbed :
            (lost : Bool) (states l : States)
            → All (EntryOk Undisturbed e.graph.actions lost states) l
            → any_status is_failed l ≡ false
        none_disturbed lost states [] h = refl
        none_disturbed lost states ((id, st) ∷ l) h =
            rw (one st.status h.0.extra, none_disturbed lost states l h.1) refl
          where
            one : (k : ActionStatus) → Undisturbed k → is_failed k ≡ false
            one failed u = absurd u
            one pending u = refl
            one _ u = refl
