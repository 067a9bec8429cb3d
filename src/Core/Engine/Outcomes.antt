-- ===== src/Core/Engine/Outcomes.antt =====
-- What `Engine.run` returns: it ends, its result accounts for every action, and dependencies run
-- first.
use hermes_vps.Prelude.{
  ◌≡◌, refl, sym, true, false, ◌||◌, [], ◌∷◌, arith, inl, inr, length, Bool-cases,
}
use hermes_vps.Prelude.Dict.{NodupKeys, Dict}
use hermes_vps.Prelude.Flow.{Result, ok, raise, continue, Holds, Ensures}
use hermes_vps.Core.Interfaces.{Exception}
use hermes_vps.Core.Actions.{
  ActionStatus, pending, succeeded, skipped, cancelled, ActionDescriptor, ActionRuntimeState,
}
use hermes_vps.Core.Actions.Validity.{KeysMatch, IsValid, validate_graph_iff}
use hermes_vps.Core.Actions.Policy.{InvalidGraph, validate, validate_parts}
use hermes_vps.Core.Actions.Ready.{States, initial_states}
use hermes_vps.Core.Actions.Outcome.{Runtime}
use hermes_vps.Core.Engine.{
  result_of, run_valid, is_failed, is_blocked, is_settled, any_status, all_status, EngineResult,
  RunOutcome, invalid, raise_exception, result, no_fuel, Ended, finished, failed_fast, out_of_fuel,
  loop, fuel_of, completed_of, outcome, enforce_host_override_gate, run,
}
use hermes_vps.Core.Engine.Execute.{Engine, Ambient, execute_one}
use hermes_vps.Core.Engine.Execute.Attempts.{Executed}
use hermes_vps.Core.Engine.Entries.{Settled, open_count-le, StatesOk, none_failed}
use hermes_vps.Core.Engine.Loop.{EndOk, initial_states-Ok, loop-EndOk}

-- A valid graph has the ids of its actions for keys, known dependencies, and ranks.
pub validate-IsValid :
    {W : Type 0} (e : Engine W) → validate e.graph ≡ ok tt → IsValid e.graph.actions
validate-IsValid e h = (validate_graph_iff e.graph.actions).0 (validate_parts e.graph h).0

-- The flags of a result, its statuses, and the order of its actions.
module _ {W : Type 0} (e : Engine W) (Extra : ActionStatus → Type 0) where
  pub record Report (r : EngineResult) : Type 0 where
    pub states_ok : StatesOk Extra e.graph.actions r.failed r.states
    pub failed_flag : r.failed ≡ any_status is_failed r.states
    pub completed_flag : r.completed ≡ all_status is_settled r.states
    pub not_cancelled : r.cancelled ≡ false

  abbrev pub RunOk : (Exception → Type 0) → RunOutcome → Type 0
  RunOk Q (invalid err) = validate e.graph ≡ raise err
  RunOk Q (raise_exception exc) = Q exc
  RunOk Q (result r) = Report r × (r.failed ≡ false → Settled e.graph.actions r.states)
  RunOk Q no_fuel = ⊥

length-initial_states :
    (actions : Dict ActionDescriptor) → length (initial_states actions) ≡ length actions
unfolding initial_states
length-initial_states [] = refl
length-initial_states ((id, a) ∷ actions) = rw (length-initial_states actions)

all_settled-none_failed :
    (l : States)
    → all_status is_settled l ≡ true
    → (any_status is_failed l ≡ false) × (any_status is_blocked l ≡ false)
all_settled-none_failed [] h = (refl, refl)
all_settled-none_failed ((id, st) ∷ l) h =
    go st.status (ground arith) (all_settled-none_failed l (ground arith))
  where
    go :
        (k : ActionStatus)
        → is_settled k ≡ true
        → (any_status is_failed l ≡ false) × (any_status is_blocked l ≡ false)
        → (is_failed k || any_status is_failed l ≡ false)
          × (is_blocked k || any_status is_blocked l ≡ false)
    go succeeded p q = q
    go skipped p q = q
    go cancelled p q = q
    go _ p q = cc

failed-not_settled : (l : States) → any_status is_failed l ≡ true → false ≡ all_status is_settled l
failed-not_settled l h = elim (Bool-cases (all_status is_settled l)) [
  | inl p ↦ cc ((all_settled-none_failed l p).0, h)
  | inr p ↦ sym p
]

completed_of-settled : (l : States) → completed_of l ≡ all_status is_settled l
completed_of-settled l = elim (Bool-cases (all_status is_settled l)) [
  | inl p ↦ rw (p, (all_settled-none_failed l p).0, (all_settled-none_failed l p).1) refl
  | inr p ↦ rw p (ground arith)
]

-- `Extra` holds of what `execute_one` leaves, and `Q` of what it raises.
module _ {W : Type 0} (rt : Runtime) (e : Engine W) (Extra : ActionStatus → Type 0)
    (Q : Exception → Type 0) (extra_pending : Extra pending)
    (step : (a : ActionDescriptor) (st : ActionRuntimeState)
      → Ensures (λ st'. Executed a st' × Extra st'.status) Q (execute_one rt e a st)) where
  outcome-RunOk :
      (r : Result Exception Ended) (amb : Ambient W)
      → Holds (EndOk rt e Extra Q extra_pending step) Q r
      → RunOk e Extra Q (outcome rt e r amb).0
  unfolding outcome
  outcome-RunOk (raise exc) amb h = h
  outcome-RunOk (ok out_of_fuel) amb h = absurd h
  outcome-RunOk (ok (finished states)) amb h =
      let none_lost = none_failed Extra e.graph.actions states states h.0.entries in
      unfold result_of in
      (
        record {
          states_ok = rw none_lost h.0;
          failed_flag = refl;
          completed_flag = completed_of-settled states;
          not_cancelled = refl;
        },
        λ p. h.1,
      )
  outcome-RunOk (ok (failed_fast states)) amb h =
      unfold result_of in
      (
        record {
          states_ok = h.0;
          failed_flag = sym h.1;
          completed_flag = failed-not_settled states h.1;
          not_cancelled = refl;
        },
        λ p. cc,
      )

  module _ (distinct_keys : NodupKeys e.graph.actions) (amb : Ambient W)
      (gate : Holds (λ _. Unit {0}) Q (enforce_host_override_gate rt e amb).0) where
    pub run-RunOk : RunOk e Extra Q (run rt e amb).0
    unfolding run
    run-RunOk = go (validate e.graph) refl
      where
        loops :
            KeysMatch e.graph.actions
            → (amb' : Ambient W)
            → Holds
                (EndOk rt e Extra Q extra_pending step)
                Q
                (loop rt e (fuel_of rt e) (initial_states e.graph.actions) amb').0
        loops m =
            (loop-EndOk rt e Extra Q extra_pending step distinct_keys m (fuel_of rt e)
              (initial_states e.graph.actions)
              (initial_states-Ok rt e Extra Q extra_pending step distinct_keys)
              (omega (
                arith,
                open_count-le (initial_states e.graph.actions),
                length-initial_states e.graph.actions,
              ))).run

        after_gate :
            (g : Result Exception (Unit {0})) (amb' : Ambient W)
            → KeysMatch e.graph.actions
            → Holds (λ _. Unit {0}) Q g
            → RunOk e Extra Q
                (let (r, after) =
                    continue g
                      (λ _. loop rt e (fuel_of rt e) (initial_states e.graph.actions))
                      amb' in
                  outcome rt e r after).0
        after_gate (raise exc) amb' m h = outcome-RunOk (raise exc) amb' h
        after_gate (ok _) amb' m h =
            let (r, after) = loop rt e (fuel_of rt e) (initial_states e.graph.actions) amb' in
            outcome-RunOk r after (loops m amb')

        go :
            (v : Result InvalidGraph (Unit {0}))
            → validate e.graph ≡ v
            → RunOk e Extra Q (run_valid rt e v amb).0
        go (raise err) p = unfold run_valid in p
        go (ok tt) p =
            unfold run_valid in
            after_gate (enforce_host_override_gate rt e amb).0
              (enforce_host_override_gate rt e amb).1 (validate-IsValid e p).0 gate
