-- ===== src/App/Errors/Runs.antt =====
-- The error that is reported for a run of the engine.
use mathlib.Core.Path.{subst}
use hermes_vps.Prelude.{
  ◌≡◌, refl, sym, ap, ◌∙◌, Bool, true, false, String, Option, none, some, [], ◌∷◌, ◌==◌, arith,
  if◌then◌else◌, All, Bool-cases, Option-cases, inl, inr, ◌⊎◌,
}
use hermes_vps.Prelude.Dict.{NodupKeys, lookup}
use hermes_vps.Prelude.Flow.{Result, ok, raise, ok-inj}
use hermes_vps.Core.Interfaces.{Exception}
use hermes_vps.Core.Actions.{ActionRuntimeState, ActionGraph}
use hermes_vps.Core.Actions.Policy.{validate}
use hermes_vps.Core.Actions.Ready.{States}
use hermes_vps.Core.Actions.Outcome.{Runtime}
use hermes_vps.Core.Engine.{
  EngineResult, RunOutcome, invalid, raise_exception, result, no_fuel, run,
}
use hermes_vps.Core.Engine.Execute.{Engine, Ambient}
use hermes_vps.Core.Engine.Execute.Attempts.{AnyError}
use hermes_vps.Core.Engine.Outcomes.{RunOk}
use hermes_vps.Core.Engine.Runs.{AnyStatus, run-Report}
use hermes_vps.App.Errors.{
  CliError, is_error, or_text, first_error, failure_of, failure_at, graph_failure_from_result,
  other, graph_failure, classify_exception,
}
use hermes_vps.App.Errors.Codes.{
  Failing, category_from_exception-Failing, graph_failure_from_result-Failing,
}

-- The states have this one.
abbrev pub Has : String → ActionRuntimeState → States → Type 0
Has id st [] = ⊥
Has id st ((j, w) ∷ states) = ((j ≡ id) × (w ≡ st)) ⊎ Has id st states

abbrev pub NoError : String × ActionRuntimeState → Type 0
NoError s = is_error s.1.last_error ≡ false

-- The action that an error blames is one with an error text, and the error has its id, its status
-- and its text; it blames none only where no action has an error text.
abbrev pub Blames : States → CliError → Type 0
Blames states err =
    ((err.action_id ≡ none) × All NoError states)
    ⊎ ((id : String) × (st : ActionRuntimeState) × Has id st states
        × (err.action_id ≡ some id)
        × (err.action_status ≡ some st.status)
        × (st.last_error ≡ some err.message))

first_error-none : (states : States) → first_error states ≡ none → All NoError states
unfolding first_error
first_error-none [] e = tt
first_error-none ((id, st) ∷ states) e =
    go (is_error st.last_error) refl (first_error-none states) e
  where
    go :
        (b : Bool)
        → is_error st.last_error ≡ b
        → (first_error states ≡ none → All NoError states)
        → (if b then some (id, st) else first_error states) ≡ none
        → (is_error st.last_error ≡ false) × All NoError states
    go true p later h = absurd (cc)
    go false p later h = (p, later h)

pair-same :
    (id j : String) (st w : ActionRuntimeState)
    → ◌≡◌ {A = Option (String × ActionRuntimeState)} (some (id, st)) (some (j, w))
    → (id ≡ j) × (st ≡ w)
pair-same id j st w e = (cc, cc)

first_error-some :
    (states : States) (id : String) (st : ActionRuntimeState)
    → first_error states ≡ some (id, st)
    → Has id st states × (is_error st.last_error ≡ true)
unfolding first_error
first_error-some [] id st e = absurd (cc)
first_error-some ((j, w) ∷ states) id st e =
    go (is_error w.last_error) refl (first_error-some states id st) e
  where
    go :
        (b : Bool)
        → is_error w.last_error ≡ b
        → (first_error states ≡ some (id, st) → Has id st states × (is_error st.last_error ≡ true))
        → (if b then some (j, w) else first_error states) ≡ some (id, st)
        → (((j ≡ id) × (w ≡ st)) ⊎ Has id st states) × (is_error st.last_error ≡ true)
    go true p later h =
        let (same_id, same) = pair-same j id w st h in
        (inl (same_id, same), ap (λ s. is_error s.last_error) (sym same) ∙ p)
    go false p later h = let (there, bad) = later h in (inr there, bad)

or_text-error :
    (o : Option String) (default : String) → is_error o ≡ true → o ≡ some (or_text o default)
or_text-error none default h = absurd (cc)
or_text-error (some text) default h = elim (Bool-cases (text == "")) [
  | inl blank ↦ absurd (ground (arith, blank, h))
  | inr given ↦ rw given refl
]

module _ (name : String) (graph : ActionGraph) (r : EngineResult) where
  failure_of-Blames :
      (o : Option (String × ActionRuntimeState)) {err : CliError}
      → first_error r.states ≡ o
      → failure_of name graph r o ≡ ok err
      → (err.workflow ≡ some name) × Blames r.states err
  unfolding failure_of failure_at
  failure_of-Blames none found e =
      subst (λ x. (x.workflow ≡ some name) × Blames r.states x) (ok-inj e)
        (refl, inl (refl, first_error-none r.states found))
  failure_of-Blames (some (id, st)) {err} found e = elim (Option-cases (lookup id graph.actions)) [
    | inl absent ↦ absurd (raised (rw (absent, failure_of) at e))
    | inr (a, there) ↦
        let same = ok-inj (rw (there, failure_of) at e) in
        let (has, bad) = first_error-some r.states id st found in
        subst (λ x. (x.workflow ≡ some name) × Blames r.states x) same
          (refl, inr (id, st, has, refl, refl, or_text-error st.last_error _ bad))
  ]
    where
      raised : {exc : Exception} → ◌≡◌ {A = Result Exception CliError} (raise exc) (ok err) → ⊥
      raised h = cc

-- What is reported at the end of a run: for a result the failure of its graph, for an exception the
-- exception, whatever its class is called. A valid graph ends in no other way.
abbrev pub IsReported : String → Option String → ActionGraph → RunOutcome → Type 0
IsReported name workflow graph (result r) =
    (err : CliError) × (classify_exception (graph_failure name graph r) workflow ≡ ok err)
    × Failing err.category
    × (err.workflow ≡ some name)
    × Blames r.states err
IsReported name workflow graph (raise_exception exc) =
    (class : String)
    → (err : CliError) × (classify_exception (other class exc) workflow ≡ ok err)
      × Failing err.category
IsReported name workflow graph (invalid err) = ⊥
IsReported name workflow graph no_fuel = ⊥

-- However the run of a valid graph ends, by a result or by an exception, classifying that end as a
-- failure gives an error, never another exception, and never one with the exit code of success. Of
-- a result, the error names the workflow, and blames an action of the run that has an error text,
-- with its id, status and text, or no action where none has such a text.
pub run-IsReported :
    {W : Type 0} (rt : Runtime) (e : Engine W) (amb : Ambient W) (name : String)
    (workflow : Option String)
    → NodupKeys e.graph.actions
    → validate e.graph ≡ ok tt
    → IsReported name workflow e.graph (run rt e amb).0
unfolding classify_exception
run-IsReported rt e amb name workflow distinct valid =
    go (run rt e amb).0 (run-Report rt e amb distinct)
  where
    go : (o : RunOutcome) → RunOk e AnyStatus AnyError o → IsReported name workflow e.graph o
    go (result r) h =
        let keys_same = h.0.states_ok.same_keys in
        let (err, made, failing) = graph_failure_from_result-Failing name e.graph r keys_same in
        let (named, blames) =
          failure_of-Blames name e.graph r (first_error r.states) refl
            (unfold graph_failure_from_result in made) in
        (err, made, failing, named, blames)
    go (raise_exception exc) h = λ class. (_, refl, category_from_exception-Failing exc)
    go (invalid err) h = absurd (cc)
    go no_fuel h = h
