-- ===== src/App/Preview/Summary.antt =====
-- What the presentation of an engine result says of its own rows.
use mathlib.Core.Path.{ap₂, subst}
use mathlib.Core.List.{Perm, append-nil}
use mathlib.Core.List.Perm
use hermes_vps.Prelude.{
  not, false, ◌==◌, All-append, ℕ, ◌≡◌, refl, ap, sym, ◌∙◌, Bool, true, ◌&&◌, String, Option, none,
  some, List, [], ◌∷◌, ◌++◌, map, all, is_some, if◌then◌else◌, All, Bool-cases, Option-cases, inl,
  inr,
}
use hermes_vps.Prelude.Dict.{lookup}
use hermes_vps.Prelude.Flow.{ok}
use hermes_vps.Value.{Value}
use hermes_vps.Core.Actions.{ActionRuntimeState, ActionGraph}
use hermes_vps.Core.Actions.Outcome.{Runtime}
use hermes_vps.Core.Actions.Ready.{States}
use hermes_vps.Core.Engine.{EngineResult}
use hermes_vps.App.Preview.Sorting.{
  sort_states-All, sort_states-Perm, IsAscending, sort_states-IsAscending,
}
use hermes_vps.App.Preview.Status.{
  StatusActionPresentation, StatusPresentation, Tally, set_first, is_set, mode_list, head_of,
  row_of, add_row, gather, gather_all, sort_states, no_rows, present,
  presentation_from_engine_result,
}

-- A text or None that counts as an error: `bool` of it.
abbrev pub has_error : Option String → Bool
has_error none = false
has_error (some text) = not (text == "")

-- The first row with an error.
abbrev pub first_failed : List StatusActionPresentation → Option String
first_failed [] = none
first_failed (a ∷ actions) = if has_error a.error then some a.action_id else first_failed actions

abbrev modes : List StatusActionPresentation → List String
modes [] = []
modes (a ∷ actions) = mode_list a.runner_mode ++ modes actions

abbrev pub is_redacted : StatusActionPresentation → Bool
is_redacted a = a.redactions_applied

first_failed-append :
    (xs : List StatusActionPresentation) (a : StatusActionPresentation)
    → first_failed (xs ++ (a ∷ [])) ≡ set_first (has_error a.error) a.action_id (first_failed xs)
first_failed-append [] a = elim (Bool-cases (has_error a.error)) [
  | inl e ↦ rw e refl
  | inr e ↦ rw e refl
]
first_failed-append (x ∷ xs) a = elim (Bool-cases (has_error x.error)) [
  | inl e ↦ rw e refl
  | inr e ↦ rw e (first_failed-append xs a)
]

append-mode_list :
    (m : Option String) (xs ys : List String)
    → (mode_list m ++ xs) ++ ys ≡ mode_list m ++ (xs ++ ys)
append-mode_list none xs ys = refl
append-mode_list (some mode) xs ys = refl

append_nil : (m : Option String) → mode_list m ++ [] ≡ mode_list m
append_nil none = refl
append_nil (some mode) = refl

modes-append :
    (xs : List StatusActionPresentation) (a : StatusActionPresentation)
    → modes (xs ++ (a ∷ [])) ≡ modes xs ++ mode_list a.runner_mode
modes-append [] a = append_nil a.runner_mode
modes-append (x ∷ xs) a =
    rw (modes-append xs a)
      (sym (append-mode_list x.runner_mode (modes xs) (mode_list a.runner_mode)))

all-append :
    (xs : List StatusActionPresentation) (a : StatusActionPresentation)
    → all is_redacted (xs ++ (a ∷ [])) ≡ all is_redacted xs && a.redactions_applied
all-append [] a = elim (Bool-cases a.redactions_applied) [ inl e ↦ rw e refl | inr e ↦ rw e refl ]
all-append (x ∷ xs) a = elim (Bool-cases x.redactions_applied) [
  | inl e ↦ rw e (all-append xs a)
  | inr e ↦ rw e refl
]

-- The totals agree with the rows.
record Agrees (t : Tally) : Type 0 where
  node : t.failed_node ≡ first_failed t.actions
  modes : t.runner_modes ≡ modes t.actions
  redactions : t.redactions ≡ all is_redacted t.actions

add_row-Agrees :
    (a : StatusActionPresentation) (t : Tally)
    → a.pinned ≡ has_error a.error
    → Agrees t
    → Agrees (add_row a t)
unfolding add_row
add_row-Agrees a t pin h = record {
  node = ap₂ (λ b o. set_first b a.action_id o) pin h.node ∙ sym (first_failed-append t.actions a);
  modes = ap (λ m. m ++ mode_list a.runner_mode) h.modes ∙ sym (modes-append t.actions a);
  redactions = ap (λ b. b && a.redactions_applied) h.redactions ∙ sym (all-append t.actions a);
}

-- A row and a state, as far as their id and their error.
abbrev pub of_row : StatusActionPresentation → String × Option String
of_row a = (a.action_id, a.error)

abbrev pub of_state : String × ActionRuntimeState → String × Option String
of_state e = (e.0, e.1.last_error)

abbrev IsPinned : StatusActionPresentation → Type 0
IsPinned a = a.pinned ≡ has_error a.error

is_set-has_error : (o : Option String) → is_set o ≡ has_error o
is_set-has_error none = refl
is_set-has_error (some text) = refl

rows-append :
    (xs : List StatusActionPresentation) (a : StatusActionPresentation)
    (rest : List (String × Option String))
    → map of_row (xs ++ (a ∷ [])) ++ rest ≡ map of_row xs ++ (of_row a ∷ rest)
rows-append [] a rest = refl
rows-append (x ∷ xs) a rest = ap (λ l. of_row x ∷ l) (rows-append xs a rest)

-- An action of the graph has the state's id.
abbrev pub IsOf : ActionGraph → String × ActionRuntimeState → Type 0
IsOf graph e = is_some (lookup e.0 graph.actions) ≡ true

module _ (rt : Runtime) (seconds : ℕ → ℕ → Value) (graph : ActionGraph) where
  abbrev Gathered : States → Tally → Type 0
  Gathered states t =
      (u : Tally) × (gather_all rt seconds graph states t ≡ ok u)
      × Agrees u
      × All IsPinned u.actions
      × (map of_row u.actions ≡ map of_row t.actions ++ map of_state states)

  gather_all-Gathered :
      (states : States) (t : Tally)
      → All (IsOf graph) states
      → Agrees t
      → All IsPinned t.actions
      → Gathered states t
  unfolding gather_all gather row_of add_row
  gather_all-Gathered [] t of h pins = (t, refl, h, pins, sym (append-nil (map of_row t.actions)))
  gather_all-Gathered ((id, state) ∷ states) t of h pins =
      elim (Option-cases (lookup id graph.actions)) [
        | inl none_there ↦ absurd (cc (of.0, none_there))
        | inr (a, there) ↦
            let row = row_of rt seconds id a state in
            let pin : IsPinned row = is_set-has_error state.last_error in
            let (u, e, agrees, pinned, same) =
              gather_all-Gathered states (add_row row t) of.1 (add_row-Agrees row t pin h)
                (All-append IsPinned t.actions (row ∷ []) pins (pin, tt)) in
            (u, rw there e, agrees, pinned, same ∙ rows-append t.actions row (map of_state states))
      ]

map-IsAscending : (states : States) → IsAscending states → IsAscending (map of_state states)
map-IsAscending [] h = tt
map-IsAscending (e ∷ []) h = tt
map-IsAscending (e ∷ f ∷ states) h = (h.0, map-IsAscending (f ∷ states) h.1)

-- The presentation's summary of its rows: a row is pinned where it has an error, the failed node is
-- the first with one, the runner mode is the first that a row has, and redactions are applied where
-- each row has them applied.
pub record Summarises (p : StatusPresentation) : Type 0 where
  pinned : All (λ a. a.pinned ≡ has_error a.error) p.actions
  node : p.failed_node ≡ first_failed p.actions
  mode : p.runner_mode ≡ head_of (modes p.actions)
  redactions : p.redactions_applied ≡ all is_redacted p.actions

-- Where each state of an engine result is of an action of the graph, its presentation is made; it
-- has a row for each state, with its id and its error and no others, in ascending order of the ids;
-- exactly the rows with an error are pinned, and the first of them is the failed node; the first
-- runner mode of a row is the presentation's; and it calls redactions applied exactly when all its
-- rows do.
pub presentation_from_engine_result-Summarises :
    (rt : Runtime) (seconds : ℕ → ℕ → Value) (workflow : String) (graph : ActionGraph)
    (result : EngineResult)
    → All (IsOf graph) result.states
    → (p : StatusPresentation) × (presentation_from_engine_result rt seconds workflow graph result
        ≡ ok p)
      × Perm (map of_row p.actions) (map of_state result.states)
      × IsAscending (map of_row p.actions)
      × Summarises p
unfolding presentation_from_engine_result present
presentation_from_engine_result-Summarises rt seconds workflow graph result of =
    let sorted = sort_states result.states in
    let start : Agrees no_rows = record { node = refl; modes = refl; redactions = refl } in
    let (t, e, h, pins, same) =
      gather_all-Gathered rt seconds graph sorted no_rows
        (sort_states-All (IsOf graph) result.states of) start tt in
    (
      present rt seconds workflow result t,
      rw e refl,
      subst (λ l. Perm l (map of_state result.states)) (sym same)
          (Perm.map of_state (sort_states-Perm result.states)),
      subst (λ l. IsAscending l) (sym same)
          (map-IsAscending sorted (sort_states-IsAscending result.states)),
      record { pinned = pins; node = h.node; mode = ap head_of h.modes; redactions = h.redactions },
    )
