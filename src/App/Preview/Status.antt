-- ===== src/App/Preview/Status.antt =====
-- hermes_vps_app/status_presentation.py: the presentation of an engine result. Floats are left out:
-- `seconds` is the rounded number of seconds between two times, as a value.
use hermes_vps.Prelude.{
  ℕ, Bool, true, false, not, ◌&&◌, ◌||◌, String, Option, none, some, List, [], ◌∷◌, ◌++◌, ◌==◌, map,
  max, ltb, if◌then◌else◌, nat_eq,
}
use hermes_vps.Prelude.Dict.{lookup}
use hermes_vps.Prelude.Flow.{Result, ok, raise, and_then}
use hermes_vps.Value
use hermes_vps.Value.{
  Value, null, bool, str, list, dict, nil, item, Items, Fields, end, field, truthy,
}
use hermes_vps.Text.{codes}
use hermes_vps.Core.Actions.{
  pending, ready, running, succeeded, failed, skipped, blocked, cancelled, ActionStatus,
  ActionDescriptor, ActionRuntimeState, ActionGraph,
}
use hermes_vps.Core.Actions.Outcome.{Runtime, text_of, sanitize_fields}
use hermes_vps.Core.Actions.Ready.{States}
use hermes_vps.Core.Engine.{EngineResult}
use hermes_vps.App.Preview.Details.{node_details}
use hermes_vps.App.Preview.{repair_scope_for_descriptor}

pub record StatusActionPresentation : Type 0 where
  pub action_id : String
  pub label : String
  pub status : String
  pub runner_mode : Option String
  pub repair_scope : Option String
  pub error : Option String
  pub result : Fields
  pub elapsed_seconds : Option Value
  pub details : Option Fields
  pub pinned : Bool
  pub redactions_applied : Bool

pub record StatusPresentation : Type 0 where
  pub workflow : String
  pub graph_id : String
  pub completed : Bool
  pub actions : List StatusActionPresentation
  pub runner_mode : Option String
  pub redactions_applied : Bool
  pub result_summary : Fields
  pub host_override : Option Fields
  pub elapsed_seconds : Option Value
  pub failed_node : Option String
  pub repair_scope : Option String

-- The value of a status.
abbrev pub status_value : ActionStatus → String
status_value pending = "pending"
status_value ready = "ready"
status_value running = "running"
status_value succeeded = "succeeded"
status_value failed = "failed"
status_value skipped = "skipped"
status_value blocked = "blocked"
status_value cancelled = "cancelled"

-- The order of texts by their characters' codes.
abbrev pub precedes : List ℕ → List ℕ → Bool
precedes [] [] = false
precedes [] (d ∷ t) = true
precedes (c ∷ s) [] = false
precedes (c ∷ s) (d ∷ t) = ltb c d || (nat_eq c d && precedes s t)

unfoldable pub insert_state : String × ActionRuntimeState → States → States
insert_state e [] = e ∷ []
insert_state e (f ∷ states) =
    let rest = insert_state e states in
    if precedes (codes f.0) (codes e.0) then f ∷ rest else e ∷ f ∷ states

-- sorted(result.states.items(), key=lambda item: item[0])
unfoldable pub sort_states : States → States
unfolding insert_state
sort_states [] = []
sort_states (e ∷ states) = insert_state e (sort_states states)

-- `bool` of a text or None
abbrev pub is_set : Option String → Bool
is_set none = false
is_set (some s) = not (s == "")

-- `bool(payload.get("applied", True))` of the redactions, or of the result
redactions_of : Option Value → Fields → Bool
unfolding Value.get_or
redactions_of (some (dict redactions)) result =
    truthy (Value.get_or "applied" (bool true) redactions)
redactions_of _ result = truthy (Value.get_or "redactions_applied" (bool true) result)

-- `result or {}`
or_empty : Option Fields → Fields
or_empty none = end
or_empty (some d) = d

repair_scope_of : Bool → Option String → Option String
unfolding repair_scope_for_descriptor
repair_scope_of false none = none
repair_scope_of false (some hint) =
    if hint == "" then none else some (repair_scope_for_descriptor (some hint))
repair_scope_of true hint = some (repair_scope_for_descriptor hint)

-- `repair_scope or "failed node"`
failed_scope : Option String → String
failed_scope none = "failed node"
failed_scope (some scope) = if scope == "" then "failed node" else scope

-- What the loop has gathered.
pub record Tally : Type 0 where
  pub actions : List StatusActionPresentation
  pub runner_modes : List String
  pub redactions : Bool
  pub failed_node : Option String
  pub failed_repair_scope : Option String

-- if state.last_error and failed_node is None
abbrev pub set_first : Bool → String → Option String → Option String
set_first b x (some y) = some y
set_first true x none = some x
set_first false x none = none

-- The scope that goes with it.
abbrev pub set_scope : Bool → Option String → String → Option String → Option String
set_scope true none scope old = some scope
set_scope _ _ scope old = old

abbrev pub mode_list : Option String → List String
mode_list none = []
mode_list (some mode) = mode ∷ []

abbrev pub head_of : List String → Option String
head_of [] = none
head_of (x ∷ xs) = some x

-- The rest of the body.
unfoldable pub add_row : StatusActionPresentation → Tally → Tally
unfolding failed_scope
add_row row t = record {
  actions = t.actions ++ (row ∷ []);
  runner_modes = t.runner_modes ++ mode_list row.runner_mode;
  redactions = t.redactions && row.redactions_applied;
  failed_node = set_first row.pinned row.action_id t.failed_node;
  failed_repair_scope =
      set_scope row.pinned t.failed_node (failed_scope row.repair_scope) t.failed_repair_scope;
}

module _ (rt : Runtime) (seconds : ℕ → ℕ → Value) where
  -- `_string_or_none`
  string_or_none : Option Value → Option String
  string_or_none none = none
  string_or_none (some null) = none
  string_or_none (some v) = some (text_of rt v)

  -- `_elapsed_seconds`
  elapsed_between : Option ℕ → Option ℕ → Option Value
  elapsed_between (some start) (some finish) = some (seconds start finish)
  elapsed_between _ _ = none

  -- The body of the loop, up to the row.
  unfoldable pub row_of : String → ActionDescriptor → ActionRuntimeState → StatusActionPresentation
  unfolding string_or_none elapsed_between or_empty redactions_of repair_scope_of node_details
      Value.get
  row_of id a state =
      let result = or_empty state.result in
      let scope = repair_scope_of (is_set state.last_error) a.repair_hint in
      record {
        action_id = id;
        label = a.label;
        status = status_value state.status;
        runner_mode = string_or_none (Value.get "runner_mode" result);
        repair_scope = scope;
        error = state.last_error;
        result = result;
        elapsed_seconds = elapsed_between state.started_at state.finished_at;
        details = node_details a result scope;
        pinned = is_set state.last_error;
        redactions_applied = redactions_of (Value.get "redactions" result) result;
      }

  -- graph.actions[action_id], which may raise a KeyError
  unfoldable pub gather :
      (Tally → Result String Tally)
      → String
      → ActionRuntimeState
      → Option ActionDescriptor
      → Tally
      → Result String Tally
  unfolding add_row row_of
  gather again id state none t = raise id
  gather again id state (some a) t = again (add_row (row_of id a state) t)

  -- The loop over the sorted states.
  unfoldable pub gather_all : ActionGraph → States → Tally → Result String Tally
  unfolding gather lookup
  gather_all graph [] t = ok t
  gather_all graph ((id, state) ∷ states) t =
      gather (gather_all graph states) id state (lookup id graph.actions) t

-- A list's least and greatest time, where it has one.
least : Option ℕ → ℕ → ℕ
least none t = t
least (some s) t = if ltb s t then s else t

greatest : Option ℕ → ℕ → ℕ
greatest none t = t
greatest (some s) t = max s t

earliest : Option ℕ → List (Option ℕ) → Option ℕ
unfolding least
earliest best [] = best
earliest best (none ∷ times) = earliest best times
earliest best (some t ∷ times) = earliest (some (least best t)) times

latest : Option ℕ → List (Option ℕ) → Option ℕ
unfolding greatest
latest best [] = best
latest best (none ∷ times) = latest best times
latest best (some t ∷ times) = latest (some (greatest best t)) times

abbrev pub no_rows : Tally
no_rows = record {
  actions = [];
  runner_modes = [];
  redactions = true;
  failed_node = none;
  failed_repair_scope = none;
}

module _ (rt : Runtime) (seconds : ℕ → ℕ → Value) where
  -- `_graph_elapsed_seconds`
  graph_elapsed : States → Option Value
  unfolding elapsed_between earliest latest
  graph_elapsed states =
      elapsed_between rt seconds (earliest none (map (λ e. e.1.started_at) states))
        (latest none (map (λ e. e.1.finished_at) states))

  override_fields : Option Fields → Fields
  unfolding sanitize_fields
  override_fields none = end
  override_fields (some d) = field "host_override" (dict (sanitize_fields rt d)) end

  -- `EngineResult.to_summary`
  to_summary : EngineResult → Fields
  unfolding override_fields
  to_summary result = field "schema" (str "hermes.graph_result.v1") (
      field "graph" (dict (field "id" (str result.graph_name) end)) (
        field "completed" (bool result.completed) (
          field "failed" (bool result.failed)
            (field "cancelled" (bool result.cancelled) (override_fields result.host_override)))))

  unfoldable pub present : String → EngineResult → Tally → StatusPresentation
  unfolding to_summary graph_elapsed
  present workflow result t = record {
    workflow = workflow;
    graph_id = result.graph_name;
    completed = result.completed;
    actions = t.actions;
    runner_mode = head_of t.runner_modes;
    redactions_applied = t.redactions;
    result_summary = to_summary result;
    host_override = result.host_override;
    elapsed_seconds = graph_elapsed result.states;
    failed_node = t.failed_node;
    repair_scope = t.failed_repair_scope;
  }

  unfoldable pub presentation_from_engine_result :
      String → ActionGraph → EngineResult → Result String StatusPresentation
  unfolding present gather_all sort_states
  presentation_from_engine_result workflow graph result =
      and_then (gather_all rt seconds graph (sort_states result.states) no_rows)
        λ t. ok (present workflow result t)
