-- ===== src/Core/Actions/Ready.antt =====
-- `initial_runtime_states` and `ready_actions`.
use hermes_vps.Prelude.{
  Bool, true, false, not, String, Option, none, some, List, [], ◌∷◌, all, any, is_some,
  if◌then◌else◌, map,
}
use hermes_vps.Prelude.Dict.{Dict, lookup, insert}
use hermes_vps.Core.Actions.{
  ActionStatus, pending, succeeded, failed, blocked, cancelled, ActionDescriptor,
  ActionRuntimeState, is_open,
}

abbrev pub initial_state : String → ActionRuntimeState
initial_state id = record {
  action_id = id;
  status = pending;
  attempts = 0;
  started_at = none;
  finished_at = none;
  last_error = none;
  result = none;
}

abbrev pub States : Type 0
States = Dict ActionRuntimeState

-- The dict that `initial_runtime_states` builds once the graph is valid.
unfoldable pub initial_states : Dict ActionDescriptor → States
initial_states [] = []
initial_states ((id, a) ∷ actions) = (id, initial_state id) ∷ initial_states actions

abbrev pub is_succeeded : ActionStatus → Bool
is_succeeded succeeded = true
is_succeeded _ = false

abbrev pub is_lost : ActionStatus → Bool
is_lost failed = true
is_lost cancelled = true
is_lost _ = false

abbrev pub has_status : (ActionStatus → Bool) → Option ActionRuntimeState → Bool
has_status test none = false
has_status test (some st) = test st.status

pub data Readiness : Type 0 where
  run_now wait lost_dependency : Readiness

-- What the loop body finds for one action: whether it is appended, left, or marked BLOCKED.
unfoldable pub readiness : ActionDescriptor → States → Option ActionRuntimeState → Readiness
readiness a states none = wait
readiness a states (some st) =
    let dep_states = map (λ d. lookup d states) a.deps in
    if not (is_open st.status)
    then wait
    else if not (all is_some dep_states)
    then wait
    else if all (has_status is_succeeded) dep_states
    then run_now
    else if any (has_status is_lost) dep_states
    then lost_dependency
    else wait

-- state.status = BLOCKED
abbrev block : String → States → Option ActionRuntimeState → States
block id states none = states
block id states (some st) = insert id (record st { status = blocked }) states

-- The loop over `graph.actions`, with the states that earlier rounds marked.
unfoldable pub ready_from : Dict ActionDescriptor → States → List ActionDescriptor × States
unfolding readiness
ready_from [] states = ([], states)
ready_from ((id, a) ∷ actions) states = elim (readiness a states (lookup id states)) [
  | run_now ↦ let (found, after) = ready_from actions states in (a ∷ found, after)
  | wait ↦ ready_from actions states
  | lost_dependency ↦ ready_from actions (block id states (lookup id states))
]
