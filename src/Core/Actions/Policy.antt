-- ===== src/Core/Actions/Policy.antt =====
-- `_validate_policy_gate`, and `ActionGraph.validate`.
pub mod Guard
use hermes_vps.Prelude.{
  ◌≡◌, refl, Bool, true, false, not, ◌&&◌, String, some, List, [], ◌∷◌, ◌==◌, elem, is_some,
  if◌then◌else◌,
}
use hermes_vps.Prelude.Dict.{Dict}
use hermes_vps.Prelude.Flow.{Result, ok, raise, and_then, check_all}
use hermes_vps.Value
use hermes_vps.Value.{Value, Fields, null, str, list, dict, truthy, is_true, or_null}
use hermes_vps.Core.Interfaces.{SideEffectLevel, low, high, destructive}
use hermes_vps.Core.Actions.{ActionDescriptor, ActionGraph}
use hermes_vps.Core.Actions.Validate.{GraphError, validate_graph}

abbrev pub level_name : SideEffectLevel → String
level_name SideEffectLevel.none = "none"
level_name low = "low"
level_name high = "high"
level_name destructive = "destructive"

abbrev pub side_effect_levels : List String
side_effect_levels = "none" ∷ "low" ∷ "high" ∷ "destructive" ∷ []

-- One constructor for each `raise`, with the action's id; `unhashable` is the TypeError of
-- looking up a list or a dict in a set.
pub data PolicyError : Type 0 where
  missing_policy invalid_level unhashable level_mismatch missing_approval : String → PolicyError
  missing_bounded no_opt_out undocumented missing_intent : String → PolicyError

-- v == name, for a text
abbrev pub is_text : String → Value → Bool
is_text name (str s) = s == name
is_text name _ = false

abbrev is_destructive : SideEffectLevel → Bool
is_destructive destructive = true
is_destructive _ = false

abbrev changes_state : SideEffectLevel → Bool
changes_state SideEffectLevel.none = false
changes_state _ = true

-- The tests on the declared level.
check_level : ActionDescriptor → Value → Result PolicyError (Unit {0})
check_level a (list _) = raise (unhashable a.action_id)
check_level a (dict _) = raise (unhashable a.action_id)
check_level a (str s) =
    if not (elem s side_effect_levels)
    then raise (invalid_level a.action_id)
    else if s == level_name a.side_effect_level
    then ok tt
    else raise (level_mismatch a.action_id)
check_level a _ = raise (invalid_level a.action_id)

check_timeout : ActionDescriptor → Fields → Result PolicyError (Unit {0})
check_timeout a policy =
    let timeout = or_null (Value.get "timeout" policy) in
    if is_some a.timeout_s
    then (if is_text "bounded" timeout then ok tt else raise (missing_bounded a.action_id))
    else if is_text "no_timeout" timeout
    then (if is_destructive a.side_effect_level
        then raise (no_opt_out a.action_id)
        else if truthy (or_null (Value.get "no_timeout_reason" policy))
        then ok tt
        else raise (undocumented a.action_id))
    else raise (missing_intent a.action_id)

check_fields : ActionDescriptor → Fields → Result PolicyError (Unit {0})
check_fields a policy =
    and_then (check_level a (or_null (Value.get "side_effect_level" policy))) λ _.
      if is_destructive a.side_effect_level
        && not (is_true (or_null (Value.get "approval_required" policy)))
      then raise (missing_approval a.action_id)
      else if is_true (or_null (Value.get "command_backed" policy))
          && changes_state a.side_effect_level
      then check_timeout a policy
      else ok tt

-- isinstance(raw_policy, dict)
abbrev check_policy_value : ActionDescriptor → Value → Result PolicyError (Unit {0})
check_policy_value a (dict policy) = check_fields a policy
check_policy_value a _ = raise (missing_policy a.action_id)

-- The body of the loop of `_validate_policy_gate`.
unfoldable pub check_policy : ActionDescriptor → Result PolicyError (Unit {0})
unfolding check_level check_timeout check_fields elem Value.get
check_policy a = check_policy_value a (or_null (Value.get "policy" a.metadata))

unfoldable pub validate_policy_gate : Dict ActionDescriptor → Result PolicyError (Unit {0})
unfolding check_all check_policy
validate_policy_gate actions = check_all (λ e. check_policy e.1) actions

pub data InvalidGraph : Type 0 where
  graph : GraphError → InvalidGraph
  policy : PolicyError → InvalidGraph

abbrev from_graph : Result GraphError (Unit {0}) → Result InvalidGraph (Unit {0})
from_graph (ok _) = ok tt
from_graph (raise e) = raise (graph e)

abbrev from_policy : Result PolicyError (Unit {0}) → Result InvalidGraph (Unit {0})
from_policy (ok _) = ok tt
from_policy (raise e) = raise (policy e)

-- ActionGraph.validate
unfoldable pub validate : ActionGraph → Result InvalidGraph (Unit {0})
unfolding validate_graph validate_policy_gate
validate g =
    and_then (from_graph (validate_graph g.actions))
      (λ _. if g.policy_gate_enabled then from_policy (validate_policy_gate g.actions) else ok tt)

-- A valid graph has passed the graph checks, and the gate if it is enabled.
pub validate_parts :
    (g : ActionGraph)
    → validate g ≡ ok tt
    → (validate_graph g.actions ≡ ok tt)
      × (g.policy_gate_enabled ≡ true → validate_policy_gate g.actions ≡ ok tt)
unfolding validate
validate_parts g h =
    go (validate_graph g.actions) (validate_policy_gate g.actions) g.policy_gate_enabled h
  where
    go :
        (r : Result GraphError (Unit {0})) (q : Result PolicyError (Unit {0})) (b : Bool)
        → and_then (from_graph r) (λ _. if b then from_policy q else ok tt) ≡ ok tt
        → (r ≡ ok tt) × (b ≡ true → q ≡ ok tt)
    go (ok _) (ok _) b e = (refl, λ p. refl)
    go (ok _) (raise x) true e = cc
    go (ok _) (raise x) false e = (refl, λ p. cc)
    go (raise x) q b e = cc
