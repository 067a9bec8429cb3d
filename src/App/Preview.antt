-- ===== src/App/Preview.antt =====
-- hermes_vps_app/status_presentation.py: the preview of a graph, in topological order, and the
-- summary of its progress.
pub mod Order
pub mod Rows
pub mod Progress
pub mod Details
pub mod Status
pub mod Sorting
pub mod Summary
pub mod Samples
use hermes_vps.Prelude.{
  ℕ, zero, suc, ◌+◌, Bool, true, false, not, ◌&&◌, ◌||◌, String, Option, none, some, List, [], ◌∷◌,
  ◌++◌, ◌==◌, elem, all, any, length, if◌then◌else◌,
}
use hermes_vps.Prelude.Dict.{Dict, lookup, insert, keys}
use hermes_vps.Prelude.Flow.{Result, ok, raise, and_then}
use hermes_vps.Value
use hermes_vps.Value.{Value, Fields, bool, int, pos, end, field, truthy}
use hermes_vps.Text.{strip, codes, lower, is_infix, mentions}
use hermes_vps.Core.Actions.{ActionDescriptor, ActionGraph}
use hermes_vps.Core.Actions.Policy.{InvalidGraph, validate, level_name}

pub record GraphPreviewActionPresentation : Type 0 where
  pub action_id : String
  pub label : String
  pub order : ℕ
  pub side_effect_level : String
  pub deps : List String
  pub approval_required : Bool
  pub repair_scope : String

pub record GraphPreviewPresentation : Type 0 where
  pub workflow : String
  pub graph_id : String
  pub actions : List GraphPreviewActionPresentation
  pub provider : Option String
  pub runner_mode : Option String
  pub destroy_preview : Option Fields
  pub redactions_applied : Bool

-- What a preview raises; `out_of_fuel` is the model's own.
pub data PreviewError : Type 0 where
  invalid : InvalidGraph → PreviewError
  cycle : String → PreviewError
  missing : String → PreviewError
  out_of_fuel : PreviewError

abbrev is_ready : List String → List String → String × ActionDescriptor → Bool
is_ready ordered remaining e = elem e.0 remaining && all (λ dep. elem dep ordered) e.1.deps

-- The comprehension over `graph.actions.items()`.
unfoldable pub ready_ids : List String → List String → Dict ActionDescriptor → List String
unfolding elem
ready_ids ordered remaining [] = []
ready_ids ordered remaining (e ∷ rest) =
    let later = ready_ids ordered remaining rest in
    if is_ready ordered remaining e then e.0 ∷ later else later

-- remaining.remove(id), of a member
unfoldable pub without : String → List String → List String
without id [] = []
without id (x ∷ xs) = let rest = without id xs in if x == id then rest else x ∷ rest

-- The inner loop.
unfoldable pub without_all : List String → List String → List String
unfolding without
without_all [] remaining = remaining
without_all (id ∷ ids) remaining = without_all ids (without id remaining)

order_turn :
    (List String → List String → Result PreviewError (List String))
    → String
    → List String
    → List String
    → List String
    → Result PreviewError (List String)
unfolding without_all
order_turn again name ordered remaining [] = raise (cycle name)
order_turn again name ordered remaining (id ∷ ids) =
    again (ordered ++ (id ∷ ids)) (without_all (id ∷ ids) remaining)

-- The outer loop; a turn for each fuel.
unfoldable pub order_from :
    ActionGraph → ℕ → List String → List String → Result PreviewError (List String)
unfolding order_turn ready_ids
order_from graph fuel ordered [] = ok ordered
order_from graph zero ordered (x ∷ xs) = raise out_of_fuel
order_from graph (suc fuel) ordered (x ∷ xs) =
    order_turn (order_from graph fuel) graph.name ordered (x ∷ xs)
      (ready_ids ordered (x ∷ xs) graph.actions)

-- `_topological_action_order`
unfoldable pub topological_action_order : ActionGraph → Result PreviewError (List String)
unfolding order_from keys
topological_action_order graph =
    order_from graph (length (keys graph.actions)) [] (keys graph.actions)

-- `_repair_scope_for_descriptor`; "full" covers "full panel".
unfoldable pub repair_scope_for_descriptor : Option String → String
unfolding mentions strip
repair_scope_for_descriptor none = "failed node"
repair_scope_for_descriptor (some hint) =
    let normalized = strip hint in
    if mentions "subtree" normalized
    then "failed subtree"
    else if mentions "full panel" normalized || mentions "full" normalized
    then "full panel"
    else if mentions "node" normalized
    then "failed node"
    else hint

preview_action : ℕ → ActionDescriptor → GraphPreviewActionPresentation
unfolding repair_scope_for_descriptor Value.get_or
preview_action index a = record {
  action_id = a.action_id;
  label = a.label;
  order = index;
  side_effect_level = level_name a.side_effect_level;
  deps = a.deps;
  approval_required = truthy (Value.get_or "approval_required" (bool false) a.metadata);
  repair_scope = repair_scope_for_descriptor a.repair_hint;
}

-- graph.actions[id], and the rows after it
add_row :
    String
    → Option ActionDescriptor
    → ℕ
    → Result PreviewError (List GraphPreviewActionPresentation)
    → Result PreviewError (List GraphPreviewActionPresentation)
unfolding preview_action
add_row id none index rest = raise (missing id)
add_row id (some a) index rest = and_then rest (λ rows. ok (preview_action index a ∷ rows))

-- The loop over `enumerate(ordered_ids, start=1)`.
unfoldable pub preview_rows :
    ActionGraph → ℕ → List String → Result PreviewError (List GraphPreviewActionPresentation)
unfolding add_row lookup
preview_rows graph index [] = ok []
preview_rows graph index (id ∷ ids) =
    add_row id (lookup id graph.actions) index (preview_rows graph (suc index) ids)

validated : Result InvalidGraph (Unit {0}) → Result PreviewError (Unit {0})
validated (ok _) = ok tt
validated (raise e) = raise (invalid e)

unfoldable pub preview_from_graph :
    String
    → ActionGraph
    → Option String
    → Option String
    → Option Fields
    → Result PreviewError GraphPreviewPresentation
unfolding validated validate topological_action_order preview_rows
preview_from_graph workflow graph provider runner_mode destroy_preview =
    and_then (validated (validate graph)) λ _. and_then (topological_action_order graph) λ ids.
      and_then (preview_rows graph 1 ids) λ rows. ok (record {
        workflow = workflow;
        graph_id = graph.name;
        actions = rows;
        provider = provider;
        runner_mode = runner_mode;
        destroy_preview = destroy_preview;
        redactions_applied = true;
      })

abbrev pub zero_counts : Dict ℕ
zero_counts =
    ("pending", 0)
    ∷ ("ready", 0)
    ∷ ("running", 0)
    ∷ ("succeeded", 0)
    ∷ ("failed", 0)
    ∷ ("blocked", 0)
    ∷ ("skipped", 0)
    ∷ ("cancelled", 0)
    ∷ []

abbrev pub count_or_zero : Option ℕ → ℕ
count_or_zero none = 0
count_or_zero (some n) = n

-- The loop of `_progress_summary`, over the statuses of the actions.
unfoldable pub count_statuses : List String → Dict ℕ → Dict ℕ
unfolding lookup insert
count_statuses [] counts = counts
count_statuses (status ∷ statuses) counts =
    count_statuses statuses (insert status (count_or_zero (lookup status counts) + 1) counts)

abbrev pub count_fields : Dict ℕ → Fields
count_fields [] = end
count_fields ((status, n) ∷ counts) = field status (int (pos n)) (count_fields counts)

abbrev pub with_elapsed : Option Value → Fields → Fields
with_elapsed none payload = payload
with_elapsed (some elapsed) payload = Value.put "elapsed_seconds" elapsed payload

-- `_progress_summary`; `elapsed` is the number of seconds as a value.
unfoldable pub progress_summary : List String → Option Value → Fields
unfolding count_statuses Value.put
progress_summary statuses elapsed = with_elapsed elapsed (
    field "total" (int (pos (length statuses)))
      (count_fields (count_statuses statuses zero_counts)))
