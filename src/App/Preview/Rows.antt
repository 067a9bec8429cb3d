-- ===== src/App/Preview/Rows.antt =====
-- The rows of a preview.
use mathlib.Core.Path.{subst}
use hermes_vps.Prelude.{
  ℕ, suc, ◌≡◌, refl, sym, ap, ◌∙◌, true, String, Option, List, [], ◌∷◌, ◌++◌, elem,
}
use hermes_vps.Prelude.Dict.{NodupKeys, keys, All-lookup}
use hermes_vps.Prelude.Flow.{ok}
use hermes_vps.Value.{Fields}
use hermes_vps.Core.Actions.{ActionGraph}
use hermes_vps.Core.Actions.Policy.{validate, validate_parts}
use hermes_vps.Core.Actions.Validity.{KeysMatch, validate_graph_iff}
use hermes_vps.App.Preview.{
  GraphPreviewActionPresentation, GraphPreviewPresentation, preview_rows, add_row, preview_action,
  preview_from_graph, validated,
}
use hermes_vps.App.Preview.Order.{Follows, topological_action_order-IsOrder}

abbrev pub row_ids : List GraphPreviewActionPresentation → List String
row_ids [] = []
row_ids (row ∷ rows) = row.action_id ∷ row_ids rows

-- The rows are numbered from an index on.
abbrev pub Numbered : ℕ → List GraphPreviewActionPresentation → Type 0
Numbered index [] = Unit
Numbered index (row ∷ rows) = (row.order ≡ index) × Numbered (suc index) rows

preview_rows-ok :
    (graph : ActionGraph)
    → KeysMatch graph.actions
    → (index : ℕ) (seen ids : List String) → Follows graph.actions seen ids
    → (rows : List GraphPreviewActionPresentation) × (preview_rows graph index ids ≡ ok rows)
      × (row_ids rows ≡ ids)
      × Numbered index rows
unfolding preview_rows add_row preview_action
preview_rows-ok graph match index seen [] h = ([], refl, refl, tt)
preview_rows-ok graph match index seen (id ∷ ids) ((a, found, deps), h) =
    let (rows, ran, same, numbered) =
      preview_rows-ok graph match (suc index) (seen ++ (id ∷ [])) ids h in
    let same_id : a.action_id ≡ id =
      All-lookup (λ e. e.1.action_id ≡ e.0) id graph.actions match found in
    (preview_action index a ∷ rows, rw (found, ran) refl, rw (same_id, same) refl, (refl, numbered))

-- The preview of a graph that passes its validation is made. It has a row for each action, numbered
-- from 1, and each action's row comes after the rows of its dependencies.
pub preview_from_graph-Follows :
    (workflow : String) (graph : ActionGraph) (provider runner_mode : Option String)
    (destroy_preview : Option Fields)
    → NodupKeys graph.actions
    → validate graph ≡ ok tt
    → (p : GraphPreviewPresentation) × (preview_from_graph workflow graph provider runner_mode
          destroy_preview
        ≡ ok p)
      × Numbered 1 p.actions
      × Follows graph.actions [] (row_ids p.actions)
      × ((k : String) → elem k (keys graph.actions) ≡ true → elem k (row_ids p.actions) ≡ true)
unfolding preview_from_graph validated
preview_from_graph-Follows workflow graph provider runner_mode destroy_preview distinct valid =
    let is_valid = (validate_graph_iff graph.actions).0 (validate_parts graph valid).0 in
    let (ids, ordered, follows, complete) =
      topological_action_order-IsOrder graph distinct is_valid in
    let (rows, ran, same, numbered) = preview_rows-ok graph is_valid.0 1 [] ids follows in
    (
      record {
        workflow = workflow;
        graph_id = graph.name;
        actions = rows;
        provider = provider;
        runner_mode = runner_mode;
        destroy_preview = destroy_preview;
        redactions_applied = true;
      },
      rw (valid, ordered, ran) refl,
      numbered,
      subst (Follows graph.actions []) (sym same) follows,
      λ k key. ap (elem k) same ∙ complete k key,
    )
