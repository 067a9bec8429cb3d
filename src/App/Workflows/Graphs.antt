-- ===== src/App/Workflows/Graphs.antt =====
-- The graphs of the workflows.
use hermes_vps.Prelude.{
  Bool, true, false, if◌then◌else◌, ◌≡◌, ◌≢◌, refl, sym, ◌∙◌, ap, ◌⊎◌, inl, inr, String,
  Option-cases, some, List, [], ◌∷◌, ◌++◌, ◌==◌, eq_iff,
}
use hermes_vps.Prelude.Dict.{Dict, lookup, keys}
use hermes_vps.Prelude.Flow.{ok, raise}
use hermes_vps.Core.Actions.{ActionDescriptor, ActionGraph}
use hermes_vps.Core.Actions.Policy.{validate}
use hermes_vps.App.Workflows.{
  Workflow, init, init_upgrade, plan, apply, destroy, bootstrap, verify, up, deploy, workflow_name,
  workflows, find_workflow, workflow_actions, workflow_graph, unsupported, built, build_graph,
  build_monitoring_graph, monitoring_graph,
}

pub workflow_graph-valid : (w : Workflow) → validate (workflow_graph w) ≡ ok tt
unfolding validate keys lookup
workflow_graph-valid init = refl
workflow_graph-valid init_upgrade = refl
workflow_graph-valid plan = refl
workflow_graph-valid apply = refl
workflow_graph-valid destroy = refl
workflow_graph-valid bootstrap = refl
workflow_graph-valid verify = refl
workflow_graph-valid up = refl
workflow_graph-valid deploy = refl

pub build_graph-name : (w : Workflow) → build_graph (workflow_name w) ≡ ok (workflow_graph w)
unfolding build_graph keys lookup
build_graph-name init = refl
build_graph-name init_upgrade = refl
build_graph-name plan = refl
build_graph-name apply = refl
build_graph-name destroy = refl
build_graph-name bootstrap = refl
build_graph-name verify = refl
build_graph-name up = refl
build_graph-name deploy = refl

find_workflow-name :
    (ws : List Workflow) (name : String) {w : Workflow}
    → find_workflow ws name ≡ some w
    → workflow_name w ≡ name
unfolding find_workflow
find_workflow-name [] name e = absurd (cc)
find_workflow-name (v ∷ ws) name {w} e =
    go (workflow_name v == name) refl (find_workflow-name ws name) e
  where
    go :
        (b : Bool)
        → (workflow_name v == name) ≡ b
        → (find_workflow ws name ≡ some w → workflow_name w ≡ name)
        → (if b then some v else find_workflow ws name) ≡ some w
        → workflow_name w ≡ name
    go true same later h = let named = (eq_iff (workflow_name v) name).0 same in cc
    go false other later h = later h

abbrev up_steps : List String
up_steps = "tofu_init" ∷ "tofu_plan" ∷ "tofu_apply" ∷ []

abbrev bootstrap_steps : List String
bootstrap_steps = "bootstrap_resolve_target" ∷ "bootstrap_execute_remote" ∷ []

abbrev verify_steps : List String
verify_steps = "verify_resolve_target" ∷ "verify_execute_remote" ∷ []

-- The actions of a workflow, in order.
abbrev pub steps : Workflow → List String
steps init = "tofu_init" ∷ []
steps init_upgrade = "tofu_init_upgrade" ∷ []
steps plan = "tofu_plan" ∷ []
steps apply = "tofu_apply" ∷ []
steps destroy = "tofu_destroy" ∷ []
steps bootstrap = bootstrap_steps
steps verify = verify_steps
steps up = up_steps
steps deploy = up_steps ++ bootstrap_steps ++ verify_steps

-- Each action stands under its id, and depends on the one before it and no other.
abbrev pub IsChain : List String → Dict ActionDescriptor → Type 0
IsChain before [] = Unit
IsChain before ((id, a) ∷ actions) =
    (a.action_id ≡ id) × (a.deps ≡ before) × IsChain (id ∷ []) actions

abbrev pub IsPipeline : Workflow → ActionGraph → Type 0
IsPipeline w g =
    (g.name ≡ workflow_name w)
    × (keys g.actions ≡ steps w)
    × IsChain [] g.actions
    × (validate g ≡ ok tt)

workflow_graph-IsPipeline : (w : Workflow) → IsPipeline w (workflow_graph w)
unfolding keys
workflow_graph-IsPipeline w = (refl, in_order w, in_chain w, workflow_graph-valid w)
  where
    in_order : (v : Workflow) → keys (workflow_actions v) ≡ steps v
    in_order init = refl
    in_order init_upgrade = refl
    in_order plan = refl
    in_order apply = refl
    in_order destroy = refl
    in_order bootstrap = refl
    in_order verify = refl
    in_order up = refl
    in_order deploy = refl

    in_chain : (v : Workflow) → IsChain [] (workflow_actions v)
    in_chain init = (refl, refl, tt)
    in_chain init_upgrade = (refl, refl, tt)
    in_chain plan = (refl, refl, tt)
    in_chain apply = (refl, refl, tt)
    in_chain destroy = (refl, refl, tt)
    in_chain bootstrap = (refl, refl, (refl, refl, tt))
    in_chain verify = (refl, refl, (refl, refl, tt))
    in_chain up = (refl, refl, (refl, refl, (refl, refl, tt)))
    in_chain deploy = (
      refl,
      refl,
      (refl, refl, (refl, refl, (refl, refl, (refl, refl, (refl, refl, (refl, refl, tt)))))),
    )

workflow_name-found : (w : Workflow) → find_workflow workflows (workflow_name w) ≡ some w
unfolding find_workflow
workflow_name-found init = refl
workflow_name-found init_upgrade = refl
workflow_name-found plan = refl
workflow_name-found apply = refl
workflow_name-found destroy = refl
workflow_name-found bootstrap = refl
workflow_name-found verify = refl
workflow_name-found up = refl
workflow_name-found deploy = refl

-- For the name of a workflow its graph is built: it has that name and the workflow's steps in order,
-- each of which depends on exactly the one before it, and it passes validation; the steps of deploy
-- are those of up, bootstrap and verify. Any other name is refused as unsupported.
pub build_graph-IsPipeline :
    (name : String)
    → ((w : Workflow) × (workflow_name w ≡ name)
        × ((g : ActionGraph) × (build_graph name ≡ ok g) × IsPipeline w g))
      ⊎ (((w : Workflow) → workflow_name w ≢ name) × (build_graph name ≡ raise (unsupported name)))
build_graph-IsPipeline name = elim (Option-cases (find_workflow workflows name)) [
  | inl none_found ↦ inr (
    λ w named. absurd (
        let found : find_workflow workflows name ≡ some w =
          ap (find_workflow workflows) (sym named) ∙ workflow_name-found w in
        cc),
    unfold build_graph built in (rw none_found refl),
  )
  | inr (w, found) ↦
      let named = find_workflow-name workflows name found in
      inl (
        w,
        named,
        (
          workflow_graph w,
          ap build_graph (sym named) ∙ build_graph-name w,
          workflow_graph-IsPipeline w,
        ),
      )
]

-- The monitoring graph passes its validation.
build_monitoring_graph-ok : build_monitoring_graph ≡ ok monitoring_graph
unfolding build_monitoring_graph keys lookup
build_monitoring_graph-ok = refl
