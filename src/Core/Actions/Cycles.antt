-- ===== src/Core/Actions/Cycles.antt =====
-- What the depth-first search of `_validate_graph` establishes.
use hermes_vps.Prelude.{
  ℕ, zero, suc, ◌≡◌, sym, ◌∙◌, true, String, some, List, [], ◌∷◌, arith, inl, inr, length, elem,
  elem-head, elem-tail, All, Bool-cases, Option-cases,
}
use mathlib.Core.Path.{subst}
use mathlib.Core.Option.{some-injective}
use hermes_vps.Prelude.Dict.{Dict, lookup, keys}
use hermes_vps.Prelude.Flow.{ok, raise}
use hermes_vps.Core.Actions.{ActionDescriptor}
use hermes_vps.Core.Actions.Validate.{Visited, dfs_all, close, dfs, check_cycles}

module _ (actions : Dict ActionDescriptor) where
  -- The dependencies of each name of the list stand behind it.
  abbrev pub IsTopological : List String → Type 0
  IsTopological [] = Unit
  IsTopological (n ∷ vs) =
      ((a : ActionDescriptor) → lookup n actions ≡ some a → All (λ d. elem d vs ≡ true) a.deps)
      × IsTopological vs

abbrev Extends : List String → List String → Type 0
Extends vs ws = (k : String) → elem k vs ≡ true → elem k ws ≡ true

module _ (actions : Dict ActionDescriptor) where
  -- A search for `targets` that returns has them all, in topological order.
  abbrev Sound : List String → List String → Visited → Type 0
  Sound targets vs (ok ws) =
      IsTopological actions ws × Extends vs ws × All (λ t. elem t ws ≡ true) targets
  Sound targets vs (raise e) = Unit

  after_first :
      (visit : String → List String → Visited) (d : String) (ds vs : List String) (r : Visited)
      → ((ws : List String) → IsTopological actions ws → Sound ds ws (dfs_all visit ds ws))
      → Sound (d ∷ []) vs r
      → Sound (d ∷ ds) vs (elim r [ ok ws ↦ dfs_all visit ds ws | raise e ↦ raise e ])
  after_first visit d ds vs (raise e) rest h = tt
  after_first visit d ds vs (ok ws) rest h = join (dfs_all visit ds ws) (rest ws h.0)
    where
      join : (r : Visited) → Sound ds ws r → Sound (d ∷ ds) vs r
      join (raise e) k = tt
      join (ok us) k = (k.0, λ x m. k.1 x (h.1 x m), (k.1 d h.2.0, k.2))

  dfs_all-Sound :
      (visit : String → List String → Visited)
      → ((d : String) (vs : List String)
          → IsTopological actions vs
          → Sound (d ∷ []) vs (visit d vs))
      → (ds vs : List String) → IsTopological actions vs
      → Sound ds vs (dfs_all visit ds vs)
  dfs_all-Sound visit h [] vs t = (t, λ x m. m, tt)
  dfs_all-Sound visit h (d ∷ ds) vs t =
      after_first visit d ds vs (visit d vs) (λ ws t'. dfs_all-Sound visit h ds ws t') (h d vs t)

  close-Sound :
      (node : String) (a : ActionDescriptor) (vs : List String) (r : Visited)
      → lookup node actions ≡ some a
      → Sound a.deps vs r
      → Sound (node ∷ []) vs (close node r)
  close-Sound node a vs (raise e) found h = tt
  close-Sound node a vs (ok ws) found h = (
    (
      λ b e.
          subst (λ (c : ActionDescriptor). All (λ d. elem d ws ≡ true) c.deps)
            (some-injective a b (sym found ∙ e)) h.2,
      h.0,
    ),
    λ x m. elem-tail x node ws (h.1 x m),
    (elem-head node ws, tt),
  )

  dfs-Sound :
      (fuel : ℕ) (visiting : List String) (node : String) (vs : List String)
      → IsTopological actions vs
      → Sound (node ∷ []) vs (dfs actions fuel visiting node vs)
  unfolding dfs
  dfs-Sound zero visiting node vs t = tt
  dfs-Sound (suc fuel) visiting node vs t = elim (Bool-cases (elem node vs)) [
    | inl seen ↦ rw (seen, dfs) (t, λ x m. m, (seen, tt))
    | inr new ↦ elim (Bool-cases (elem node visiting)) [
      | inl open_node ↦ rw (new, open_node, dfs) tt
      | inr fresh ↦ elim (Option-cases (lookup node actions)) [
        | inl absent ↦ rw (new, fresh, absent, dfs) tt
        | inr (a, found) ↦
            rw (new, fresh, found, dfs)
              (close-Sound node a vs _ found (
                dfs_all-Sound (dfs actions fuel (node ∷ visiting))
                  (dfs-Sound fuel (node ∷ visiting)) a.deps vs t))
      ]
    ]
  ]

  -- What the search returns is a topological order of all nodes.
  abbrev pub Ordered : List String → Type 0
  Ordered vs = IsTopological actions vs × All (λ k. elem k vs ≡ true) (keys actions)

  Sound-Ordered :
      (r : Visited) (vs : List String) → Sound (keys actions) [] r → r ≡ ok vs → Ordered vs
  Sound-Ordered (ok ws) vs h e = subst Ordered (ground arith) (h.0, h.2)
  Sound-Ordered (raise x) vs h e = absurd (cc)

  pub check_cycles-Ordered : (vs : List String) → check_cycles actions ≡ ok vs → Ordered vs
  check_cycles-Ordered vs e =
      Sound-Ordered (check_cycles actions) vs
        (dfs_all-Sound (dfs actions (suc (length (keys actions))) [])
          (λ d ws t. dfs-Sound (suc (length (keys actions))) [] d ws t) (keys actions) [] tt)
        e
