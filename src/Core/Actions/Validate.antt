-- ===== src/Core/Actions/Validate.antt =====
-- `_validate_graph`: keys, dependencies and the depth-first search for cycles.
use hermes_vps.Prelude.{
  ℕ, zero, suc, true, false, String, none, some, List, [], ◌∷◌, ◌==◌, length, elem, if◌then◌else◌,
}
use hermes_vps.Prelude.Dict.{Dict, lookup, keys}
use hermes_vps.Prelude.Flow.{Result, ok, raise}
use hermes_vps.Core.Actions.{ActionDescriptor}

-- One constructor for each `raise ValueError` of the checks, and for `actions[node]` on a
-- missing key. `out_of_fuel` is the model's own.
pub data GraphError : Type 0 where
  key_mismatch : String → String → GraphError
  unknown_dependency : String → String → GraphError
  cycle_detected : String → GraphError
  missing_key : String → GraphError
  out_of_fuel : GraphError

abbrev pub Visited : Type 0
Visited = Result GraphError (List String)

-- for dep in deps: dfs(dep)
abbrev pub dfs_all : (String → List String → Visited) → List String → List String → Visited
dfs_all visit [] visited = ok visited
dfs_all visit (d ∷ ds) visited = elim (visit d visited) [
  | ok visited' ↦ dfs_all visit ds visited'
  | raise e ↦ raise e
]

-- visiting.remove(node); visited.add(node)
abbrev pub close : String → Visited → Visited
close node (ok visited) = ok (node ∷ visited)
close node (raise e) = raise e

-- `visiting` is the path of open nodes: a node is on it for the calls on its dependencies.
module _ (actions : Dict ActionDescriptor) where
  unfoldable pub dfs : ℕ → List String → String → List String → Visited
  dfs zero visiting node visited = raise out_of_fuel
  dfs (suc fuel) visiting node visited = elim (elem node visited) [
    | true ↦ ok visited
    | false ↦ elim (elem node visiting) [
      | true ↦ raise (cycle_detected node)
      | false ↦ elim (lookup node actions) [
        | none ↦ raise (missing_key node)
        | some a ↦ close node (dfs_all (dfs fuel (node ∷ visiting)) a.deps visited)
      ]
    ]
  ]

  -- for node in actions: dfs(node)
  abbrev pub check_cycles : Visited
  check_cycles = dfs_all (dfs (suc (length (keys actions))) []) (keys actions) []

-- The first loop: each key is its descriptor's own id.
unfoldable pub check_keys : Dict ActionDescriptor → Result GraphError (Unit {0})
check_keys [] = ok tt
check_keys ((key, a) ∷ rest) =
    if a.action_id == key then check_keys rest else raise (key_mismatch key a.action_id)

unfoldable pub check_deps_of :
    Dict ActionDescriptor → String → List String → Result GraphError (Unit {0})
check_deps_of actions id [] = ok tt
check_deps_of actions id (d ∷ ds) =
    if elem d (keys actions) then check_deps_of actions id ds else raise (unknown_dependency id d)

-- The second loop: every dependency is a key.
unfoldable pub check_deps :
    Dict ActionDescriptor → Dict ActionDescriptor → Result GraphError (Unit {0})
unfolding check_deps_of
check_deps actions [] = ok tt
check_deps actions ((key, a) ∷ rest) = elim (check_deps_of actions a.action_id a.deps) [
  | ok _ ↦ check_deps actions rest
  | raise e ↦ raise e
]

unfoldable pub validate_graph : Dict ActionDescriptor → Result GraphError (Unit {0})
unfolding check_keys check_deps dfs
validate_graph actions = elim (check_keys actions) [
  | raise e ↦ raise e
  | ok _ ↦ elim (check_deps actions actions) [
    | raise e ↦ raise e
    | ok _ ↦ elim (check_cycles actions) [ raise e ↦ raise e | ok _ ↦ ok tt ]
  ]
]
