-- ===== src/Core/Actions/Ranks.antt =====
-- Fuel and completeness of the depth-first search, and ranks of the nodes.
use mathlib.Core.Path.{subst}
use hermes_vps.Prelude.{
  ℕ, zero, suc, ◌≤◌, ◌<◌, ◌≡◌, refl, true, String, some, List, [], ◌∷◌, ◌==◌, eq_iff, arith, inl,
  inr, length, elem, elem-head, elem-tail, All, All-map, All-elem, unseen, unseen-cons-lt,
  unseen-le-length, if◌then◌else◌, Bool-cases, Option-cases,
}
use hermes_vps.Prelude.Dict.{Dict, lookup, keys, elem-keys}
use hermes_vps.Prelude.Flow.{ok, raise}
use hermes_vps.Core.Actions.{ActionDescriptor}
use hermes_vps.Core.Actions.Validate.{cycle_detected, Visited, dfs_all, close, dfs, check_cycles}
use hermes_vps.Core.Actions.Cycles.{IsTopological, Ordered}

module _ (actions : Dict ActionDescriptor) where
  -- Every dependency of every action is a key.
  abbrev pub IsClosed : Type 0
  IsClosed =
      (n : String) (a : ActionDescriptor)
      → lookup n actions ≡ some a
      → All (λ d. elem d (keys actions) ≡ true) a.deps

  -- A rank that falls from an action to each of its dependencies: there is no cycle.
  abbrev pub Ranks : (String → ℕ) → Type 0
  Ranks rank =
      (n : String) (a : ActionDescriptor)
      → lookup n actions ≡ some a
      → All (λ d. rank d < rank n) a.deps

  -- A search that returns, or finds a cycle.
  abbrev pub Ends : Visited → Type 0
  Ends (ok vs) = Unit
  Ends (raise (cycle_detected n)) = Unit
  Ends (raise e) = ⊥

  -- A search that returns, or runs out of what the model adds.
  abbrev pub Acyclic : Visited → Type 0
  Acyclic (raise (cycle_detected n)) = ⊥
  Acyclic _ = Unit

  dfs_all_ind :
      (P : Visited → Type 0) (R : String → Type 0) (visit : String → List String → Visited)
      → ((vs : List String) → P (ok vs))
      → ((d : String) (vs : List String) → R d → P (visit d vs))
      → (ds vs : List String) → All R ds
      → P (dfs_all visit ds vs)
  dfs_all_ind P R visit base step [] vs h = base vs
  dfs_all_ind P R visit base step (d ∷ ds) vs h =
      go (visit d vs) (step d vs h.0) (λ ws. dfs_all_ind P R visit base step ds ws h.1)
    where
      go :
          (r : Visited)
          → P r
          → ((ws : List String) → P (dfs_all visit ds ws))
          → P (elim r [ ok ws ↦ dfs_all visit ds ws | raise e ↦ raise e ])
      go (ok ws) p k = k ws
      go (raise e) p k = p

  close-Ends : (node : String) (r : Visited) → Ends r → Ends (close node r)
  close-Ends node (ok vs) h = tt
  close-Ends node (raise (cycle_detected n)) h = tt
  close-Ends node (raise _) h = h

  close-Acyclic : (node : String) (r : Visited) → Acyclic r → Acyclic (close node r)
  close-Acyclic node (ok vs) h = tt
  close-Acyclic node (raise (cycle_detected n)) h = h
  close-Acyclic node (raise _) h = h

  mem_keys :
      (n : String) {a : ActionDescriptor} → lookup n actions ≡ some a → elem n (keys actions) ≡ true
  mem_keys n e = rw (elem-keys n actions, e) refl

  module _ (closed : IsClosed) where
    -- The open nodes are distinct keys, so the fuel covers the deepest path.
    dfs-Ends :
        (fuel : ℕ) (visiting : List String) (node : String) (vs : List String)
        → unseen visiting (keys actions) < fuel
        → elem node (keys actions) ≡ true
        → Ends (dfs actions fuel visiting node vs)
    unfolding dfs
    dfs-Ends zero visiting node vs h m = absurd (omega arith)
    dfs-Ends (suc fuel) visiting node vs h m = elim (Bool-cases (elem node vs)) [
      | inl seen ↦ rw (seen, dfs) tt
      | inr new ↦ elim (Bool-cases (elem node visiting)) [
        | inl open_node ↦ rw (new, open_node, dfs) tt
        | inr fresh ↦ elim (Option-cases (lookup node actions)) [
          | inl absent ↦ absurd (cc (elem-keys node actions))
          | inr (a, found) ↦
              rw (new, fresh, found, dfs)
                (close-Ends node _ (
                  dfs_all_ind Ends (λ d. elem d (keys actions) ≡ true)
                    (dfs actions fuel (node ∷ visiting)) (λ ws. tt)
                    (λ d ws k.
                      dfs-Ends fuel (node ∷ visiting) d ws
                        (omega (arith, unseen-cons-lt node visiting (keys actions) m fresh)) k)
                    a.deps vs (closed node a found)))
        ]
      ]
    ]

  module _ (rank : String → ℕ) (ranks : Ranks rank) where
    -- Every open node ranks above the node that is entered, so none is entered twice.
    dfs-Acyclic :
        (fuel : ℕ) (visiting : List String) (node : String) (vs : List String)
        → All (λ v. rank node < rank v) visiting
        → Acyclic (dfs actions fuel visiting node vs)
    unfolding dfs
    dfs-Acyclic zero visiting node vs h = tt
    dfs-Acyclic (suc fuel) visiting node vs h = elim (Bool-cases (elem node vs)) [
      | inl seen ↦ rw (seen, dfs) tt
      | inr new ↦ elim (Bool-cases (elem node visiting)) [
        | inl open_node ↦
            let below : rank node < rank node =
              All-elem (λ v. rank node < rank v) node visiting h open_node in
            absurd (omega arith)
        | inr fresh ↦ elim (Option-cases (lookup node actions)) [
          | inl absent ↦ rw (new, fresh, absent, dfs) tt
          | inr (a, found) ↦
              rw (new, fresh, found, dfs)
                (close-Acyclic node _ (
                  dfs_all_ind Acyclic (λ d. rank d < rank node) (dfs actions fuel (node ∷ visiting))
                    (λ ws. tt)
                    (λ d ws k. dfs-Acyclic fuel (node ∷ visiting) d ws (
                      k,
                      All-map (λ v. rank node < rank v) (λ v. rank d < rank v) visiting
                          (λ v (l : rank node < rank v). omega arith) h,
                    ))
                    a.deps vs (ranks node a found)))
        ]
      ]
    ]

-- A name ranks by how much of the list stands behind its last occurrence.
unfoldable pub rank_in : List String → String → ℕ
rank_in [] n = 0
rank_in (v ∷ vs) n = if elem n vs then rank_in vs n else if v == n then suc (length vs) else 0

rank_in-le : (vs : List String) (n : String) → rank_in vs n ≤ length vs
unfolding rank_in
rank_in-le [] n = omega arith
rank_in-le (v ∷ vs) n = ground (arith, rank_in-le vs n)

module _ (actions : Dict ActionDescriptor) where
  rank_in_deps :
      (vs : List String) (n : String) (a : ActionDescriptor)
      → IsTopological actions vs
      → elem n vs ≡ true
      → lookup n actions ≡ some a
      → All (λ d. (elem d vs ≡ true) × (rank_in vs d < rank_in vs n)) a.deps
  unfolding elem
  rank_in_deps [] n a t m e = absurd (cc)
  rank_in_deps (v ∷ vs) n a t m e = elim (Bool-cases (elem n vs)) [
    | inl later ↦
        All-map (λ d. (elem d vs ≡ true) × (rank_in vs d < rank_in vs n))
          (λ d. (elem d (v ∷ vs) ≡ true) × (rank_in (v ∷ vs) d < rank_in (v ∷ vs) n)) a.deps
          (λ d k. unfold rank_in in ground arith) (rank_in_deps vs n a t.1 later e)
    | inr first ↦
        All-map (λ d. elem d vs ≡ true)
          (λ d. (elem d (v ∷ vs) ≡ true) × (rank_in (v ∷ vs) d < rank_in (v ∷ vs) n)) a.deps
          (λ d k. unfold rank_in in ground (arith, rank_in-le vs d))
          (t.0 a (subst (λ k. lookup k actions ≡ some a) (ground (arith, eq_iff v n)) e))
  ]

  -- The list that the search returns ranks every node.
  pub rank_in-Ranks : (vs : List String) → Ordered actions vs → Ranks actions (rank_in vs)
  rank_in-Ranks vs h n a found =
      All-map (λ d. (elem d vs ≡ true) × (rank_in vs d < rank_in vs n))
        (λ d. rank_in vs d < rank_in vs n) a.deps (λ d k. k.1)
        (rank_in_deps vs n a h.0
          (All-elem (λ k. elem k vs ≡ true) n (keys actions) h.1 (mem_keys actions n found)) found)

  known_keys : (names : List String) → All (λ k. elem k names ≡ true) names
  known_keys [] = tt
  known_keys (n ∷ ns) = (
    elem-head n ns,
    All-map (λ k. elem k ns ≡ true) (λ k. elem k (n ∷ ns) ≡ true) ns (λ k h. elem-tail k n ns h)
        (known_keys ns),
  )

  pub check_cycles-Ends : IsClosed actions → Ends actions (check_cycles actions)
  check_cycles-Ends closed =
      dfs_all_ind actions (Ends actions) (λ d. elem d (keys actions) ≡ true)
        (dfs actions (suc (length (keys actions))) []) (λ vs. tt)
        (λ d vs m.
          dfs-Ends actions closed (suc (length (keys actions))) [] d vs
            (omega (arith, unseen-le-length [] (keys actions))) m)
        (keys actions) [] (known_keys (keys actions))

  pub check_cycles-Acyclic :
      (rank : String → ℕ) → Ranks actions rank → Acyclic actions (check_cycles actions)
  check_cycles-Acyclic rank ranks =
      dfs_all_ind actions (Acyclic actions) (λ d. Unit)
        (dfs actions (suc (length (keys actions))) []) (λ vs. tt)
        (λ d vs m. dfs-Acyclic actions rank ranks (suc (length (keys actions))) [] d vs tt)
        (keys actions) []
        (All-map (λ k. elem k (keys actions) ≡ true) (λ d. Unit) (keys actions) (λ d m. tt)
          (known_keys (keys actions)))
