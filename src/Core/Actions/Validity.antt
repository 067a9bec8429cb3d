-- ===== src/Core/Actions/Validity.antt =====
-- `_validate_graph` accepts exactly the acyclic graphs with matching keys and known dependencies.
use hermes_vps.Prelude.{
  ℕ, ◌≡◌, refl, ◌≢◌, Bool, true, false, String, List, [], ◌∷◌, ◌==◌, eq_iff, arith, ◌↔◌, elem, All,
  if◌then◌else◌,
}
use hermes_vps.Prelude.Dict.{Dict, keys, All-lookup}
use hermes_vps.Prelude.Flow.{Result, ok, raise}
use hermes_vps.Core.Actions.{ActionDescriptor}
use hermes_vps.Core.Actions.Validate.{
  GraphError, key_mismatch, unknown_dependency, cycle_detected, missing_key, out_of_fuel, Visited,
  check_cycles, check_keys, check_deps_of, check_deps, validate_graph,
}
use hermes_vps.Core.Actions.Cycles.{Ordered, check_cycles-Ordered}
use hermes_vps.Core.Actions.Ranks.{
  IsClosed, Ranks, Ends, Acyclic, rank_in, rank_in-Ranks, check_cycles-Ends, check_cycles-Acyclic,
}

-- Each key is the id of its descriptor.
abbrev pub KeysMatch : Dict ActionDescriptor → Type 0
KeysMatch = All (λ e. e.1.action_id ≡ e.0)

abbrev pub AllKnown : List String → Dict ActionDescriptor → Type 0
AllKnown names = All (λ e. All (λ d. elem d names ≡ true) e.1.deps)

-- Each dependency is a key.
abbrev pub DepsKnown : Dict ActionDescriptor → Type 0
DepsKnown actions = AllKnown (keys actions) actions

abbrev pub HasRanks : Dict ActionDescriptor → Type 0
HasRanks actions = (rank : String → ℕ) × Ranks actions rank

-- A check that returns proves `P`, and one that raises never runs out of fuel.
abbrev Decides : Type 0 → Result GraphError (Unit {0}) → Type 0
Decides P (ok _) = P
Decides P (raise e) = (P → ⊥) × (e ≢ out_of_fuel)

check_keys-Decides :
    (actions : Dict ActionDescriptor) → Decides (KeysMatch actions) (check_keys actions)
unfolding check_keys
check_keys-Decides [] = tt
check_keys-Decides ((key, a) ∷ rest) =
    go (a.action_id == key) (eq_iff a.action_id key) (check_keys rest) (check_keys-Decides rest)
  where
    go :
        (b : Bool)
        → (b ≡ true) ↔ (a.action_id ≡ key)
        → (r : Result GraphError (Unit {0})) → Decides (KeysMatch rest) r
        → Decides
            (KeysMatch ((key, a) ∷ rest))
            (if b then r else raise (key_mismatch key a.action_id))
    go true e (ok _) h = (e.0 refl, h)
    go true e (raise x) h = (λ k. h.0 k.1, h.1)
    go false e r h = (λ k. cc (e.1 k.0), λ p. cc)

check_deps_of-Decides :
    (actions : Dict ActionDescriptor) (id : String) (ds : List String)
    → Decides (All (λ d. elem d (keys actions) ≡ true) ds) (check_deps_of actions id ds)
unfolding check_deps_of
check_deps_of-Decides actions id [] = tt
check_deps_of-Decides actions id (d ∷ ds) =
    go (elem d (keys actions)) refl (check_deps_of actions id ds)
      (check_deps_of-Decides actions id ds)
  where
    go :
        (b : Bool)
        → elem d (keys actions) ≡ b
        → (r : Result GraphError (Unit {0}))
        → Decides (All (λ d. elem d (keys actions) ≡ true) ds) r
        → Decides
            (All (λ d. elem d (keys actions) ≡ true) (d ∷ ds))
            (if b then r else raise (unknown_dependency id d))
    go true e (ok _) h = (e, h)
    go true e (raise x) h = (λ k. h.0 k.1, h.1)
    go false e r h = (λ k. cc (k.0), λ p. cc)

check_deps-Decides :
    (actions rest : Dict ActionDescriptor)
    → Decides (AllKnown (keys actions) rest) (check_deps actions rest)
unfolding check_deps
check_deps-Decides actions [] = tt
check_deps-Decides actions ((key, a) ∷ rest) =
    go (check_deps_of actions a.action_id a.deps) (check_deps_of-Decides actions a.action_id a.deps)
      (check_deps actions rest) (check_deps-Decides actions rest)
  where
    go :
        (q : Result GraphError (Unit {0}))
        → Decides (All (λ d. elem d (keys actions) ≡ true) a.deps) q
        → (r : Result GraphError (Unit {0})) → Decides (AllKnown (keys actions) rest) r
        → Decides
            (AllKnown (keys actions) ((key, a) ∷ rest))
            (elim q [ ok _ ↦ r | raise e ↦ raise e ])
    go (ok _) k (ok _) h = (k, h)
    go (ok _) k (raise x) h = (λ p. h.0 p.1, h.1)
    go (raise x) k r h = (λ p. k.0 p.0, k.1)

pub DepsKnown-IsClosed : (actions : Dict ActionDescriptor) → DepsKnown actions → IsClosed actions
DepsKnown-IsClosed actions h n a found =
    All-lookup (λ e. All (λ d. elem d (keys actions) ≡ true) e.1.deps) n actions h found

module _ (actions : Dict ActionDescriptor) where
  abbrev pub IsValid : Type 0
  IsValid = KeysMatch actions × DepsKnown actions × HasRanks actions

  check_cycles-Decides :
      DepsKnown actions
      → Decides
          (HasRanks actions)
          (elim (check_cycles actions) [ raise e ↦ raise e | ok _ ↦ ok tt ])
  check_cycles-Decides known =
      go (check_cycles actions) (check_cycles-Ordered actions)
        (check_cycles-Ends actions (DepsKnown-IsClosed actions known))
        (check_cycles-Acyclic actions)
    where
      go :
          (r : Visited)
          → ((vs : List String) → r ≡ ok vs → Ordered actions vs)
          → Ends actions r
          → ((rank : String → ℕ) → Ranks actions rank → Acyclic actions r)
          → Decides (HasRanks actions) (elim r [ raise e ↦ raise e | ok _ ↦ ok tt ])
      go (ok vs) o e a = (rank_in vs, rank_in-Ranks actions vs (o vs refl))
      go (raise (cycle_detected n)) o e a = (λ k. a k.0 k.1, λ p. cc)
      go (raise (key_mismatch x y)) o e a = absurd e
      go (raise (unknown_dependency x y)) o e a = absurd e
      go (raise (missing_key x)) o e a = absurd e
      go (raise out_of_fuel) o e a = absurd e

  validate_graph-Decides : Decides IsValid (validate_graph actions)
  unfolding validate_graph
  validate_graph-Decides =
      go (check_keys actions) (check_keys-Decides actions) (check_deps actions actions)
        (check_deps-Decides actions actions)
    where
      go :
          (q : Result GraphError (Unit {0}))
          → Decides (KeysMatch actions) q
          → (r : Result GraphError (Unit {0})) → Decides (DepsKnown actions) r
          → Decides IsValid (elim q [
            | raise e ↦ raise e
            | ok _ ↦ elim r [
              | raise e ↦ raise e
              | ok _ ↦ elim (check_cycles actions) [ raise e ↦ raise e | ok _ ↦ ok tt ]
            ]
          ])
      go (raise x) h r k = (λ v. h.0 v.0, h.1)
      go (ok _) h (raise x) k = (λ v. k.0 v.1, k.1)
      go (ok _) h (ok _) k =
          both (elim (check_cycles actions) [ raise e ↦ raise e | ok _ ↦ ok tt ])
            (check_cycles-Decides k)
        where
          both :
              (s : Result GraphError (Unit {0})) → Decides (HasRanks actions) s → Decides IsValid s
          both (ok _) l = (h, k, l)
          both (raise x) l = (λ v. l.0 v.2, l.1)

  -- Validation accepts a graph exactly if each key is the id of its descriptor, each dependency is
  -- a key, and some rank falls from every action to each of its dependencies (so no action
  -- depends on itself, through however many others).
  pub validate_graph_iff : (validate_graph actions ≡ ok tt) ↔ IsValid
  validate_graph_iff = go (validate_graph actions) validate_graph-Decides
    where
      go : (r : Result GraphError (Unit {0})) → Decides IsValid r → (r ≡ ok tt) ↔ IsValid
      go (ok _) h = (λ e. h, λ v. refl)
      go (raise x) h = (λ e. cc, λ v. absurd (h.0 v))

  -- The search never needs more fuel than one level for each action, and one: validation ends.
  pub validate_graph-ne-out_of_fuel : validate_graph actions ≢ raise out_of_fuel
  validate_graph-ne-out_of_fuel e = go (validate_graph actions) validate_graph-Decides e
    where
      go : (r : Result GraphError (Unit {0})) → Decides IsValid r → r ≢ raise out_of_fuel
      go (ok _) h e = cc
      go (raise x) h e = h.1 (ground arith)
