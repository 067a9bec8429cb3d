-- ===== src/App/Preview/Order.antt =====
-- The order of a preview: it ends, has every action, and each action comes after its dependencies.
use mathlib.Core.Path.{subst}
use hermes_vps.Prelude.{
  ℕ, zero, suc, ◌≤◌, ◌<◌, ◌≡◌, refl, sym, ap, ◌⊎◌, inl, inr, Bool, true, false, String, some, List,
  [], ◌∷◌, ◌++◌, ◌==◌, eq_iff, arith, elem, all-All, All-all, length, All, All-map, elem-head,
  elem-tail, elem-append_left, elem-append_right, if◌then◌else◌, Bool-cases, Option-cases,
}
use hermes_vps.Prelude.Dict.{NodupKeys, Dict, lookup, keys, elem-keys, All-lookup}
use hermes_vps.Prelude.Flow.{Result, ok}
use hermes_vps.Core.Actions.{ActionDescriptor, ActionGraph}
use hermes_vps.Core.Actions.Ranks.{Ranks}
use hermes_vps.Core.Actions.Validity.{DepsKnown, DepsKnown-IsClosed, IsValid}
use hermes_vps.Core.Actions.Frontier.{All-self}
use hermes_vps.App.Preview.{
  PreviewError, is_ready, ready_ids, without, without_all, order_turn, order_from,
  topological_action_order,
}

-- Removing names.
without-length-le : (id : String) (xs : List String) → length (without id xs) ≤ length xs
unfolding without
without-length-le id [] = omega arith
without-length-le id (x ∷ xs) = ground (arith, without-length-le id xs)

without-length-lt :
    (id : String) (xs : List String) → elem id xs ≡ true → length (without id xs) < length xs
unfolding without elem
without-length-lt id [] h = absurd (cc)
without-length-lt id (x ∷ xs) h = ground (arith, without-length-lt id xs, without-length-le id xs)

without_all-length-le : (ids xs : List String) → length (without_all ids xs) ≤ length xs
unfolding without_all
without_all-length-le [] xs = omega arith
without_all-length-le (id ∷ ids) xs =
    omega (arith, without_all-length-le ids (without id xs), without-length-le id xs)

without-elem :
    (k id : String) (xs : List String)
    → elem k (without id xs) ≡ false
    → (elem k xs ≡ false) ⊎ ((id == k) ≡ true)
unfolding without elem
without-elem k id [] h = inl refl
without-elem k id (x ∷ xs) h =
    ground (arith, without-elem k id xs, eq_iff x id, eq_iff x k, eq_iff id k)

without_all-elem :
    (k : String) (ids xs : List String)
    → elem k (without_all ids xs) ≡ false
    → (elem k xs ≡ false) ⊎ (elem k ids ≡ true)
unfolding without_all elem
without_all-elem k [] xs h = inl h
without_all-elem k (id ∷ ids) xs h = elim (without_all-elem k ids (without id xs) h) [
  | inr later ↦ inr (ground arith)
  | inl gone ↦ elim (without-elem k id xs gone) [
    | inl absent ↦ inl absent
    | inr same ↦ inr (ground arith)
  ]
]

without-All :
    (P : String → Type 0) (id : String) (xs : List String) → All P xs → All P (without id xs)
unfolding without
without-All P id [] h = tt
without-All P id (x ∷ xs) h = elim (Bool-cases (x == id)) [
  | inl same ↦ rw same (without-All P id xs h.1)
  | inr other ↦ rw other (h.0, without-All P id xs h.1)
]

without_all-All :
    (P : String → Type 0) (ids xs : List String) → All P xs → All P (without_all ids xs)
unfolding without_all
without_all-All P [] xs h = h
without_all-All P (id ∷ ids) xs h = without_all-All P ids (without id xs) (without-All P id xs h)

append_nil : (xs : List String) → xs ++ [] ≡ xs
append_nil [] = refl
append_nil (x ∷ xs) = ap (λ ys. x ∷ ys) (append_nil xs)

append_one :
    (xs : List String) (x : String) (ys : List String) → (xs ++ (x ∷ [])) ++ ys ≡ xs ++ (x ∷ ys)
append_one [] x ys = refl
append_one (w ∷ xs) x ys = ap (λ zs. w ∷ zs) (append_one xs x ys)

module _ (actions : Dict ActionDescriptor) where
  -- The dependencies of each name are among the names seen before it.
  abbrev pub Follows : List String → List String → Type 0
  Follows seen [] = Unit
  Follows seen (id ∷ ids) =
      ((a : ActionDescriptor) × (lookup id actions ≡ some a) × All (λ d. elem d seen ≡ true) a.deps)
      × Follows (seen ++ (id ∷ [])) ids

  -- An action that a turn finds.
  abbrev Found : List String → List String → String → Type 0
  Found ordered remaining id =
      (elem id remaining ≡ true)
      × ((a : ActionDescriptor) × (lookup id actions ≡ some a)
          × All (λ d. elem d ordered ≡ true) a.deps)

  ready_ids-Found :
      (ordered remaining : List String) (part : Dict ActionDescriptor)
      → All (λ e. lookup e.0 actions ≡ some e.1) part
      → All (Found ordered remaining) (ready_ids ordered remaining part)
  unfolding ready_ids
  ready_ids-Found ordered remaining [] h = tt
  ready_ids-Found ordered remaining ((id, a) ∷ part) (here, h) =
      elim (Bool-cases (is_ready ordered remaining (id, a))) [
        | inl ready ↦ rw ready (
          (ground arith, (a, here, all-All (λ d. elem d ordered) a.deps (ground arith))),
          ready_ids-Found ordered remaining part h,
        )
        | inr waits ↦ rw waits (ready_ids-Found ordered remaining part h)
      ]

  ready_ids-none :
      (ordered remaining : List String) (part : Dict ActionDescriptor)
      → ready_ids ordered remaining part ≡ []
      → All (λ e. is_ready ordered remaining e ≡ false) part
  unfolding ready_ids
  ready_ids-none ordered remaining [] h = tt
  ready_ids-none ordered remaining (e ∷ part) h =
      go (is_ready ordered remaining e) refl (ready_ids-none ordered remaining part) h
    where
      go :
          (b : Bool)
          → is_ready ordered remaining e ≡ b
          → (ready_ids ordered remaining part ≡ []
              → All (λ f. is_ready ordered remaining f ≡ false) part)
          → (if b then e.0 ∷ ready_ids ordered remaining part else ready_ids ordered remaining part)
            ≡ []
          → (is_ready ordered remaining e ≡ false)
            × All (λ f. is_ready ordered remaining f ≡ false) part
      go true p later k = absurd (cc)
      go false p later k = (p, later k)

  Follows-append :
      (seen xs ys : List String)
      → Follows seen xs
      → Follows (seen ++ xs) ys
      → Follows seen (xs ++ ys)
  Follows-append seen [] ys h k = subst (λ s. Follows s ys) (append_nil seen) k
  Follows-append seen (x ∷ xs) ys h k = (
    h.0,
    Follows-append (seen ++ (x ∷ [])) xs ys h.1
        (subst (λ s. Follows s ys) (sym (append_one seen x xs)) k),
  )

  -- A batch whose dependencies were all there before it.
  batch-Follows :
      (seen ordered remaining ids : List String)
      → ((d : String) → elem d ordered ≡ true → elem d seen ≡ true)
      → All (Found ordered remaining) ids
      → Follows seen ids
  batch-Follows seen ordered remaining [] sub h = tt
  batch-Follows seen ordered remaining (id ∷ ids) sub ((_, (a, found, deps)), h) = (
    (a, found, All-map (λ d. elem d ordered ≡ true) (λ d. elem d seen ≡ true) a.deps sub deps),
    batch-Follows (seen ++ (id ∷ [])) ordered remaining ids
        (λ d m. elem-append_left d seen (id ∷ []) (sub d m)) h,
  )

  -- A key that is no longer remaining is ordered.
  abbrev Covers : List String → List String → Type 0
  Covers ordered remaining =
      (k : String) → elem k (keys actions) ≡ true → elem k remaining ≡ false → elem k ordered ≡ true

  module _ (deps_known : DepsKnown actions) (rank : String → ℕ) (ranks : Ranks actions rank)
      (ordered remaining : List String) (covers : Covers ordered remaining) where
    deps_ordered :
        (n : ℕ)
        → ((d : String) (b : ActionDescriptor)
            → rank d < n
            → lookup d actions ≡ some b
            → elem d remaining ≡ false)
        → (bound : ℕ) → bound ≤ n
        → (names : List String) → All (λ d. elem d (keys actions) ≡ true) names
        → All (λ d. rank d < bound) names
        → All (λ d. elem d ordered ≡ true) names
    deps_ordered n below bound le [] h r = tt
    deps_ordered n below bound le (d ∷ names) (known, h) (lower_rank, r) = (
      elim (Option-cases (lookup d actions)) [
        | inl absent ↦ absurd (let is_key = elem-keys d actions in cc)
        | inr (b, found) ↦ covers d known (below d b (omega arith) found)
      ],
      deps_ordered n below bound le names h r,
    )

    -- Where a turn finds nothing, nothing is remaining: by induction on the rank.
    stuck :
        All (λ e. is_ready ordered remaining e ≡ false) actions
        → (n : ℕ) (k : String) (a : ActionDescriptor) → rank k < n
        → lookup k actions ≡ some a
        → elem k remaining ≡ false
    stuck none_ready zero k a lt found = absurd (omega arith)
    stuck none_ready (suc n) k a lt found = elim (Bool-cases (elem k remaining)) [
      | inr gone ↦ gone
      | inl there ↦
          let deps =
            deps_ordered n (stuck none_ready n) (rank k) (omega arith) a.deps
              (DepsKnown-IsClosed actions deps_known k a found) (ranks k a found) in
          let all_there = All-all (λ d. elem d ordered) a.deps deps in
          let waits =
            All-lookup (λ e. is_ready ordered remaining e ≡ false) k actions none_ready found in
          absurd (ground arith)
    ]

-- A result that lists every action, each after its dependencies.
abbrev pub IsOrder : Dict ActionDescriptor → Result PreviewError (List String) → Type 0
IsOrder actions r =
    (ids : List String) × (r ≡ ok ids)
    × Follows actions [] ids
    × ((k : String) → elem k (keys actions) ≡ true → elem k ids ≡ true)

module _ (graph : ActionGraph) (distinct : NodupKeys graph.actions)
    (deps_known : DepsKnown graph.actions) (rank : String → ℕ)
    (ranks : Ranks graph.actions rank) where
  order_from-IsOrder :
      (fuel : ℕ) (ordered remaining : List String)
      → length remaining ≤ fuel
      → Covers graph.actions ordered remaining
      → All (λ k. elem k (keys graph.actions) ≡ true) remaining
      → Follows graph.actions [] ordered
      → IsOrder graph.actions (order_from graph fuel ordered remaining)
  unfolding order_from elem order_turn without_all
  order_from-IsOrder fuel ordered [] enough covers known follows =
      (ordered, refl, follows, λ k key. covers k key refl)
  order_from-IsOrder zero ordered (x ∷ xs) enough covers known follows = absurd (omega arith)
  order_from-IsOrder (suc fuel) ordered (x ∷ xs) enough covers known follows =
      go (ready_ids ordered (x ∷ xs) graph.actions) refl
        (ready_ids-Found graph.actions ordered (x ∷ xs) graph.actions
          (All-self graph.actions distinct))
        (λ next rest. order_from-IsOrder fuel next rest)
    where
      go :
          (ids : List String)
          → ready_ids ordered (x ∷ xs) graph.actions ≡ ids
          → All (Found graph.actions ordered (x ∷ xs)) ids
          → ((next rest : List String)
              → length rest ≤ fuel
              → Covers graph.actions next rest
              → All (λ k. elem k (keys graph.actions) ≡ true) rest
              → Follows graph.actions [] next
              → IsOrder graph.actions (order_from graph fuel next rest))
          → IsOrder graph.actions
              (order_turn (order_from graph fuel) graph.name ordered (x ∷ xs) ids)
      go [] e found again = absurd (
          let none_ready = ready_ids-none graph.actions ordered (x ∷ xs) graph.actions e in
          elim (Option-cases (lookup x graph.actions)) [
            | inl absent ↦ (let is_key = elem-keys x graph.actions in let key = known.0 in cc)
            | inr (a, found_a) ↦
                (let gone =
                    stuck graph.actions deps_known rank ranks ordered (x ∷ xs) covers none_ready
                      (suc (rank x)) x a (omega arith) found_a in
                  let there = elem-head x xs in cc)
          ])
      go (id ∷ ids) e found again =
          again (ordered ++ (id ∷ ids)) (without_all (id ∷ ids) (x ∷ xs))
            (omega (
              arith,
              without_all-length-le ids (without id (x ∷ xs)),
              without-length-lt id (x ∷ xs) found.0.0,
            ))
            (λ k key gone. elim (without_all-elem k (id ∷ ids) (x ∷ xs) gone) [
              | inl absent ↦ elem-append_left k ordered (id ∷ ids) (covers k key absent)
              | inr listed ↦ elem-append_right k ordered (id ∷ ids) listed
            ])
            (without_all-All (λ k. elem k (keys graph.actions) ≡ true) (id ∷ ids) (x ∷ xs) known)
            (Follows-append graph.actions [] ordered (id ∷ ids) follows
              (batch-Follows graph.actions ordered ordered (x ∷ xs) (id ∷ ids) (λ d m. m) found))

names-known : (xs : List String) → All (λ k. elem k xs ≡ true) xs
names-known [] = tt
names-known (x ∷ xs) = (
  elem-head x xs,
  All-map (λ k. elem k xs ≡ true) (λ k. elem k (x ∷ xs) ≡ true) xs (λ k m. elem-tail k x xs m)
      (names-known xs),
)

pub topological_action_order-IsOrder :
    (graph : ActionGraph)
    → NodupKeys graph.actions
    → IsValid graph.actions
    → IsOrder graph.actions (topological_action_order graph)
unfolding topological_action_order
topological_action_order-IsOrder graph distinct (keys_match, deps_known, (rank, ranks)) =
    order_from-IsOrder graph distinct deps_known rank ranks (length (keys graph.actions)) []
      (keys graph.actions) (omega arith) (λ k key gone. absurd (cc))
      (names-known (keys graph.actions)) tt
