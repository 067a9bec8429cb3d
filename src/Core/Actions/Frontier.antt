-- ===== src/Core/Actions/Frontier.antt =====
-- What `ready_actions` finds while no action has failed or been cancelled.
use mathlib.Core.Path.{subst}
use hermes_vps.Prelude.{
  ◌≡◌, refl, sym, ◌≢◌, Bool, true, false, ◌&&◌, String, Option, none, some, List, [], ◌∷◌, eq_iff,
  arith, inl, inr, ◌⊎◌, ap, all, any, map, elem, elem-head, elem-tail, All, All-map, if◌then◌else◌,
  Option-cases, is_some, all-All,
}
use hermes_vps.Prelude.Dict.{NodupKeys, Dict, lookup, keys, All-lookup}
use hermes_vps.Core.Actions.{ActionDescriptor, ActionRuntimeState, is_open}
use hermes_vps.Core.Actions.Ready.{
  States, is_succeeded, is_lost, has_status, run_now, wait, readiness, ready_from,
}

abbrev pub Calm : String × ActionRuntimeState → Type 0
Calm s = is_lost s.1.status ≡ false

-- Every dependency of the action has succeeded.
abbrev pub DepsSucceeded : States → ActionDescriptor → Type 0
DepsSucceeded states a = All (λ d. has_status is_succeeded (lookup d states) ≡ true) a.deps

no_lost :
    (states : States) (names : List String)
    → All Calm states
    → any (has_status is_lost) (map (λ d. lookup d states) names) ≡ false
no_lost states [] h = refl
no_lost states (d ∷ ds) h = elim (Option-cases (lookup d states)) [
  | inl absent ↦ rw absent (no_lost states ds h)
  | inr (st, found) ↦ rw (found, All-lookup Calm d states h found) (no_lost states ds h)
]

all-map :
    (p : Option ActionRuntimeState → Bool) (states : States) (names : List String)
    → all p (map (λ d. lookup d states) names) ≡ all (λ d. p (lookup d states)) names
all-map p states [] = refl
all-map p states (d ∷ ds) = ap (λ b. p (lookup d states) && b) (all-map p states ds)

succeeded-present :
    (states : States) (names : List String)
    → all (λ d. has_status is_succeeded (lookup d states)) names ≡ true
    → all (λ d. is_some (lookup d states)) names ≡ true
succeeded-present states [] h = refl
succeeded-present states (d ∷ ds) h = ground (arith, succeeded-present states ds)

module _ (states : States) (calm : All Calm states) where
  -- The body's verdict in terms of the action alone.
  pub readiness_iff :
      (a : ActionDescriptor) (st : ActionRuntimeState)
      → readiness a states (some st) ≡ (
          if is_open st.status && all (λ d. has_status is_succeeded (lookup d states)) a.deps
          then run_now
          else wait)
  unfolding readiness
  readiness_iff a st =
      rw
        (
          all-map is_some states a.deps,
          all-map (has_status is_succeeded) states a.deps,
          no_lost states a.deps calm,
        )
        (ground (arith, succeeded-present states a.deps))

pub All-self {ℓ} : {V : Type ℓ} (d : Dict V) → NodupKeys d → All (λ e. lookup e.0 d ≡ some e.1) d
unfolding lookup keys elem
All-self [] h = tt
All-self {V} ((k, v) ∷ d) h = (ground (arith, eq_iff k k), All_other d h.0 (All-self d h.1))
  where
    All_other :
        (s : Dict V)
        → elem k (keys s) ≡ false
        → All (λ e. lookup e.0 d ≡ some e.1) s
        → All (λ e. lookup e.0 ((k, v) ∷ d) ≡ some e.1) s
    All_other [] n a = tt
    All_other ((j, w) ∷ s) n a =
        (ground (arith, eq_iff k j, eq_iff j k), All_other s (ground arith) a.1)

abbrev pub Distinct : List ActionDescriptor → Type 0
Distinct [] = Unit
Distinct (a ∷ as') = All (λ b. a.action_id ≢ b.action_id) as' × Distinct as'

-- An action that may run: it is unresolved, and every dependency has succeeded.
pub record IsReady (states : States) (a : ActionDescriptor) : Type 0 where
  pub state : ActionRuntimeState
  pub found : lookup a.action_id states ≡ some state
  pub unresolved : is_open state.status ≡ true
  pub deps : DepsSucceeded states a

-- A ready action of a part of the graph.
abbrev pub InPart :
    Dict ActionDescriptor → States → Dict ActionDescriptor → ActionDescriptor → Type 0
InPart actions states part a =
    IsReady states a × (lookup a.action_id actions ≡ some a) × (elem a.action_id (keys part) ≡ true)

-- What `ready_actions` returns, over a part of the graph: it marks nothing, and finds ready
-- actions only; if it finds none then no action waits for nothing.
pub record IsFrontier (actions : Dict ActionDescriptor) (states : States)
    (part : Dict ActionDescriptor) (r : List ActionDescriptor × States) : Type 0 where
  pub same : r.1 ≡ states
  pub ready : All (InPart actions states part) r.0
  pub distinct : Distinct r.0
  pub stuck : r.0 ≡ [] → All (λ e. readiness e.1 states (lookup e.0 states) ≡ wait) part

module _ (actions : Dict ActionDescriptor) (states : States) (calm : All Calm states) where
  verdict :
      (a : ActionDescriptor) (o : Option ActionRuntimeState)
      → (readiness a states o ≡ wait)
        ⊎ ((readiness a states o ≡ run_now)
            × ((st : ActionRuntimeState) × (o ≡ some st)
                × (is_open st.status ≡ true)
                × (all (λ d. has_status is_succeeded (lookup d states)) a.deps ≡ true)))
  verdict a none = inl (unfold readiness in refl)
  verdict a (some st) = ground (arith, readiness_iff states calm a st)

  later_part :
      (id : String) (a : ActionDescriptor) (part : Dict ActionDescriptor)
      (l : List ActionDescriptor)
      → All (InPart actions states part) l
      → All (InPart actions states ((id, a) ∷ part)) l
  unfolding keys
  later_part id a part l h =
      All-map (InPart actions states part) (InPart actions states ((id, a) ∷ part)) l
        (λ b k. (k.0, k.1, elem-tail b.action_id id (keys part) k.2)) h

  pub ready_from-IsFrontier :
      (part : Dict ActionDescriptor)
      → NodupKeys part
      → All (λ e. e.1.action_id ≡ e.0) part
      → All (λ e. lookup e.0 actions ≡ some e.1) part
      → IsFrontier actions states part (ready_from part states)
  unfolding ready_from
  ready_from-IsFrontier [] u m s = record {
    same = refl;
    ready = tt;
    distinct = tt;
    stuck = λ e. tt;
  }
  ready_from-IsFrontier ((id, a) ∷ part) u m s =
      let rest = ready_from-IsFrontier part u.1 m.1 s.1 in
      elim (verdict a (lookup id states)) [
        | inl waits ↦
            rw (waits, ready_from)
              (record {
                same = rest.same;
                ready = later_part id a part _ rest.ready;
                distinct = rest.distinct;
                stuck = λ e. (waits, rest.stuck e);
              })
        | inr (runs, (st, found, unresolved, deps)) ↦
            rw (runs, ready_from)
              (record {
                same = rest.same;
                ready = (
                  (
                    record {
                      state = st;
                      found = rw m.0 found;
                      unresolved = unresolved;
                      deps = all-All _ a.deps deps;
                    },
                    subst (λ k. lookup k actions ≡ some a) (sym m.0) s.0,
                    rw m.0 (unfold keys in elem-head id (keys part)),
                  ),
                  later_part id a part _ rest.ready,
                );
                distinct = (
                  All-map (InPart actions states part) (λ b. a.action_id ≢ b.action_id) _
                      (λ b k e. cc (u.0, k.2, e, m.0)) rest.ready,
                  rest.distinct,
                );
                stuck = λ e. cc;
              })
      ]

abbrev NodupNames : List String → Type 0
NodupNames [] = Unit
NodupNames (k ∷ ks) = (elem k ks ≡ false) × NodupNames ks

NodupNames-keys {ℓ} : {V : Type ℓ} (d : Dict V) → NodupKeys d → NodupNames (keys d)
unfolding keys
NodupNames-keys [] h = tt
NodupNames-keys ((k, v) ∷ d) h = (h.0, NodupNames-keys d h.1)

names-NodupKeys {ℓ} : {V : Type ℓ} (d : Dict V) → NodupNames (keys d) → NodupKeys d
unfolding keys
names-NodupKeys [] h = tt
names-NodupKeys ((k, v) ∷ d) h = (h.0, names-NodupKeys d h.1)

pub keys-NodupKeys {ℓ κ} :
    {V : Type ℓ} {W : Type κ} (d : Dict V) (f : Dict W)
    → keys d ≡ keys f
    → NodupKeys f
    → NodupKeys d
keys-NodupKeys d f e h = names-NodupKeys d (subst NodupNames (sym e) (NodupNames-keys f h))
