-- ===== src/Wizard/Flow.antt =====
-- scripts/configure_flow.py: the step index and the completion map of the wizard.
use mathlib.Core.Path.{subst}
use hermes_vps.Prelude.{
  ℕ, zero, suc, ◌+◌, ◌-◌, ◌<◌, ◌≡◌, refl, Bool, true, false, List, [], ◌∷◌, arith, ltb, nat_eq,
  if◌then◌else◌, All, Bool-cases, inl, inr,
}
use hermes_vps.Prelude.Flow.{Result, ok, raise, ok-inj}
use hermes_vps.Value.{ℤ, pos, negsuc}

pub record TransitionResult : Type 0 where
  pub next_step : ℕ
  pub step_complete : Bool
  pub finished : Bool

-- `dict[int, bool]`, in the order of insertion.
abbrev pub Completion : Type 0
Completion = List (ℕ × Bool)

-- self._complete[step] = value
unfoldable pub set_complete : ℕ → Bool → Completion → Completion
set_complete step value [] = (step, value) ∷ []
set_complete step value ((k, v) ∷ rest) =
    let later = set_complete step value rest in
    if nat_eq k step then (k, value) ∷ rest else (k, v) ∷ later

-- The value at a step, where it has one.
unfoldable pub is_complete : ℕ → Completion → Bool
is_complete step [] = false
is_complete step ((k, v) ∷ rest) = if nat_eq k step then v else is_complete step rest

pub record FlowCoordinator : Type 0 where
  pub step_count : ℕ
  pub current : ℕ
  pub complete : Completion

-- One constructor for each `raise ValueError`.
pub data FlowError : Type 0 where
  count_not_positive : FlowError
  out_of_range : ℤ → FlowError

-- step < 0 or step >= count, for the range of the steps
in_range : ℤ → ℕ → Result FlowError ℕ
in_range (pos n) count = if ltb n count then ok n else raise (out_of_range (pos n))
in_range (negsuc n) count = raise (out_of_range (negsuc n))

started : ℕ → Result FlowError ℕ → Result FlowError FlowCoordinator
started count (ok current) = ok (record { step_count = count; current = current; complete = [] })
started count (raise e) = raise e

-- `__init__`
unfoldable pub new : ℤ → ℤ → Result FlowError FlowCoordinator
unfolding started in_range
new (negsuc n) current = raise count_not_positive
new (pos zero) current = raise count_not_positive
new (pos (suc n)) current = started (suc n) (in_range current (suc n))

abbrev pub at_first_step : FlowCoordinator → Bool
at_first_step c = nat_eq c.current 0

abbrev pub at_last_step : FlowCoordinator → Bool
at_last_step c = nat_eq c.current (c.step_count - 1)

-- The step just left is complete; the last step is not left.
abbrev advance_from : Bool → FlowCoordinator → TransitionResult × FlowCoordinator
advance_from true c = (record { next_step = c.current; step_complete = true; finished = true }, c)
advance_from false c = (
  record { next_step = c.current + 1; step_complete = true; finished = false },
  record c { current = c.current + 1 },
)

unfoldable pub advance : FlowCoordinator → TransitionResult × FlowCoordinator
unfolding set_complete
advance c =
    advance_from (at_last_step c) (record c { complete = set_complete c.current true c.complete })

abbrev back_from : Bool → FlowCoordinator → TransitionResult × FlowCoordinator
back_from true c = (record { next_step = c.current; step_complete = false; finished = false }, c)
back_from false c = (
  record { next_step = c.current - 1; step_complete = false; finished = false },
  record c { current = c.current - 1 },
)

unfoldable pub back : FlowCoordinator → TransitionResult × FlowCoordinator
back c = back_from (at_first_step c) c

jumped :
    FlowCoordinator → Result FlowError ℕ → Result FlowError (TransitionResult × FlowCoordinator)
jumped c (ok step) = ok (
  record { next_step = step; step_complete = false; finished = false },
  record c { current = step },
)
jumped c (raise e) = raise e

unfoldable pub jump_to : ℤ → FlowCoordinator → Result FlowError (TransitionResult × FlowCoordinator)
unfolding jumped in_range
jump_to step c = jumped c (in_range step c.step_count)

-- The coordinators that the operations lead to.
pub data Reachable : FlowCoordinator → Type 0 where
  created : (count current : ℤ) (c : FlowCoordinator) → new count current ≡ ok c → Reachable c
  advanced : (c : FlowCoordinator) → Reachable c → Reachable (advance c).1
  moved_back : (c : FlowCoordinator) → Reachable c → Reachable (back c).1
  jumped_to :
      (step : ℤ) (c c' : FlowCoordinator) (t : TransitionResult)
      → Reachable c
      → jump_to step c ≡ ok (t, c')
      → Reachable c'

-- The current step and every completed step are steps of the wizard.
pub record IsInRange (c : FlowCoordinator) : Type 0 where
  pub current_step : c.current < c.step_count
  pub completed : All (λ s. s.0 < c.step_count) c.complete

set_complete-below :
    (bound step : ℕ) (value : Bool) (l : Completion)
    → step < bound
    → All (λ s. s.0 < bound) l
    → All (λ s. s.0 < bound) (set_complete step value l)
unfolding set_complete
set_complete-below bound step value [] s h = (s, tt)
set_complete-below bound step value ((k, v) ∷ rest) s h =
    go (nat_eq k step) (set_complete step value rest)
      (set_complete-below bound step value rest s h.1)
  where
    go :
        (b : Bool) (later : Completion)
        → All (λ s. s.0 < bound) later
        → All (λ s. s.0 < bound) (if b then (k, value) ∷ rest else (k, v) ∷ later)
    go true later m = (h.0, h.1)
    go false later m = (h.0, m)

-- Where no step is skipped, the completion map is a question of what was there before.
is_complete-set_complete :
    (k step : ℕ) (value : Bool) (l : Completion)
    → is_complete k (set_complete step value l) ≡ (if nat_eq step k then value else is_complete k l)
unfolding is_complete set_complete
is_complete-set_complete k step value [] = refl
is_complete-set_complete k step value ((j, v) ∷ rest) =
    ground (arith, is_complete-set_complete k step value rest)

advance-IsInRange : (c : FlowCoordinator) → IsInRange c → IsInRange (advance c).1
unfolding advance
advance-IsInRange c h = go (at_last_step c) (λ p. ground arith)
  where
    done : FlowCoordinator
    done = record c { complete = set_complete c.current true c.complete }

    go : (b : Bool) → (b ≡ false → c.current + 1 < c.step_count) → IsInRange (advance_from b done).1
    go true n = record {
      current_step = h.current_step;
      completed =
          set_complete-below c.step_count c.current true c.complete h.current_step h.completed;
    }
    go false n = record {
      current_step = n refl;
      completed =
          set_complete-below c.step_count c.current true c.complete h.current_step h.completed;
    }

back-IsInRange : (c : FlowCoordinator) → IsInRange c → IsInRange (back c).1
unfolding back
back-IsInRange c h = go (at_first_step c)
  where
    go : (b : Bool) → IsInRange (back_from b c).1
    go true = h
    go false = record { current_step = omega (arith, h.current_step); completed = h.completed }

in_range-lt : (step : ℤ) (count n : ℕ) → in_range step count ≡ ok n → n < count
unfolding in_range
in_range-lt (pos m) count n e = ground arith
in_range-lt (negsuc m) count n e = cc

started-IsInRange :
    (count : ℕ) (r : Result FlowError ℕ) (c : FlowCoordinator)
    → ((m : ℕ) → r ≡ ok m → m < count)
    → started count r ≡ ok c
    → IsInRange c
unfolding started
started-IsInRange count (ok m) c k e =
    subst IsInRange (ok-inj e) (record { current_step = k m refl; completed = tt })
started-IsInRange count (raise x) c k e = cc

new-IsInRange : (count current : ℤ) (c : FlowCoordinator) → new count current ≡ ok c → IsInRange c
unfolding new
new-IsInRange (negsuc n) current c e = cc
new-IsInRange (pos zero) current c e = cc
new-IsInRange (pos (suc n)) current c e =
    started-IsInRange (suc n) (in_range current (suc n)) c (in_range-lt current (suc n)) e

jumped-IsInRange :
    (c c' : FlowCoordinator) (t : TransitionResult) (r : Result FlowError ℕ)
    → IsInRange c
    → ((m : ℕ) → r ≡ ok m → m < c.step_count)
    → jumped c r ≡ ok (t, c')
    → IsInRange c'
unfolding jumped
jumped-IsInRange c c' t (ok m) h k e =
    subst (λ p. IsInRange p.1) (ok-inj e)
      (record { current_step = k m refl; completed = h.completed })
jumped-IsInRange c c' t (raise x) h k e = cc

-- Whatever sequence of operations led to a coordinator, its current step and every step that it
-- holds complete are steps of the wizard.
pub Reachable-IsInRange : (c : FlowCoordinator) → Reachable c → IsInRange c
Reachable-IsInRange _ (created count current c e) = new-IsInRange count current c e
Reachable-IsInRange _ (advanced c r) = advance-IsInRange c (Reachable-IsInRange c r)
Reachable-IsInRange _ (moved_back c r) = back-IsInRange c (Reachable-IsInRange c r)
Reachable-IsInRange _ (jumped_to step c c' t r e) =
    jumped-IsInRange c c' t (in_range step c.step_count) (Reachable-IsInRange c r)
      (in_range-lt step c.step_count) (unfold jump_to in e)

-- A wizard of `count` steps at its first step.
abbrev pub fresh : ℕ → FlowCoordinator
fresh count = record { step_count = count; current = 0; complete = [] }

unfoldable pub advance_times : ℕ → FlowCoordinator → FlowCoordinator
unfolding advance
advance_times zero c = c
advance_times (suc k) c = (advance (advance_times k c)).1

-- After `k` steps forward the wizard is at step `k`, and the steps before it are complete.
abbrev HasWalked : ℕ → ℕ → FlowCoordinator → Type 0
HasWalked count k c =
    (c.step_count ≡ count) × (c.current ≡ k) × ((j : ℕ) → is_complete j c.complete ≡ ltb j k)

walk_step :
    (count k : ℕ) (c : FlowCoordinator)
    → suc k < count
    → HasWalked count k c
    → HasWalked count (suc k) (advance c).1
unfolding advance
walk_step count k c h (counts, at_k, walked) = rw not_last (
  counts,
  ground (arith, at_k),
  λ j. rw is_complete-set_complete (ground (arith, walked j, at_k)),
)
  where
    not_last : at_last_step c ≡ false
    not_last = ground (arith, counts, at_k)

advance_times-HasWalked :
    (count k : ℕ) → k < count → HasWalked count k (advance_times k (fresh count))
unfolding advance_times
advance_times-HasWalked count zero h = (refl, refl, λ j. unfold is_complete in ground arith)
advance_times-HasWalked count (suc k) h =
    walk_step count k (advance_times k (fresh count)) h
      (advance_times-HasWalked count k (omega arith))

-- Step `k` is the last one, and then every step is complete, or it is not.
abbrev pub Finishes : ℕ → ℕ → TransitionResult × FlowCoordinator → Type 0
Finishes count k r =
    (r.0.finished ≡ nat_eq (k + 1) count)
    × (k + 1 ≡ count → (j : ℕ) → is_complete j r.1.complete ≡ ltb j count)

finish_step :
    (count k : ℕ) (c : FlowCoordinator)
    → k < count
    → HasWalked count k c
    → Finishes count k (advance c)
unfolding advance
finish_step count k c h (counts, at_k, walked) = elim (Bool-cases (at_last_step c)) [
  | inl last ↦ rw last (
    ground (arith, last, counts, at_k),
    λ q j. rw is_complete-set_complete (ground (arith, walked j, at_k)),
  )
  | inr more ↦
      rw more
        (ground (arith, more, counts, at_k), λ q. absurd (ground (arith, more, counts, at_k, q)))
]

-- A wizard that only moves forward from its first step: its first `count - 1` steps forward do
-- not finish it, the next one does, and then exactly its steps are complete.
pub advance_times-finished :
    (count k : ℕ) → k < count → Finishes count k (advance (advance_times k (fresh count)))
advance_times-finished count k h =
    finish_step count k (advance_times k (fresh count)) h (advance_times-HasWalked count k h)
