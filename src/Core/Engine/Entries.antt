-- ===== src/Core/Engine/Entries.antt =====
-- The states of a run: what holds of each, how one changes, and how many are unresolved.
use hermes_vps.Prelude.{
  ℕ, suc, ◌+◌, ◌≤◌, ◌≡◌, refl, ◌≢◌, Bool, true, false, String, some, [], ◌∷◌, eq_iff, arith, inl,
  inr, ◌⊎◌, length, All, All-map, if◌then◌else◌, Bool-cases,
}
use hermes_vps.Prelude.Dict.{Dict, lookup, insert, keys, lookup-insert}
use hermes_vps.Prelude.Flow.{ok}
use hermes_vps.Core.Actions.{
  ActionStatus, pending, ready, running, succeeded, failed, skipped, blocked, cancelled,
  ActionDescriptor, ActionRuntimeState, is_open,
}
use hermes_vps.Core.Actions.Ready.{wait, readiness, States, is_succeeded, has_status}
use hermes_vps.Core.Actions.Frontier.{DepsSucceeded}
use hermes_vps.Core.Engine.{is_failed, any_status, should_fail_fast}
use hermes_vps.Core.Engine.Execute.Attempts.{Executed}

-- The statuses that the synchronous engine leaves; FAILED only where it stops at once.
abbrev pub Allowed : Bool → ActionStatus → Type 0
Allowed lost pending = Unit
Allowed lost succeeded = Unit
Allowed lost skipped = Unit
Allowed lost failed = lost ≡ true
Allowed lost _ = ⊥

unfoldable pub open_count : States → ℕ
open_count [] = 0
open_count ((id, st) ∷ states) =
    if is_open st.status then suc (open_count states) else open_count states

pub open_count-le : (states : States) → open_count states ≤ length states
unfolding open_count
open_count-le [] = omega arith
open_count-le ((id, st) ∷ states) = ground (arith, open_count-le states)

-- Resolving an action lowers the count by one.
pub open_count-insert :
    (id : String) (st st' : ActionRuntimeState) (states : States)
    → lookup id states ≡ some st
    → is_open st.status ≡ true
    → is_open st'.status ≡ false
    → open_count (insert id st' states) + 1 ≡ open_count states
unfolding open_count lookup insert
open_count-insert id st st' [] f o n = absurd (cc)
open_count-insert id st st' ((j, w) ∷ states) f o n =
    ground (arith, open_count-insert id st st' states)

-- What succeeded stays so when another, unresolved action changes.
pub DepsSucceeded-insert :
    (id : String) (st st' : ActionRuntimeState) (states : States) (a : ActionDescriptor)
    → lookup id states ≡ some st
    → is_open st.status ≡ true
    → DepsSucceeded states a
    → DepsSucceeded (insert id st' states) a
DepsSucceeded-insert id st st' states a f o h =
    All-map (λ d. has_status is_succeeded (lookup d states) ≡ true)
      (λ d. has_status is_succeeded (lookup d (insert id st' states)) ≡ true) a.deps keep h
  where
    keep :
        (d : String)
        → has_status is_succeeded (lookup d states) ≡ true
        → has_status is_succeeded (lookup d (insert id st' states)) ≡ true
    keep d k = rw lookup-insert (ground (arith, eq_iff id d))

-- Nothing is left to run: every state is resolved, or no unresolved action can start.
abbrev pub Settled : Dict ActionDescriptor → States → Type 0
Settled actions states =
    (any_status is_open states ≡ false)
    ⊎ All (λ s. readiness s.1 states (lookup s.0 states) ≡ wait) actions

-- `Extra` is what a run adds to the statuses.
module _ (Extra : ActionStatus → Type 0) (actions : Dict ActionDescriptor) where
  pub record EntryOk (lost : Bool) (states : States) (s : String × ActionRuntimeState)
      : Type 0 where
    pub allowed : Allowed lost s.1.status
    pub extra : Extra s.1.status
    pub action : ActionDescriptor
    pub listed : lookup s.0 actions ≡ some action
    pub untouched : s.1.status ≡ pending → s.1.attempts ≡ 0
    pub executed : s.1.status ≢ pending → Executed action s.1 × DepsSucceeded states action

  -- Every action of the graph has its state, and every state is in order.
  pub record StatesOk (lost : Bool) (states : States) : Type 0 where
    pub same_keys : keys states ≡ keys actions
    pub entries : All (EntryOk lost states) states

  EntryOk-not_failed :
      (states : States) (s : String × ActionRuntimeState)
      → EntryOk true states s
      → is_failed s.1.status ≡ false
      → EntryOk false states s
  EntryOk-not_failed states s h n = record {
    allowed = go s.1.status h.allowed n;
    extra = h.extra;
    action = h.action;
    listed = h.listed;
    untouched = h.untouched;
    executed = h.executed;
  }
    where
      go : (k : ActionStatus) → Allowed true k → is_failed k ≡ false → Allowed false k
      go pending a m = tt
      go succeeded a m = tt
      go skipped a m = tt
      go failed a m = absurd (cc)
      go ready a m = a
      go running a m = a
      go blocked a m = a
      go cancelled a m = a

  All-not_failed :
      (states l : States)
      → All (EntryOk true states) l
      → any_status is_failed l ≡ false
      → All (EntryOk false states) l
  All-not_failed states [] h n = tt
  All-not_failed states (s ∷ l) h n =
      (EntryOk-not_failed states s h.0 (ground arith), All-not_failed states l h.1 (ground arith))

  pub StatesOk-not_failed :
      (states : States)
      → StatesOk true states
      → any_status is_failed states ≡ false
      → StatesOk false states
  StatesOk-not_failed states h n = record {
    same_keys = h.same_keys;
    entries = All-not_failed states states h.entries n;
  }

  -- While FAILED is not tolerated, failing fast is the test for any FAILED.
  pub should_fail_fast-any :
      (states l : States)
      → All (EntryOk true states) l
      → should_fail_fast actions l ≡ ok (any_status is_failed l)
  unfolding should_fail_fast
  should_fail_fast-any states [] h = refl
  should_fail_fast-any states ((id, st) ∷ l) h = elim (Bool-cases (is_failed st.status)) [
    | inr fine ↦ rw (fine, should_fail_fast) (should_fail_fast-any states l h.1)
    | inl bad ↦
        rw (bad, h.0.listed, should_fail_fast)
          (ground (arith, (h.0.executed (is_failed-ne-pending st.status bad)).0.ending))
  ]
    where
      is_failed-ne-pending : (k : ActionStatus) → is_failed k ≡ true → k ≢ pending
      is_failed-ne-pending failed h e = cc
      is_failed-ne-pending pending h e = cc
      is_failed-ne-pending _ h e = cc

  -- Where FAILED is not tolerated, nothing is FAILED.
  pub none_failed :
      (states l : States) → All (EntryOk false states) l → any_status is_failed l ≡ false
  none_failed states [] h = refl
  none_failed states ((id, st) ∷ l) h = rw (go st.status h.0.allowed, none_failed states l h.1)
    where
      go : (k : ActionStatus) → Allowed false k → is_failed k ≡ false
      go failed p = cc
      go pending p = refl
      go _ p = refl
