-- ===== src/App/Preview/Progress.antt =====
-- The counts of a progress summary.
use hermes_vps.Prelude.{
  ℕ, suc, ◌+◌, ◌≡◌, refl, ap, ◌∙◌, Option, none, eq_iff, Bool-cases, inl, inr, Bool, true, false,
  String, some, List, [], ◌∷◌, ◌==◌, arith, length, if◌then◌else◌,
}
use hermes_vps.Prelude.Dict.{Dict, lookup, insert, lookup-insert}
use hermes_vps.Value
use hermes_vps.Value.{Value, int, pos, Fields, end, field}
use hermes_vps.Core.Actions.{
  pending, ready, running, succeeded, failed, skipped, blocked, cancelled, ActionStatus,
}
use hermes_vps.App.Preview.{
  count_or_zero, count_statuses, zero_counts, count_fields, with_elapsed, progress_summary,
}
use hermes_vps.App.Preview.Status.{status_value}

abbrev pub sum_counts : Dict ℕ → ℕ
sum_counts [] = 0
sum_counts ((status, n) ∷ counts) = n + sum_counts counts

insert-sum_counts :
    (status : String) (counts : Dict ℕ)
    → sum_counts (insert status (count_or_zero (lookup status counts) + 1) counts)
      ≡ sum_counts counts + 1
unfolding lookup insert
insert-sum_counts status [] = refl
insert-sum_counts status ((j, n) ∷ counts) = go (j == status) (insert-sum_counts status counts)
  where
    go :
        (b : Bool)
        → sum_counts (insert status (count_or_zero (lookup status counts) + 1) counts)
          ≡ sum_counts counts + 1
        → sum_counts (
            if b
            then (j, count_or_zero (if b then some n else lookup status counts) + 1) ∷ counts
            else (j, n)
              ∷ insert status
                  (count_or_zero (if b then some n else lookup status counts) + 1)
                  counts)
          ≡ n + sum_counts counts + 1
    go true h = omega arith
    go false h = omega arith

count_statuses-sum_counts :
    (statuses : List String) (counts : Dict ℕ)
    → sum_counts (count_statuses statuses counts) ≡ sum_counts counts + length statuses
unfolding count_statuses
count_statuses-sum_counts [] counts = omega arith
count_statuses-sum_counts (status ∷ statuses) counts = omega (
  arith,
  insert-sum_counts status counts,
  count_statuses-sum_counts statuses
      (insert status (count_or_zero (lookup status counts) + 1) counts),
)

-- How often a status is in a list.
abbrev pub occurrences : String → List String → ℕ
occurrences s [] = 0
occurrences s (status ∷ statuses) =
    if status == s then suc (occurrences s statuses) else occurrences s statuses

count_statuses-lookup :
    (s : String) (statuses : List String) (counts : Dict ℕ) (n : ℕ)
    → lookup s counts ≡ some n
    → lookup s (count_statuses statuses counts) ≡ some (n + occurrences s statuses)
unfolding count_statuses
count_statuses-lookup s [] counts n h = h ∙ ap some (omega arith)
count_statuses-lookup s (status ∷ statuses) counts n h = elim (Bool-cases (status == s)) [
  | inl same ↦
      let is_s : status ≡ s = (eq_iff status s).0 same in
      let counted : lookup s next ≡ some (n + 1) =
        rw (lookup-insert s status now counts, same, ap (λ k. lookup k counts) is_s ∙ h) refl in
      rw same (count_statuses-lookup s statuses next (n + 1) counted ∙ ap some (omega arith))
  | inr other ↦
      let kept : lookup s next ≡ some n = rw (lookup-insert s status now counts, other) h in
      rw other (count_statuses-lookup s statuses next n kept)
]
  where
    now : ℕ
    now = count_or_zero (lookup status counts) + 1

    next : Dict ℕ
    next = insert status now counts

count_value : Option ℕ → Option Value
count_value none = none
count_value (some n) = some (int (pos n))

count_fields-get :
    (s : String) (counts : Dict ℕ)
    → Value.get s (count_fields counts) ≡ count_value (lookup s counts)
unfolding Value.get lookup count_value
count_fields-get s [] = refl
count_fields-get s ((j, n) ∷ counts) = elim (Bool-cases (j == s)) [
  | inl same ↦ rw same refl
  | inr other ↦ rw other (count_fields-get s counts)
]

with_elapsed-get :
    (s : String) (elapsed : Option Value) (d : Fields)
    → "elapsed_seconds" == s ≡ false
    → Value.get s (with_elapsed elapsed d) ≡ Value.get s d
unfolding Value.get Value.put
with_elapsed-get s none d h = refl
with_elapsed-get s (some v) end h = rw h refl
with_elapsed-get s (some v) (field k w d) h = elim (Bool-cases (k == "elapsed_seconds")) [
  | inl same ↦
      let other : k == s ≡ false = ap (λ t. t == s) ((eq_iff k "elapsed_seconds").0 same) ∙ h in
      rw (same, other) refl
  | inr other ↦ rw (other, with_elapsed-get s (some v) d h) refl
]

-- A status has a count from the start, and is no other key of the summary.
status_value-counted :
    (status : ActionStatus)
    → (lookup (status_value status) zero_counts ≡ some 0)
      × ("elapsed_seconds" == status_value status ≡ false)
      × ("total" == status_value status ≡ false)
unfolding lookup
status_value-counted pending = (refl, refl, refl)
status_value-counted ready = (refl, refl, refl)
status_value-counted running = (refl, refl, refl)
status_value-counted succeeded = (refl, refl, refl)
status_value-counted failed = (refl, refl, refl)
status_value-counted skipped = (refl, refl, refl)
status_value-counted blocked = (refl, refl, refl)
status_value-counted cancelled = (refl, refl, refl)

-- A progress summary counts, under each status that an action can have, the actions with it; its
-- total is the number of the actions; and the counts sum to it.
pub progress_summary-get :
    (statuses : List String) (elapsed : Option Value) (status : ActionStatus)
    → (Value.get (status_value status) (progress_summary statuses elapsed)
        ≡ some (int (pos (occurrences (status_value status) statuses))))
      × (Value.get "total" (progress_summary statuses elapsed) ≡ some (int (pos (length statuses))))
      × (sum_counts (count_statuses statuses zero_counts) ≡ length statuses)
unfolding progress_summary Value.get count_value
progress_summary-get statuses elapsed status =
    let name = status_value status in
    let counts = count_statuses statuses zero_counts in
    let (at_zero, no_elapsed, no_total) = status_value-counted status in
    (
      with_elapsed-get name elapsed _ no_elapsed
          ∙ (rw no_total (
              count_fields-get name counts
              ∙ ap count_value (count_statuses-lookup name statuses zero_counts 0 at_zero)
              ∙ ap (λ n. some (int (pos n))) (omega arith))),
      with_elapsed-get "total" elapsed _ refl,
      omega (arith, count_statuses-sum_counts statuses zero_counts),
    )
