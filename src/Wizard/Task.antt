-- ===== src/Wizard/Task.antt =====
-- scripts/configure_async.py: `CorrelatedTask`, which tells current replies from stale ones.
use hermes_vps.Prelude.{ℕ, ◌+◌, ◌≤◌, ◌≡◌, Bool, true, false, List, [], ◌∷◌, arith, nat_eq}

pub record CorrelatedTask : Type 0 where
  pub seq : ℕ
  pub active_id : ℕ

abbrev pub new_task : CorrelatedTask
new_task = record { seq = 0; active_id = 0 }

unfoldable pub begin : CorrelatedTask → ℕ × CorrelatedTask
begin task = let n = task.seq + 1 in (n, record { seq = n; active_id = n })

unfoldable pub is_current : ℕ → CorrelatedTask → Bool
is_current request_id task = nat_eq request_id task.active_id

unfoldable pub cancel : CorrelatedTask → CorrelatedTask
cancel task = record task { active_id = 0 }

-- The test hook.
unfoldable pub force_active : ℕ → CorrelatedTask → CorrelatedTask
force_active request_id task = record task { active_id = request_id }

-- What a dispatcher does with its task.
pub data Step : Type 0 where
  begins cancels : Step

unfoldable pub steps : List Step → CorrelatedTask → CorrelatedTask
unfolding begin cancel
steps [] task = task
steps (begins ∷ more) task = steps more (begin task).1
steps (cancels ∷ more) task = steps more (cancel task)

abbrev pub is_none_left : List Step → Bool
is_none_left [] = true
is_none_left (s ∷ more) = false

-- Once another request has begun, or the request was cancelled, its number never comes back.
steps-stale :
    (more : List Step) (task : CorrelatedTask) (id : ℕ)
    → 1 ≤ id
    → id ≤ task.seq
    → nat_eq id task.active_id ≡ false
    → is_current id (steps more task) ≡ false
unfolding steps is_current begin cancel
steps-stale [] task id p l n = n
steps-stale (begins ∷ more) task id p l n = steps-stale more _ id p (omega arith) (ground arith)
steps-stale (cancels ∷ more) task id p l n = steps-stale more _ id p l (ground arith)

-- The reply to a request is current exactly until the next step of its task, whatever steps
-- (further requests, or cancelling) the task takes, and however many.
pub is_current-steps :
    (task : CorrelatedTask) (more : List Step)
    → is_current (begin task).0 (steps more (begin task).1) ≡ is_none_left more
unfolding steps is_current begin cancel
is_current-steps task [] = ground arith
is_current-steps task (begins ∷ more) =
    steps-stale more _ (task.seq + 1) (omega arith) (omega arith) (ground arith)
is_current-steps task (cancels ∷ more) =
    steps-stale more _ (task.seq + 1) (omega arith) (omega arith) (ground arith)
