-- ===== src/App/Workflows/Handler/Exits.antt =====
-- The exit codes that the handler's results report.
use hermes_vps.Prelude.{
  zero, suc, ◌≡◌, refl, Bool, true, false, ◌&&◌, String, Option, none, some, List, [], ◌∷◌, ◌==◌,
  eq_iff, elem, if◌then◌else◌, Bool-cases, inl, inr, arith,
}
use hermes_vps.Prelude.Flow.{
  Result, ok, raise, throw, Holds, ◌>>◌, Ensures, Ensures-bind, Ensures-then, Ensures-pure,
  Ensures-throw,
}
use hermes_vps.Value
use hermes_vps.Value.{ℤ, pos, negsuc, Value, Fields, end, field, int, str}
use hermes_vps.Text.{strip}
use hermes_vps.Core.Interfaces.{Exception, RunResult, is_command_failed}
use hermes_vps.Core.Actions.{ActionDescriptor}
use hermes_vps.App.Workflows.Handler.{
  Setup, Act, is_zero, command_result, checked_exit, run_checked, apply_saved, apply_again,
  is_stale, rescue, after_apply, update_alias, alias_request, run_expecting, run_apply,
  from_context,
}
use hermes_vps.App.Workflows.Handler.Dispatch.{
  with_destroyed, with_preview, with_backup, dispatch, handle,
}

-- A result that reports exit code 0.
abbrev pub ExitsZero : Fields → Type 0
ExitsZero d = Value.get "exit_code" d ≡ some (int (pos 0))

abbrev pub Anything : Exception → Type 0
Anything exc = Unit

put-ExitsZero :
    (k : String) (v : Value) (d : Fields)
    → (k == "exit_code") ≡ false
    → ExitsZero d
    → ExitsZero (Value.put k v d)
unfolding Value.get Value.put
put-ExitsZero k v end n h = absurd (cc)
put-ExitsZero k v (field j w d) n h =
    ground (arith, eq_iff j k, eq_iff k "exit_code", eq_iff j "exit_code", put-ExitsZero k v d n)

is_zero-eq : (z : ℤ) → is_zero z ≡ true → z ≡ pos 0
is_zero-eq (pos zero) h = refl
is_zero-eq (pos (suc n)) h = absurd (cc)
is_zero-eq (negsuc n) h = absurd (cc)

abbrev pub tofu_actions : List String
tofu_actions = "tofu_init" ∷ "tofu_init_upgrade" ∷ "tofu_plan" ∷ "tofu_apply" ∷ "tofu_destroy" ∷ []

module _ {W : Type 0} (h : Setup W) where
  checked_exit-ExitsZero :
      (command : List String) (r : RunResult)
      → Ensures ExitsZero Anything (checked_exit h command r)
  unfolding checked_exit Value.get
  checked_exit-ExitsZero command r = elim (Bool-cases (is_zero r.exit_code)) [
    | inl z ↦ rw z (Ensures-pure (command_result command r) (rw (is_zero-eq r.exit_code z) refl))
    | inr nz ↦ rw nz (Ensures-throw _ tt)
  ]

  any-Ensures : {A : Type 0} (m : Act W A) → Ensures (λ _. Unit) Anything m
  any-Ensures m = record { run = λ s. any-Holds (m s).0 }
    where
      any-Holds : {A : Type 0} (r : Result Exception A) → Holds (λ _. Unit) Anything r
      any-Holds (ok a) = tt
      any-Holds (raise exc) = tt

  run_checked-ExitsZero :
      (repo_root provider : String) (command : List String)
      → Ensures ExitsZero Anything (run_checked h repo_root provider command)
  unfolding run_checked
  run_checked-ExitsZero repo_root provider command =
      Ensures-bind (λ _. Unit) ExitsZero _ (checked_exit h command) (any-Ensures _)
        (λ r _. checked_exit-ExitsZero command r)

  if-Ensures :
      {P : Fields → Type 0} (b : Bool) (m n : Act W Fields)
      → (b ≡ true → Ensures P Anything m)
      → (b ≡ false → Ensures P Anything n)
      → Ensures P Anything (if b then m else n)
  if-Ensures true m n yes_case no_case = yes_case refl
  if-Ensures false m n yes_case no_case = no_case refl

  rescue-Holds :
      (handler : Exception → Act W Fields) (r : Result Exception Fields × (Fields × W))
      → Holds ExitsZero Anything r.0
      → ((exc : Exception) → Ensures ExitsZero Anything (handler exc))
      → Holds ExitsZero Anything (rescue h handler r).0
  unfolding rescue
  rescue-Holds handler (ok d, s) p k = p
  rescue-Holds handler (raise exc, s) p k = (k exc).run s

  apply_saved-ExitsZero :
      (path : String) (plan apply : Act W Fields)
      → Ensures ExitsZero Anything apply
      → Ensures ExitsZero Anything (apply_saved h path plan apply)
  unfolding apply_saved apply_again
  apply_saved-ExitsZero path plan apply p =
      Ensures-then (λ _. Unit) ExitsZero _ _ (any-Ensures _)
        (record {
          run = λ s. rescue-Holds (apply_again h plan apply) (apply s) (p.run s) λ exc.
              if-Ensures (is_command_failed exc.class && is_stale exc.text) (plan >> apply)
                (throw exc)
                (λ _. Ensures-then (λ _. Unit) ExitsZero plan apply (any-Ensures plan) p)
                (λ _. Ensures-throw exc tt);
        })

  update_alias-ExitsZero :
      (repo_root : String) (d : Fields) (output : RunResult)
      → ExitsZero d
      → Ensures ExitsZero Anything (update_alias h repo_root d output)
  unfolding update_alias
  update_alias-ExitsZero repo_root d output p =
      let aliased =
        run_expecting h "ssh alias reconciliation failed"
          (alias_request repo_root (strip output.stdout)) in
      Ensures-then (λ _. Unit) ExitsZero aliased _ (any-Ensures aliased)
        (Ensures-pure _ (put-ExitsZero "public_ipv4" (str (strip output.stdout)) d refl p))

  after_apply-ExitsZero :
      (repo_root provider : String) (d : Fields)
      → ExitsZero d
      → Ensures ExitsZero Anything (after_apply h repo_root provider d)
  unfolding after_apply
  after_apply-ExitsZero repo_root provider d p =
      Ensures-bind (λ _. Unit) ExitsZero _ (update_alias h repo_root d) (any-Ensures _)
        λ output _. update_alias-ExitsZero repo_root d output p

  run_apply-ExitsZero :
      (repo_root provider : String) → Ensures ExitsZero Anything (run_apply h repo_root provider)
  unfolding run_apply
  run_apply-ExitsZero repo_root provider =
      Ensures-bind ExitsZero ExitsZero _ _
        (apply_saved-ExitsZero _ _ _ (run_checked-ExitsZero repo_root provider _))
        (after_apply-ExitsZero repo_root provider)

  with_backup-ExitsZero :
      (v : Option Value) (d : Fields) → ExitsZero d → ExitsZero (with_backup v d)
  with_backup-ExitsZero none d p = p
  with_backup-ExitsZero (some Value.null) d p = p
  with_backup-ExitsZero (some (Value.bool b)) d p = p
  with_backup-ExitsZero (some (int z)) d p = p
  with_backup-ExitsZero (some (str s)) d p = p
  with_backup-ExitsZero (some (Value.list l)) d p = p
  with_backup-ExitsZero (some (Value.dict e)) d p = put-ExitsZero "backup" (Value.dict e) d refl p

  with_preview-ExitsZero :
      (v : Option Value) (d : Fields) → ExitsZero d → ExitsZero (with_preview v d)
  with_preview-ExitsZero none d p = p
  with_preview-ExitsZero (some Value.null) d p = p
  with_preview-ExitsZero (some (Value.bool b)) d p = p
  with_preview-ExitsZero (some (int z)) d p = p
  with_preview-ExitsZero (some (str s)) d p = p
  with_preview-ExitsZero (some (Value.list l)) d p = p
  with_preview-ExitsZero (some (Value.dict e)) d p = put-ExitsZero "target_summary" _ d refl p

  with_destroyed-ExitsZero :
      (d : Fields) → ExitsZero d → Ensures ExitsZero Anything (with_destroyed h d)
  unfolding with_destroyed
  with_destroyed-ExitsZero d p = record {
    run = λ s.
        with_preview-ExitsZero (Value.get "destroy_preview" s.0)
          (with_backup (Value.get "destroy_backup" s.0) d)
          (with_backup-ExitsZero (Value.get "destroy_backup" s.0) d p);
  }

  dispatch-ExitsZero :
      (id provider repo_root : String)
      → elem id tofu_actions ≡ true
      → Ensures ExitsZero Anything (dispatch h id provider repo_root)
  unfolding dispatch elem
  dispatch-ExitsZero id provider repo_root m =
      if-Ensures (id == "tofu_init") _ _ (λ _. run_checked-ExitsZero repo_root provider _)
        λ n1.
          if-Ensures (id == "tofu_init_upgrade") _ _
            (λ _. run_checked-ExitsZero repo_root provider _)
            λ n2.
              if-Ensures (id == "tofu_plan") _ _ (λ _. run_checked-ExitsZero repo_root provider _)
                λ n3.
                  if-Ensures (id == "tofu_apply") _ _ (λ _. run_apply-ExitsZero repo_root provider)
                    λ n4.
                      if-Ensures (id == "tofu_destroy") _ _
                        (λ _.
                          Ensures-bind ExitsZero ExitsZero _ _
                            (run_checked-ExitsZero repo_root provider _) with_destroyed-ExitsZero)
                        λ n5. absurd (
                          ground (
                            arith,
                            eq_iff id "tofu_init",
                            eq_iff "tofu_init" id,
                            eq_iff id "tofu_init_upgrade",
                            eq_iff "tofu_init_upgrade" id,
                            eq_iff id "tofu_plan",
                            eq_iff "tofu_plan" id,
                            eq_iff id "tofu_apply",
                            eq_iff "tofu_apply" id,
                            eq_iff id "tofu_destroy",
                            eq_iff "tofu_destroy" id,
                          ))

  -- An OpenTofu action that returns a result reports exit code 0 in it, whether an apply was tried
  -- again after a stale plan or not.
  pub handle-ExitsZero :
      (action : ActionDescriptor) (context : Fields) (w : W)
      → elem action.action_id tofu_actions ≡ true
      → Holds ExitsZero Anything (handle h action context w).0
  unfolding handle
  handle-ExitsZero action context w m =
      (Ensures-bind (λ _. Unit) ExitsZero (from_context h "provider") _
          (any-Ensures (from_context h "provider"))
          λ provider _.
            Ensures-bind (λ _. Unit) ExitsZero (from_context h "repo_root") _
              (any-Ensures (from_context h "repo_root"))
              λ repo_root _. dispatch-ExitsZero action.action_id provider repo_root m).run
        (context, w)
