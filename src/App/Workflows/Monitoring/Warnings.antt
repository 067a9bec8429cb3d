-- ===== src/App/Workflows/Monitoring/Warnings.antt =====
-- The probes that run, the hints they carry, and the summary of the last.
use hermes_vps.Prelude.{
  ◌≡◌, refl, sym, ap, ◌∙◌, ◌↔◌, Bool, true, false, not, ◌&&◌, String, Option, none, some, List, [],
  ◌∷◌, ◌++◌, ◌==◌, arith, nat_eq, All, All-append, is_some,
}
use hermes_vps.Prelude.Dict.{keys}
use hermes_vps.Prelude.Flow.{Result, ok, raise}
use hermes_vps.Text.{◌<>◌}
use hermes_vps.App.Workflows.{monitoring_graph}
use hermes_vps.App.Workflows.Environment.{EnvironmentError, resolve_provider}
use hermes_vps.App.Workflows.Monitoring.{
  Check, Probes, hint_of, ok_or_warn, not_ok, count_warnings, local_checks, health_check,
  run_monitoring_graph, provider_check, toolchain_check, env_check, directory_check, commands_check,
  plan_check, logs_check, hardening_check, hint_unless,
}

abbrev pub probe_ids : List Check → List String
probe_ids [] = []
probe_ids (c ∷ checks) = c.probe_id ∷ probe_ids checks

-- A check that is not ok says what to do.
pub record HasHint (c : Check) : Type 0 where
  pub hint : not_ok c ≡ true → is_some c.remediation_hint ≡ true

-- The last of the checks is the health probe, which is ok exactly when all before it are.
abbrev pub EndsWithHealth : List Check → Type 0
EndsWithHealth run =
    (checks : List Check) × (last : Check) × (run ≡ checks ++ (last ∷ []))
    × (last.probe_id ≡ "health_probe")
    × ((not_ok last ≡ false) ↔ All (λ c. not_ok c ≡ false) checks)

hint_of-HasHint :
    (c : Check) (hint : Option String) → c.remediation_hint ≡ hint_of hint c.severity → HasHint c
hint_of-HasHint c (some hint) same = record { hint = λ bad. ap is_some same }
hint_of-HasHint c none same = record { hint = λ bad. ap is_some same ∙ ground arith }

ok_or_warn-not : (b : Bool) → not (ok_or_warn b == "ok") ≡ not b
ok_or_warn-not true = refl
ok_or_warn-not false = refl

count_warnings-zero :
    (checks : List Check) → count_warnings checks ≡ 0 → All (λ c. not_ok c ≡ false) checks
count_warnings-zero [] h = tt
count_warnings-zero (c ∷ checks) h = (ground arith, count_warnings-zero checks (ground arith))

zero-count_warnings :
    (checks : List Check) → All (λ c. not_ok c ≡ false) checks → count_warnings checks ≡ 0
zero-count_warnings [] h = refl
zero-count_warnings (c ∷ checks) h = ground (arith, zero-count_warnings checks h.1)

module _ (p : Probes) (repo_root : String) (override : Option String) where
  provider_check-HasHint :
      (r : Result EnvironmentError String)
      → HasHint (provider_check p r) × ((provider_check p r).probe_id ≡ "provider_resolution")
  unfolding provider_check
  provider_check-HasHint (ok provider) = (hint_of-HasHint _ none refl, refl)
  provider_check-HasHint (raise e) = (hint_of-HasHint _ none refl, refl)

  hardening_check-HasHint : HasHint (hardening_check p repo_root)
  unfolding hardening_check
  hardening_check-HasHint =
      hint_of-HasHint (hardening_check p repo_root)
        (hint_unless
          (p.os.is_file (repo_root <> "/bootstrap/20-hardening.sh")
            && p.os.is_file (repo_root <> "/bootstrap/90-verify.sh"))
          "Restore bootstrap hardening/verify scripts before relying on audit output.")
        refl

  health_check-HasHint : (checks : List Check) → HasHint (health_check p checks)
  unfolding health_check
  health_check-HasHint checks =
      hint_of-HasHint (health_check p checks)
        (hint_unless (nat_eq (count_warnings checks) 0)
          "Inspect warning probes and rerun monitoring after local inputs are repaired.")
        refl

  local_checks-HasHint : All HasHint (local_checks p repo_root override)
  unfolding local_checks toolchain_check env_check directory_check commands_check plan_check
      logs_check
  local_checks-HasHint = (
    hint_of-HasHint _ none refl,
    (
      hint_of-HasHint _ none refl,
      (
        (provider_check-HasHint (resolve_provider p.os override)).0,
        (
          hint_of-HasHint _ none refl,
          (
            hint_of-HasHint _ none refl,
            (
              hint_of-HasHint _ none refl,
              (hint_of-HasHint _ none refl, (hardening_check-HasHint, tt)),
            ),
          ),
        ),
      ),
    ),
  )

  health_check_iff :
      (checks : List Check)
      → (not_ok (health_check p checks) ≡ false) ↔ All (λ c. not_ok c ≡ false) checks
  unfolding health_check
  health_check_iff checks = (
    λ h. count_warnings-zero checks (counted h),
    λ h. (let none_bad = zero-count_warnings checks h in rw none_bad refl),
  )
    where
      counted : not_ok (health_check p checks) ≡ false → count_warnings checks ≡ 0
      counted h =
          let same : not (nat_eq (count_warnings checks) 0) ≡ false =
            sym (ok_or_warn-not (nat_eq (count_warnings checks) 0)) ∙ h in
          ground arith

  -- A monitoring run makes the probes of the monitoring graph, in its order; every probe that is not ok
  -- carries a hint; and the last, the health probe, is ok exactly when all the others are.
  pub run_monitoring_graph_lem :
      (probe_ids (run_monitoring_graph p repo_root override) ≡ keys monitoring_graph.actions)
      × All HasHint (run_monitoring_graph p repo_root override)
      × EndsWithHealth (run_monitoring_graph p repo_root override)
  unfolding run_monitoring_graph local_checks toolchain_check env_check directory_check
      commands_check plan_check logs_check hardening_check health_check keys
  run_monitoring_graph_lem = (
    rw ((provider_check-HasHint (resolve_provider p.os override)).1) refl,
    All-append HasHint (local_checks p repo_root override)
        (health_check p (local_checks p repo_root override) ∷ []) local_checks-HasHint
        (health_check-HasHint (local_checks p repo_root override), tt),
    (
      local_checks p repo_root override,
      health_check p (local_checks p repo_root override),
      refl,
      refl,
      health_check_iff (local_checks p repo_root override),
    ),
  )
