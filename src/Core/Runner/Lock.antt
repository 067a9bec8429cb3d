-- ===== src/Core/Runner/Lock.antt =====
-- The runner that `RunnerFactory.get` returns, and its lock.
use mathlib.Core.Path.{subst}
use hermes_vps.Prelude.{
  ℕ, ◌≡◌, refl, ap, zero, suc, Bool, true, false, String, none, some, inl, inr, ◌⊎◌,
}
use hermes_vps.Prelude.Flow.{Result, ok, raise, and_then, ok-inj}
use hermes_vps.Value.{pos, negsuc}
use hermes_vps.Core.Interfaces.{
  RunnerMode, direnv_nix, nix_develop, docker_nix, host, RunnerSelection, Exception,
}
use hermes_vps.Core.Runner.{
  DockerInfo, not_run, ended, detect_by, passed, get_with, Machine, Runner, RunnerFactory,
  is_attached, detect, check_docker, preflight_selection, build, record_selection, lock,
  checked_selection, get,
}

-- Why a mode was selected.
abbrev pub Selected : Machine → RunnerFactory → RunnerMode → Type 0
Selected m f direnv_nix = is_attached m ≡ true
Selected m f nix_develop = (is_attached m ≡ false) × (m.has_nix ≡ true)
Selected m f docker_nix =
    (is_attached m ≡ false)
    × (m.has_nix ≡ false)
    × (m.has_docker ≡ true)
    × ((stderr : String) × (stdout : String) × (m.docker_info ≡ ended (pos 0) stderr stdout))
Selected m f host =
    (is_attached m ≡ false)
    × (m.has_nix ≡ false)
    × (m.has_docker ≡ false)
    × (f.allow_host_override ≡ true)

check_docker-ended :
    (d : DockerInfo) (s : RunnerSelection)
    → check_docker d s ≡ ok tt
    → (stderr : String) × (stdout : String) × (d ≡ ended (pos 0) stderr stdout)
unfolding check_docker
check_docker-ended (not_run text) s e = cc
check_docker-ended (ended (pos zero) stderr stdout) s e = (stderr, stdout, refl)
check_docker-ended (ended (pos (suc n)) stderr stdout) s e = cc
check_docker-ended (ended (negsuc n) stderr stdout) s e = cc

passed-ok :
    (m : Machine) (s t : RunnerSelection)
    → passed m (ok s) ≡ ok t
    → (s ≡ t) × (preflight_selection m s ≡ ok tt)
unfolding passed
passed-ok m s t e = go (preflight_selection m s) e
  where
    go : (r : Result Exception (Unit {0})) → and_then r (λ _. ok s) ≡ ok t → (s ≡ t) × (r ≡ ok tt)
    go (ok _) e = (ok-inj e, refl)
    go (raise x) e = cc

module _ (m : Machine) (f : RunnerFactory) (s : RunnerSelection) where
  by_tests :
      (attached nix docker allow : Bool)
      → is_attached m ≡ attached
      → m.has_nix ≡ nix
      → m.has_docker ≡ docker
      → f.allow_host_override ≡ allow
      → passed m (detect_by f attached nix docker allow) ≡ ok s
      → Selected m f s.mode
  unfolding detect_by preflight_selection
  by_tests true nix docker allow a n d h e =
      subst (λ t. Selected m f t.mode) (passed-ok m _ s e).0 a
  by_tests false true docker allow a n d h e =
      subst (λ t. Selected m f t.mode) (passed-ok m _ s e).0 (a, n)
  by_tests false false true allow a n d h e =
      let (same, ran) = passed-ok m _ s e in
      subst (λ t. Selected m f t.mode) same (a, n, d, check_docker-ended m.docker_info _ ran)
  by_tests false false false true a n d h e =
      subst (λ t. Selected m f t.mode) (passed-ok m _ s e).0 (a, n, d, h)
  by_tests false false false false a n d h e = unfold passed in cc

  checked_selection-Selected : checked_selection m f ≡ ok s → Selected m f s.mode
  unfolding checked_selection detect
  checked_selection-Selected e =
      by_tests (is_attached m) m.has_nix m.has_docker f.allow_host_override refl refl refl refl e

get-fresh :
    (m : Machine) (now : ℕ) (f : RunnerFactory)
    → f.locked ≡ none
    → get m now f ≡ lock now f (checked_selection m f)
unfolding get get_with
get-fresh m now f h = ap (get_with m now f) h

-- The two ways in which a first call ends.
abbrev pub FirstGet : Machine → ℕ → RunnerFactory → Result Exception Runner × RunnerFactory → Type 0
FirstGet m now f r =
    ((exc : Exception) × (r ≡ (raise exc, f)))
    ⊎ ((runner : Runner) × (selection : RunnerSelection) × (after : RunnerFactory) × (r
          ≡ (ok runner, after))
        × (runner ≡ build f.repo_root selection.mode)
        × Selected m f selection.mode
        × (after.selection ≡ some selection)
        × (after.audit_log ≡ record_selection now selection f.audit_log)
        × ((m' : Machine) (later : ℕ) → get m' later after ≡ (ok runner, after)))

-- A factory without a locked runner either raises and stays as it is, or returns a runner. Then
-- the runner's mode follows the order of detection: the host only with the explicit override and
-- with no attached shell, no nix and no docker, and Docker only after `docker info` has
-- succeeded. The same selection is kept, and an audit log records it; from then on every call
-- returns this runner and changes nothing, however the machine has changed.
pub get_lem :
    (m : Machine) (now : ℕ) (f : RunnerFactory) → f.locked ≡ none → FirstGet m now f (get m now f)
unfolding get get_with lock
get_lem m now f fresh =
    rw (get-fresh m now f fresh) (go (checked_selection m f) (checked_selection-Selected m f))
  where
    go :
        (r : Result Exception RunnerSelection)
        → ((s : RunnerSelection) → r ≡ ok s → Selected m f s.mode)
        → FirstGet m now f (lock now f r)
    go (raise exc) k = inl (exc, refl)
    go (ok s) k = inr (_, s, _, refl, refl, k s refl, refl, refl, λ m' later. refl)
