-- ===== src/Core/Runner.antt =====
-- hermes_control_core/runner.py: `RunnerFactory`, which detects a runner once and locks it.
pub mod Lock
pub mod Run
use hermes_vps.Prelude.{
  ℕ, zero, ◌≡◌, Bool, true, false, not, ◌&&◌, String, Option, none, some, List, [], ◌∷◌, ◌==◌,
  nat_eq, if◌then◌else◌,
}
use hermes_vps.Prelude.Flow.{Result, ok, raise, and_then}
use hermes_vps.Value.{ℤ, pos, negsuc}
use hermes_vps.Text.{◌<>◌, strip, codes, is_prefix, is_infix}
use hermes_vps.Core.Interfaces.{
  RunnerMode, direnv_nix, nix_develop, docker_nix, host, RunnerSelection, Exception,
  runner_detection_error,
}
use hermes_vps.Core.Session.{SessionAuditLog, set_runner_selection}

-- What `docker info` does: it is missing or runs out of time (with the exception's text), or it
-- ends with a code, its stderr and its stdout.
pub data DockerInfo : Type 0 where
  not_run : String → DockerInfo
  ended : ℤ → String → String → DockerInfo

-- What a detection asks of the machine: the real path of python3, PATH, whether the two programs
-- are on it, and the Docker daemon.
pub record Machine : Type 0 where
  pub python3 : String
  pub path : String
  pub has_nix : Bool
  pub has_docker : Bool
  pub docker_info : DockerInfo

-- A runner is its mode and its argument prefix.
pub record Runner : Type 0 where
  pub mode : RunnerMode
  pub prefix_argv : List String

pub record RunnerFactory : Type 0 where
  pub repo_root : String
  pub allow_host_override : Bool
  pub override_reason : String
  pub audit_log : Option SessionAuditLog
  pub locked : Option Runner
  pub selection : Option RunnerSelection

abbrev or_blank : Option String → String
or_blank none = ""
or_blank (some s) = s

abbrev detection_error : String → Option RunnerSelection → Exception
detection_error text selection = record {
  class = runner_detection_error;
  args = [];
  text = text;
  selection = selection;
}

-- `__init__`
unfoldable pub new_factory :
    String → Bool → Option String → Option SessionAuditLog → Result Exception RunnerFactory
unfolding strip
new_factory repo_root allow reason audit_log =
    let stripped = strip (or_blank reason) in
    if allow && stripped == ""
    then raise (
        detection_error
          "Host override requires non-empty override_reason (override reason) for auditability."
          none)
    else ok (record {
      repo_root = repo_root;
      allow_host_override = allow;
      override_reason = stripped;
      audit_log = audit_log;
      locked = none;
      selection = none;
    })

-- `_is_direnv_attached_nix_shell`
unfoldable pub is_attached : Machine → Bool
unfolding is_prefix is_infix
is_attached m =
    is_prefix (codes "/nix/store/") (codes m.python3)
    && is_infix (codes "/nix/store/") (codes m.path)

abbrev selected : RunnerMode → String → String → RunnerSelection
selected mode reason guidance = record {
  mode = mode;
  reason = reason;
  lock_scope = "per-launch";
  guidance = guidance;
}

-- The tests in their order: attached, nix, docker, override.
unfoldable pub detect_by :
    RunnerFactory → Bool → Bool → Bool → Bool → Result Exception RunnerSelection
detect_by f true nix docker allow = ok (
    selected direnv_nix "PATH/sys.executable indicate active nix store toolchain (direnv-attached)"
      "direnv-attached nix shell is active; no setup action is required.")
detect_by f false true docker allow = ok (
    selected nix_develop "nix command available; use nix develop wrapper mode"
      "nix is available; commands will run through nix develop for this launch.")
detect_by f false false true allow = ok (
    selected docker_nix "nix unavailable; docker present for nix container fallback"
      "Start the Docker daemon and ensure the current user can run docker, or install/activate nix/direnv.")
detect_by f false false false true = ok (
    selected host ("explicit host override enabled: " <> f.override_reason)
      "Host mode is a break-glass path; provide the audited override token before graph execution.")
detect_by f false false false false = raise (
    detection_error
      "No valid runner detected. Install/activate direnv+nix shell, or install nix, or install docker for nix fallback."
      none)

unfoldable pub detect : Machine → RunnerFactory → Result Exception RunnerSelection
unfolding is_attached detect_by
detect m f = detect_by f (is_attached m) m.has_nix m.has_docker f.allow_host_override

-- x or y
abbrev or_text : String → String → String
or_text x y = if x == "" then y else x

abbrev docker_error : String → RunnerSelection → Exception
docker_error detail selection =
    detection_error
      ("Docker nix fallback is unavailable before graph execution: " <> detail <> ". "
        <> selection.guidance)
      (some selection)

check_docker : DockerInfo → RunnerSelection → Result Exception (Unit {0})
unfolding strip
check_docker (not_run text) selection = raise (docker_error text selection)
check_docker (ended (pos zero) stderr stdout) selection = ok tt
check_docker (ended code stderr stdout) selection =
    raise (docker_error (strip (or_text stderr (or_text stdout "docker info failed"))) selection)

-- `_preflight_selection`
unfoldable pub preflight_selection : Machine → RunnerSelection → Result Exception (Unit {0})
unfolding check_docker
preflight_selection m selection = elim selection.mode [
  | docker_nix ↦ check_docker m.docker_info selection
  | _ ↦ ok tt
]

-- `_build`; every mode has its runner.
unfoldable pub build : String → RunnerMode → Runner
build repo_root direnv_nix = record { mode = direnv_nix; prefix_argv = [] }
build repo_root nix_develop = record {
  mode = nix_develop;
  prefix_argv =
      "nix"
      ∷ "--extra-experimental-features"
      ∷ "nix-command flakes"
      ∷ "develop"
      ∷ "--impure"
      ∷ ("path:" <> repo_root)
      ∷ "--command"
      ∷ [];
}
build repo_root docker_nix = record {
  mode = docker_nix;
  prefix_argv =
      "docker"
      ∷ "run"
      ∷ "--rm"
      ∷ "-v"
      ∷ (repo_root <> ":/work")
      ∷ "-w"
      ∷ "/work"
      ∷ "nixos/nix:2.24.14"
      ∷ "sh"
      ∷ "-lc"
      ∷ [];
}
build repo_root host = record { mode = host; prefix_argv = [] }

-- `_record_selection`, at a time
abbrev pub record_selection : ℕ → RunnerSelection → Option SessionAuditLog → Option SessionAuditLog
record_selection now selection none = none
record_selection now selection (some log) = some (
    set_runner_selection selection.mode selection.reason selection.lock_scope selection.guidance now
      log)

lock :
    ℕ → RunnerFactory → Result Exception RunnerSelection → Result Exception Runner × RunnerFactory
unfolding build set_runner_selection
lock now f (raise exc) = (raise exc, f)
lock now f (ok selection) =
    let runner = build f.repo_root selection.mode in
    (
      ok runner,
      record f {
        locked = some runner;
        selection = some selection;
        audit_log = record_selection now selection f.audit_log;
      },
    )

-- The selection, if it passes its preflight.
passed : Machine → Result Exception RunnerSelection → Result Exception RunnerSelection
unfolding preflight_selection
passed m (raise exc) = raise exc
passed m (ok selection) = and_then (preflight_selection m selection) (λ _. ok selection)

checked_selection : Machine → RunnerFactory → Result Exception RunnerSelection
unfolding detect passed
checked_selection m f = passed m (detect m f)

get_with : Machine → ℕ → RunnerFactory → Option Runner → Result Exception Runner × RunnerFactory
unfolding lock checked_selection
get_with m now f (some runner) = (ok runner, f)
get_with m now f none = lock now f (checked_selection m f)

unfoldable pub get : Machine → ℕ → RunnerFactory → Result Exception Runner × RunnerFactory
unfolding get_with
get m now f = get_with m now f f.locked
