-- ===== src/Core/Interfaces.antt =====
-- hermes_control_core/interfaces.py: modes, levels, run requests and results, and the exceptions.
use hermes_vps.Prelude.{ℕ, Bool, true, false, String, Option, List}
use hermes_vps.Value.{ℤ}

pub data RunnerMode : Type 0 where
  direnv_nix nix_develop docker_nix host : RunnerMode

pub data SideEffectLevel : Type 0 where
  none low high destructive : SideEffectLevel

-- `str | ENV_UNSET`
pub data EnvSetting : Type 0 where
  value : String → EnvSetting
  unset : EnvSetting

-- `list[str] | str`
pub data Command : Type 0 where
  argv : List String → Command
  text : String → Command

-- Times are seconds, paths are texts.
pub record RunRequest : Type 0 where
  pub command : Command
  pub cwd : Option String
  pub env : Option (List (String × EnvSetting))
  pub timeout_s : Option ℕ
  pub stream : Bool
  pub side_effect_level : SideEffectLevel
  pub shell : Bool

pub record RunResult : Type 0 where
  pub exit_code : ℤ
  pub stdout : String
  pub stderr : String
  pub started_at : ℕ
  pub finished_at : ℕ
  pub runner_mode : RunnerMode
  pub redactions_applied : Bool
  pub output_truncated : Bool

-- hermes_control_core/runner.py: the enum has the values of `RunnerMode`.
abbrev pub DetectionMode : Type 0
DetectionMode = RunnerMode

pub record RunnerSelection : Type 0 where
  pub mode : DetectionMode
  pub reason : String
  pub lock_scope : String
  pub guidance : String

-- The classes that the program raises or tests for.
pub data ExceptionClass : Type 0 where
  runner_error runner_unavailable runner_detection_error command_not_found : ExceptionClass
  command_failed command_timeout output_limit_exceeded redaction_error : ExceptionClass
  permission_error value_error key_error runtime_error cli_graph_failure other : ExceptionClass

-- One of `exc.args`.
pub data Argument : Type 0 where
  message : String → Argument
  run_result : RunResult → Argument
  opaque_argument : Argument

-- `text` is `str(exc)`, and `selection` the attribute of that name.
pub record Exception : Type 0 where
  pub class : ExceptionClass
  pub args : List Argument
  pub text : String
  pub selection : Option RunnerSelection

-- isinstance(exc, RunnerUnavailable), with its subclass
abbrev pub is_runner_unavailable : ExceptionClass → Bool
is_runner_unavailable runner_unavailable = true
is_runner_unavailable runner_detection_error = true
is_runner_unavailable _ = false

abbrev pub is_command_failed : ExceptionClass → Bool
is_command_failed command_failed = true
is_command_failed _ = false
