-- ===== src/Core/Runner/Run.antt =====
-- hermes_control_core/runner.py: `SubprocessRunner.run` and `DockerNixRunner.run`.
pub mod Child
use mathlib.Core.Path.{subst}
use Prim.Native.String.{len}
use hermes_vps.Prelude.{
  ℕ, zero, suc, ◌≡◌, refl, Bool, true, false, not, ◌||◌, String, Option, none, some, List, [], ◌∷◌,
  ◌++◌, map, ◌==◌, arith, leb, if◌then◌else◌,
}
use hermes_vps.Prelude.Dict.{Dict, insert}
use hermes_vps.Prelude.Flow.{Result, ok, raise, ok-inj}
use hermes_vps.Value.{ℤ, pos, negsuc}
use hermes_vps.Text.{◌<>◌, join}
use hermes_vps.Core.Interfaces.{
  Command, argv, text, EnvSetting, value, unset, RunRequest, RunResult, ExceptionClass,
  command_failed, command_not_found, command_timeout, Exception, Argument, message, run_result,
}
use hermes_vps.Core.Actions.Outcome.{decode_tail}
use hermes_vps.Core.Runner.{Runner}

-- The arguments of `subprocess.run` that vary.
pub record Spawn : Type 0 where
  pub command : Command
  pub cwd : Option String
  pub env : Dict String
  pub shell : Bool
  pub timeout_s : Option ℕ

-- How `subprocess.run` ends: FileNotFoundError, TimeoutExpired or another exception, with its
-- text, or a child's code, stdout and stderr.
pub data Completed : Type 0 where
  not_found : String → Completed
  expired : String → Completed
  broken : String → Completed
  completed : ℤ → String → String → Completed

abbrev failure : ExceptionClass → String → List Argument → Exception
failure class detail args = record { class = class; args = args; text = detail; selection = none }

-- The command to spawn, or the refusal of one that does not fit `shell`.
unfoldable pub command_from : List String → Bool → Command → Result Exception Command
command_from prefix shell (text line) =
    if not shell
    then raise (
        failure command_failed "string command requires shell=True; canonical form is argv list"
          (message "string command requires shell=True; canonical form is argv list" ∷ []))
    else ok (text line)
command_from prefix shell (argv words) =
    if shell
    then raise (
        failure command_failed "shell=True incompatible with argv-list command"
          (message "shell=True incompatible with argv-list command" ∷ []))
    else ok (argv (prefix ++ words))

unfoldable pub command_of : Runner → RunRequest → Result Exception Command
unfolding command_from
command_of runner request = command_from runner.prefix_argv request.shell request.command

-- env.pop(k, None)
unfoldable pub remove : String → Dict String → Dict String
remove k [] = []
remove k ((j, v) ∷ d) = let rest = remove k d in if j == k then d else (j, v) ∷ rest

-- The loop over `request.env`.
unfoldable pub overlay : List (String × EnvSetting) → Dict String → Dict String
unfolding insert remove
overlay [] env = env
overlay ((k, value v) ∷ settings) env = overlay settings (insert k v env)
overlay ((k, unset) ∷ settings) env = overlay settings (remove k env)

abbrev pub overlay_of : Option (List (String × EnvSetting)) → Dict String → Dict String
overlay_of none env = env
overlay_of (some settings) env = overlay settings env

-- `_checked_output`, with a cap above 0
unfoldable pub checked_output : ℕ → String → String
unfolding decode_tail
checked_output cap output = if leb (len output) cap then output else decode_tail cap output

abbrev is_long : ℕ → String → Bool
is_long cap output = not (leb (len output) cap)

-- `spawn` is `subprocess.run`, `environ` is `os.environ`, `show` is str() of a code, and `cap` is
-- the output cap in bytes.
module _ {W : Type 0} (spawn : Spawn → W → Completed × W) (environ : Dict String)
    (show : ℤ → String) (now : W → ℕ × W) (cap : ℕ) where
  result_of : Runner → ℕ → ℕ → ℤ → String → String → RunResult
  unfolding checked_output
  result_of runner started finished code stdout stderr = record {
    exit_code = code;
    stdout = checked_output cap stdout;
    stderr = checked_output cap stderr;
    started_at = started;
    finished_at = finished;
    runner_mode = runner.mode;
    redactions_applied = true;
    output_truncated = is_long cap stdout || is_long cap stderr;
  }

  -- if completed.returncode != 0: raise ...
  by_code : ℤ → RunResult → Result Exception RunResult
  by_code (pos zero) r = ok r
  by_code code r =
      let detail = "command exited non-zero (" <> show code <> ")" in
      raise (failure command_failed detail (message detail ∷ run_result r ∷ []))

  ended_with : Runner → ℕ → Completed → W → Result Exception RunResult × W
  unfolding result_of by_code
  ended_with runner started (not_found detail) w =
      (raise (failure command_not_found detail (message detail ∷ [])), w)
  ended_with runner started (expired detail) w =
      (raise (failure command_timeout detail (message detail ∷ [])), w)
  ended_with runner started (broken detail) w =
      (raise (failure command_failed detail (message detail ∷ [])), w)
  ended_with runner started (completed code stdout stderr) w =
      let (finished, w') = now w in
      (by_code code (result_of runner started finished code stdout stderr), w')

  abbrev pub spawn_of : RunRequest → Command → Spawn
  spawn_of request command = record {
    command = command;
    cwd = request.cwd;
    env = overlay_of request.env environ;
    shell = request.shell;
    timeout_s = request.timeout_s;
  }

  run_command : Runner → RunRequest → Result Exception Command → W → Result Exception RunResult × W
  unfolding ended_with overlay
  run_command runner request (raise exc) w = (raise exc, w)
  run_command runner request (ok command) w =
      let (started, w1) = now w in
      let (done, w2) = spawn (spawn_of request command) w1 in ended_with runner started done w2

  -- `SubprocessRunner.run`
  unfoldable pub run_request : Runner → RunRequest → W → Result Exception RunResult × W
  unfolding run_command command_of
  run_request runner request w = run_command runner request (command_of runner request) w

  -- `DockerNixRunner.run`; `quote` is `subprocess.list2cmdline` of one argument.
  docker_payload : (String → String) → RunRequest → Result Exception String
  unfolding join
  docker_payload quote request = elim request.command [
    | text line ↦
        if not request.shell
        then raise (
            failure command_failed "string command requires shell=True"
              (message "string command requires shell=True" ∷ []))
        else ok line
    | argv words ↦ ok (join " " (map quote words))
  ]

  docker_run : Runner → RunRequest → Result Exception String → W → Result Exception RunResult × W
  unfolding run_request
  docker_run runner request (raise exc) w = (raise exc, w)
  docker_run runner request (ok payload) w =
      run_request runner (record request { command = argv (payload ∷ []); shell = false }) w

  unfoldable pub run_docker :
      (String → String) → Runner → RunRequest → W → Result Exception RunResult × W
  unfolding docker_run docker_payload
  run_docker quote runner request w = docker_run runner request (docker_payload quote request) w

  -- What a returned result says of its child: that it ended with 0, and unless the flag says that
  -- an output was cut, the outputs are the child's own.
  pub record IsFaithful (runner : Runner) (child : Completed) (r : RunResult) : Type 0 where
    pub succeeded : r.exit_code ≡ pos 0
    pub mode : r.runner_mode ≡ runner.mode
    pub child_stdout : String
    pub child_stderr : String
    pub ended : child ≡ completed (pos 0) child_stdout child_stderr
    pub flag : r.output_truncated ≡ (is_long cap child_stdout || is_long cap child_stderr)
    pub whole : r.output_truncated ≡ false → (r.stdout ≡ child_stdout) × (r.stderr ≡ child_stderr)

  result_of-IsFaithful :
      (runner : Runner) (started finished : ℕ) (stdout stderr : String)
      → IsFaithful runner
          (completed (pos 0) stdout stderr)
          (result_of runner started finished (pos 0) stdout stderr)
  unfolding result_of checked_output
  result_of-IsFaithful runner started finished stdout stderr = record {
    succeeded = refl;
    mode = refl;
    child_stdout = stdout;
    child_stderr = stderr;
    ended = refl;
    flag = refl;
    whole = λ p. (ground arith, ground arith);
  }

  by_code-IsFaithful :
      (runner : Runner) (started finished : ℕ) (code : ℤ) (stdout stderr : String) (r : RunResult)
      → by_code code (result_of runner started finished code stdout stderr) ≡ ok r
      → IsFaithful runner (completed code stdout stderr) r
  unfolding by_code
  by_code-IsFaithful runner started finished (pos zero) stdout stderr r e =
      subst (IsFaithful runner (completed (pos 0) stdout stderr)) (ok-inj e)
        (result_of-IsFaithful runner started finished stdout stderr)
  by_code-IsFaithful runner started finished (pos (suc n)) stdout stderr r e = cc
  by_code-IsFaithful runner started finished (negsuc n) stdout stderr r e = cc

  ended_with-IsFaithful :
      (runner : Runner) (started : ℕ) (done : Completed) (w : W) (r : RunResult)
      → (ended_with runner started done w).0 ≡ ok r
      → IsFaithful runner done r
  unfolding ended_with
  ended_with-IsFaithful runner started (not_found detail) w r e = cc
  ended_with-IsFaithful runner started (expired detail) w r e = cc
  ended_with-IsFaithful runner started (broken detail) w r e = cc
  ended_with-IsFaithful runner started (completed code stdout stderr) w r e =
      by_code-IsFaithful runner started (now w).0 code stdout stderr r e

  run_command-IsFaithful :
      (runner : Runner) (request : RunRequest) (c : Result Exception Command) (w : W)
      (r : RunResult)
      → (run_command runner request c w).0 ≡ ok r
      → (command : Command) × (c ≡ ok command)
        × IsFaithful runner (spawn (spawn_of request command) (now w).1).0 r
  unfolding run_command
  run_command-IsFaithful runner request (raise exc) w r e = cc
  run_command-IsFaithful runner request (ok command) w r e =
      let (started, w1) = now w in
      let (done, w2) = spawn (spawn_of request command) w1 in
      (command, refl, ended_with-IsFaithful runner started done w2 r e)

  pub run_request-IsFaithful :
      (runner : Runner) (request : RunRequest) (w : W) (r : RunResult)
      → (run_request runner request w).0 ≡ ok r
      → (command : Command) × (command_of runner request ≡ ok command)
        × IsFaithful runner (spawn (spawn_of request command) (now w).1).0 r
  unfolding run_request
  run_request-IsFaithful runner request w r e =
      run_command-IsFaithful runner request (command_of runner request) w r e
