-- ===== src/Core/Runner/Run/Child.antt =====
-- hermes_control_core/runner.py: the child that a runner spawns, its command and its environment.
use hermes_vps.Prelude.{
  ℕ, ◌≡◌, refl, sym, ap, ◌∙◌, Bool, true, false, String, Option, none, some, List, [], ◌∷◌, ◌++◌,
  ◌==◌, eq_iff, arith, elem, if◌then◌else◌, Bool-cases, inl, inr,
}
use hermes_vps.Prelude.Dict.{
  Dict, lookup, insert, keys, lookup-insert, elem-keys, NodupKeys, insert-NodupKeys, lookup-none,
}
use hermes_vps.Prelude.Flow.{ok, ok-inj}
use hermes_vps.Value.{ℤ}
use hermes_vps.Core.Interfaces.{
  Command, argv, text, EnvSetting, value, unset, RunRequest, RunResult,
}
use hermes_vps.Core.Runner.{Runner}
use hermes_vps.Core.Runner.Run.{
  Spawn, Completed, command_from, command_of, remove, overlay, overlay_of, spawn_of, run_request,
  IsFaithful, run_request-IsFaithful,
}

-- The command that a request with this command and `shell` asks for, behind the runner's prefix.
abbrev pub Carries : Command → Bool → List String → Command → Type 0
Carries (text line) shell prefix c = (shell ≡ true) × (c ≡ text line)
Carries (argv words) shell prefix c = (shell ≡ false) × (c ≡ argv (prefix ++ words))

-- The last setting of a variable.
abbrev pub setting_of : String → List (String × EnvSetting) → Option EnvSetting
setting_of k [] = none
setting_of k ((j, s) ∷ settings) = elim (setting_of k settings) [
  | some later ↦ some later
  | none ↦ if j == k then some s else none
]

-- What a setting makes of a variable.
abbrev pub applied : Option EnvSetting → Option String → Option String
applied none before = before
applied (some (value v)) before = some v
applied (some unset) before = none

abbrev pub settings_of : Option (List (String × EnvSetting)) → List (String × EnvSetting)
settings_of none = []
settings_of (some settings) = settings

remove-lookup :
    (k j : String) (env : Dict String)
    → NodupKeys env
    → lookup k (remove j env) ≡ (if j == k then none else lookup k env)
unfolding remove lookup
remove-lookup k j [] h = elim (Bool-cases (j == k)) [ inl e ↦ rw e refl | inr e ↦ rw e refl ]
remove-lookup k j ((i, v) ∷ env) (fresh, h) =
    ground
      (arith, eq_iff i j, eq_iff j k, eq_iff i k, lookup-none i env fresh, remove-lookup k j env h)

elem-remove :
    (k j : String) (env : Dict String)
    → NodupKeys env
    → elem k (keys env) ≡ false
    → elem k (keys (remove j env)) ≡ false
elem-remove k j env h absent =
    rw (elem-keys k (remove j env), remove-lookup k j env h, lookup-none k env absent)
      (elim (Bool-cases (j == k)) [ inl e ↦ rw e refl | inr e ↦ rw e refl ])

remove-NodupKeys : (j : String) (env : Dict String) → NodupKeys env → NodupKeys (remove j env)
unfolding remove keys
remove-NodupKeys j [] h = tt
remove-NodupKeys j ((i, v) ∷ env) (fresh, h) = elim (Bool-cases (i == j)) [
  | inl same ↦ rw same h
  | inr other ↦ rw other (elem-remove i j env h fresh, remove-NodupKeys j env h)
]

applied-step :
    (later : Option EnvSetting) (b : Bool) (s : EnvSetting) (before : Option String)
    → applied later (if b then applied (some s) before else before)
      ≡ applied (elim later [ some x ↦ some x | none ↦ if b then some s else none ]) before
applied-step none true s before = refl
applied-step none false s before = refl
applied-step (some (value v)) b s before = refl
applied-step (some unset) b s before = refl

overlay-lookup :
    (k : String) (settings : List (String × EnvSetting)) (env : Dict String)
    → NodupKeys env
    → lookup k (overlay settings env) ≡ applied (setting_of k settings) (lookup k env)
unfolding overlay
overlay-lookup k [] env h = refl
overlay-lookup k ((j, value v) ∷ settings) env h =
    overlay-lookup k settings (insert j v env) (insert-NodupKeys j v env h)
    ∙ ap (applied (setting_of k settings)) (lookup-insert k j v env)
    ∙ applied-step (setting_of k settings) (j == k) (value v) (lookup k env)
overlay-lookup k ((j, unset) ∷ settings) env h =
    overlay-lookup k settings (remove j env) (remove-NodupKeys j env h)
    ∙ ap (applied (setting_of k settings)) (remove-lookup k j env h)
    ∙ applied-step (setting_of k settings) (j == k) unset (lookup k env)

overlay_of-lookup :
    (k : String) (settings : Option (List (String × EnvSetting))) (env : Dict String)
    → NodupKeys env
    → lookup k (overlay_of settings env)
      ≡ applied (setting_of k (settings_of settings)) (lookup k env)
overlay_of-lookup k none env h = refl
overlay_of-lookup k (some settings) env h = overlay-lookup k settings env h

command_from-Carries :
    (prefix : List String) (shell : Bool) (asked : Command) {c : Command}
    → command_from prefix shell asked ≡ ok c
    → Carries asked shell prefix c
unfolding command_from
command_from-Carries prefix true (text line) e = (refl, sym (ok-inj e))
command_from-Carries prefix false (text line) e = absurd (cc)
command_from-Carries prefix true (argv words) e = absurd (cc)
command_from-Carries prefix false (argv words) e = (refl, sym (ok-inj e))

command_of-Carries :
    (runner : Runner) (request : RunRequest) (c : Command)
    → command_of runner request ≡ ok c
    → Carries request.command request.shell runner.prefix_argv c
unfolding command_of
command_of-Carries runner request c e =
    command_from-Carries runner.prefix_argv request.shell request.command e

-- What `subprocess.run` is called with for a request.
pub record IsSpawnOf (runner : Runner) (request : RunRequest) (environ : Dict String) (s : Spawn)
    : Type 0 where
  pub command : Carries request.command request.shell runner.prefix_argv s.command
  pub env :
      (k : String)
      → lookup k s.env ≡ applied (setting_of k (settings_of request.env)) (lookup k environ)
  pub cwd : s.cwd ≡ request.cwd
  pub shell : s.shell ≡ request.shell
  pub timeout : s.timeout_s ≡ request.timeout_s

module _ {W : Type 0} (spawn : Spawn → W → Completed × W) (environ : Dict String)
    (show : ℤ → String) (now : W → ℕ × W) (cap : ℕ) where
  -- Where a result comes from.
  abbrev pub IsOfChild : Runner → RunRequest → W → RunResult → Type 0
  IsOfChild runner request w r =
      (s : Spawn) × IsSpawnOf runner request environ s
      × IsFaithful spawn environ show now cap runner (spawn s (now w).1).0 r

  -- A result that `SubprocessRunner.run` returns, in a process environment whose variables are
  -- distinct, is of a child that was spawned with the words of the request behind the runner's
  -- prefix and no shell, or with the text of the request and a shell; in its directory and under
  -- its time limit; and in an environment in which every variable that the request sets has that
  -- value, every one that it unsets has none, and every other one is the process's. The child ended
  -- with code 0. The result names the runner's mode, and its outputs are the child's own unless
  -- the truncation flag is set, which is exactly where one of them is longer than the cap.
  pub run_request-IsOfChild :
      (runner : Runner) (request : RunRequest) (w : W) (r : RunResult)
      → NodupKeys environ
      → (run_request spawn environ show now cap runner request w).0 ≡ ok r
      → IsOfChild runner request w r
  run_request-IsOfChild runner request w r distinct e =
      let (c, asked, faithful) =
        run_request-IsFaithful spawn environ show now cap runner request w r e in
      (
        spawn_of spawn environ show now cap request c,
        record {
          command = command_of-Carries runner request c asked;
          env = λ k. overlay_of-lookup k request.env environ distinct;
          cwd = refl;
          shell = refl;
          timeout = refl;
        },
        faithful,
      )
