-- ===== src/App/Startup/Verdicts.antt =====
-- What the panel's launch-time gate decides.
use mathlib.Core.Path.{subst}
use Prim.Native.Nat.{◌%◌}
use hermes_vps.Prelude.{
  ◌≡◌, refl, ap, ◌∙◌, Bool, Option, List, [], true, false, not, String, none, some, arith, nat_eq,
  elem, if◌then◌else◌, inl, inr, ◌⊎◌,
}
use hermes_vps.Prelude.Dict.{Dict}
use hermes_vps.Prelude.Flow.{Result, ok, raise, and_then-ok, ok-inj}
use hermes_vps.Text.{◌<>◌}
use hermes_vps.Core.Interfaces.{RunnerMode, Exception}
use hermes_vps.Core.Engine.Execute.{mode_name}
use hermes_vps.App.Startup.{
  dashboard_ready, configuration_required, blocked, PanelStartupResult, RemediationScreen, Files,
  valid_providers, parse_env, parsed, read_env_values, check_provider, provider_in, validate_local,
  no_runner, with_env, no_env, validated, runner_remediation_screen, local_remediation_screen,
  evaluate_panel_startup,
}

-- The provider that the lines of a `.env` file name.
abbrev pub Names : Files → String → Type 0
Names files provider =
    (lines : List String) × (files.lines ≡ some lines)
    × (provider_in (parse_env lines []) ≡ provider)

-- A `.env` file of its owner only, which can be read and names this provider, a supported one whose
-- directory is there.
pub record IsPrivate (files : Files) (provider : String) : Type 0 where
  pub regular : files.env_is_file ≡ true
  pub owner_only : nat_eq (files.env_mode % 64) 0 ≡ true
  pub readable : files.env_readable ≡ true
  pub named : Names files provider
  pub valid : elem provider valid_providers ≡ true
  pub present : files.directory ("opentofu/providers/" <> provider) ≡ true

check_provider-ok :
    (files : Files) (p q : String)
    → check_provider files p ≡ ok q
    → (p ≡ q)
      × (elem p valid_providers ≡ true)
      × (files.directory ("opentofu/providers/" <> p) ≡ true)
unfolding check_provider
check_provider-ok files p q e =
    go (elem p valid_providers) (files.directory ("opentofu/providers/" <> p)) e
  where
    go :
        (b d : Bool)
        → ◌≡◌ {A = Result String String}
            (if not b
              then raise "provider must be hetzner or linode"
              else if not d
              then raise ("OpenTofu provider directory not found: opentofu/providers/" <> p)
              else ok p)
            (ok q)
        → (p ≡ q) × (b ≡ true) × (d ≡ true)
    go true true e = (ok-inj e, refl, refl)
    go true false e = cc
    go false d e = cc

parsed-ok :
    (o : Option (List String)) (values : Dict String)
    → parsed o ≡ ok values
    → (lines : List String) × (o ≡ some lines) × (parse_env lines [] ≡ values)
unfolding parse_env
parsed-ok none values e = cc
parsed-ok (some lines) values e = (lines, refl, ok-inj e)

read_env_values-ok :
    (files : Files) (values : Dict String)
    → read_env_values files ≡ ok values
    → (files.env_is_file ≡ true)
      × (nat_eq (files.env_mode % 64) 0 ≡ true)
      × (files.env_readable ≡ true)
      × (parsed files.lines ≡ ok values)
unfolding read_env_values
read_env_values-ok files values e =
    go files.env_is_file (nat_eq (files.env_mode % 64) 0) files.env_readable e
  where
    go :
        (b c d : Bool)
        → ◌≡◌ {A = Result String (Dict String)}
            (if not b
              then raise ".env is not a regular file"
              else if not c
              then raise ".env permissions are too broad; expected mode 600"
              else if not d
              then raise ".env is not readable"
              else parsed files.lines)
            (ok values)
        → (b ≡ true) × (c ≡ true) × (d ≡ true) × (parsed files.lines ≡ ok values)
    go true true true e = (refl, refl, refl, e)
    go false c d e = cc
    go true false d e = cc
    go true true false e = cc

validate_local-IsPrivate :
    (files : Files) (p : String) → validate_local files ≡ ok p → IsPrivate files p
unfolding validate_local
validate_local-IsPrivate files p e =
    let (values, read, checked) =
      and_then-ok (read_env_values files) (λ v. check_provider files (provider_in v)) e in
    let (regular, owner_only, readable, parses) = read_env_values-ok files values read in
    let (lines, there, same_values) = parsed-ok files.lines values parses in
    let (same, valid, present) = check_provider-ok files (provider_in values) p checked in
    record {
      regular = regular;
      owner_only = owner_only;
      readable = readable;
      named = (lines, there, ap (λ v. provider_in v) same_values ∙ same);
      valid = subst (λ q. elem q valid_providers ≡ true) same valid;
      present = subst (λ q. files.directory ("opentofu/providers/" <> q) ≡ true) same present;
    }

-- Such a file passes.
IsPrivate-validate_local :
    (files : Files) (p : String) → IsPrivate files p → validate_local files ≡ ok p
unfolding validate_local read_env_values check_provider
IsPrivate-validate_local files p h =
    let (lines, there, same) = h.named in
    rw (h.regular, h.owner_only, h.readable, there, same, h.valid, h.present) refl

abbrev pub Ready : Result Exception RunnerMode → Files → PanelStartupResult → Type 0
Ready runner files r =
    (r.state ≡ dashboard_ready)
    × (files.env_exists ≡ true)
    × (r.remediation_screen ≡ none)
    × ((mode : RunnerMode) × (p : String) × (runner ≡ ok mode)
        × (r.runner_mode ≡ some (mode_name mode))
        × (r.provider ≡ some p)
        × IsPrivate files p)

abbrev pub NeedsConfiguration : Result Exception RunnerMode → Files → PanelStartupResult → Type 0
NeedsConfiguration runner files r =
    (r.state ≡ configuration_required)
    × (files.env_exists ≡ false)
    × (r.remediation_screen ≡ none)
    × (r.provider ≡ none)
    × ((mode : RunnerMode) × (runner ≡ ok mode))

-- There is no runner, or a `.env` file that is not as it should be; execution is off.
abbrev pub Blocked : Result Exception RunnerMode → Files → PanelStartupResult → Type 0
Blocked runner files r =
    (r.state ≡ blocked)
    × (r.provider ≡ none)
    × (((exc : Exception) × (runner ≡ raise exc))
        ⊎ ((files.env_exists ≡ true) × ((p : String) → IsPrivate files p → ⊥)))
    × ((screen : RemediationScreen) × (r.remediation_screen ≡ some screen)
        × (screen.execution_enabled ≡ false))

runner_screen_disabled :
    (exc : Exception) → (runner_remediation_screen exc).execution_enabled ≡ false
unfolding runner_remediation_screen
runner_screen_disabled exc = ground arith

local_screen_disabled :
    (message : String) → (local_remediation_screen message).execution_enabled ≡ false
unfolding local_remediation_screen
local_screen_disabled message = ground arith

abbrev pub Verdict : Result Exception RunnerMode → Files → PanelStartupResult → Type 0
Verdict runner files r =
    Ready runner files r ⊎ NeedsConfiguration runner files r ⊎ Blocked runner files r

with_env-Verdict :
    (mode : RunnerMode) (files : Files) (b : Bool)
    → files.env_exists ≡ b
    → Verdict (ok mode) files (with_env b (mode_name mode) files)
unfolding with_env no_env validated
with_env-Verdict mode files false e = inr (inl (refl, e, refl, refl, (mode, refl)))
with_env-Verdict mode files true e =
    go (validate_local files) (validate_local-IsPrivate files) (IsPrivate-validate_local files)
  where
    go :
        (v : Result String String)
        → ((p : String) → v ≡ ok p → IsPrivate files p)
        → ((p : String) → IsPrivate files p → v ≡ ok p)
        → Verdict (ok mode) files (validated (mode_name mode) v)
    go (ok p) k back = inl (refl, e, refl, (mode, p, refl, refl, refl, k p refl))
    go (raise message) k back = inr (
        inr (
          refl,
          refl,
          inr (e, λ p private. raise_or_ok (back p private)),
          (local_remediation_screen message, refl, local_screen_disabled message),
        ))
      where
        raise_or_ok : {p : String} → ◌≡◌ {A = Result String String} (raise message) (ok p) → ⊥
        raise_or_ok h = cc

-- The gate opens the dashboard exactly where a runner is locked and there is a regular `.env` that
-- only its owner can use, that is readable, and that names a supported provider whose directory
-- is there, and shows that provider; it asks for configuration exactly where a runner is locked
-- and no `.env` exists; and where it blocks, for the lack of a runner or of such a `.env`, it
-- shows a screen on which execution is not enabled.
pub evaluate_panel_startup_lem :
    (runner : Result Exception RunnerMode) (files : Files)
    → Verdict runner files (evaluate_panel_startup runner files)
unfolding evaluate_panel_startup no_runner
evaluate_panel_startup_lem (raise exc) files = inr (
    inr (
      refl,
      refl,
      inl (exc, refl),
      (runner_remediation_screen exc, refl, runner_screen_disabled exc),
    ))
evaluate_panel_startup_lem (ok mode) files = with_env-Verdict mode files files.env_exists refl
