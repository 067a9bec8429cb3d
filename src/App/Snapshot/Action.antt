-- ===== src/App/Snapshot/Action.antt =====
-- When the operator is told that nothing needs attention.
use hermes_vps.Prelude.{
  ◌≡◌, refl, ◌≢◌, ◌↔◌, ◌⊎◌, inl, inr, Bool, Bool-cases, true, false, String, List, [], ◌∷◌, ◌++◌,
  ◌==◌, arith,
}
use hermes_vps.Core.Actions.Outcome.{Runtime}
use hermes_vps.App.Startup.{blocked, PanelStartupResult}
use hermes_vps.App.Snapshot.{
  configure, fix_configuration, monitor, RemoteStatusState, fresh, unknown, stale, failed,
  needs_attention, is_unknown, EnvFileSnapshot, ProviderSnapshot, ProviderDirectorySnapshot,
  OpenTofuSnapshot, OperatorSnapshot, select_primary_action, is_blocked, one_if, problems_of,
  checks_of, summary_of, local_health_summary, Project, env_file_snapshot, provider_snapshot,
  provider_directory_snapshot, incomplete_snapshot, with_action, build_operator_snapshot,
}

-- Everything that was looked at is in order.
pub record IsHealthy (s : OperatorSnapshot) : Type 0 where
  pub env : s.env_file.exists ≡ true
  pub local : s.local_health.status == "blocked" ≡ false
  pub provider : s.provider.valid ≡ true
  pub directory : s.provider_directory.exists ≡ true
  pub deployed : s.opentofu.state_present ≡ true
  pub bootstrap : s.remote_status.bootstrap.state ≡ fresh
  pub verify : s.remote_status.verify.state ≡ fresh
  pub monitoring : s.remote_status.monitoring.state ≡ fresh

is_fresh : (k : RemoteStatusState) → needs_attention k ≡ false → is_unknown k ≡ false → k ≡ fresh
is_fresh fresh p q = refl
is_fresh stale p q = cc
is_fresh failed p q = cc
is_fresh unknown p q = cc

-- Monitoring is the primary action exactly if `.env` exists, the local checks do not block, the
-- provider is valid and its directory there, there is OpenTofu state, and the three remote
-- statuses are fresh.
pub select_primary_action_iff :
    (s : OperatorSnapshot) → (select_primary_action s ≡ monitor) ↔ IsHealthy s
unfolding select_primary_action
select_primary_action_iff s = (
  forth,
  λ h.
      rw (h.env, h.local, h.provider, h.directory, h.deployed, h.bootstrap, h.verify, h.monitoring)
        refl,
)
  where
    forth : select_primary_action s ≡ monitor → IsHealthy s
    forth e = record {
      env = ground arith;
      local = ground arith;
      provider = ground arith;
      directory = ground arith;
      deployed = ground arith;
      bootstrap = is_fresh s.remote_status.bootstrap.state (ground arith) (ground arith);
      verify = is_fresh s.remote_status.verify.state (ground arith) (ground arith);
      monitoring = is_fresh s.remote_status.monitoring.state (ground arith) (ground arith);
    }

append-NonEmpty : (ps qs : List String) → qs ≢ [] → ps ++ qs ≢ []
append-NonEmpty [] qs h = h
append-NonEmpty (p ∷ ps) qs h = λ e. cc

summary_of-blocked : (ps cs : List String) → ps ≢ [] → (summary_of ps cs).status ≡ "blocked"
unfolding summary_of
summary_of-blocked [] cs h = absurd (h refl)
summary_of-blocked (q ∷ ps) cs h = refl

problems_of-blocked :
    (startup : PanelStartupResult) (env_file : EnvFileSnapshot) (provider : ProviderSnapshot)
    (directory : ProviderDirectorySnapshot)
    → startup.state ≡ blocked
    → problems_of startup env_file provider directory ≢ []
problems_of-blocked startup env_file provider directory h =
    append-NonEmpty _ (one_if (is_blocked startup.state) startup.remediation) (rw h (λ e. cc))

local_health_summary-blocked :
    (startup : PanelStartupResult) (env_file : EnvFileSnapshot) (provider : ProviderSnapshot)
    (directory : ProviderDirectorySnapshot) (tofu : OpenTofuSnapshot)
    → startup.state ≡ blocked
    → (local_health_summary startup env_file provider directory tofu).status ≡ "blocked"
unfolding local_health_summary
local_health_summary-blocked startup env_file provider directory tofu h =
    summary_of-blocked (problems_of startup env_file provider directory)
      (checks_of env_file provider directory tofu)
      (problems_of-blocked startup env_file provider directory h)

select_primary_action-blocked :
    (s : OperatorSnapshot)
    → s.local_health.status ≡ "blocked"
    → (select_primary_action s ≡ configure) ⊎ (select_primary_action s ≡ fix_configuration)
unfolding select_primary_action
select_primary_action-blocked s h = elim (Bool-cases s.env_file.exists) [
  | inl there ↦ inr (rw (there, h) refl)
  | inr missing ↦ inl (rw missing refl)
]

incomplete_snapshot-blocked :
    (rt : Runtime) (is_old : String → Bool) (startup : PanelStartupResult) (p : Project)
    → startup.state ≡ blocked
    → (incomplete_snapshot rt is_old startup p).local_health.status ≡ "blocked"
unfolding incomplete_snapshot
incomplete_snapshot-blocked rt is_old startup p h =
    let env_file = env_file_snapshot p.env_exists p.env_readable p.env_mode p.values in
    let provider = provider_snapshot startup p.values in
    let directory = provider_directory_snapshot p.directory provider.selection in
    local_health_summary-blocked startup env_file provider directory (p.opentofu provider.selection)
      h

-- While the panel's startup is blocked, the operator is offered only to configure the project or
-- to fix its configuration: no deployment, no bootstrap and no monitoring.
pub build_operator_snapshot-blocked :
    (rt : Runtime) (is_old : String → Bool) (startup : PanelStartupResult) (p : Project)
    → startup.state ≡ blocked
    → ((build_operator_snapshot rt is_old startup p).primary_action ≡ configure)
      ⊎ ((build_operator_snapshot rt is_old startup p).primary_action ≡ fix_configuration)
unfolding build_operator_snapshot with_action
build_operator_snapshot-blocked rt is_old startup p h =
    select_primary_action-blocked (incomplete_snapshot rt is_old startup p)
      (incomplete_snapshot-blocked rt is_old startup p h)
