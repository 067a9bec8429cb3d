-- ===== src/App/Workflows/Handler/Results.antt =====
-- What the handler's calls return and leave behind.
use hermes_vps.Prelude.{
  ◌≡◌, refl, ◌⊎◌, inl, inr, Bool, true, false, String, some, if◌then◌else◌, Option-cases, sym,
}
use hermes_vps.Prelude.Flow.{Result, ok, raise, continue}
use hermes_vps.Value
use hermes_vps.Value.{ℤ, pos, negsuc, Value, Fields, int, str}
use hermes_vps.Core.Actions.Outcome.{text_of}
use hermes_vps.Core.Engine.{raised}
use hermes_vps.Core.Interfaces.{key_error, Exception}
use hermes_vps.App.Workflows.Handler.{Effects, Setup, on_files, from_context, config_of}
use hermes_vps.App.Workflows.Handler.Remote.{
  Target, runtime_dir, execute_bootstrap_remote, cleanup_runtime, finally_clean, staged,
  bootstrap_target, read_target,
}

-- Removing a directory tree removes it.
abbrev pub Removes : {W : Type 0} → Effects W → Type 0
Removes {W} fx = (dir : String) (w : W) → fx.exists dir (fx.remove_tree dir w) ≡ false

module _ {W : Type 0} (h : Setup W) where
  cleanup_runtime-exists :
      Removes h.effects
      → (dir : String) (w : W) → h.effects.exists dir (cleanup_runtime h dir w) ≡ false
  unfolding cleanup_runtime
  cleanup_runtime-exists removes dir w = go (h.effects.exists dir w) refl
    where
      go :
          (b : Bool)
          → h.effects.exists dir w ≡ b
          → h.effects.exists dir (if b then h.effects.remove_tree dir w else w) ≡ false
      go true e = removes dir w
      go false e = e

  -- Reading the target changes nothing, and the target is in the context's repository.
  read_target-cases :
      (s : Fields × W) (repo_root : String)
      → Value.get "repo_root" s.0 ≡ some (str repo_root)
      → ((exc : Exception) × (read_target h s ≡ (raise exc, s)))
        ⊎ ((t : Target) × (t.repo_root ≡ repo_root) × (read_target h s ≡ (ok t, s)))
  unfolding read_target from_context config_of
  read_target-cases s repo_root e = elim (Option-cases h.config) [
    | inl no_config ↦ inl (raised key_error "bootstrap_config", rw (e, no_config) refl)
    | inr (config, has_config) ↦ elim (Option-cases (Value.get "bootstrap_target_ip" s.0)) [
      | inl no_ip ↦ inl (raised key_error "bootstrap_target_ip", rw (e, has_config, no_ip) refl)
      | inr (ip, has_ip) ↦ elim (Option-cases (Value.get "bootstrap_target_user" s.0)) [
        | inl no_user ↦
            inl (raised key_error "bootstrap_target_user", rw (e, has_config, has_ip, no_user) refl)
        | inr (user, has_user) ↦ inr (
          record {
            config = config;
            repo_root = repo_root;
            ip = text_of h.rt ip;
            user = text_of h.rt user;
            port = text_of h.rt (int (pos config.ssh_port));
          },
          refl,
          rw (e, has_config, has_ip, has_user) refl,
        )
      ]
    ]
  ]

  -- How a remote bootstrap leaves the runtime directory: it is not there, or nothing was written in it
  -- because the target could not be read, or because the directory could not be made.
  abbrev pub IsClean :
      (dir : String) (s : Fields × W) → Result Exception Fields × (Fields × W) → Type 0
  IsClean dir s after =
      (h.effects.exists dir after.1.1 ≡ false)
      ⊎ ((exc : Exception) × (after.0 ≡ raise exc)
          × ((after.1 ≡ s) ⊎ (h.effects.make_dir dir s.1 ≡ (raise exc, after.1.1))))

  staged-IsClean :
      Removes h.effects
      → (t : Target) (s : Fields × W) → IsClean (runtime_dir t.repo_root) s (staged h t s)
  unfolding staged on_files finally_clean
  staged-IsClean removes t (context, w) = go (h.effects.make_dir (runtime_dir t.repo_root) w) refl
    where
      go :
          (made : Result Exception (Unit {0}) × W)
          → h.effects.make_dir (runtime_dir t.repo_root) w ≡ made
          → IsClean
              (runtime_dir t.repo_root)
              (context, w)
              (continue made.0
                (λ _. finally_clean h (runtime_dir t.repo_root) (bootstrap_target h t))
                (context, made.1))
      go (ok _, w') e = inl (
          cleanup_runtime-exists removes (runtime_dir t.repo_root)
            (bootstrap_target h t (context, w')).1.1)
      go (raise exc, w') e = inr (exc, refl, inr e)

  -- Whatever a remote bootstrap returns or raises, the runtime directory with the secrets is not there
  -- afterwards, where removing a tree removes it; unless the bootstrap raised before a file was written.
  pub execute_bootstrap_remote-IsClean :
      Removes h.effects
      → (s : Fields × W) (repo_root : String) → Value.get "repo_root" s.0 ≡ some (str repo_root)
      → IsClean (runtime_dir repo_root) s (execute_bootstrap_remote h s)
  unfolding execute_bootstrap_remote
  execute_bootstrap_remote-IsClean removes s repo_root e = elim (read_target-cases s repo_root e) [
    | inl (exc, unread) ↦ rw unread (inr (exc, refl, inl refl))
    | inr (t, same, read) ↦ rw (read, sym same) (staged-IsClean removes t s)
  ]
