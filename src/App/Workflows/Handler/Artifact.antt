-- ===== src/App/Workflows/Handler/Artifact.antt =====
-- A remote bootstrap with an OAuth artifact: the copy's source is its target.
use hermes_vps.Prelude.{ℕ, ◌≡◌, refl, true, String}
use hermes_vps.Prelude.Flow.{Result, ok, raise, continue, ◌>>◌}
use hermes_vps.Value.{Fields}
use hermes_vps.Core.Interfaces.{Exception}
use hermes_vps.App.Workflows.Environment.{auth_path}
use hermes_vps.App.Workflows.Handler.{Effects, Setup, Act, on_files}
use hermes_vps.App.Workflows.Handler.Remote.{
  Target, runtime_dir, execute_bootstrap_remote, finally_clean, staged, bootstrap_target,
  read_target, copy_auth, copy_artifact, copy_and_run, write_hermes_env, write_telegram_env,
  close_hermes_env, close_telegram_env,
}

-- `shutil.copy2` of a file onto itself raises.
abbrev pub RefusesSelf : {W : Type 0} → Effects W → Type 0
RefusesSelf {W} fx = (p : String) (w : W) → (exc : Exception) × ((fx.copy p p w).0 ≡ raise exc)

-- Making a directory, writing a file and changing a mode leave the files there that are there.
pub record Keeps {W : Type 0} (fx : Effects W) (p : String) : Type 0 where
  pub make_dir :
      (dir : String) (w : W) → fx.is_file p w ≡ true → fx.is_file p (fx.make_dir dir w).1 ≡ true
  pub write_text :
      (q text : String) (w : W)
      → fx.is_file p w ≡ true
      → fx.is_file p (fx.write_text q text w).1 ≡ true
  pub change_mode :
      (q : String) (m : ℕ) (w : W)
      → fx.is_file p w ≡ true
      → fx.is_file p (fx.change_mode q m w).1 ≡ true

module _ {W : Type 0} (h : Setup W) where
  abbrev pub Raises : Result Exception Fields × (Fields × W) → Type 0
  Raises after = (exc : Exception) × (after.0 ≡ raise exc)

  -- From every world in which the file is there, the code raises.
  abbrev RaisesWith : String → Act W Fields → Type 0
  RaisesWith p m =
      (context : Fields) (w : W) → h.effects.is_file p w ≡ true → Raises (m (context, w))

  on_files-Raises :
      (p : String) (op : W → Result Exception (Unit {0}) × W)
      → ((w : W) → h.effects.is_file p w ≡ true → h.effects.is_file p (op w).1 ≡ true)
      → (m : Act W Fields) → RaisesWith p m
      → RaisesWith p (on_files h op >> m)
  unfolding on_files
  on_files-Raises p op keeps m later context w there = go (op w) (keeps w there)
    where
      go :
          (r : Result Exception (Unit {0}) × W)
          → h.effects.is_file p r.1 ≡ true
          → Raises (continue r.0 (λ _. m) (context, r.1))
      go (ok _, w') kept = later context w' kept
      go (raise exc, w') kept = (exc, refl)

  copy_and_run-Raises :
      RefusesSelf h.effects
      → (t : Target) → t.config.hermes_auth_json_path ≡ auth_path t.repo_root
      → RaisesWith (auth_path t.repo_root) (copy_and_run h t)
  unfolding copy_and_run copy_artifact copy_auth on_files
  copy_and_run-Raises refuses t same context w there =
      let (exc, refused) = refuses (auth_path t.repo_root) w in
      (exc, rw (same, there, refused) refl)

  -- The copy comes after the four other file operations.
  bootstrap_target-Raises :
      RefusesSelf h.effects
      → (t : Target) → t.config.hermes_auth_json_path ≡ auth_path t.repo_root
      → Keeps h.effects (auth_path t.repo_root)
      → RaisesWith (auth_path t.repo_root) (bootstrap_target h t)
  unfolding bootstrap_target
  bootstrap_target-Raises refuses t same keeps =
      let p = auth_path t.repo_root in
      on_files-Raises p (write_hermes_env h t) (keeps.write_text _ _) _ (
        on_files-Raises p (write_telegram_env h t) (keeps.write_text _ _) _ (
          on_files-Raises p (close_hermes_env h t) (keeps.change_mode _ _) _ (
            on_files-Raises p (close_telegram_env h t) (keeps.change_mode _ _) (copy_and_run h t)
              (copy_and_run-Raises refuses t same))))

  -- With the artifact of an OAuth provider in place, where the configuration names it, a remote
  -- bootstrap raises: it copies the artifact onto itself, and `shutil.copy2` refuses that.
  pub execute_bootstrap_remote-Raises :
      RefusesSelf h.effects
      → (t : Target) → t.config.hermes_auth_json_path ≡ auth_path t.repo_root
      → Keeps h.effects (auth_path t.repo_root)
      → (s : Fields × W) → read_target h s ≡ (ok t, s)
      → h.effects.is_file (auth_path t.repo_root) s.1 ≡ true
      → Raises (execute_bootstrap_remote h s)
  unfolding execute_bootstrap_remote staged finally_clean
  execute_bootstrap_remote-Raises refuses t same keeps (context, w) read there = rw read (
      on_files-Raises (auth_path t.repo_root) (h.effects.make_dir (runtime_dir t.repo_root))
        (keeps.make_dir _) (finally_clean h (runtime_dir t.repo_root) (bootstrap_target h t))
        (bootstrap_target-Raises refuses t same keeps) context w there)
