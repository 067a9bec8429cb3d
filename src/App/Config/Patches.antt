-- ===== src/App/Config/Patches.antt =====
-- What `create_patch` and `redacted_diff` do to drafts and to secrets.
use mathlib.Core.Path.{ap₂}
use hermes_vps.Prelude.{
  ◌≡◌, refl, sym, ap, ◌∙◌, Bool, true, false, not, ◌&&◌, String, none, [], ◌∷◌, ◌++◌, map, ◌==◌,
  eq_iff, arith, elem, if◌then◌else◌, All, All-append, All-map, ◌∙◌, Bool-cases, inl, inr,
}
use hermes_vps.Prelude.Dict.{Dict, lookup}
use hermes_vps.Text.{join}
use hermes_vps.App.Config.Changes.{IsChange, create_patch-IsChange}
use hermes_vps.App.Config.{
  CloudProvider, hetzner, linode, provider_name, secret_keys, ProjectConfigDraft, EnvChange,
  redacted_line, EnvPatch, redacted_diff, get_or, read_known_values, plain_env, model_env,
  secret_env, desired_env, changes_from, original_of, model_cleared, create_patch, load,
}

-- Two changes that differ in the values of a secret only: not in which of them are empty.
abbrev pub Alike : EnvChange → EnvChange → Type 0
Alike a b =
    (a.key ≡ b.key)
    × (a.secret ≡ b.secret)
    × (a.secret ≡ false → (a.old ≡ b.old) × (a.new ≡ b.new))
    × ((a.old == "") ≡ (b.old == ""))
    × ((a.new == "") ≡ (b.new == ""))

abbrev pub AllAlike : EnvPatch → EnvPatch → Type 0
AllAlike [] [] = Unit
AllAlike (a ∷ p) (b ∷ q) = Alike a b × AllAlike p q
AllAlike _ _ = ⊥

redacted_line-Alike : (a b : EnvChange) → Alike a b → redacted_line a ≡ redacted_line b
unfolding redacted_line
redacted_line-Alike a b (keys, secrets, plain, old, new) = elim (Bool-cases a.secret) [
  | inl s ↦ rw (sym secrets, s, keys, old, new) refl
  | inr s ↦ rw (sym secrets, s, keys, (plain s).0, (plain s).1) refl
]

redacted_lines-AllAlike :
    (p q : EnvPatch) → AllAlike p q → map redacted_line p ≡ map redacted_line q
redacted_lines-AllAlike [] [] h = refl
redacted_lines-AllAlike (a ∷ p) (b ∷ q) h =
    ap₂ ◌∷◌ (redacted_line-Alike a b h.0) (redacted_lines-AllAlike p q h.1)
redacted_lines-AllAlike [] (b ∷ q) h = absurd h
redacted_lines-AllAlike (a ∷ p) [] h = absurd h

-- The redacted diff of a patch does not depend on the old and new values of its secret changes,
-- but for whether each is empty.
pub redacted_diff-AllAlike : (p q : EnvPatch) → AllAlike p q → redacted_diff p ≡ redacted_diff q
unfolding redacted_diff
redacted_diff-AllAlike [] [] h = refl
redacted_diff-AllAlike (a ∷ p) (b ∷ q) h =
    ap (join "\n") (redacted_lines-AllAlike (a ∷ p) (b ∷ q) h)
redacted_diff-AllAlike [] (b ∷ q) h = absurd h
redacted_diff-AllAlike (a ∷ p) [] h = absurd h

same : (s : String) → (s == s) ≡ true
same s = ground (arith, eq_iff s s)

changes_from-none :
    (original desired : Dict String)
    → All (λ e. get_or e.0 "" original ≡ e.1) desired
    → changes_from original desired ≡ []
unfolding changes_from
changes_from-none original [] h = refl
changes_from-none original ((key, new) ∷ desired) h =
    rw (h.0, same new) (changes_from-none original desired h.1)

provider_kept :
    (read : String → String) (p : CloudProvider)
    → read "TF_VAR_cloud_provider" ≡ provider_name p
    → read "TF_VAR_cloud_provider" ≡ provider_name (load read).provider.provider
unfolding load lookup
provider_kept read hetzner h = h ∙ (rw h refl)
provider_kept read linode h = h ∙ (rw h refl)

plain_kept :
    (read : String → String) (p : CloudProvider)
    → read "TF_VAR_cloud_provider" ≡ provider_name p
    → All (λ e. get_or e.0 "" (read_known_values read) ≡ e.1) (plain_env (load read))
unfolding lookup
plain_kept read p h =
    unfold load in
    (
      provider_kept read p h,
      (
        refl,
        (
          refl,
          (
            refl,
            (refl, (refl, (refl, (refl, (refl, (refl, (refl, (refl, (refl, (refl, tt)))))))))),
          ),
        ),
      ),
    )

model_kept :
    (read : String → String)
    → All (λ e. get_or e.0 "" (read_known_values read) ≡ e.1) (model_env (load read))
unfolding load lookup
model_kept read = go (read "TF_VAR_hermes_model" == "")
  where
    go :
        (b : Bool)
        → All
            (λ (e : String × String). get_or e.0 "" (read_known_values read) ≡ e.1)
            (if not b then ("TF_VAR_hermes_model", read "TF_VAR_hermes_model") ∷ [] else [])
    go true = tt
    go false = (refl, tt)

model_not_cleared :
    (read : String → String) → model_cleared (load read) (read_known_values read) ≡ []
unfolding load lookup
model_not_cleared read = ground arith

-- Nothing is changed by a patch made from a draft that was just loaded, where the file names one
-- of the two providers.
pub create_patch-load :
    (read : String → String) (p : CloudProvider)
    → read "TF_VAR_cloud_provider" ≡ provider_name p
    → create_patch read (load read) ≡ []
unfolding create_patch load
create_patch-load read p h =
    ap₂ ◌++◌
      (changes_from-none (read_known_values read) (desired_env (load read)) (
        All-append (λ e. get_or e.0 "" (read_known_values read) ≡ e.1) (plain_env (load read))
          (model_env (load read) ++ secret_env (load read)) (plain_kept read p h)
          (All-append (λ e. get_or e.0 "" (read_known_values read) ≡ e.1) (model_env (load read))
            (secret_env (load read)) (model_kept read) tt)))
      (model_not_cleared read)

-- No secret of the draft is replaced.
pub record KeepsSecrets (draft : ProjectConfigDraft) : Type 0 where
  pub hcloud : draft.provider.hcloud_token.replacement ≡ none
  pub linode : draft.provider.linode_token.replacement ≡ none
  pub api_key : draft.hermes.api_key.replacement ≡ none
  pub telegram : draft.gateway.telegram_bot_token.replacement ≡ none

abbrev IsPlain : EnvChange → Type 0
IsPlain c = c.secret ≡ false

changes_from-IsPlain :
    (original desired : Dict String)
    → All (λ (e : String × String). elem e.0 secret_keys ≡ false) desired
    → All IsPlain (changes_from original desired)
unfolding changes_from
changes_from-IsPlain original [] h = tt
changes_from-IsPlain original ((key, new) ∷ desired) h =
    elim (Bool-cases (get_or key "" original == new)) [
      | inl kept ↦ rw kept (changes_from-IsPlain original desired h.1)
      | inr differs ↦ rw differs (h.0, changes_from-IsPlain original desired h.1)
    ]

desired_env-plain :
    (draft : ProjectConfigDraft)
    → KeepsSecrets draft
    → All (λ (e : String × String). elem e.0 secret_keys ≡ false) (desired_env draft)
unfolding elem
desired_env-plain draft k =
    rw (k.hcloud, k.linode, k.api_key, k.telegram)
      (
        refl,
        (
          refl,
          (
            refl,
            (
              refl,
              (refl, (refl, (refl, (refl, (refl, (refl, (refl, (refl, (refl, (refl, model)))))))))),
            ),
          ),
        ),
      )
  where
    model : All (λ (e : String × String). elem e.0 secret_keys ≡ false) (model_env draft ++ [])
    model = elim (Bool-cases (draft.hermes.model == "")) [
      | inl p ↦ rw p tt
      | inr p ↦ rw p (refl, tt)
    ]

create_patch-IsPlain :
    (read : String → String) (draft : ProjectConfigDraft)
    → KeepsSecrets draft
    → All IsPlain (create_patch read draft)
unfolding create_patch
create_patch-IsPlain read draft k =
    let original = original_of read draft.original_env in
    All-append IsPlain (changes_from original (desired_env draft)) (model_cleared draft original)
      (changes_from-IsPlain original (desired_env draft) (desired_env-plain draft k))
      (go (draft.hermes.model == "" && not (get_or "TF_VAR_hermes_model" "" original == ""))
        original)
  where
    go :
        (b : Bool) (original : Dict String)
        → All IsPlain (
            if b
            then record {
              key = "TF_VAR_hermes_model";
              old = get_or "TF_VAR_hermes_model" "" original;
              new = "";
              secret = false;
            }
              ∷ []
            else [])
    go true original = (refl, tt)
    go false original = tt

-- A draft in which no secret is replaced makes a patch without secret changes: no secret key is
-- written.
pub create_patch-KeepsSecrets :
    (read : String → String) (draft : ProjectConfigDraft)
    → KeepsSecrets draft
    → All (λ c. elem c.key secret_keys ≡ false) (create_patch read draft)
create_patch-KeepsSecrets read draft k =
    All-map (λ c. IsChange read draft c × IsPlain c) (λ c. elem c.key secret_keys ≡ false)
      (create_patch read draft) (λ c h. sym h.0.secret ∙ h.1)
      (both (create_patch read draft) (create_patch-IsChange read draft).0
        (create_patch-IsPlain read draft k))
  where
    both :
        (l : EnvPatch)
        → All (IsChange read draft) l
        → All IsPlain l
        → All (λ c. IsChange read draft c × IsPlain c) l
    both [] h m = tt
    both (c ∷ l) h m = ((h.0, m.0), both l h.1 m.1)
