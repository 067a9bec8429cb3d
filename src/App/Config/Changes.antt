-- ===== src/App/Config/Changes.antt =====
-- The changes that `create_patch` makes of a draft.
use hermes_vps.Prelude.{
  All-map, sym, ◌∙◌, ◌≡◌, refl, ap, Bool, true, false, not, ◌&&◌, String, List, [], ◌∷◌, ◌++◌, map,
  ◌==◌, eq_iff, arith, elem, if◌then◌else◌, All, All-append, Bool-cases, inl, inr, ◌⊎◌,
  Option-cases,
}
use hermes_vps.Prelude.Dict.{Dict, lookup}
use hermes_vps.App.Config.{
  known_keys, replaced, SecretDraft, secret_keys, ProjectConfigDraft, EnvChange, EnvPatch, get_or,
  plain_env, model_env, secret_env, desired_env, changes_from, original_of, model_cleared,
  create_patch,
}

-- What the file holds under a key, as a draft with this `original_env` knows it.
abbrev pub held : (String → String) → Dict String → String → String
held read [] key = read key
held read (e ∷ env) key = get_or key "" (e ∷ env)

-- One of the entries has a change's key and its new value.
abbrev pub Among : Dict String → EnvChange → Type 0
Among [] c = ⊥
Among ((key, new) ∷ entries) c = ((key ≡ c.key) × (new ≡ c.new)) ⊎ Among entries c

-- A change of a key from what the file holds to another value, which the draft wants, or which is
-- the empty text for a Hermes model that the draft has cleared.
pub record IsChange (read : String → String) (draft : ProjectConfigDraft) (c : EnvChange)
    : Type 0 where
  pub old : c.old ≡ held read draft.original_env c.key
  pub differs : c.old == c.new ≡ false
  pub wanted :
      Among (desired_env draft) c
      ⊎ ((c.key ≡ "TF_VAR_hermes_model") × (c.new ≡ "") × (draft.hermes.model == "" ≡ true))
  pub secret : c.secret ≡ elem c.key secret_keys

abbrev IsKnown : String → Type 0
IsKnown key = elem key known_keys ≡ true

known-read :
    (read : String → String) (key : String) (ks : List String)
    → elem key ks ≡ true
    → get_or key "" (map (λ k. (k, read k)) ks) ≡ read key
unfolding lookup elem
known-read read key [] h = cc
known-read read key (k ∷ ks) h = elim (Bool-cases (k == key)) [
  | inl same ↦ rw (same, get_or) (ap read ((eq_iff k key).0 same))
  | inr other ↦ rw (other, get_or) (known-read read key ks (ground (arith, h, other)))
]

original_of-held :
    (read : String → String) (env : Dict String) (key : String)
    → IsKnown key
    → get_or key "" (original_of read env) ≡ held read env key
original_of-held read [] key known = known-read read key known_keys known
original_of-held read (e ∷ env) key known = refl

changes_from-IsChange :
    (read : String → String) (draft : ProjectConfigDraft) (entries : Dict String)
    → All (λ (e : String × String). IsKnown e.0) entries
    → ((c : EnvChange) → Among entries c → Among (desired_env draft) c)
    → All (IsChange read draft) (changes_from (original_of read draft.original_env) entries)
unfolding changes_from
changes_from-IsChange read draft [] known into = tt
changes_from-IsChange read draft ((key, new) ∷ entries) known into =
    let original = original_of read draft.original_env in
    let later = changes_from-IsChange read draft entries known.1 (λ c m. into c (inr m)) in
    elim (Bool-cases (get_or key "" original == new)) [
      | inl kept ↦ rw kept later
      | inr differs ↦ rw differs (
        record {
          old = original_of-held read draft.original_env key known.0;
          differs = differs;
          wanted = inl (into _ (inl (refl, refl)));
          secret = refl;
        },
        later,
      )
    ]

model_cleared-IsChange :
    (read : String → String) (draft : ProjectConfigDraft)
    → All (IsChange read draft) (model_cleared draft (original_of read draft.original_env))
model_cleared-IsChange read draft = go (draft.hermes.model == "") refl (old == "") refl
  where
    old : String
    old = get_or "TF_VAR_hermes_model" "" (original_of read draft.original_env)

    go :
        (b : Bool)
        → draft.hermes.model == "" ≡ b
        → (e : Bool) → old == "" ≡ e
        → All (IsChange read draft) (
            if b && not e
            then record { key = "TF_VAR_hermes_model"; old = old; new = ""; secret = false } ∷ []
            else [])
    go true m false p = (
      record {
        old = original_of-held read draft.original_env "TF_VAR_hermes_model" (unfold elem in refl);
        differs = p;
        wanted = inr (refl, refl, m);
        secret = unfold elem in refl;
      },
      tt,
    )
    go true m true p = tt
    go false m e p = tt

replaced-IsKnown :
    (key : String) (secret : SecretDraft)
    → IsKnown key
    → All (λ (e : String × String). IsKnown e.0) (replaced key secret)
replaced-IsKnown key secret known = elim (Option-cases secret.replacement) [
  | inl e ↦ rw e tt
  | inr (v, e) ↦ rw e (known, tt)
]

desired_env-IsKnown :
    (draft : ProjectConfigDraft) → All (λ (e : String × String). IsKnown e.0) (desired_env draft)
desired_env-IsKnown draft =
    unfold elem in
    let K = λ (e : String × String). IsKnown e.0 in
    let hcloud = replaced "HCLOUD_TOKEN" draft.provider.hcloud_token in
    let linode_one = replaced "LINODE_TOKEN" draft.provider.linode_token in
    let api_key = replaced "HERMES_API_KEY" draft.hermes.api_key in
    let telegram = replaced "TELEGRAM_BOT_TOKEN" draft.gateway.telegram_bot_token in
    All-append K (plain_env draft) (model_env draft ++ secret_env draft) plain (
      All-append K (model_env draft) (secret_env draft) model (
        All-append K (hcloud ++ linode_one ++ api_key) telegram
          (All-append K (hcloud ++ linode_one) api_key
            (All-append K hcloud linode_one
              (replaced-IsKnown "HCLOUD_TOKEN" draft.provider.hcloud_token refl)
              (replaced-IsKnown "LINODE_TOKEN" draft.provider.linode_token refl))
            (replaced-IsKnown "HERMES_API_KEY" draft.hermes.api_key refl))
          (replaced-IsKnown "TELEGRAM_BOT_TOKEN" draft.gateway.telegram_bot_token refl)))
  where
    plain : All (λ (e : String × String). IsKnown e.0) (plain_env draft)
    plain =
        unfold elem in
        (
          refl,
          (
            refl,
            (
              refl,
              (
                refl,
                (refl, (refl, (refl, (refl, (refl, (refl, (refl, (refl, (refl, (refl, tt)))))))))),
              ),
            ),
          ),
        )

    model : All (λ (e : String × String). IsKnown e.0) (model_env draft)
    model = elim (Bool-cases (draft.hermes.model == "")) [
      | inl p ↦ rw p tt
      | inr p ↦ rw p (unfold elem in refl, tt)
    ]

-- A patch writes an entry.
abbrev pub Writes : EnvPatch → String × String → Type 0
Writes [] e = ⊥
Writes (c ∷ patch) e = ((c.key ≡ e.0) × (c.new ≡ e.1)) ⊎ Writes patch e

-- An entry that the file holds already, or that the patch writes.
abbrev pub IsMet : (String → String) → Dict String → EnvPatch → String × String → Type 0
IsMet read env patch e = (held read env e.0 == e.1 ≡ true) ⊎ Writes patch e

Writes-append : (p q : EnvPatch) (e : String × String) → Writes p e → Writes (p ++ q) e
Writes-append [] q e h = absurd h
Writes-append (c ∷ p) q e (inl same) = inl same
Writes-append (c ∷ p) q e (inr later) = inr (Writes-append p q e later)

changes_from-IsMet :
    (read : String → String) (env entries : Dict String)
    → All (λ (e : String × String). IsKnown e.0) entries
    → All (IsMet read env (changes_from (original_of read env) entries)) entries
unfolding changes_from
changes_from-IsMet read env [] known = tt
changes_from-IsMet read env ((key, new) ∷ entries) known =
    go (get_or key "" (original_of read env) == new) refl
      (changes_from-IsMet read env entries known.1)
  where
    later : EnvPatch
    later = changes_from (original_of read env) entries

    change : EnvChange
    change = record {
      key = key;
      old = get_or key "" (original_of read env);
      new = new;
      secret = elem key secret_keys;
    }

    or_later : (e : String × String) → IsMet read env later e → IsMet read env (change ∷ later) e
    or_later e (inl already) = inl already
    or_later e (inr written) = inr (inr written)

    go :
        (b : Bool)
        → (get_or key "" (original_of read env) == new) ≡ b
        → All (IsMet read env later) entries
        → All (IsMet read env (if not b then change ∷ later else later)) ((key, new) ∷ entries)
    go true kept rest =
        (inl (ap (λ v. v == new) (sym (original_of-held read env key known.0)) ∙ kept), rest)
    go false differs rest = (
      inr (inl (refl, refl)),
      All-map (IsMet read env later) (IsMet read env (change ∷ later)) entries
          (λ e met. or_later e met) rest,
    )

pub create_patch-IsChange :
    (read : String → String) (draft : ProjectConfigDraft)
    → All (IsChange read draft) (create_patch read draft)
      × All (IsMet read draft.original_env (create_patch read draft)) (desired_env draft)
unfolding create_patch
create_patch-IsChange read draft =
    let changes = changes_from (original_of read draft.original_env) (desired_env draft) in
    let cleared = model_cleared draft (original_of read draft.original_env) in
    (
      All-append (IsChange read draft) changes cleared
          (changes_from-IsChange read draft (desired_env draft) (desired_env-IsKnown draft)
            (λ c m. m))
          (model_cleared-IsChange read draft),
      All-map (IsMet read draft.original_env changes)
          (IsMet read draft.original_env (changes ++ cleared)) (desired_env draft)
          (λ e met. or_append changes cleared e met)
          (changes_from-IsMet read draft.original_env (desired_env draft)
            (desired_env-IsKnown draft)),
    )
  where
    or_append :
        (p q : EnvPatch) (e : String × String)
        → IsMet read draft.original_env p e
        → IsMet read draft.original_env (p ++ q) e
    or_append p q e (inl already) = inl already
    or_append p q e (inr written) = inr (Writes-append p q e written)
