-- ===== src/Wizard/State/Pinned.antt =====
-- The version and the release tag that the wizard accepts.
use hermes_vps.Prelude.{
  ◌≡◌, refl, ap, ◌∙◌, ◌≢◌, ◌↔◌, elem, Bool, true, false, not, String, [], ◌∷◌, ◌==◌, arith,
  if◌then◌else◌, Bool-cases, inl, inr,
}
use hermes_vps.Prelude.Dict.{Dict, insert}
use text.Mathlib.TextLemmas.{nil-append, cons-append}
use hermes_vps.Text.{◌<>◌, codes}
use hermes_vps.Text.Regex.{fullmatch, seq-blank}
use hermes_vps.Wizard.State.{
  WizardState, semver_pattern, is_valid_semver, is_valid_release_tag, release_tag_for_version,
  with_release_tag, hermes_errors, validate_hermes, error_if,
}

-- A dict with an entry put in is not empty.
insert-ne-nil : (key message : String) (errors : Dict String) → insert key message errors ≢ []
unfolding insert
insert-ne-nil key message [] = λ e. cc
insert-ne-nil key message ((j, w) ∷ errors) = go (j == key)
  where
    go : (b : Bool) → (if b then (j, message) ∷ errors else (j, w) ∷ insert key message errors) ≢ []
    go true = λ e. cc
    go false = λ e. cc

error_if_iff :
    (test : Bool) (key message : String) (errors : Dict String)
    → (error_if test key message errors ≡ []) ↔ ((test ≡ false) × (errors ≡ []))
error_if_iff true key message errors =
    (λ e. absurd (insert-ne-nil key message errors e), λ h. absurd (let no = h.0 in cc))
error_if_iff false key message errors = (λ e. (refl, e), λ h. h.1)

v-cons : (v : String) → codes ("v" <> v) ≡ 118 ∷ codes v
v-cons v = ap codes (cons-append "v" "" v ∙ ap (String.◌∷◌ "v") (nil-append v))

-- The tag of a valid version is a valid tag.
is_valid_release_tag-v :
    (version : String) → is_valid_release_tag ("v" <> version) ≡ is_valid_semver version
unfolding is_valid_release_tag is_valid_semver fullmatch
is_valid_release_tag-v version = rw (v-cons version) (seq-blank semver_pattern (codes version))

-- What the Hermes step accepts.
abbrev pub IsPinned : WizardState → Type 0
IsPinned s =
    (is_valid_semver s.hermes_agent_version ≡ true)
    × ((s.hermes_provider == "") ≡ false)
    × ((s.hermes_model == "") ≡ false)
    × (elem s.hermes_auth_method ("api_key" ∷ "oauth" ∷ []) ≡ true)

with_release_tag-valid :
    (s : WizardState)
    → is_valid_semver s.hermes_agent_version ≡ true
    → with_release_tag s ≡ record s { hermes_agent_release_tag = "v" <> s.hermes_agent_version }
unfolding with_release_tag release_tag_for_version
with_release_tag-valid s valid = rw valid refl

-- The errors of a state whose version passed the test, or did not.
hermes_errors_iff :
    (s : WizardState) (errors : Dict String)
    → (hermes_errors s errors ≡ []) ↔ (
        ((not (elem s.hermes_auth_method ("api_key" ∷ "oauth" ∷ []))) ≡ false)
        × ((s.hermes_model == "") ≡ false)
        × ((s.hermes_provider == "") ≡ false)
        × (not (is_valid_release_tag s.hermes_agent_release_tag) ≡ false)
        × (errors ≡ []))
unfolding hermes_errors
hermes_errors_iff s errors = (
  λ e.
      let (method, e1) = (error_if_iff _ _ _ _).0 e in
      let (model, e2) = (error_if_iff _ _ _ _).0 e1 in
      let (provider, e3) = (error_if_iff _ _ _ _).0 e2 in
      let (tag, e4) = (error_if_iff _ _ _ _).0 e3 in (method, model, provider, tag, e4),
  λ (method, model, provider, tag, none_before). (error_if_iff _ _ _ _).1 (
    method,
    (error_if_iff _ _ _ _).1
        (model, (error_if_iff _ _ _ _).1 (provider, (error_if_iff _ _ _ _).1 (tag, none_before))),
  ),
)

-- The Hermes step has no errors exactly when the version is a pinned semantic version, provider and
-- model are chosen, and the method is one of the two. The tag is then the version after a "v".
pub validate_hermes_iff :
    (s : WizardState)
    → (((validate_hermes s).0 ≡ []) ↔ IsPinned s)
      × (IsPinned s
          → (validate_hermes s).1.hermes_agent_release_tag ≡ "v" <> s.hermes_agent_version)
unfolding validate_hermes
validate_hermes_iff s = elim (Bool-cases (is_valid_semver s.hermes_agent_version)) [
  | inl valid ↦
      let tagged : WizardState = record s {
        hermes_agent_release_tag = "v" <> s.hermes_agent_version;
      } in
      let no_errors = hermes_errors_iff tagged [] in
      let tag_valid : not (is_valid_release_tag ("v" <> s.hermes_agent_version)) ≡ false =
        rw (is_valid_release_tag-v s.hermes_agent_version, valid) refl in
      rw (with_release_tag-valid s valid, valid)
        (
          (
            λ e.
                (let (method, model, provider, tag, nothing_before) = no_errors.0 e in
                  (refl, provider, model, ground arith)),
            λ (v, provider, model, method).
                no_errors.1 (ground arith, model, provider, tag_valid, refl),
          ),
          λ pinned. refl,
        )
  | inr wrong ↦ (
    (
      λ e. absurd (
          let before = ((hermes_errors_iff (with_release_tag s) _).0 e).4 in
          let valid =
            ((error_if_iff (not (is_valid_semver s.hermes_agent_version)) "hermes_agent_version"
                "Use pinned semantic version (example: 0.10.0)." []).0
              before).0 in
          ground arith),
      λ pinned. absurd (let valid = pinned.0 in cc),
    ),
    λ pinned. absurd (let valid = pinned.0 in cc),
  )
]
