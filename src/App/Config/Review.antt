-- ===== src/App/Config/Review.antt =====
-- What `change_provider` and `validate` do to a draft.
use hermes_vps.Prelude.{◌≡◌, refl, true, false, String, List, [], ◌∷◌, map, ◌==◌, eq_iff, arith}
use hermes_vps.App.Config.{
  CloudProvider, provider_image, ProjectConfigDraft, same_provider, change_provider, validate,
}

same : (s : String) → (s == s) ≡ true
same s = ground (arith, eq_iff s s)

-- Changing the provider to the other one: the image follows, the region and the server type are
-- emptied, validation then asks for exactly these two to be reviewed, and the other settings of
-- the server, the secrets, the Hermes and the gateway settings and what the file held are kept.
pub validate-change_provider :
    (p : CloudProvider) (draft : ProjectConfigDraft)
    → same_provider p draft.provider.provider ≡ false
    → let after = change_provider p draft in
      let asked : List String = "server.location" ∷ "server.server_type" ∷ [] in
      (map (λ i. i.field) (validate after) ≡ asked)
      × (after.review_required_fields ≡ asked)
      × (after.server
          ≡ record draft.server { location = ""; server_type = ""; image = provider_image p })
      × (after.provider ≡ record draft.provider { provider = p })
      × (after.hermes ≡ draft.hermes)
      × (after.gateway ≡ draft.gateway)
      × (after.original_env ≡ draft.original_env)
unfolding validate change_provider
validate-change_provider p draft other =
    rw (other, same (provider_image p)) (refl, refl, refl, refl, refl, refl, refl)
