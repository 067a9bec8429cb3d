-- ===== src/Wizard/Registry.antt =====
-- scripts/wizard_framework/registry.py: `StepRegistry`. A controller is its key and the rest.
use hermes_vps.Prelude.{
  ℕ, ◌≡◌, refl, ◌≢◌, Bool, true, false, String, Option, some, List, eq_iff, arith, elem, length,
  if◌then◌else◌, Bool-cases, inl, inr, ◌⊎◌, ◌+◌,
}
use hermes_vps.Prelude.Dict.{Dict, lookup, insert, keys, lookup-insert, length-insert}
use hermes_vps.Prelude.Flow.{Result, ok, raise}

-- `key` reads the key of a controller.
module _ {C : Type 0} (key : C → String) where
  -- `ValueError`, with the key
  unfoldable pub register : C → Dict C → Result String (Dict C)
  unfolding elem keys insert
  register controller controllers =
      if elem (key controller) (keys controllers)
      then raise (key controller)
      else ok (insert (key controller) controller controllers)

  unfoldable pub get : String → Dict C → Option C
  unfolding lookup
  get k controllers = lookup k controllers

  -- `__contains__`, of a text
  unfoldable pub contains : String → Dict C → Bool
  unfolding elem keys
  contains k controllers = elem k (keys controllers)

  unfoldable pub registry_length : Dict C → ℕ
  registry_length controllers = length controllers

  unfoldable pub registry_keys : Dict C → List String
  unfolding keys
  registry_keys controllers = keys controllers

  -- The two ways in which registering ends.
  abbrev pub Registered : C → Dict C → Result String (Dict C) → Type 0
  Registered controller controllers r =
      ((r ≡ raise (key controller)) × (contains (key controller) controllers ≡ true))
      ⊎ ((after : Dict C) × (r ≡ ok after)
          × (contains (key controller) controllers ≡ false)
          × (get (key controller) after ≡ some controller)
          × ((k : String) → k ≢ key controller → get k after ≡ get k controllers)
          × (registry_length after ≡ registry_length controllers + 1))

  -- Registering a controller fails exactly if its key is registered. If it does not fail, the
  -- controller is what is found under its key, every other key finds what it found before, and
  -- the registry has grown by one.
  pub register_lem :
      (controller : C) (controllers : Dict C)
      → Registered controller controllers (register controller controllers)
  unfolding register get contains registry_length
  register_lem controller controllers =
      elim (Bool-cases (elem (key controller) (keys controllers))) [
        | inl known ↦ rw known (inl (refl, refl))
        | inr fresh ↦ rw fresh (
            inr (
              insert (key controller) controller controllers,
              refl,
              refl,
              rw lookup-insert (ground (arith, eq_iff (key controller) (key controller))),
              λ k n. rw lookup-insert (ground (arith, eq_iff (key controller) k)),
              length-insert (key controller) controller controllers fresh,
            ))
      ]
