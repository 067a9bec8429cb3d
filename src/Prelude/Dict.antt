-- ===== src/Prelude/Dict.antt =====
-- Python's `dict` with text keys: an association list in insertion order.
use hermes_vps.Prelude.Tests.{if◌then◌else◌, is_some, Bool-cases}
use Prim.Native.Nat.{◌+◌}
use Prim.Native.String.{String}
use mathlib.Core.Path.{◌≡◌, refl, sym, ◌∙◌, ap₂, subst}
use mathlib.Core.Bool.{Bool, true, false}
use mathlib.Core.Logic.{inl, inr}
use mathlib.Core.Option.{Option, none, some}
use mathlib.Core.List.{List, [], ◌∷◌}
use native.Mathlib.Omega.{arith}
use text.Mathlib.Text.{◌==◌}
use text.Mathlib.TextEquality.{eq_iff}
use hermes_vps.Prelude.Lists.{elem, All, length}

abbrev pub Dict {ℓ} : Type ℓ → Type ℓ
Dict V = List (String × V)

module _ {ℓ} {V : Type ℓ} where
  -- d.get(k)
  unfoldable pub lookup : String → Dict V → Option V
  lookup k [] = none
  lookup k ((j, v) ∷ d) = if j == k then some v else lookup k d

  -- d[k] = v: in place for an old key, at the end for a new one
  unfoldable pub insert : String → V → Dict V → Dict V
  insert k v [] = (k, v) ∷ []
  insert k v ((j, w) ∷ d) = if j == k then (j, v) ∷ d else (j, w) ∷ insert k v d

  -- list(d)
  unfoldable pub keys : Dict V → List String
  keys [] = []
  keys ((j, v) ∷ d) = j ∷ keys d

  pub lookup-insert :
      (j k : String) (v : V) (d : Dict V)
      → lookup j (insert k v d) ≡ (if k == j then some v else lookup j d)
  unfolding lookup insert
  lookup-insert j k v [] = refl
  lookup-insert j k v ((i, w) ∷ d) =
      ground (arith, eq_iff k j, eq_iff i k, eq_iff i j, lookup-insert j k v d)

  pub elem-keys : (k : String) (d : Dict V) → elem k (keys d) ≡ is_some (lookup k d)
  unfolding lookup keys elem
  elem-keys k [] = refl
  elem-keys k ((j, v) ∷ d) = ground (arith, elem-keys k d)

  pub All-lookup {κ} :
      (P : String × V → Type κ) (k : String) (d : Dict V) {v : V}
      → All P d
      → lookup k d ≡ some v
      → P (k, v)
  unfolding lookup
  All-lookup P k [] h e = absurd (cc)
  All-lookup P k ((j, w) ∷ d) {v} h e = elim (Bool-cases (j == k)) [
    | inl same ↦ subst P (ap₂ (λ a b. (a, b)) ((eq_iff j k).0 same) (ground arith)) h.0
    | inr other ↦ All-lookup P k d h.1 (ground arith)
  ]

  pub length-insert :
      (k : String) (v : V) (d : Dict V)
      → elem k (keys d) ≡ false
      → length (insert k v d) ≡ length d + 1
  unfolding keys insert elem
  length-insert k v [] h = refl
  length-insert k v ((j, w) ∷ d) h = ground (arith, length-insert k v d)

  pub keys-insert :
      (k : String) (v : V) (d : Dict V) → elem k (keys d) ≡ true → keys (insert k v d) ≡ keys d
  unfolding keys insert elem
  keys-insert k v [] h = absurd (cc)
  keys-insert k v ((j, w) ∷ d) h = ground (arith, keys-insert k v d)

  pub All-insert {κ} :
      (P : String × V → Type κ) (k : String) (v : V) (d : Dict V)
      → All P d
      → P (k, v)
      → All P (insert k v d)
  unfolding insert
  All-insert P k v [] h p = (p, tt)
  All-insert P k v ((j, w) ∷ d) h p = elim (Bool-cases (j == k)) [
    | inl same ↦ rw same (subst (λ i. P (i, v)) (sym ((eq_iff j k).0 same)) p, h.1)
    | inr other ↦ rw other (h.0, All-insert P k v d h.1 p)
  ]

  -- The keys of a dict are distinct.
  abbrev pub NodupKeys : Dict V → Type 0
  NodupKeys [] = Unit
  NodupKeys ((k, v) ∷ d) = (elem k (keys d) ≡ false) × NodupKeys d

  pub elem-insert :
      (j k : String) (v : V) (d : Dict V)
      → elem j (keys (insert k v d)) ≡ (if k == j then true else elem j (keys d))
  elem-insert j k v d =
      rw (elem-keys j (insert k v d), lookup-insert j k v d, elem-keys j d)
        (elim (Bool-cases (k == j)) [ inl same ↦ rw same refl | inr other ↦ rw other refl ])

  pub insert-NodupKeys : (k : String) (v : V) (d : Dict V) → NodupKeys d → NodupKeys (insert k v d)
  unfolding insert keys elem
  insert-NodupKeys k v [] h = (refl, tt)
  insert-NodupKeys k v ((j, w) ∷ d) (fresh, h) = go (j == k) refl (insert-NodupKeys k v d h)
    where
      go :
          (b : Bool)
          → (j == k) ≡ b
          → NodupKeys (insert k v d)
          → NodupKeys (if b then (j, v) ∷ d else (j, w) ∷ insert k v d)
      go true same later = (fresh, h)
      go false other later = (ground (arith, elem-insert j k v d, eq_iff j k, eq_iff k j), later)

  is_some-none : (o : Option V) → is_some o ≡ false → o ≡ none
  is_some-none none h = refl
  is_some-none (some v) h = absurd (cc)

  pub lookup-none : (k : String) (d : Dict V) → elem k (keys d) ≡ false → lookup k d ≡ none
  lookup-none k d h = is_some-none (lookup k d) (sym (elem-keys k d) ∙ h)
