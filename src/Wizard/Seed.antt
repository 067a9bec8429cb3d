-- ===== src/Wizard/Seed.antt =====
-- scripts/configure_logic.py: the first choice of a list of options, and its rotation.
use hermes_vps.Prelude.{
  ℕ, zero, suc, ◌≡◌, refl, sym, ap, true, false, not, ◌&&◌, String, List, [], ◌∷◌, ◌++◌, ◌==◌,
  eq_iff, arith, elem, elem-head, if◌then◌else◌, Bool-cases, inl, inr, ◌⊎◌,
}
use hermes_vps.Prelude.Flow.{Result, ok, raise}

-- values.index(seed), of a member
unfoldable pub index : List String → String → ℕ
index [] seed = 0
index (v ∷ values) seed = let later = index values seed in if v == seed then 0 else suc later

-- values[n:] and values[:n]
unfoldable pub from_index : ℕ → List String → List String
from_index zero values = values
from_index (suc n) [] = []
from_index (suc n) (v ∷ values) = from_index n values

unfoldable pub up_to_index : ℕ → List String → List String
up_to_index zero values = []
up_to_index (suc n) [] = []
up_to_index (suc n) (v ∷ values) = v ∷ up_to_index n values

pub data NoOptions : Type 0 where
  no_options : NoOptions

unfoldable pub choose_seed : List String → String → String → Result NoOptions String
unfolding elem
choose_seed [] existing preferred = raise no_options
choose_seed (v ∷ values) existing preferred = ok (
    if not (existing == "") && elem existing (v ∷ values)
    then existing
    else if not (preferred == "") && elem preferred (v ∷ values)
    then preferred
    else v)

unfoldable pub rotate_to_seed : List String → String → List String
unfolding elem index from_index up_to_index
rotate_to_seed [] seed = []
rotate_to_seed (v ∷ values) seed =
    if not (elem seed (v ∷ values))
    then v ∷ values
    else from_index (index (v ∷ values) seed) (v ∷ values)
      ++ up_to_index (index (v ∷ values) seed) (v ∷ values)

halves : (n : ℕ) (values : List String) → values ≡ up_to_index n values ++ from_index n values
unfolding up_to_index from_index
halves zero values = refl
halves (suc n) [] = refl
halves (suc n) (v ∷ values) = ap (λ l. v ∷ l) (halves n values)

append_nil : (values : List String) → values ++ [] ≡ values
append_nil [] = refl
append_nil (v ∷ values) = ap (λ l. v ∷ l) (append_nil values)

abbrev pub StartsWith : String → List String → Type 0
StartsWith seed values = (rest : List String) × (values ≡ seed ∷ rest)

from_index-StartsWith :
    (values : List String) (seed : String)
    → elem seed values ≡ true
    → StartsWith seed (from_index (index values seed) values)
unfolding elem from_index index
from_index-StartsWith [] seed h = cc
from_index-StartsWith (v ∷ values) seed h = elim (Bool-cases (v == seed)) [
  | inl e ↦ rw e (values, ap (λ s. s ∷ values) ((eq_iff v seed).0 e))
  | inr n ↦ rw n (from_index-StartsWith values seed (ground (arith, n)))
]

-- The rotation of the options to a seed: the options are split in two and the halves swapped, and
-- if the seed is an option then the result starts with it. An option stays one, and nothing else
-- becomes one.
pub rotate_to_seed_lem :
    (values : List String) (seed : String)
    → (front : List String) × (behind : List String) × (values ≡ front ++ behind)
      × (rotate_to_seed values seed ≡ behind ++ front)
      × (elem seed values ≡ true → StartsWith seed (rotate_to_seed values seed))
unfolding rotate_to_seed
rotate_to_seed_lem [] seed = ([], [], refl, refl, λ h. unfold elem in cc)
rotate_to_seed_lem (v ∷ values) seed = elim (Bool-cases (elem seed (v ∷ values))) [
  | inr absent ↦ rw absent ([], v ∷ values, refl, sym (append_nil (v ∷ values)), λ h. cc)
  | inl present ↦ rw present (
    up_to_index n (v ∷ values),
    from_index n (v ∷ values),
    halves n (v ∷ values),
    refl,
    λ h. starts (from_index-StartsWith (v ∷ values) seed present),
  )
]
  where
    n : ℕ
    n = index (v ∷ values) seed

    starts :
        StartsWith seed (from_index n (v ∷ values))
        → StartsWith seed (from_index n (v ∷ values) ++ up_to_index n (v ∷ values))
    starts (rest, e) =
        (rest ++ up_to_index n (v ∷ values), ap (λ l. l ++ up_to_index n (v ∷ values)) e)

-- A text that may be the seed: it is not empty, and it is an option.
abbrev pub IsUsable : List String → String → Type 0
IsUsable values s = (s == "" ≡ false) × (elem s values ≡ true)

-- What a seed is chosen by.
pub record IsChoice (values : List String) (existing preferred s : String) : Type 0 where
  pub is_option : elem s values ≡ true
  pub first : IsUsable values existing → s ≡ existing
  pub second : (IsUsable values existing → ⊥) → IsUsable values preferred → s ≡ preferred
  pub last : (IsUsable values existing → ⊥) → (IsUsable values preferred → ⊥) → StartsWith s values

-- The chosen seed is one of the options: the existing one if it is an option and not empty, else
-- the preferred one on the same terms, else the first. Only an empty list has none.
pub choose_seed_lem :
    (values : List String) (existing preferred : String)
    → ((values ≡ []) × (choose_seed values existing preferred ≡ raise no_options))
      ⊎ ((s : String) × (choose_seed values existing preferred ≡ ok s)
          × IsChoice values existing preferred s)
unfolding choose_seed
choose_seed_lem [] existing preferred = inl (refl, refl)
choose_seed_lem (v ∷ values) existing preferred =
    elim (Bool-cases (not (existing == "") && elem existing (v ∷ values))) [
      | inl usable ↦ rw usable (
          inr (
            existing,
            refl,
            record {
              is_option = ground (arith, usable);
              first = λ u. refl;
              second = λ n u. absurd (n (ground (arith, usable), ground (arith, usable)));
              last = λ n m. absurd (n (ground (arith, usable), ground (arith, usable)));
            },
          ))
      | inr not_usable ↦ elim (Bool-cases (not (preferred == "") && elem preferred (v ∷ values))) [
        | inl usable ↦
            rw (not_usable, usable)
              (inr (
                preferred,
                refl,
                record {
                  is_option = ground (arith, usable);
                  first = λ u. absurd (ground (arith, not_usable, u.0, u.1));
                  second = λ n u. refl;
                  last = λ n m. absurd (m (ground (arith, usable), ground (arith, usable)));
                },
              ))
        | inr neither ↦
            rw (not_usable, neither)
              (inr (
                v,
                refl,
                record {
                  is_option = elem-head v values;
                  first = λ u. absurd (ground (arith, not_usable, u.0, u.1));
                  second = λ n u. absurd (ground (arith, neither, u.0, u.1));
                  last = λ n m. (values, refl);
                },
              ))
      ]
    ]
