-- ===== src/Prelude/Lists.antt =====
-- Lists measured by native numbers, membership tests on texts, and predicates by recursion.
use Prim.Native.Nat.{ℕ, suc, ◌+◌, ◌≤◌, ◌<◌}
use Prim.Native.String.{String}
use mathlib.Core.Path.{◌≡◌, refl, subst}
use mathlib.Core.Logic.{inl, inr}
use mathlib.Core.Bool.{Bool, true, false, ◌&&◌, ◌||◌}
use mathlib.Core.List.{List, [], ◌∷◌, ◌++◌}
use native.Mathlib.Omega.{arith}
use text.Mathlib.Text.{◌==◌}
use text.Mathlib.TextEquality.{eq_iff}
use hermes_vps.Prelude.Tests.{if◌then◌else◌, Bool-cases}

module _ {ℓ} {A : Type ℓ} where
  abbrev pub length : List A → ℕ
  length [] = 0
  length (x ∷ xs) = suc (length xs)

  -- Python's `all(p(x) for x in xs)` and `any(p(x) for x in xs)`.
  abbrev pub all : (A → Bool) → List A → Bool
  all p [] = true
  all p (x ∷ xs) = p x && all p xs

  abbrev pub any : (A → Bool) → List A → Bool
  any p [] = false
  any p (x ∷ xs) = p x || any p xs

  abbrev pub All {κ} : (A → Type κ) → List A → Type κ
  All P [] = Unit
  All P (x ∷ xs) = P x × All P xs

  pub length-append : (xs ys : List A) → length (xs ++ ys) ≡ length xs + length ys
  length-append [] ys = omega arith
  length-append (x ∷ xs) ys = omega (arith, length-append xs ys)

  pub All-append {κ} : (P : A → Type κ) (xs ys : List A) → All P xs → All P ys → All P (xs ++ ys)
  All-append P [] ys h k = k
  All-append P (x ∷ xs) ys h k = (h.0, All-append P xs ys h.1 k)

  pub All-map {κ μ} :
      (P : A → Type κ) (Q : A → Type μ) (xs : List A) → ((x : A) → P x → Q x) → All P xs → All Q xs
  All-map P Q [] f h = tt
  All-map P Q (x ∷ xs) f h = (f x h.0, All-map P Q xs f h.1)

  pub all-All : (p : A → Bool) (xs : List A) → all p xs ≡ true → All (λ x. p x ≡ true) xs
  all-All p [] h = tt
  all-All p (x ∷ xs) h = (ground arith, all-All p xs (ground arith))

  pub All-all : (p : A → Bool) (xs : List A) → All (λ x. p x ≡ true) xs → all p xs ≡ true
  All-all p [] h = refl
  All-all p (x ∷ xs) h = ground (arith, All-all p xs h.1)

-- Python's `key in names`.
unfoldable pub elem : String → List String → Bool
elem k [] = false
elem k (x ∷ xs) = x == k || elem k xs

pub elem-head : (k : String) (xs : List String) → elem k (k ∷ xs) ≡ true
unfolding elem
elem-head k xs = ground (arith, eq_iff k k)

pub elem-tail : (k x : String) (xs : List String) → elem k xs ≡ true → elem k (x ∷ xs) ≡ true
unfolding elem
elem-tail k x xs h = ground arith

pub elem-append_right :
    (k : String) (xs ys : List String) → elem k ys ≡ true → elem k (xs ++ ys) ≡ true
unfolding elem
elem-append_right k [] ys h = h
elem-append_right k (x ∷ xs) ys h = ground (arith, elem-append_right k xs ys h)

pub elem-append_left :
    (k : String) (xs ys : List String) → elem k xs ≡ true → elem k (xs ++ ys) ≡ true
unfolding elem
elem-append_left k (x ∷ xs) ys h = ground (arith, elem-append_left k xs ys)
elem-append_left k [] ys h = cc

-- What holds of all names of a list holds of a name that is in it.
pub All-elem {κ} :
    (P : String → Type κ) (k : String) (xs : List String) → All P xs → elem k xs ≡ true → P k
unfolding elem
All-elem P k [] h m = absurd (cc)
All-elem P k (x ∷ xs) h m = elim (Bool-cases (x == k)) [
  | inl e ↦ subst P ((eq_iff x k).0 e) h.0
  | inr n ↦ All-elem P k xs h.1 (ground arith)
]

-- How many names of a list are not among those seen: the measure of a search.
unfoldable pub unseen : List String → List String → ℕ
unfolding elem
unseen seen [] = 0
unseen seen (x ∷ xs) = if elem x seen then unseen seen xs else suc (unseen seen xs)

unseen-cons-le : (k : String) (seen xs : List String) → unseen (k ∷ seen) xs ≤ unseen seen xs
unfolding unseen elem
unseen-cons-le k seen [] = omega arith
unseen-cons-le k seen (x ∷ xs) = ground (arith, unseen-cons-le k seen xs)

-- Seeing a new name of the list makes the measure fall.
pub unseen-cons-lt :
    (k : String) (seen xs : List String)
    → elem k xs ≡ true
    → elem k seen ≡ false
    → unseen (k ∷ seen) xs < unseen seen xs
unfolding unseen elem
unseen-cons-lt k seen [] h n = absurd (cc)
unseen-cons-lt k seen (x ∷ xs) h n =
    ground (arith, eq_iff x k, eq_iff k x, unseen-cons-lt k seen xs, unseen-cons-le k seen xs)

pub unseen-le-length : (seen xs : List String) → unseen seen xs ≤ length xs
unfolding unseen
unseen-le-length seen [] = omega arith
unseen-le-length seen (x ∷ xs) = ground (arith, unseen-le-length seen xs)
