-- ===== src/Prelude/Flow.antt =====
-- Results of code that may raise, and stateful code that may raise: what was changed before a
-- raise stays changed, so the state comes back beside the error too.
use mathlib.Core.Path.{◌≡◌, refl}
use mathlib.Core.List.{List, [], ◌∷◌}
use hermes_vps.Prelude.Lists.{All}

pub data Result {ℓ κ} (E : Type ℓ) (A : Type κ) : Type (ℓ ⊔ κ) where
  ok : A → Result E A
  raise : E → Result E A

pub ok-inj {ℓ κ} : {E : Type ℓ} {A : Type κ} {a b : A} → ◌≡◌ {A = Result E A} (ok a) (ok b) → a ≡ b
ok-inj e = cc

-- A chain of pure steps that may raise.
abbrev pub and_then {ℓ} : {E A B : Type ℓ} → Result E A → (A → Result E B) → Result E B
and_then (ok a) f = f a
and_then (raise e) f = raise e

pub and_then-ok {ℓ} :
    {E A B : Type ℓ} (r : Result E A) (f : A → Result E B) {b : B}
    → and_then r f ≡ ok b
    → (a : A) × (r ≡ ok a) × (f a ≡ ok b)
and_then-ok (ok a) f e = (a, refl, e)
and_then-ok (raise x) f e = absurd (cc)

abbrev pub Flow {ℓ} : Type ℓ → Type ℓ → Type ℓ → Type ℓ
Flow S E A = S → Result E A × S

module _ {ℓ} {S E A : Type ℓ} where
  abbrev pub pure : A → Flow S E A
  pure a s = (ok a, s)

  abbrev pub throw : E → Flow S E A
  throw e s = (raise e, s)

  abbrev pub lift : Result E A → Flow S E A
  lift r s = (r, s)

module _ {ℓ} {S E A B : Type ℓ} where
  abbrev pub continue : Result E A → (A → Flow S E B) → Flow S E B
  continue (ok a) f s = f a s
  continue (raise e) f s = (raise e, s)

  infixl 10 ◌>>=◌ ◌>>◌
  abbrev pub ◌>>=◌ : Flow S E A → (A → Flow S E B) → Flow S E B
  ◌>>=◌ m f s = let (r, s') = m s in continue r f s'

  abbrev pub ◌>>◌ : Flow S E A → Flow S E B → Flow S E B
  m >> n = m >>= λ _. n

-- `P` of what is returned, `Q` of what is raised.
module _ {ℓ} {E A : Type ℓ} (P : A → Type ℓ) (Q : E → Type ℓ) where
  abbrev pub Holds : Result E A → Type ℓ
  Holds (ok a) = P a
  Holds (raise e) = Q e

-- Every run of `m` ends in a value with `P` or an error with `Q`.
pub record Ensures {ℓ} {S E A : Type ℓ} (P : A → Type ℓ) (Q : E → Type ℓ) (m : Flow S E A)
    : Type ℓ where
  pub run : (s : S) → Holds P Q (m s).0

module _ {ℓ} {S E A : Type ℓ} {P : A → Type ℓ} {Q : E → Type ℓ} where
  pub Ensures-pure : (a : A) → P a → Ensures {S = S} P Q (pure a)
  Ensures-pure a h = record { run = λ s. h }

  pub Ensures-throw : (e : E) → Q e → Ensures {S = S} P Q (throw e)
  Ensures-throw e h = record { run = λ s. h }

module _ {ℓ} {S E A B : Type ℓ} {Q : E → Type ℓ} where
  continue-Holds :
      (P : A → Type ℓ) (R : B → Type ℓ) (r : Result E A) (s : S) (f : A → Flow S E B)
      → Holds P Q r
      → ((a : A) → P a → Ensures R Q (f a))
      → Holds R Q (continue r f s).0
  continue-Holds P R (ok a) s f h k = (k a h).run s
  continue-Holds P R (raise e) s f h k = h

  pub Ensures-bind :
      (P : A → Type ℓ) (R : B → Type ℓ) (m : Flow S E A) (f : A → Flow S E B)
      → Ensures P Q m
      → ((a : A) → P a → Ensures R Q (f a))
      → Ensures R Q (m >>= f)
  Ensures-bind P R m f h k = record {
    run = λ s. let (r, s') = m s in continue-Holds P R r s' f (h.run s) k;
  }

  pub Ensures-then :
      (P : A → Type ℓ) (R : B → Type ℓ) (m : Flow S E A) (n : Flow S E B)
      → Ensures P Q m
      → Ensures R Q n
      → Ensures R Q (m >> n)
  Ensures-then P R m n h k = Ensures-bind P R m (λ _. n) h (λ a _. k)

module _ {ℓ} {E A : Type ℓ} (P R : A → Type ℓ) (Q : E → Type ℓ) where
  Holds-map : (r : Result E A) → ((a : A) → P a → R a) → Holds P Q r → Holds R Q r
  Holds-map (ok a) k h = k a h
  Holds-map (raise e) k h = h

  pub Ensures-map :
      {S : Type ℓ} (m : Flow S E A) → ((a : A) → P a → R a) → Ensures P Q m → Ensures R Q m
  Ensures-map m k h = record { run = λ s. Holds-map (m s).0 k (h.run s) }

-- A loop of checks that stops at the first that raises.
unfoldable pub check_all {ℓ} :
    {A E : Type ℓ} → (A → Result E (Unit {ℓ})) → List A → Result E (Unit {ℓ})
check_all check [] = ok tt
check_all check (x ∷ xs) = and_then (check x) (λ _. check_all check xs)

pub check_all-All {ℓ} :
    {A E : Type ℓ} (check : A → Result E (Unit {ℓ})) (xs : List A)
    → check_all check xs ≡ ok tt
    → All (λ x. check x ≡ ok tt) xs
unfolding check_all
check_all-All check [] e = tt
check_all-All {A} {E} check (x ∷ xs) e = go (check x) refl (check_all-All check xs) e
  where
    go :
        (r : Result E Unit)
        → check x ≡ r
        → (check_all check xs ≡ ok tt → All (λ y. check y ≡ ok tt) xs)
        → and_then r (λ _. check_all check xs) ≡ ok tt
        → (check x ≡ ok tt) × All (λ y. check y ≡ ok tt) xs
    go (ok tt) p k h = (p, k h)
    go (raise y) p k h = cc

pub All-check_all {ℓ} :
    {A E : Type ℓ} (check : A → Result E (Unit {ℓ})) (xs : List A)
    → All (λ x. check x ≡ ok tt) xs
    → check_all check xs ≡ ok tt
unfolding check_all
All-check_all check [] h = refl
All-check_all check (x ∷ xs) h = rw h.0 (All-check_all check xs h.1)
