-- ===== src/Text/Regex.antt =====
-- Python's `re.fullmatch` on patterns of classes, sequences, alternatives and stars, by derivatives.
use hermes_vps.Prelude.{
  ℕ, ◌≡◌, refl, Bool, true, false, ◌&&◌, ◌||◌, List, [], ◌∷◌, arith, leb, nat_eq, all,
  if◌then◌else◌, Bool-cases, inl, inr,
}

pub data Regex : Type 0 where
  nothing : Regex
  blank : Regex
  chars : (ℕ → Bool) → Regex
  seq : Regex → Regex → Regex
  alt : Regex → Regex → Regex
  star : Regex → Regex

unfoldable pub nullable : Regex → Bool
nullable nothing = false
nullable blank = true
nullable (chars p) = false
nullable (seq a b) = nullable a && nullable b
nullable (alt a b) = nullable a || nullable b
nullable (star a) = true

-- What is left to match after a character.
unfoldable pub deriv : ℕ → Regex → Regex
unfolding nullable
deriv c nothing = nothing
deriv c blank = nothing
deriv c (chars p) = if p c then blank else nothing
deriv c (seq a b) =
    let first = seq (deriv c a) b in
    let second = deriv c b in if nullable a then alt first second else first
deriv c (alt a b) = alt (deriv c a) (deriv c b)
deriv c (star a) = seq (deriv c a) (star a)

unfoldable pub fullmatch : Regex → List ℕ → Bool
unfolding nullable deriv
fullmatch r [] = nullable r
fullmatch r (c ∷ s) = fullmatch (deriv c r) s

-- a+
abbrev pub plus : Regex → Regex
plus a = seq a (star a)

-- a?
abbrev pub optional : Regex → Regex
optional a = alt a blank

-- One character with a given code.
abbrev pub char : ℕ → Regex
char c = chars (nat_eq c)

-- [0-9]
abbrev pub is_digit : ℕ → Bool
is_digit c = leb 48 c && leb c 57

abbrev pub digits : Regex
digits = plus (chars is_digit)

-- A pattern that no text matches, as far as its form shows.
dead : Regex → Bool
dead nothing = true
dead (seq a b) = dead a
dead (alt a b) = dead a && dead b
dead _ = false

dead-nullable : (r : Regex) → dead r ≡ true → nullable r ≡ false
unfolding dead nullable
dead-nullable nothing h = refl
dead-nullable blank h = absurd (cc)
dead-nullable (chars p) h = refl
dead-nullable (seq a b) h = ground (arith, dead-nullable a h)
dead-nullable (alt a b) h = ground (arith, dead-nullable a, dead-nullable b)
dead-nullable (star a) h = absurd (cc)

dead-deriv : (c : ℕ) (r : Regex) → dead r ≡ true → dead (deriv c r) ≡ true
unfolding dead deriv
dead-deriv c nothing h = refl
dead-deriv c blank h = absurd (cc)
dead-deriv c (chars p) h = absurd (cc)
dead-deriv c (seq a b) h = rw (dead-nullable a h) (dead-deriv c a h)
dead-deriv c (alt a b) h = ground (arith, dead-deriv c a, dead-deriv c b)
dead-deriv c (star a) h = absurd (cc)

dead-fullmatch : (r : Regex) (s : List ℕ) → dead r ≡ true → fullmatch r s ≡ false
unfolding fullmatch
dead-fullmatch r [] h = dead-nullable r h
dead-fullmatch r (c ∷ s) h = dead-fullmatch (deriv c r) s (dead-deriv c r h)

-- Every class of the pattern lies in `p`.
module _ (p : ℕ → Bool) where
  abbrev pub Within : Regex → Type 0
  Within nothing = Unit
  Within blank = Unit
  Within (chars q) = (c : ℕ) → q c ≡ true → p c ≡ true
  Within (seq a b) = Within a × Within b
  Within (alt a b) = Within a × Within b
  Within (star a) = Within a

  if-Within : (b : Bool) (r s : Regex) → Within r → Within s → Within (if b then r else s)
  if-Within true r s h k = h
  if-Within false r s h k = k

  deriv-Within : (c : ℕ) (r : Regex) → Within r → Within (deriv c r)
  unfolding deriv
  deriv-Within c nothing h = tt
  deriv-Within c blank h = tt
  deriv-Within c (chars q) h = if-Within (q c) blank nothing tt tt
  deriv-Within c (seq a b) h =
      let first : Within (seq (deriv c a) b) = (deriv-Within c a h.0, h.1) in
      if-Within (nullable a) (alt (seq (deriv c a) b) (deriv c b)) (seq (deriv c a) b)
        (first, deriv-Within c b h.1) first
  deriv-Within c (alt a b) h = (deriv-Within c a h.0, deriv-Within c b h.1)
  deriv-Within c (star a) h = (deriv-Within c a h, h)

  outside-dead : (c : ℕ) (r : Regex) → Within r → p c ≡ false → dead (deriv c r) ≡ true
  unfolding deriv dead
  outside-dead c nothing h n = refl
  outside-dead c blank h n = refl
  outside-dead c (chars q) h n = ground (arith, h c)
  outside-dead c (seq a b) h n = ground (arith, outside-dead c a h.0 n, outside-dead c b h.1 n)
  outside-dead c (alt a b) h n = ground (arith, outside-dead c a h.0 n, outside-dead c b h.1 n)
  outside-dead c (star a) h n = outside-dead c a h n

  -- A text that matches consists of characters of the pattern's classes.
  pub fullmatch-all : (r : Regex) (s : List ℕ) → Within r → fullmatch r s ≡ true → all p s ≡ true
  unfolding fullmatch
  fullmatch-all r [] h m = refl
  fullmatch-all r (c ∷ s) h m = elim (Bool-cases (p c)) [
    | inl inside ↦ rw inside (fullmatch-all (deriv c r) s (deriv-Within c r h) m)
    | inr outside ↦
        absurd (let never = dead-fullmatch (deriv c r) s (outside-dead c r h outside) in cc)
  ]

alt-or : (a b : Regex) (s : List ℕ) → fullmatch (alt a b) s ≡ (fullmatch a s || fullmatch b s)
unfolding fullmatch
alt-or a b [] = refl
alt-or a b (c ∷ s) = alt-or (deriv c a) (deriv c b) s

pub seq-blank : (r : Regex) (s : List ℕ) → fullmatch (seq blank r) s ≡ fullmatch r s
unfolding fullmatch dead
seq-blank r [] = refl
seq-blank r (c ∷ s) =
    rw (alt-or (seq nothing r) (deriv c r) s, dead-fullmatch (seq nothing r) s refl) refl

-- Runs of one class are a test of all the characters.
module _ (p : ℕ → Bool) where
  star-all : (s : List ℕ) → fullmatch (star (chars p)) s ≡ all p s
  unfolding fullmatch dead
  star-all [] = refl
  star-all (c ∷ s) = go (p c) (star-all s)
    where
      go :
          (b : Bool)
          → fullmatch (star (chars p)) s ≡ all p s
          → fullmatch (seq (if b then blank else nothing) (star (chars p))) s ≡ (b && all p s)
      go true h = rw (seq-blank (star (chars p)) s) h
      go false h = dead-fullmatch (seq nothing (star (chars p))) s refl

  pub plus-all : (c : ℕ) (s : List ℕ) → fullmatch (plus (chars p)) (c ∷ s) ≡ all p (c ∷ s)
  unfolding fullmatch
  plus-all c s = star-all (c ∷ s)
