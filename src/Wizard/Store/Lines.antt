-- ===== src/Wizard/Store/Lines.antt =====
-- Reading a line of `.env` after one was written.
use Prim.Native.Char.{code}
use hermes_vps.Prelude.{
  ℕ, ◌≡◌, refl, sym, ap, ◌∙◌, ◌≢◌, Bool, true, false, not, String, Option, none, some, [], ◌∷◌,
  eq_iff, eq_refl, arith, nat_eq, all, if◌then◌else◌, inl, inr, Option-cases,
}
use text.Mathlib.TextLemmas.{nil-append, cons-append}
use hermes_vps.Text.{◌<>◌, codes}
use hermes_vps.App.Startup.{split_once}
use hermes_vps.Wizard.Store.{same_char, after_prefix, after_equals, value_of_line, split_lines}

-- A text without a character of this code.
abbrev pub Lacks : ℕ → String → Type 0
Lacks n text = all (λ c. not (nat_eq c n)) (codes text) ≡ true

after_prefix-append : (p s : String) → after_prefix p (p <> s) ≡ some s
unfolding after_prefix
after_prefix-append String.[] s = rw (nil-append s) refl
after_prefix-append (String.◌∷◌ c p) s =
    rw (cons-append c p s, eq_refl (String.◌∷◌ c "")) (after_prefix-append p s)

pub value_of_line-own : (k v : String) → value_of_line k (k <> "=" <> v) ≡ some v
unfolding value_of_line after_equals
value_of_line-own k v = rw (after_prefix-append k ("=" <> v)) (after_prefix-append "=" v)

after_prefix_sound : (p s : String) {r : String} → after_prefix p s ≡ some r → p <> r ≡ s
unfolding after_prefix
after_prefix_sound String.[] s {r} e =
    let same : ◌≡◌ {A = Option String} (some s) (some r) = e in rw (nil-append r) cc
after_prefix_sound (String.◌∷◌ c p) String.[] e = absurd (cc)
after_prefix_sound (String.◌∷◌ c p) (String.◌∷◌ d s) {r} e =
    go (same_char c d) refl (after_prefix_sound p s) e
  where
    go :
        (b : Bool)
        → same_char c d ≡ b
        → (after_prefix p s ≡ some r → p <> r ≡ s)
        → (if b then after_prefix p s else none) ≡ some r
        → String.◌∷◌ c p <> r ≡ String.◌∷◌ d s
    go true same later h =
        let chars_same : String.◌∷◌ c "" ≡ String.◌∷◌ d "" =
          (eq_iff (String.◌∷◌ c "") (String.◌∷◌ d "")).0 same in
        let rest_same = later h in rw (cons-append c p r) (cc)
    go false same later h = absurd (cc)

equals-cons : (v : String) → "=" <> v ≡ String.◌∷◌ "=" v
equals-cons v = cons-append "=" "" v ∙ ap (String.◌∷◌ "=") (nil-append v)

pub head-Lacks :
    (n : ℕ) (c : Prim.Native.Char.Char) (s : String)
    → Lacks n (String.◌∷◌ c s)
    → nat_eq (code c) n ≡ false
head-Lacks n c s h = ground arith

pub tail-Lacks :
    (n : ℕ) (c : Prim.Native.Char.Char) (s : String) → Lacks n (String.◌∷◌ c s) → Lacks n s
tail-Lacks n c s h = ground arith

split_once-key : (k v : String) → Lacks 61 k → split_once 61 (k <> "=" <> v) ≡ some (k, v)
unfolding split_once
split_once-key String.[] v h = rw (nil-append ("=" <> v), equals-cons v) refl
split_once-key (String.◌∷◌ c k) v h =
    rw (cons-append c k ("=" <> v), head-Lacks 61 c k h, split_once-key k v (tail-Lacks 61 c k h))
      refl

pub split_lines-line : (s : String) → Lacks 10 s → split_lines s ≡ s ∷ []
unfolding split_lines
split_lines-line String.[] h = refl
split_lines-line (String.◌∷◌ c s) h =
    rw (split_lines-line s (tail-Lacks 10 c s h), head-Lacks 10 c s h) refl

pair-key :
    (k j v w : String) → ◌≡◌ {A = Option (String × String)} (some (k, v)) (some (j, w)) → k ≡ j
pair-key k j v w e = cc

-- A line that writes one key is no line of another.
pub value_of_line-other :
    (j k v : String) → Lacks 61 j → Lacks 61 k → j ≢ k → value_of_line j (k <> "=" <> v) ≡ none
unfolding value_of_line after_equals
value_of_line-other j k v hj hk differ = elim (Option-cases (after_prefix j (k <> "=" <> v))) [
  | inl no_prefix ↦ rw no_prefix refl
  | inr (r, prefix) ↦ elim (Option-cases (after_prefix "=" r)) [
    | inl no_equals ↦ rw (prefix, no_equals) refl
    | inr (w, equals) ↦ absurd (
        let line_is : j <> "=" <> w ≡ k <> "=" <> v =
          ap (λ t. j <> t) (after_prefix_sound "=" r equals)
          ∙ after_prefix_sound j (k <> "=" <> v) prefix in
        differ (
          pair-key j k w v
            (sym (split_once-key j w hj) ∙ ap (split_once 61) line_is ∙ split_once-key k v hk)))
  ]
]

-- A line that has a value for a key is the line that writes it.
pub value_of_line_sound :
    (k line : String) {v : String} → value_of_line k line ≡ some v → k <> "=" <> v ≡ line
unfolding value_of_line after_equals
value_of_line_sound k line {v} e = go (after_prefix k line) refl e
  where
    go :
        (o : Option String)
        → after_prefix k line ≡ o
        → after_equals o ≡ some v
        → k <> "=" <> v ≡ line
    go none p h = absurd (cc)
    go (some r) p h = ap (λ t. k <> t) (after_prefix_sound "=" r h) ∙ after_prefix_sound k line p
