-- ===== src/Text.antt =====
-- The methods of Python's `str` that the program calls.
pub mod Regex
use Prim.Native.Char.{code}
use Prim.Native.String.{len, slice}
use hermes_vps.Prelude.{
  ℕ, ◌+◌, ◌≡◌, refl, Bool, true, false, ◌&&◌, ◌||◌, String, List, [], ◌∷◌, ◌==◌, if◌then◌else◌, leb,
  nat_eq,
}

infixr 65 ◌<>◌
abbrev pub ◌<>◌ : String → String → String
◌<>◌ = Prim.Native.String.◌++◌

-- str.isspace of one character
abbrev pub is_space : ℕ → Bool
is_space c =
    (leb 9 c && leb c 13)
    || (leb 28 c && leb c 32)
    || nat_eq c 133
    || nat_eq c 160
    || nat_eq c 5760
    || (leb 8192 c && leb c 8202)
    || nat_eq c 8232
    || nat_eq c 8233
    || nat_eq c 8239
    || nat_eq c 8287
    || nat_eq c 12288

unfoldable pub lstrip : String → String
lstrip String.[] = ""
lstrip (String.◌∷◌ c s) = if is_space (code c) then lstrip s else String.◌∷◌ c s

unfoldable pub rstrip : String → String
rstrip String.[] = ""
rstrip (String.◌∷◌ c s) =
    let rest = rstrip s in if rest == "" && is_space (code c) then "" else String.◌∷◌ c rest

-- s.strip()
unfoldable pub strip : String → String
unfolding lstrip rstrip
strip s = rstrip (lstrip s)

abbrev pub codes : String → List ℕ
codes String.[] = []
codes (String.◌∷◌ c s) = code c ∷ codes s

-- s.lower(), as far as a comparison with ASCII text can see: the capital letters A to Z, the
-- Kelvin sign, and the dotted capital I, which becomes an i and a combining dot.
unfoldable pub lower : List ℕ → List ℕ
lower [] = []
lower (c ∷ s) =
    if leb 65 c && leb c 90
    then (c + 32) ∷ lower s
    else if nat_eq c 8490
    then 107 ∷ lower s
    else if nat_eq c 304
    then 105 ∷ 775 ∷ lower s
    else c ∷ lower s

unfoldable pub is_prefix : List ℕ → List ℕ → Bool
is_prefix [] s = true
is_prefix (c ∷ w) [] = false
is_prefix (c ∷ w) (d ∷ s) = nat_eq c d && is_prefix w s

-- w in s
unfoldable pub is_infix : List ℕ → List ℕ → Bool
unfolding is_prefix
is_infix w [] = is_prefix w []
is_infix w (c ∷ s) = is_prefix w (c ∷ s) || is_infix w s

-- w in s.lower()
unfoldable pub mentions : String → String → Bool
unfolding lower is_infix
mentions w s = is_infix (codes w) (lower (codes s))

-- sep.join(parts)
unfoldable pub join : String → List String → String
join sep [] = ""
join sep (p ∷ []) = p
join sep (p ∷ q ∷ ps) = p <> sep <> join sep (q ∷ ps)

strip_test : strip " a b " ≡ "a b"
unfolding strip
strip_test = refl

mentions_test : mentions "docker" "The DocKer daemon" ≡ true
unfolding mentions
mentions_test = refl
