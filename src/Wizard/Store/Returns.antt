-- ===== src/Wizard/Store/Returns.antt =====
-- Reading a file without carriage returns.
use Prim.Native.Char.{code}
use hermes_vps.Prelude.{
  ◌≡◌, refl, Bool, true, false, ◌&&◌, String, List, [], ◌∷◌, ◌==◌, arith, nat_eq, if◌then◌else◌,
  All, All-append,
}
use hermes_vps.Wizard.Store.{split_returns, read_text}
use hermes_vps.Wizard.Store.Lines.{Lacks, head-Lacks, tail-Lacks}

split_returns-line : (ended : Bool) (s : String) → Lacks 13 s → split_returns ended s ≡ s ∷ []
unfolding split_returns
split_returns-line ended String.[] h = refl
split_returns-line ended (String.◌∷◌ c s) h =
    rw (split_returns-line ended s (tail-Lacks 13 c s h), head-Lacks 13 c s h) refl

-- A text without carriage returns is read as it was written.
pub read_text-Lacks : (file : List String) → All (Lacks 13) file → read_text file ≡ file
unfolding read_text
read_text-Lacks [] h = refl
read_text-Lacks (line ∷ []) h = split_returns-line false line h.0
read_text-Lacks (line ∷ next ∷ lines) h =
    rw (split_returns-line true line h.0, read_text-Lacks (next ∷ lines) h.1) refl

split_returns-All : (ended : Bool) (s : String) → All (Lacks 13) (split_returns ended s)
unfolding split_returns
split_returns-All ended String.[] = (refl, tt)
split_returns-All ended (String.◌∷◌ c s) =
    go (split_returns ended s) (split_returns-All ended s) (nat_eq (code c) 13) refl
      (ended && s == "")
  where
    go :
        (l : List String)
        → All (Lacks 13) l
        → (b : Bool) → nat_eq (code c) 13 ≡ b
        → (one : Bool)
        → All (Lacks 13) (elim l [
          | [] ↦ []
          | line ∷ lines ↦
              if b
              then if one then line ∷ lines else "" ∷ line ∷ lines
              else String.◌∷◌ c line ∷ lines
        ])
    go [] h b e one = tt
    go (line ∷ lines) h true e true = h
    go (line ∷ lines) h true e false = (refl, h)
    go (line ∷ lines) h false e one = (ground (arith, e, h.0), h.1)

-- What is read of a file has no carriage return.
pub read_text-All : (file : List String) → All (Lacks 13) (read_text file)
unfolding read_text
read_text-All [] = tt
read_text-All (line ∷ []) = split_returns-All false line
read_text-All (line ∷ next ∷ lines) =
    All-append (Lacks 13) (split_returns true line) (read_text (next ∷ lines))
      (split_returns-All true line) (read_text-All (next ∷ lines))
