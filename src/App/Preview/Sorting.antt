-- ===== src/App/Preview/Sorting.antt =====
-- The order in which the states of a result are presented.
use mathlib.Core.List.{Perm}
use mathlib.Core.List.Perm
use hermes_vps.Prelude.{
  ℕ, ◌≡◌, refl, Bool, true, false, String, List, [], ◌∷◌, arith, if◌then◌else◌, All, Bool-cases,
  inl, inr,
}
use hermes_vps.Text.{codes}
use hermes_vps.Core.Actions.{ActionRuntimeState}
use hermes_vps.Core.Actions.Ready.{States}
use hermes_vps.App.Preview.Status.{insert_state, precedes, sort_states}

insert_state-All {κ} :
    (P : String × ActionRuntimeState → Type κ) (e : String × ActionRuntimeState) (states : States)
    → P e
    → All P states
    → All P (insert_state e states)
unfolding insert_state
insert_state-All P e [] h hs = (h, tt)
insert_state-All P e (f ∷ states) h hs = elim (Bool-cases (precedes (codes f.0) (codes e.0))) [
  | inl b ↦ rw b (hs.0, insert_state-All P e states h hs.1)
  | inr b ↦ rw b (h, hs)
]

pub sort_states-All {κ} :
    (P : String × ActionRuntimeState → Type κ) (states : States)
    → All P states
    → All P (sort_states states)
unfolding sort_states
sort_states-All P [] hs = hs
sort_states-All P (e ∷ states) hs =
    insert_state-All P e (sort_states states) hs.0 (sort_states-All P states hs.1)

insert_state-Perm :
    (e : String × ActionRuntimeState) (states : States) → Perm (insert_state e states) (e ∷ states)
unfolding insert_state
insert_state-Perm e [] = Perm.rfl
insert_state-Perm e (f ∷ states) = elim (Bool-cases (precedes (codes f.0) (codes e.0))) [
  | inl b ↦ rw b (Perm.trans (Perm.cons f (insert_state-Perm e states)) (Perm.swap e f states))
  | inr b ↦ rw b Perm.rfl
]

pub sort_states-Perm : (states : States) → Perm (sort_states states) states
unfolding sort_states
sort_states-Perm [] = Perm.rfl
sort_states-Perm (e ∷ states) =
    Perm.trans (insert_state-Perm e (sort_states states)) (Perm.cons e (sort_states-Perm states))

precedes-asym : (s t : List ℕ) → precedes s t ≡ true → precedes t s ≡ false
precedes-asym [] [] h = refl
precedes-asym [] (d ∷ t) h = refl
precedes-asym (c ∷ s) [] h = cc
precedes-asym (c ∷ s) (d ∷ t) h = ground (arith, precedes-asym s t)

-- No id comes after one that it precedes.
abbrev pub IsAscending {ℓ} : {A : Type ℓ} → List (String × A) → Type 0
IsAscending [] = Unit
IsAscending (a ∷ []) = Unit
IsAscending (a ∷ b ∷ rest) = (precedes (codes b.0) (codes a.0) ≡ false) × IsAscending (b ∷ rest)

insert_state-IsAscending :
    (e : String × ActionRuntimeState) (states : States)
    → IsAscending states
    → IsAscending (insert_state e states)
unfolding insert_state
insert_state-IsAscending e [] h = tt
insert_state-IsAscending e (f ∷ []) h = elim (Bool-cases (precedes (codes f.0) (codes e.0))) [
  | inl b ↦ rw b (precedes-asym (codes f.0) (codes e.0) b, tt)
  | inr b ↦ rw b (b, tt)
]
insert_state-IsAscending e (f ∷ g ∷ states) h =
    go (precedes (codes f.0) (codes e.0)) refl (precedes (codes g.0) (codes e.0))
      (insert_state-IsAscending e (g ∷ states) h.1)
  where
    go :
        (b : Bool)
        → precedes (codes f.0) (codes e.0) ≡ b
        → (c : Bool) → IsAscending (if c then g ∷ insert_state e states else e ∷ g ∷ states)
        → IsAscending (
            if b
            then f ∷ (if c then g ∷ insert_state e states else e ∷ g ∷ states)
            else e ∷ f ∷ g ∷ states)
    go true p true later = (h.0, later)
    go true p false later = (precedes-asym (codes f.0) (codes e.0) p, later)
    go false p c later = (p, h)

pub sort_states-IsAscending : (states : States) → IsAscending (sort_states states)
unfolding sort_states
sort_states-IsAscending [] = tt
sort_states-IsAscending (e ∷ states) =
    insert_state-IsAscending e (sort_states states) (sort_states-IsAscending states)
