-- ===== src/Base/Text/Split.antt =====
-- Splitting at a separator undoes joining with it.
use mathlib.Core.List.{List, [], ◌∷◌, ◌++◌}
use mathlib.Core.Bool.{Bool, false, ◌||◌}
use mathlib.Core.Path.{◌≡◌, refl, ◌∙◌, ap}
use mathlib.Core.Logic.{inl, inr}
use Prim.Native.Nat.{ℕ}
use native.Mathlib.Omega.{arith}
use openportal.Base.Tests.{nat_beq, Bool-cases}
use openportal.Base.Lists.{All, any}
use openportal.Base.Text.Defs.{Text, contains, split, join, push_head}

-- A text without the separator is one piece.
pub split-word : (sep : ℕ) (w : Text) → contains sep w ≡ false → split sep w ≡ w ∷ []
unfolding split contains
split-word sep [] h = refl
split-word sep (c ∷ w) h = ground (arith, split-word sep w)

-- A piece without the separator, then the separator: the piece is the first, the rest follows.
pub split-append :
    (sep : ℕ) (w s : Text) → contains sep w ≡ false → split sep (w ++ (sep ∷ s)) ≡ w ∷ split sep s
unfolding split contains
split-append sep [] s h = ground arith
split-append sep (c ∷ w) s h = ground (arith, split-append sep w s)

pub split-join :
    (sep : ℕ) (w : Text) (ws : List Text)
    → All (λ v. contains sep v ≡ false) (w ∷ ws)
    → split sep (join sep (w ∷ ws)) ≡ w ∷ ws
unfolding join
split-join sep w [] h = split-word sep w h.0
split-join sep w (v ∷ ws) h =
    split-append sep w (join sep (v ∷ ws)) h.0 ∙ ap (◌∷◌ w) (split-join sep v ws h.1)

push_head-All :
    (sep c : ℕ) (ws : List Text)
    → nat_beq c sep ≡ false
    → All (λ v. contains sep v ≡ false) ws
    → All (λ v. contains sep v ≡ false) (push_head c ws)
unfolding contains
push_head-All sep c [] e h = ground arith
push_head-All sep c (w ∷ ws) e h = (ground (arith, h.0), h.1)

-- No piece holds the separator.
pub split-All : (sep : ℕ) (s : Text) → All (λ v. contains sep v ≡ false) (split sep s)
unfolding split contains
split-All sep [] = (refl, tt)
split-All sep (c ∷ s) = elim (Bool-cases (nat_beq c sep)) [
  | inl e ↦ rw e (refl, split-All sep s)
  | inr e ↦ rw e (push_head-All sep c (split sep s) e (split-All sep s))
]

any-push_head :
    (p : ℕ → Bool) (c : ℕ) (ws : List Text) → any (any p) (push_head c ws) ≡ (p c || any (any p) ws)
any-push_head p c [] = ground arith
any-push_head p c (w ∷ ws) = ground arith

-- A character test that the separator fails holds somewhere in the text when it does in a piece.
pub any-split :
    (p : ℕ → Bool) (sep : ℕ) (s : Text) → p sep ≡ false → any p s ≡ any (any p) (split sep s)
unfolding split
any-split p sep [] h = refl
any-split p sep (c ∷ s) h = elim (Bool-cases (nat_beq c sep)) [
  | inl e ↦ let same : c ≡ sep = ground arith in rw (e, same, h) (any-split p sep s h)
  | inr e ↦ rw (e, any-push_head p c (split sep s), any-split p sep s h) refl
]
