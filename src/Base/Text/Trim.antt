-- ===== src/Base/Text/Trim.antt =====
-- Trimming and the characters of a text.
use mathlib.Core.List.{List, [], ◌∷◌, reverse, reverse-cons, reverse-reverse}
use mathlib.Core.Bool.{Bool, true, false}
use mathlib.Core.Path.{◌≡◌, refl, ap}
use mathlib.Core.Logic.{inl, inr}
use Prim.Native.Nat.{ℕ}
use native.Mathlib.Omega.{arith}
use openportal.Base.Tests.{nat_beq, Bool-cases}
use openportal.Base.Lists.{All, any}
use openportal.Base.Elements.{All-append, All-of_any, any_of_All}
use openportal.Base.Text.Defs.{Text, is_whitespace, trim_start, trim, contains}

trim_start-same : (s : Text) → any is_whitespace s ≡ false → trim_start s ≡ s
unfolding trim_start
trim_start-same [] h = refl
trim_start-same (c ∷ s) h = ground arith

pub All-reverse {ℓ κ} : {A : Type ℓ} (P : A → Type κ) (xs : List A) → All P xs → All P (reverse xs)
All-reverse P [] h = tt
All-reverse P (x ∷ xs) h =
    rw (reverse-cons x xs) (All-append P (reverse xs) (x ∷ []) (All-reverse P xs h.1) (h.0, tt))

any-reverse : (p : ℕ → Bool) (s : Text) → any p s ≡ false → any p (reverse s) ≡ false
any-reverse p s h = any_of_All p (reverse s) (All-reverse (λ x. p x ≡ false) s (All-of_any p s h))

-- A text without white space is its own trimmed form.
pub trim-same : (s : Text) → any is_whitespace s ≡ false → trim s ≡ s
unfolding trim
trim-same s h =
    rw (trim_start-same s h, trim_start-same (reverse s) (any-reverse is_whitespace s h))
      (reverse-reverse s)

-- A text all of whose characters satisfy a test does not hold a character that fails it.
pub contains_of_any :
    (bad : ℕ → Bool) (c : ℕ) (s : Text) → bad c ≡ true → any bad s ≡ false → contains c s ≡ false
unfolding contains
contains_of_any bad c [] b h = refl
contains_of_any bad c (x ∷ s) b h = elim (Bool-cases (nat_beq x c)) [
  | inl e ↦ let same : x ≡ c = ground arith in absurd (ground (arith, ap bad same))
  | inr e ↦ rw e (contains_of_any bad c s b (ground arith))
]

-- A test that is harder to pass fails on no character of the text either.
pub any_weaken :
    (p q : ℕ → Bool) (s : Text)
    → ((c : ℕ) → p c ≡ false → q c ≡ false)
    → any p s ≡ false
    → any q s ≡ false
any_weaken p q [] w h = refl
any_weaken p q (x ∷ s) w h = ground (arith, w x, any_weaken p q s w)
