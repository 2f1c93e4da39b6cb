-- ===== src/Base/Bits.antt =====
-- The bits of a number, and how the operations on machine words act on them.
use Prim.Native.Nat.{
  ℕ, zero, suc, ◌+◌, ◌-◌, ◌*◌, ◌/◌, ◌%◌, ◌^◌, ◌≤◌, ◌<◌, max, bit_or, digits, bit_or-bitwise,
}
use mathlib.Core.Path.{◌≡◌, refl, sym, ◌∙◌, ap}
use mathlib.Core.Bool.{Bool, false, ◌||◌, not}
use native.Mathlib.Omega.{arith}
use native.Mathlib.Nat.{
  pow-suc, div-div-eq-div-mul, mul_assoc, mod-eq_of_lt, mod-lt, div-add-mod, add-mul-mod_self_left,
}
use openportal.Base.Tests.{nat_beq, ltb, if◌then◌else◌}

-- Bit `i` of `w`, by the digit recursion.
pub bit : ℕ → ℕ → Bool
bit w zero = nat_beq (w % 2) 1
bit w (suc i) = bit (w / 2) i

-- `x << k` on a u64, `x >> k`, and the test `(x >> k) & 1 != 0`.
abbrev pub shl64 : ℕ → ℕ → ℕ
shl64 x k = x * 2 ^ k % 2 ^ 64

abbrev pub shr : ℕ → ℕ → ℕ
shr x k = x / 2 ^ k

abbrev pub low_bit_set : ℕ → Bool
low_bit_set x = not (nat_beq (x % 2) 0)

or_digits : ℕ → ℕ → ℕ → ℕ
or_digits n a b = digits (λ y. y) max n a b

-- More rounds than the first number has digits change nothing.
or_digits_enough : (n k a b : ℕ) → a ≤ n → a ≤ k → or_digits n a b ≡ or_digits k a b
unfolding or_digits
or_digits_enough zero zero zero b p q = refl
or_digits_enough zero (suc k) zero b p q = refl
or_digits_enough (suc n) zero zero b p q = refl
or_digits_enough (suc n) (suc k) zero b p q = refl
or_digits_enough zero k (suc a) b p q = absurd (omega arith)
or_digits_enough (suc n) zero (suc a) b p q = absurd (omega arith)
or_digits_enough (suc n) (suc k) (suc a) b p q =
    omega (arith, or_digits_enough n k (suc a / 2) (b / 2) (omega arith) (omega arith))

-- The lowest digit of a bitwise or, and the rest of it.
pub bit_or_digit : (a b : ℕ) → bit_or a b ≡ bit_or (a / 2) (b / 2) * 2 + max (a % 2) (b % 2)
unfolding or_digits
bit_or_digit zero b = omega (arith, bit_or-bitwise 0 b, bit_or-bitwise 0 (b / 2))
bit_or_digit (suc a) b = omega (
  arith,
  bit_or-bitwise (suc a) b,
  bit_or-bitwise (suc a / 2) (b / 2),
  or_digits_enough a (suc a / 2) (suc a / 2) (b / 2) (omega arith) (omega arith),
)

pub bit-bit_or : (a b i : ℕ) → bit (bit_or a b) i ≡ (bit a i || bit b i)
unfolding bit
bit-bit_or a b zero = ground (arith, bit_or_digit a b)
bit-bit_or a b (suc i) =
    let half : bit_or a b / 2 ≡ bit_or (a / 2) (b / 2) = omega (arith, bit_or_digit a b) in
    rw half (bit-bit_or (a / 2) (b / 2) i)

pub bit_or-lt : (n a b : ℕ) → a < 2 ^ n → b < 2 ^ n → bit_or a b < 2 ^ n
bit_or-lt zero a b h k =
    let a0 : a ≡ 0 = omega arith in let b0 : b ≡ 0 = omega arith in rw (a0, b0) (omega arith)
bit_or-lt (suc n) a b h k =
    let e = pow-suc 2 n in
    let ih = bit_or-lt n (a / 2) (b / 2) (omega arith) (omega arith) in
    omega (arith, bit_or_digit a b)

pub bit-zero : (i : ℕ) → bit 0 i ≡ false
unfolding bit
bit-zero zero = refl
bit-zero (suc i) = bit-zero i

bit-double : (x i : ℕ) → bit (x * 2) (suc i) ≡ bit x i
unfolding bit
bit-double x i = let e : x * 2 / 2 ≡ x = omega arith in rw e refl

bit-double_low : (x : ℕ) → bit (x * 2) 0 ≡ false
unfolding bit
bit-double_low x = ground arith

pub bit-mul-pow : (w k i : ℕ) → bit (w * 2 ^ k) i ≡ (if ltb i k then false else bit w (i - k))
bit-mul-pow w zero i =
    let e : w * 2 ^ 0 ≡ w = omega arith in
    let f : i - 0 ≡ i = omega arith in rw (e, f) (ground arith)
bit-mul-pow w (suc k) zero =
    let e = ap (λ (t : ℕ). w * t) (pow-suc 2 k) ∙ sym (mul_assoc w (2 ^ k) 2) in
    rw (e, bit-double_low) (ground arith)
bit-mul-pow w (suc k) (suc i) =
    let e = ap (λ (t : ℕ). w * t) (pow-suc 2 k) ∙ sym (mul_assoc w (2 ^ k) 2) in
    let f : suc i - suc k ≡ i - k = omega arith in
    rw (e, bit-double, f) (ground (arith, bit-mul-pow w k i))

pub bit-div-pow : (w k i : ℕ) → bit (w / 2 ^ k) i ≡ bit w (i + k)
unfolding bit
bit-div-pow w zero i =
    let e : w / 2 ^ 0 ≡ w = omega arith in let f : i + 0 ≡ i = omega arith in rw (e, f) refl
bit-div-pow w (suc k) i =
    let p : 2 ^ suc k ≡ 2 * 2 ^ k = omega (arith, pow-suc 2 k) in
    let f : i + suc k ≡ suc (i + k) = omega arith in
    rw (p, ← div-div-eq-div-mul w 2 (2 ^ k), f) (bit-div-pow (w / 2) k i)

pow_pos : (n : ℕ) → 0 < 2 ^ n
pow_pos zero = omega arith
pow_pos (suc n) = omega (arith, pow-suc 2 n, pow_pos n)

mod_double_low : (w m : ℕ) → 0 < m → w % (2 * m) % 2 ≡ w % 2
mod_double_low w m h = omega (arith, div-add-mod w (2 * m))

mod_double_high : (w m : ℕ) → 0 < m → w % (2 * m) / 2 ≡ w / 2 % m
mod_double_high w m h =
    let r = w % (2 * m) in
    let q = w / (2 * m) in
    let small : r < 2 * m = mod-lt w (omega arith) in
    let e : w / 2 ≡ r / 2 + m * q = omega (arith, div-add-mod w (2 * m)) in
    rw e (sym (add-mul-mod_self_left (r / 2) m q ∙ mod-eq_of_lt (omega arith)))

pub bit-mod-pow : (w n i : ℕ) → bit (w % 2 ^ n) i ≡ (if ltb i n then bit w i else false)
unfolding bit
bit-mod-pow w zero i = let e : w % 2 ^ 0 ≡ 0 = omega arith in rw e (ground (arith, bit-zero i))
bit-mod-pow w (suc n) zero =
    let p : 2 ^ suc n ≡ 2 * 2 ^ n = omega (arith, pow-suc 2 n) in
    rw (p, mod_double_low w (2 ^ n) (pow_pos n)) (ground arith)
bit-mod-pow w (suc n) (suc i) =
    let p : 2 ^ suc n ≡ 2 * 2 ^ n = omega (arith, pow-suc 2 n) in
    rw (p, mod_double_high w (2 ^ n) (pow_pos n)) (ground (arith, bit-mod-pow (w / 2) n i))

pub bit_of_lt : (w n i : ℕ) → w < 2 ^ n → n ≤ i → bit w i ≡ false
bit_of_lt w n i h k = ground (arith, bit-mod-pow w n i, mod-eq_of_lt h)

bit-one : (i : ℕ) → bit 1 i ≡ nat_beq i 0
unfolding bit
bit-one zero = refl
bit-one (suc i) = ground (arith, bit-zero i)

-- The word with one bit.
pub bit-pow : (k i : ℕ) → bit (1 * 2 ^ k) i ≡ nat_beq i k
bit-pow k i = bit-mul-pow 1 k i ∙ ground (arith, bit-one (i - k))

bit-low_bit_set : (x : ℕ) → bit x 0 ≡ low_bit_set x
unfolding bit
bit-low_bit_set x = ground arith

pub low_bit_set-shr : (w k : ℕ) → low_bit_set (shr w k) ≡ bit w k
low_bit_set-shr w k =
    let e : 0 + k ≡ k = omega arith in
    let h : bit (w / 2 ^ k) 0 ≡ bit w k = bit-div-pow w k 0 ∙ ap (bit w) e in sym h-low ∙ h
  where
    h-low : bit (w / 2 ^ k) 0 ≡ low_bit_set (shr w k)
    h-low = bit-low_bit_set (shr w k)
