-- ===== src/Replay/Bitmap.antt =====
-- The bitmap as a set of bit positions: what setting and testing a bit mean.
use openportal.Base.{
  ℕ, zero, suc, ◌*◌, ◌/◌, ◌%◌, ◌^◌, ◌<◌, List, [], ◌∷◌, Bool, false, ◌||◌, none, some, get_or,
  get_elem?, set, replicate, nat_beq, ltb, length, length-set, get_or-set_self, get_or-set_ne,
  get_or-replicate, get_or_beyond, Bool-cases, inl, inr, ◌≡◌, refl, sym, ◌∙◌, arith,
}
use openportal.Base.Bits.{
  bit, shl64, shr, low_bit_set, bit-bit_or, bit_or-lt, bit-mod-pow, bit-pow, low_bit_set-shr,
  bit-zero,
}
use openportal.Replay.{set_bit, test_bit}
use native.Mathlib.Nat.{mod-lt}

-- Bit `j` of the bitmap read as one number of 1024 bits.
unfoldable pub bit_at : List ℕ → ℕ → Bool
bit_at bitmap j = bit (get_or bitmap (j / 64) 0) (j % 64)

pub record IsBitmap (bitmap : List ℕ) : Type 0 where
  pub sixteen : length bitmap ≡ 16
  pub words : (i : ℕ) → get_or bitmap i 0 < 2 ^ 64

pub test_bit-bit_at : (bitmap : List ℕ) (j : ℕ) → test_bit bitmap j ≡ bit_at bitmap j
unfolding test_bit bit_at
test_bit-bit_at bitmap j = go bitmap (j / 64)
  where
    go :
        (l : List ℕ) (i : ℕ)
        → elim (get_elem? l i) as (λ x. Bool) [
          | none ↦ false
          | some word ↦ low_bit_set (shr word (j % 64))
        ]
          ≡ bit (get_or l i 0) (j % 64)
    go [] i = sym (bit-zero (j % 64))
    go (x ∷ l) zero = low_bit_set-shr x (j % 64)
    go (x ∷ l) (suc i) = go l i

pub set-IsBitmap :
    (bitmap : List ℕ) (i v : ℕ) → IsBitmap bitmap → v < 2 ^ 64 → IsBitmap (set bitmap i v)
set-IsBitmap bitmap i v h small = record {
  sixteen = length-set bitmap i v ∙ h.sixteen;
  words = λ j. elim (Bool-cases (nat_beq i j)) [
    | inl e ↦ elim (Bool-cases (ltb i (length bitmap))) [
      | inl f ↦
          let same : i ≡ j = ground arith in
          rw (← same, get_or-set_self bitmap i v 0 (ground arith)) small
      | inr f ↦
          rw (get_or_beyond (set bitmap i v) j 0 (ground (arith, length-set bitmap i v)))
            (omega arith)
    ]
    | inr e ↦ rw (get_or-set_ne bitmap i j v 0 (ground arith)) (h.words j)
  ];
}

pub zeros-IsBitmap : IsBitmap (replicate 16 0)
zeros-IsBitmap = record {
  sixteen = refl;
  words = λ i. rw (get_or-replicate {A = ℕ} 16 i 0) (omega arith);
}

pub bit_at-zeros : (j : ℕ) → bit_at (replicate 16 0) j ≡ false
unfolding bit_at
bit_at-zeros j = rw (get_or-replicate {A = ℕ} 16 (j / 64) 0) (bit-zero (j % 64))

pub set_bit-IsBitmap : (bitmap : List ℕ) (k : ℕ) → IsBitmap bitmap → IsBitmap (set_bit bitmap k)
unfolding set_bit
set_bit-IsBitmap bitmap k h = set-IsBitmap bitmap (k / 64) _ h (
    bit_or-lt 64 (get_or bitmap (k / 64) 0) (shl64 1 (k % 64)) (h.words (k / 64))
      (mod-lt (1 * 2 ^ (k % 64)) (omega arith)))

bit-shl64-one : (k i : ℕ) → i < 64 → bit (shl64 1 k) i ≡ nat_beq i k
bit-shl64-one k i h = bit-mod-pow (1 * 2 ^ k) 64 i ∙ ground (arith, bit-pow k i)

-- Setting a bit of the window adds exactly that bit.
pub bit_at-set_bit :
    (bitmap : List ℕ) (k j : ℕ)
    → length bitmap ≡ 16
    → k < 1024
    → bit_at (set_bit bitmap k) j ≡ (nat_beq j k || bit_at bitmap j)
unfolding set_bit bit_at
bit_at-set_bit bitmap k j len small = elim (Bool-cases (nat_beq (k / 64) (j / 64))) [
  | inl e ↦
      let same : k / 64 ≡ j / 64 = ground arith in
      rw (same, get_or-set_self bitmap (j / 64) _ 0 (omega arith), bit-bit_or)
        (ground (arith, bit-shl64-one (k % 64) (j % 64)))
  | inr e ↦ rw (get_or-set_ne bitmap (k / 64) (j / 64) _ 0 (ground arith)) (ground arith)
]
