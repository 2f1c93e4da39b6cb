-- ===== src/Replay/Shift.antt =====
-- Ageing the window: the shift by words and then by bits moves every bit up by the whole distance.
use openportal.Base.{
  ℕ, zero, suc, ◌+◌, ◌-◌, ◌*◌, ◌/◌, ◌%◌, ◌^◌, ◌≤◌, ◌<◌, List, [], ◌∷◌, false, ◌&&◌, if◌then◌else◌,
  get_or, set, nat_beq, ltb, leb, length, length-set, get_or-set_self, get_or-set_ne, get_or_beyond,
  Bool-cases, inl, inr, ◌≡◌, refl, ◌∙◌, ap, arith,
}
use openportal.Base.Bits.{
  bit, shl64, shr, bit-bit_or, bit_or-lt, bit-mod-pow, bit-mul-pow, bit-div-pow, bit_of_lt,
  bit-zero,
}
use openportal.Replay.{
  carry_words, zero_words, carry_bits, shift_by_words, shift_by_bits, shift_left,
}
use openportal.Replay.Bitmap.{bit_at, IsBitmap, set-IsBitmap, zeros-IsBitmap, bit_at-zeros}
use Prim.Native.Nat.{bit_or}
use native.Mathlib.Nat.{mod-lt}

get_or-set :
    (l : List ℕ) (k i v : ℕ)
    → k < length l
    → get_or (set l k v) i 0 ≡ (if nat_beq i k then v else get_or l i 0)
get_or-set l k i v h = elim (Bool-cases (nat_beq i k)) [
  | inl e ↦ let same : i ≡ k = ground arith in rw (e, same) (get_or-set_self l k v 0 h)
  | inr e ↦ rw e (get_or-set_ne l k i v 0 (ground arith))
]

-- The descending loop reads each word before it is overwritten.
get_or-carry_words :
    (n s : ℕ) (l : List ℕ) (i : ℕ)
    → 0 < s
    → s + n ≤ length l
    → get_or (carry_words n s l) i 0
      ≡ (if leb s i && ltb i (s + n) then get_or l (i - s) 0 else get_or l i 0)
unfolding carry_words
get_or-carry_words zero s l i p h = ground arith
get_or-carry_words (suc n) s l i p h =
    let l' = set l (s + n) (get_or l n 0) in
    let ih = get_or-carry_words n s l' i p (omega (arith, length-set l (s + n) (get_or l n 0))) in
    ground (
      arith,
      ih,
      get_or-set l (s + n) i (get_or l n 0),
      get_or-set l (s + n) (i - s) (get_or l n 0),
    )

length-carry_words : (n s : ℕ) (l : List ℕ) → length (carry_words n s l) ≡ length l
unfolding carry_words
length-carry_words zero s l = refl
length-carry_words (suc n) s l = length-carry_words n s _ ∙ length-set l (s + n) (get_or l n 0)

get_or-zero_words :
    (n : ℕ) (l : List ℕ) (i : ℕ)
    → get_or (zero_words n l) i 0 ≡ (if ltb i n then 0 else get_or l i 0)
unfolding zero_words
get_or-zero_words zero l i = ground arith
get_or-zero_words (suc n) [] i = ground arith
get_or-zero_words (suc n) (x ∷ l) zero = ground arith
get_or-zero_words (suc n) (x ∷ l) (suc i) = ground (arith, get_or-zero_words n l i)

length-zero_words : (n : ℕ) (l : List ℕ) → length (zero_words n l) ≡ length l
unfolding zero_words
length-zero_words zero l = refl
length-zero_words (suc n) [] = refl
length-zero_words (suc n) (x ∷ l) = ap suc (length-zero_words n l)

-- Word `i` of the bitmap shifted by whole words is word `i - s`.
get_or-shift_by_words :
    (s : ℕ) (l : List ℕ) (i : ℕ)
    → s < 16
    → length l ≡ 16
    → i < 16
    → get_or (shift_by_words s l) i 0 ≡ (if ltb i s then 0 else get_or l (i - s) 0)
unfolding shift_by_words
get_or-shift_by_words zero l i p h q = let e : i - 0 ≡ i = omega arith in rw e (ground arith)
get_or-shift_by_words (suc s) l i p h q = ground (
  arith,
  get_or-zero_words (suc s) (carry_words (16 - suc s) (suc s) l) i,
  get_or-carry_words (16 - suc s) (suc s) l i,
)

length-shift_by_words : (s : ℕ) (l : List ℕ) → length (shift_by_words s l) ≡ length l
unfolding shift_by_words
length-shift_by_words zero l = refl
length-shift_by_words (suc s) l = ground (
  arith,
  length-zero_words (suc s) (carry_words (16 - suc s) (suc s) l),
  length-carry_words (16 - suc s) (suc s) l,
)

shift_by_words-IsBitmap : (s : ℕ) (l : List ℕ) → s < 16 → IsBitmap l → IsBitmap (shift_by_words s l)
shift_by_words-IsBitmap s l p h = record {
  sixteen = length-shift_by_words s l ∙ h.sixteen;
  words = λ i. elim (Bool-cases (ltb i 16)) [
    | inl e ↦
        rw (get_or-shift_by_words s l i p h.sixteen (ground arith))
          (ground (arith, h.words (i - s)))
    | inr e ↦
        rw
          (get_or_beyond (shift_by_words s l) i 0
            (ground (arith, length-shift_by_words s l, h.sixteen)))
          (omega arith)
  ];
}

-- The word that the second loop writes.
abbrev pub carried : List ℕ → ℕ → ℕ → ℕ
carried l s n = bit_or (shl64 (get_or l (suc n) 0) s) (shr (get_or l n 0) (64 - s))

carried-set : (l : List ℕ) (s n i v : ℕ) → i < n → carried (set l (suc n) v) s i ≡ carried l s i
carried-set l s n i v h =
    rw
      (
        get_or-set_ne l (suc n) (suc i) v 0 (omega arith),
        get_or-set_ne l (suc n) i v 0 (omega arith),
      )
      refl

get_or-carry_bits :
    (n s : ℕ) (l : List ℕ) (i : ℕ)
    → suc n ≤ length l
    → get_or (carry_bits n s l) (suc i) 0 ≡ (if ltb i n then carried l s i else get_or l (suc i) 0)
unfolding carry_bits
get_or-carry_bits zero s l i h = ground arith
get_or-carry_bits (suc n) s l i h =
    let v = carried l s n in
    let ih = get_or-carry_bits n s (set l (suc n) v) i (omega (arith, length-set l (suc n) v)) in
    ih ∙ (elim (Bool-cases (ltb i n)) [
      | inl e ↦ rw (e, carried-set l s n i v (ground arith)) (ground arith)
      | inr e ↦ rw (e, get_or-set l (suc n) (suc i) v h) (ground arith)
    ])

get_or-carry_bits_first : (n s : ℕ) (l : List ℕ) → get_or (carry_bits n s l) 0 0 ≡ get_or l 0 0
unfolding carry_bits
get_or-carry_bits_first zero s l = refl
get_or-carry_bits_first (suc n) s l =
    get_or-carry_bits_first n s (set l (suc n) (carried l s n))
    ∙ get_or-set_ne l (suc n) 0 (carried l s n) 0 (omega arith)

shr-le : (x k : ℕ) → shr x k ≤ x
shr-le x k = grind arith

carried-lt : (l : List ℕ) (s n : ℕ) → IsBitmap l → carried l s n < 2 ^ 64
carried-lt l s n h =
    bit_or-lt 64 (shl64 (get_or l (suc n) 0) s) (shr (get_or l n 0) (64 - s))
      (mod-lt (get_or l (suc n) 0 * 2 ^ s) (omega arith))
      (omega (arith, shr-le (get_or l n 0) (64 - s), h.words n))

carry_bits-IsBitmap : (n s : ℕ) (l : List ℕ) → 0 < s → IsBitmap l → IsBitmap (carry_bits n s l)
unfolding carry_bits
carry_bits-IsBitmap zero s l p h = h
carry_bits-IsBitmap (suc n) s l p h =
    carry_bits-IsBitmap n s (set l (suc n) (carried l s n)) p
      (set-IsBitmap l (suc n) (carried l s n) h (carried-lt l s n h))

shift_by_bits-IsBitmap : (s : ℕ) (l : List ℕ) → IsBitmap l → IsBitmap (shift_by_bits s l)
unfolding shift_by_bits
shift_by_bits-IsBitmap s l h = elim (Bool-cases (ltb 0 s)) [
  | inl e ↦
      let c = carry_bits 15 s l in
      rw e (
        set-IsBitmap c 0 (shl64 (get_or c 0 0) s) (carry_bits-IsBitmap 15 s l (ground arith) h)
          (mod-lt (get_or c 0 0 * 2 ^ s) (omega arith)))
  | inr e ↦ rw e h
]

bit-shl64 : (x s b : ℕ) → b < 64 → bit (shl64 x s) b ≡ (if ltb b s then false else bit x (b - s))
bit-shl64 x s b h = bit-mod-pow (x * 2 ^ s) 64 b ∙ ground (arith, bit-mul-pow x s b)

bit-carried :
    (l : List ℕ) (s n b : ℕ)
    → s < 64
    → b < 64
    → get_or l n 0 < 2 ^ 64
    → bit (carried l s n) b
      ≡ (if ltb b s then bit (get_or l n 0) (b + (64 - s)) else bit (get_or l (suc n) 0) (b - s))
bit-carried l s n b p q h =
    bit-bit_or (shl64 (get_or l (suc n) 0) s) (shr (get_or l n 0) (64 - s)) b
    ∙ ground (
      arith,
      bit-shl64 (get_or l (suc n) 0) s b q,
      bit-div-pow (get_or l n 0) (64 - s) b,
      bit_of_lt (get_or l n 0) 64 (b + (64 - s)) h,
    )

-- The words of the bitmap shifted by fewer than 64 bits.
bit-shift_by_bits :
    (s : ℕ) (l : List ℕ) (i b : ℕ)
    → s < 64
    → i < 16
    → b < 64
    → IsBitmap l
    → bit (get_or (shift_by_bits s l) i 0) b ≡ (
        if leb s b
        then bit (get_or l i 0) (b - s)
        else if nat_beq i 0
        then false
        else bit (get_or l (i - 1) 0) (b + (64 - s)))
unfolding shift_by_bits
bit-shift_by_bits s l zero b p q r h = elim (Bool-cases (ltb 0 s)) [
  | inl e ↦
      let c = carry_bits 15 s l in
      let v = shl64 (get_or c 0 0) s in
      let len : length c ≡ 16 = (carry_bits-IsBitmap 15 s l (ground arith) h).sixteen in
      rw (e, get_or-set_self c 0 v 0 (omega arith), get_or-carry_bits_first 15 s l)
        (ground (arith, bit-shl64 (get_or l 0 0) s b r))
  | inr e ↦ let z : b - s ≡ b = ground arith in rw (e, z) (ground arith)
]
bit-shift_by_bits s l (suc i) b p q r h = elim (Bool-cases (ltb 0 s)) [
  | inl e ↦
      let c = carry_bits 15 s l in
      let k : suc i - 1 ≡ i = omega arith in
      rw (e, get_or-set_ne c 0 (suc i) (shl64 (get_or c 0 0) s) 0 (omega arith), k)
        (ground (
          arith,
          get_or-carry_bits 15 s l i (omega (arith, h.sixteen)),
          bit-carried l s i b p r (h.words i),
        ))
  | inr e ↦ let z : b - s ≡ b = ground arith in rw (e, z) (ground arith)
]

bit_at-shift_by_bits :
    (s : ℕ) (l : List ℕ) (j : ℕ)
    → s < 64
    → j < 1024
    → IsBitmap l
    → bit_at (shift_by_bits s l) j ≡ (if ltb j s then false else bit_at l (j - s))
unfolding bit_at
bit_at-shift_by_bits s l j p q h =
    bit-shift_by_bits s l (j / 64) (j % 64) p (omega arith) (omega arith) h
    ∙ (elim (Bool-cases (leb s (j % 64))) [
      | inl e ↦
          let hi : (j - s) / 64 ≡ j / 64 = ground arith in
          let low : (j - s) % 64 ≡ j % 64 - s = ground arith in rw (e, hi, low) (ground arith)
      | inr e ↦ elim (Bool-cases (nat_beq (j / 64) 0)) [
        | inl f ↦ rw (e, f) (ground arith)
        | inr f ↦
            let hi : (j - s) / 64 ≡ j / 64 - 1 = ground arith in
            let low : (j - s) % 64 ≡ j % 64 + (64 - s) = ground arith in
            rw (e, f, hi, low) (ground arith)
      ]
    ])

bit_at-shift_by_words :
    (s : ℕ) (l : List ℕ) (j : ℕ)
    → s < 16
    → j < 1024
    → length l ≡ 16
    → bit_at (shift_by_words s l) j ≡ (if ltb j (64 * s) then false else bit_at l (j - 64 * s))
unfolding bit_at
bit_at-shift_by_words s l j p q h =
    let hi : (j - 64 * s) / 64 ≡ j / 64 - s = omega arith in
    let low : 64 * s ≤ j → (j - 64 * s) % 64 ≡ j % 64 = λ k. omega arith in
    rw (get_or-shift_by_words s l (j / 64) p h (omega arith), hi)
      (elim (Bool-cases (ltb (j / 64) s)) [
        | inl e ↦ rw e (ground (arith, bit-zero (j % 64)))
        | inr e ↦ rw (e, low (ground arith)) (ground arith)
      ])

shift_both :
    (l : List ℕ) (k j : ℕ)
    → k / 64 < 16
    → j < 1024
    → IsBitmap l
    → (if ltb j (k % 64) then false else bit_at (shift_by_words (k / 64) l) (j - k % 64))
      ≡ (if ltb j k then false else bit_at l (j - k))
shift_both l k j p q h = elim (Bool-cases (ltb j (k % 64))) [
  | inl e ↦ rw e (ground arith)
  | inr e ↦
      let same : k % 64 + 64 * (k / 64) ≤ j → j - k % 64 - 64 * (k / 64) ≡ j - k =
        λ m. omega arith in
      rw (e, bit_at-shift_by_words (k / 64) l (j - k % 64) p (omega arith) h.sixteen) (ground arith)
]

-- Shifting the window by `k` turns bit `j - k` into bit `j`, and clears the bits below `k`.
pub bit_at-shift_left :
    (l : List ℕ) (k j : ℕ)
    → j < 1024
    → IsBitmap l
    → bit_at (shift_left l k) j ≡ (if ltb j k then false else bit_at l (j - k))
unfolding shift_left
bit_at-shift_left l k j q h = elim (Bool-cases (leb 1024 k)) [
  | inl e ↦ rw e (ground (arith, bit_at-zeros j))
  | inr e ↦
      let words = shift_by_words (k / 64) l in
      let fits : k / 64 < 16 = ground arith in
      rw e (
        bit_at-shift_by_bits (k % 64) words j (omega arith) q
          (shift_by_words-IsBitmap (k / 64) l fits h)
        ∙ shift_both l k j fits q h)
]

pub shift_left-IsBitmap : (l : List ℕ) (k : ℕ) → IsBitmap l → IsBitmap (shift_left l k)
unfolding shift_left
shift_left-IsBitmap l k h = elim (Bool-cases (leb 1024 k)) [
  | inl e ↦ rw e zeros-IsBitmap
  | inr e ↦ rw e (
      shift_by_bits-IsBitmap (k % 64) (shift_by_words (k / 64) l)
        (shift_by_words-IsBitmap (k / 64) l (ground arith) h))
]
