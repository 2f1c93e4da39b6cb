-- ===== src/Replay/Refinement.antt =====
-- A window stands for a history, and one step of it is one step of the history.
use openportal.Base.{
  ℕ, ◌+◌, ◌-◌, ◌≤◌, ◌<◌, max, List, [], ◌∷◌, Bool, true, false, not, ◌||◌, if◌then◌else◌, nat_beq,
  ltb, leb, Bool-cases, inl, inr, ◌≡◌, refl, sym, ◌∙◌, arith,
}
use openportal.Replay.{ReplayWindow, new, set_bit, test_bit, shift_left, check_and_record}
use openportal.Replay.Bitmap.{
  bit_at, IsBitmap, test_bit-bit_at, zeros-IsBitmap, bit_at-zeros, set_bit-IsBitmap, bit_at-set_bit,
}
use openportal.Replay.Shift.{bit_at-shift_left, shift_left-IsBitmap}
use openportal.Replay.Specification.{top, is_in, is_empty, accepts, note, le_top, top-cons, top-up}

-- The window stands for the history.
pub record Refines (w : ReplayWindow) (h : List ℕ) : Type 0 where
  pub bitmap : IsBitmap w.bitmap
  pub started : w.initialized ≡ not (is_empty h)
  pub highest : w.initialized ≡ true → w.highest ≡ top h
  pub bits :
      (m : ℕ)
      → w.initialized ≡ true
      → m ≤ top h
      → top h < m + 1024
      → bit_at w.bitmap (top h - m) ≡ is_in m h
  pub blank : (j : ℕ) → w.initialized ≡ false → bit_at w.bitmap j ≡ false

pub new-Refines : Refines new []
unfolding new
new-Refines = record {
  bitmap = zeros-IsBitmap;
  started = refl;
  highest = λ e. cc;
  bits = λ m e. absurd (ground arith);
  blank = λ j e. bit_at-zeros j;
}

abbrev pub StepAgrees : ReplayWindow → List ℕ → ℕ → Type 0
StepAgrees w h n =
    ((check_and_record w n).1 ≡ accepts h n) × Refines (check_and_record w n).0 (note h n)

-- The very first nonce.
first_step : (w : ReplayWindow) (n : ℕ) → Refines w [] → StepAgrees w [] n
unfolding check_and_record accepts note
first_step w n r =
    let off : w.initialized ≡ false = r.started in
    rw off (
      refl,
      record {
        bitmap = set_bit-IsBitmap w.bitmap 0 r.bitmap;
        started = refl;
        highest = λ e. unfold top in omega arith;
        bits = λ m e p q.
            unfold top is_in in
            ground (
              arith,
              bit_at-set_bit w.bitmap 0 (max n 0 - m) r.bitmap.sixteen,
              r.blank (max n 0 - m) off,
            );
        blank = λ j e. cc;
      },
    )

advanced : ReplayWindow → ℕ → ReplayWindow
advanced w n = record w { highest = n; bitmap = set_bit (shift_left w.bitmap (n - w.highest)) 0 }

recorded : ReplayWindow → ℕ → ReplayWindow
recorded w n = record w { bitmap = set_bit w.bitmap (w.highest - n) }

-- The three outcomes of `check_and_record` once the window is initialized.
check-advanced :
    (w : ReplayWindow) (n : ℕ)
    → w.initialized ≡ true
    → w.highest < n
    → check_and_record w n ≡ (advanced w n, true)
unfolding check_and_record advanced
check-advanced w n on up = ground arith

check-recorded :
    (w : ReplayWindow) (n : ℕ)
    → w.initialized ≡ true
    → n ≤ w.highest
    → w.highest < n + 1024
    → test_bit w.bitmap (w.highest - n) ≡ false
    → check_and_record w n ≡ (recorded w n, true)
unfolding check_and_record recorded
check-recorded w n on down near unseen = ground arith

check-refused :
    (w : ReplayWindow) (n : ℕ)
    → w.initialized ≡ true
    → n ≤ w.highest
    → (leb 1024 (w.highest - n) || test_bit w.bitmap (w.highest - n)) ≡ true
    → check_and_record w n ≡ (w, false)
unfolding check_and_record
check-refused w n on down why = ground arith

accepts_cases :
    (w : ReplayWindow) (x : ℕ) (h : List ℕ) (n : ℕ) {w' : ReplayWindow} {b : Bool}
    → check_and_record w n ≡ (w', b)
    → accepts (x ∷ h) n ≡ b
    → Refines w' (if b then n ∷ x ∷ h else x ∷ h)
    → StepAgrees w (x ∷ h) n
unfolding note
accepts_cases w x h n e a r = rw (e, a) (refl, r)

is_in-cons : (m n : ℕ) (h : List ℕ) → is_in m (n ∷ h) ≡ (nat_beq m n || is_in m h)
unfolding is_in
is_in-cons m n h = refl

advanced-bits :
    (w : ReplayWindow) (g : List ℕ) (n m : ℕ)
    → top g < n
    → m ≤ n
    → n < m + 1024
    → w.highest ≡ top g
    → w.initialized ≡ true
    → Refines w g
    → bit_at (set_bit (shift_left w.bitmap (n - w.highest)) 0) (n - m) ≡ is_in m (n ∷ g)
advanced-bits w g n m up p q high on r =
    let shifted = shift_left w.bitmap (n - w.highest) in
    let ok : IsBitmap shifted = shift_left-IsBitmap w.bitmap (n - w.highest) r.bitmap in
    let moved = bit_at-shift_left w.bitmap (n - w.highest) (n - m) (omega arith) r.bitmap in
    let mark = bit_at-set_bit shifted 0 (n - m) ok.sixteen (omega arith) in
    mark ∙ (elim (Bool-cases (leb m (top g))) [
      | inl e ↦
          let old : n - m - (n - w.highest) ≡ top g - m = ground arith in
          let kept : bit_at shifted (n - m) ≡ bit_at w.bitmap (top g - m) =
            moved ∙ (rw old (ground arith)) in
          rw (kept, r.bits m on (ground arith) (omega arith), is_in-cons m n g) (ground arith)
      | inr e ↦ rw (moved, is_in-cons m n g) (ground (arith, le_top m g))
    ])

advanced-Refines :
    (w : ReplayWindow) (x : ℕ) (h : List ℕ) (n : ℕ)
    → top (x ∷ h) < n
    → Refines w (x ∷ h)
    → Refines (advanced w n) (n ∷ x ∷ h)
unfolding advanced
advanced-Refines w x h n up r =
    let g = x ∷ h in
    let on : w.initialized ≡ true = r.started in
    let high : w.highest ≡ top g = r.highest on in
    let shifted = shift_left w.bitmap (n - w.highest) in
    let ok : IsBitmap shifted = shift_left-IsBitmap w.bitmap (n - w.highest) r.bitmap in
    record {
      bitmap = set_bit-IsBitmap shifted 0 ok;
      started = on;
      highest = λ e. unfold top in omega arith;
      bits = λ m e p q.
          let same = top-up n g (omega arith) in
          rw same (advanced-bits w g n m up (rw same at p) (rw same at q) high on r);
      blank = λ j e. cc;
    }

recorded-bits :
    (w : ReplayWindow) (g : List ℕ) (n m : ℕ)
    → n ≤ top g
    → top g < n + 1024
    → m ≤ top g
    → top g < m + 1024
    → w.highest ≡ top g
    → w.initialized ≡ true
    → Refines w g
    → bit_at (set_bit w.bitmap (w.highest - n)) (top g - m) ≡ is_in m (n ∷ g)
recorded-bits w g n m down near p q high on r =
    bit_at-set_bit w.bitmap (w.highest - n) (top g - m) r.bitmap.sixteen (omega arith)
    ∙ (rw (r.bits m on p q, is_in-cons m n g) (ground arith))

recorded-Refines :
    (w : ReplayWindow) (x : ℕ) (h : List ℕ) (n : ℕ)
    → n ≤ top (x ∷ h)
    → top (x ∷ h) < n + 1024
    → Refines w (x ∷ h)
    → Refines (recorded w n) (n ∷ x ∷ h)
unfolding recorded
recorded-Refines w x h n down near r =
    let on : w.initialized ≡ true = r.started in
    let high : w.highest ≡ top (x ∷ h) = r.highest on in
    record {
      bitmap = set_bit-IsBitmap w.bitmap (w.highest - n) r.bitmap;
      started = on;
      highest = λ e. high ∙ sym (top-cons n (x ∷ h) down);
      bits = λ m e p q.
          let same = top-cons n (x ∷ h) down in
          rw same (recorded-bits w (x ∷ h) n m down near (rw same at p) (rw same at q) high on r);
      blank = λ j e. cc;
    }

-- A nonce above all accepted ones moves the window.
advance :
    (w : ReplayWindow) (x : ℕ) (h : List ℕ) (n : ℕ)
    → top (x ∷ h) < n
    → Refines w (x ∷ h)
    → StepAgrees w (x ∷ h) n
advance w x h n up r =
    let on : w.initialized ≡ true = r.started in
    let high : w.highest ≡ top (x ∷ h) = r.highest on in
    accepts_cases w x h n (check-advanced w n on (omega arith))
      (unfold accepts in ground (arith, le_top n (x ∷ h))) (advanced-Refines w x h n up r)

-- A nonce at or below the highest.
behind :
    (w : ReplayWindow) (x : ℕ) (h : List ℕ) (n : ℕ)
    → n ≤ top (x ∷ h)
    → Refines w (x ∷ h)
    → StepAgrees w (x ∷ h) n
behind w x h n down r =
    let g = x ∷ h in
    let on : w.initialized ≡ true = r.started in
    let high : w.highest ≡ top g = r.highest on in
    let test : top g < n + 1024 → test_bit w.bitmap (w.highest - n) ≡ is_in n g =
      λ near. test_bit-bit_at w.bitmap (w.highest - n) ∙ (rw high (r.bits n on down near)) in
    elim (Bool-cases (ltb (top g) (n + 1024))) [
      | inl near ↦ elim (Bool-cases (is_in n g)) [
        | inl seen ↦
            accepts_cases w x h n
              (check-refused w n on (omega arith) (ground (arith, test (ground arith))))
              (unfold accepts in ground arith) r
        | inr unseen ↦
            accepts_cases w x h n
              (check-recorded w n on (omega arith) (ground arith) (test (ground arith) ∙ unseen))
              (unfold accepts in ground arith) (recorded-Refines w x h n down (ground arith) r)
      ]
      | inr far ↦
          accepts_cases w x h n (check-refused w n on (omega arith) (ground arith))
            (unfold accepts in ground arith) r
    ]

-- One step of the window is one step of the history.
pub step-Refines : (w : ReplayWindow) (h : List ℕ) (n : ℕ) → Refines w h → StepAgrees w h n
step-Refines w [] n r = first_step w n r
step-Refines w (x ∷ h) n r = elim (Bool-cases (ltb (top (x ∷ h)) n)) [
  | inl e ↦ advance w x h n (ground arith) r
  | inr e ↦ behind w x h n (ground arith) r
]
