-- ===== src/Replay/History.antt =====
-- The window against an unbounded history of the nonces accepted so far.
use openportal.Base.{ℕ, List, [], ◌∷◌, true, false, ◌≡◌, refl, sym, ◌∙◌, arith, ap₂}
use openportal.Replay.{ReplayWindow, new, check_and_record}
use openportal.Replay.Specification.{is_in, accepts, note, decide_all, check_all, after_all}
use openportal.Replay.Refinement.{Refines, new-Refines, step-Refines}

check_all-Refines :
    (w : ReplayWindow) (h ns : List ℕ) → Refines w h → check_all w ns ≡ decide_all h ns
unfolding check_all decide_all
check_all-Refines w h [] r = refl
check_all-Refines w h (n ∷ ns) r =
    let (same, r') = step-Refines w h n r in
    ap₂ ◌∷◌ same (check_all-Refines (check_and_record w n).0 (note h n) ns r')

-- For every sequence of nonces the window of 1024 bits gives the answers of the unbounded history:
-- after the first nonce, a nonce is accepted exactly when it was not accepted before and is less
-- than 1024 below the highest accepted one.
pub check_all-decide_all : (ns : List ℕ) → check_all new ns ≡ decide_all [] ns
check_all-decide_all ns = check_all-Refines new [] ns new-Refines

pub note_all : List ℕ → List ℕ → List ℕ
note_all h [] = h
note_all h (n ∷ ns) = note_all (note h n) ns

pub after_all-Refines :
    (w : ReplayWindow) (h ns : List ℕ) → Refines w h → Refines (after_all w ns) (note_all h ns)
unfolding after_all note_all
after_all-Refines w h [] r = r
after_all-Refines w h (n ∷ ns) r =
    after_all-Refines (check_and_record w n).0 (note h n) ns (step-Refines w h n r).1

pub is_in-note : (h : List ℕ) (m n : ℕ) → is_in n h ≡ true → is_in n (note h m) ≡ true
unfolding note is_in
is_in-note h m n p = ground arith

is_in-note_all : (h ns : List ℕ) (n : ℕ) → is_in n h ≡ true → is_in n (note_all h ns) ≡ true
unfolding note_all
is_in-note_all h [] n p = p
is_in-note_all h (m ∷ ns) n p = is_in-note_all (note h m) ns n (is_in-note h m n p)

pub accepts_of_is_in : (h : List ℕ) (n : ℕ) → is_in n h ≡ true → accepts h n ≡ false
unfolding accepts is_in
accepts_of_is_in [] n p = cc
accepts_of_is_in (x ∷ h) n p = ground arith

pub is_in-note_self : (h : List ℕ) (n : ℕ) → accepts h n ≡ true → is_in n (note h n) ≡ true
unfolding note is_in
is_in-note_self h n p = ground arith

-- A nonce that the window has accepted is refused ever after, whatever arrives before it and in
-- between.
pub replay_refused :
    (before between : List ℕ) (n : ℕ)
    → (check_and_record (after_all new before) n).1 ≡ true
    → (check_and_record (after_all (check_and_record (after_all new before) n).0 between) n).1
      ≡ false
replay_refused before between n ok =
    let h = note_all [] before in
    let r = after_all-Refines new [] before new-Refines in
    let (same, r') = step-Refines (after_all new before) h n r in
    let seen = is_in-note_self h n (sym same ∙ ok) in
    let w' = (check_and_record (after_all new before) n).0 in
    let r'' = after_all-Refines w' (note h n) between r' in
    (step-Refines (after_all w' between) (note_all (note h n) between) n r'').0
    ∙ accepts_of_is_in (note_all (note h n) between) n (is_in-note_all (note h n) between n seen)
