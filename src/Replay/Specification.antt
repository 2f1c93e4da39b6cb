-- ===== src/Replay/Specification.antt =====
-- The unbounded history of the nonces accepted so far.
use openportal.Base.{
  ℕ, ◌+◌, ◌≤◌, ◌<◌, max, List, [], ◌∷◌, Bool, true, false, not, ◌||◌, ◌&&◌, if◌then◌else◌, nat_beq,
  ltb, ◌≡◌, arith,
}
use openportal.Replay.{ReplayWindow, check_and_record}

-- The highest nonce of a history, and whether a nonce is in it.
unfoldable pub top : List ℕ → ℕ
top [] = 0
top (x ∷ xs) = max x (top xs)

unfoldable pub is_in : ℕ → List ℕ → Bool
is_in n [] = false
is_in n (x ∷ xs) = nat_beq n x || is_in n xs

abbrev pub is_empty : List ℕ → Bool
is_empty [] = true
is_empty (x ∷ xs) = false

-- With all of the history at hand: accept the first nonce, and then a nonce that was not accepted
-- before and is less than 1024 below the highest.
unfoldable pub accepts : List ℕ → ℕ → Bool
accepts h n = is_empty h || (not (is_in n h) && ltb (top h) (n + 1024))

unfoldable pub note : List ℕ → ℕ → List ℕ
note h n = if accepts h n then n ∷ h else h

unfoldable pub decide_all : List ℕ → List ℕ → List Bool
unfolding note
decide_all h [] = []
decide_all h (n ∷ ns) = accepts h n ∷ decide_all (note h n) ns

-- The answers of the window to a sequence of nonces, and the window after them.
unfoldable pub check_all : ReplayWindow → List ℕ → List Bool
check_all w [] = []
check_all w (n ∷ ns) = let (w', accepted) = check_and_record w n in accepted ∷ check_all w' ns

unfoldable pub after_all : ReplayWindow → List ℕ → ReplayWindow
after_all w [] = w
after_all w (n ∷ ns) = after_all (check_and_record w n).0 ns

pub le_top : (n : ℕ) (h : List ℕ) → is_in n h ≡ true → n ≤ top h
unfolding top is_in
le_top n [] p = cc
le_top n (x ∷ h) p = ground (arith, le_top n h)

pub top-cons : (n : ℕ) (h : List ℕ) → n ≤ top h → top (n ∷ h) ≡ top h
unfolding top
top-cons n h p = omega arith

pub top-up : (n : ℕ) (h : List ℕ) → top h < n → top (n ∷ h) ≡ n
unfolding top
top-up n h p = omega arith
