-- ===== src/Replay/Epochs.antt =====
-- The windows of a peer's incarnations: their number, their order of eviction, and what a replay
-- meets.
use openportal.Base.{
  ℕ, zero, suc, ◌+◌, ◌≤◌, List, [], ◌∷◌, true, false, Option, none, some, ◌==◌, nat_eq, option_eq,
  ==_iff, length, take, length-take-le, All, Bool-cases, inl, inr, ◌⊎◌, ◌≢◌, ◌≡◌, refl, sym, ◌∙◌,
  arith,
}
use openportal.Replay.{
  ReplayWindow, new, check_and_record_optional, HandshakeNonceState, initial, remove_entry,
  check_replay,
}
use openportal.Replay.Refinement.{Refines, new-Refines, step-Refines}
use openportal.Replay.Specification.{is_in, note}
use openportal.Replay.History.{is_in-note, is_in-note_self, accepts_of_is_in}

abbrev pub Windows : Type 0
Windows = List (Option ℕ × ReplayWindow)

-- A message is the sender's epoch and its nonce, either of which an old peer leaves out.
abbrev pub Message : Type 0
Message = Option ℕ × Option ℕ

unfoldable pub receive_all : HandshakeNonceState → List Message → HandshakeNonceState
receive_all s [] = s
receive_all s ((epoch, nonce) ∷ ms) = receive_all (check_replay s epoch nonce).0 ms

-- A window that stands for some history.
abbrev pub IsSound : ReplayWindow → Type 0
IsSound w = (h : List ℕ) × Refines w h

-- A window whose history has the nonce.
abbrev pub HasSeen : ℕ → ReplayWindow → Type 0
HasSeen n w = (h : List ℕ) × Refines w h × (is_in n h ≡ true)

pub check_optional-IsSound :
    (w : ReplayWindow) (nonce : Option ℕ)
    → IsSound w
    → IsSound (check_and_record_optional w nonce).0
unfolding check_and_record_optional
check_optional-IsSound w none s = s
check_optional-IsSound w (some n) (h, r) = (note h n, (step-Refines w h n r).1)

pub check_optional-HasSeen :
    (n : ℕ) (w : ReplayWindow) (nonce : Option ℕ)
    → HasSeen n w
    → HasSeen n (check_and_record_optional w nonce).0
unfolding check_and_record_optional
check_optional-HasSeen n w none s = s
check_optional-HasSeen n w (some m) (h, r, p) =
    (note h m, (step-Refines w h m r).1, is_in-note h m n p)

pub accepted-HasSeen :
    (w : ReplayWindow) (n : ℕ)
    → IsSound w
    → (check_and_record_optional w (some n)).1 ≡ true
    → HasSeen n (check_and_record_optional w (some n)).0
unfolding check_and_record_optional
accepted-HasSeen w n (h, r) ok =
    let (same, r') = step-Refines w h n r in (note h n, r', is_in-note_self h n (sym same ∙ ok))

pub HasSeen-refused :
    (w : ReplayWindow) (n : ℕ) → HasSeen n w → (check_and_record_optional w (some n)).1 ≡ false
unfolding check_and_record_optional
HasSeen-refused w n (h, r, p) = (step-Refines w h n r).0 ∙ accepts_of_is_in h n p

abbrev pub AllSound : Windows → Type 0
AllSound ws = All (λ (e : Option ℕ × ReplayWindow). IsSound e.1) ws

-- How `remove_entry` finds the first entry of an epoch.
pub data Removed (epoch : Option ℕ) : Windows → ReplayWindow → Windows → Type 0 where
  here :
      {k : Option ℕ} {w : ReplayWindow} {ws : Windows}
      → k ≡ epoch
      → Removed epoch ((k, w) ∷ ws) w ws
  there :
      {k : Option ℕ} {v w : ReplayWindow} {ws others : Windows}
      → k ≢ epoch
      → Removed epoch ws w others
      → Removed epoch ((k, v) ∷ ws) w ((k, v) ∷ others)

abbrev pub IsUnknown : Option ℕ → Windows → Type 0
IsUnknown epoch ws = All (λ (e : Option ℕ × ReplayWindow). e.0 ≢ epoch) ws

abbrev pub Outcome : Option ℕ → Windows → Type 0
Outcome epoch ws =
    (remove_entry epoch ws ≡ none) × IsUnknown epoch ws
    ⊎ ((w : ReplayWindow) × (others : Windows) × (remove_entry epoch ws ≡ some (w, others))
        × Removed epoch ws w others)

pub ne_of_beq : (k epoch : Option ℕ) → (k == epoch) ≡ false → k ≢ epoch
ne_of_beq k epoch h e = ground (arith, ==_iff k epoch)

pub outcome : (epoch : Option ℕ) (ws : Windows) → Outcome epoch ws
unfolding remove_entry
outcome epoch [] = inl (refl, tt)
outcome epoch ((k, v) ∷ ws) = step (Bool-cases (k == epoch)) (outcome epoch ws)
  where
    step :
        ((k == epoch) ≡ true) ⊎ ((k == epoch) ≡ false)
        → Outcome epoch ws
        → Outcome epoch ((k, v) ∷ ws)
    step (inl e) o = inr (v, ws, rw e refl, here ((==_iff k epoch).0 e))
    step (inr e) (inl (none', u)) = inl (rw (e, none') refl, (ne_of_beq k epoch e, u))
    step (inr e) (inr (w, others, found, r)) =
        inr (w, (k, v) ∷ others, rw (e, found) refl, there (ne_of_beq k epoch e) r)

pub check_replay_known :
    (s : HandshakeNonceState) (epoch nonce : Option ℕ) {w : ReplayWindow} {others : Windows}
    → remove_entry epoch s.windows ≡ some (w, others)
    → check_replay s epoch nonce ≡ (
      record s { windows = (epoch, (check_and_record_optional w nonce).0) ∷ others },
      (check_and_record_optional w nonce).1,
    )
unfolding check_replay
check_replay_known s epoch m found = rw (found, check_replay) refl

pub check_replay_unknown :
    (s : HandshakeNonceState) (epoch nonce : Option ℕ)
    → remove_entry epoch s.windows ≡ none
    → check_replay s epoch nonce ≡ (
      record s { windows = take 8 ((epoch, (check_and_record_optional new nonce).0) ∷ s.windows) },
      (check_and_record_optional new nonce).1,
    )
unfolding check_replay
check_replay_unknown s epoch m absent = rw (absent, check_replay) refl

pub Removed-AllSound :
    {epoch : Option ℕ} {ws others : Windows} {w : ReplayWindow}
    → Removed epoch ws w others
    → AllSound ws
    → IsSound w × AllSound others × (length others + 1 ≡ length ws)
Removed-AllSound (here e) s = (s.0, s.1, omega arith)
Removed-AllSound (there ne r) s =
    let (a, b, c) = Removed-AllSound r s.1 in (a, (s.0, b), omega arith)

take-AllSound : (n : ℕ) (ws : Windows) → AllSound ws → AllSound (take n ws)
take-AllSound zero ws s = tt
take-AllSound (suc n) [] s = s
take-AllSound (suc n) (e ∷ ws) s = (s.0, take-AllSound n ws s.1)

-- What holds of the state between two messages.
pub record IsValid (s : HandshakeNonceState) : Type 0 where
  pub sound : AllSound s.windows
  pub bounded : length s.windows ≤ 8

pub new-IsSound : IsSound new
new-IsSound = ([], new-Refines)

pub check_replay-IsValid :
    (s : HandshakeNonceState) (epoch nonce : Option ℕ)
    → IsValid s
    → IsValid (check_replay s epoch nonce).0
check_replay-IsValid s epoch nonce v = step (outcome epoch s.windows)
  where
    step : Outcome epoch s.windows → IsValid (check_replay s epoch nonce).0
    step (inl (absent, _)) = rw (check_replay_unknown s epoch nonce absent) (record {
      sound =
          take-AllSound 8 ((epoch, (check_and_record_optional new nonce).0) ∷ s.windows)
            (check_optional-IsSound new nonce new-IsSound, v.sound);
      bounded = length-take-le 8 ((epoch, (check_and_record_optional new nonce).0) ∷ s.windows);
    })
    step (inr (w, others, found, r)) =
        let (a, b, c) = Removed-AllSound r v.sound in
        rw (check_replay_known s epoch nonce found) (record {
          sound = (check_optional-IsSound w nonce a, b);
          bounded = omega (arith, v.bounded);
        })

pub receive_all-IsValid :
    (s : HandshakeNonceState) (ms : List Message) → IsValid s → IsValid (receive_all s ms)
unfolding receive_all
receive_all-IsValid s [] v = v
receive_all-IsValid s ((epoch, nonce) ∷ ms) v =
    receive_all-IsValid (check_replay s epoch nonce).0 ms (check_replay-IsValid s epoch nonce v)

initial-IsValid : IsValid initial
unfolding initial
initial-IsValid = record { sound = tt; bounded = omega arith }

-- After any messages at most eight windows are kept, and each of them stands for a history of
-- nonces.
pub initial-receive_all-IsValid : (ms : List Message) → IsValid (receive_all initial ms)
initial-receive_all-IsValid ms = receive_all-IsValid initial ms initial-IsValid
