-- ===== src/Replay/Eviction.antt =====
-- How long a peer remembers a nonce: seven messages push an epoch's window out at the earliest.
use openportal.Base.{
  ℕ, zero, suc, ◌+◌, ◌≤◌, ◌<◌, List, [], ◌∷◌, Bool, true, false, Option, none, some, ◌==◌, nat_eq,
  option_eq, ==_iff, length, take, All, Bool-cases, inl, inr, ◌⊎◌, ◌≢◌, ◌≡◌, refl, sym, ◌∙◌, ap,
  arith,
}
use openportal.Replay.{
  ReplayWindow, new, check_and_record, check_and_record_optional, HandshakeNonceState, initial,
  check_replay,
}
use openportal.Replay.Epochs.{
  Windows, Message, receive_all, HasSeen, Removed, here, there, IsUnknown, Outcome, outcome,
  check_replay_known, check_replay_unknown, new-IsSound, check_optional-HasSeen, accepted-HasSeen,
  HasSeen-refused, Removed-AllSound, IsValid, initial-receive_all-IsValid, ne_of_beq,
}

-- An entry of the epoch, whose window has seen the nonce, stands among the first `k` entries.
abbrev Tracked : Option ℕ → ℕ → ℕ → Windows → Type 0
Tracked epoch n zero ws = ⊥
Tracked epoch n (suc k) [] = ⊥
Tracked epoch n (suc k) ((e, w) ∷ ws) =
    (e ≡ epoch) × HasSeen n w ⊎ (e ≢ epoch) × Tracked epoch n k ws

Tracked-more :
    (epoch : Option ℕ) (n k : ℕ) (ws : Windows) → Tracked epoch n k ws → Tracked epoch n (suc k) ws
Tracked-more epoch n zero ws t = absurd t
Tracked-more epoch n (suc k) [] t = absurd t
Tracked-more epoch n (suc k) ((e, w) ∷ ws) (inl h) = inl h
Tracked-more epoch n (suc k) ((e, w) ∷ ws) (inr (ne, t)) = inr (ne, Tracked-more epoch n k ws t)

Tracked-take :
    (epoch : Option ℕ) (n k m : ℕ) (ws : Windows)
    → k ≤ m
    → Tracked epoch n k ws
    → Tracked epoch n k (take m ws)
Tracked-take epoch n zero m ws p t = absurd t
Tracked-take epoch n (suc k) m [] p t = absurd t
Tracked-take epoch n (suc k) zero (e ∷ ws) p t = absurd (omega arith)
Tracked-take epoch n (suc k) (suc m) ((e, w) ∷ ws) p (inl h) = inl h
Tracked-take epoch n (suc k) (suc m) ((e, w) ∷ ws) p (inr (ne, t)) =
    inr (ne, Tracked-take epoch n k m ws (omega arith) t)

-- Another epoch's entry is taken out: the entry moves no further back.
Tracked-others :
    (epoch : Option ℕ) (n k : ℕ) {other : Option ℕ} {ws others : Windows} {w : ReplayWindow}
    → other ≢ epoch
    → Removed other ws w others
    → Tracked epoch n k ws
    → Tracked epoch n k others
Tracked-others epoch n zero ne r t = absurd t
Tracked-others epoch n (suc k) ne (here e) (inl h) = absurd (ne (sym e ∙ h.0))
Tracked-others epoch n (suc k) {ws = (j, v) ∷ ws} ne (here e) (inr (_, t)) =
    Tracked-more epoch n k ws t
Tracked-others epoch n (suc k) ne (there e r) (inl h) = inl h
Tracked-others epoch n (suc k) ne (there e r) (inr (m, t)) =
    inr (m, Tracked-others epoch n k ne r t)

-- The entry that `remove_entry` finds for the epoch is the one that has seen the nonce.
Tracked-found :
    (epoch : Option ℕ) (n k : ℕ) {ws others : Windows} {w : ReplayWindow}
    → Removed epoch ws w others
    → Tracked epoch n k ws
    → HasSeen n w
Tracked-found epoch n zero r t = absurd t
Tracked-found epoch n (suc k) (here e) (inl h) = h.1
Tracked-found epoch n (suc k) (here e) (inr (ne, _)) = absurd (ne e)
Tracked-found epoch n (suc k) (there ne r) (inl h) = absurd (ne h.0)
Tracked-found epoch n (suc k) (there ne r) (inr (_, t)) = Tracked-found epoch n k r t

Tracked-known :
    (epoch : Option ℕ) (n k : ℕ) (ws : Windows) → IsUnknown epoch ws → ¬ Tracked epoch n k ws
Tracked-known epoch n zero ws u t = t
Tracked-known epoch n (suc k) [] u t = t
Tracked-known epoch n (suc k) ((e, w) ∷ ws) u (inl h) = u.0 h.0
Tracked-known epoch n (suc k) ((e, w) ∷ ws) u (inr (_, t)) = Tracked-known epoch n k ws u.1 t

-- One message more puts the entry at most one place further back.
check_replay-Tracked :
    (s : HandshakeNonceState) (epoch other nonce : Option ℕ) (n k : ℕ)
    → k < 8
    → Tracked epoch n k s.windows
    → Tracked epoch n (suc k) (check_replay s other nonce).0.windows
check_replay-Tracked s epoch other nonce n k p t =
    step (Bool-cases (other == epoch)) (outcome other s.windows)
  where
    step :
        ((other == epoch) ≡ true) ⊎ ((other == epoch) ≡ false)
        → Outcome other s.windows
        → Tracked epoch n (suc k) (check_replay s other nonce).0.windows
    step (inl e) (inl (absent, u)) =
        let same = (==_iff other epoch).0 e in
        absurd (Tracked-known epoch n k s.windows (rw same at u) t)
    step (inl e) (inr (w, others, found, r)) =
        let same = (==_iff other epoch).0 e in
        let seen = Tracked-found epoch n k (rw same at r) t in
        rw (check_replay_known s other nonce found)
          (inl (same, check_optional-HasSeen n w nonce seen))
    step (inr e) (inl (absent, u)) = rw (check_replay_unknown s other nonce absent) (
        Tracked-take epoch n (suc k) 8
          ((other, (check_and_record_optional new nonce).0) ∷ s.windows) p
          (inr (ne_of_beq other epoch e, t)))
    step (inr e) (inr (w, others, found, r)) =
        let ne = ne_of_beq other epoch e in
        rw (check_replay_known s other nonce found) (inr (ne, Tracked-others epoch n k ne r t))

receive_all-Tracked :
    (ms : List Message) (s : HandshakeNonceState) (epoch : Option ℕ) (n k : ℕ)
    → k + length ms ≤ 8
    → Tracked epoch n k s.windows
    → Tracked epoch n (k + length ms) (receive_all s ms).windows
unfolding receive_all
receive_all-Tracked [] s epoch n k p t = let e : k + 0 ≡ k = omega arith in rw e t
receive_all-Tracked ((other, nonce) ∷ ms) s epoch n k p t =
    let e : k + suc (length ms) ≡ suc k + length ms = omega arith in
    rw e (
      receive_all-Tracked ms (check_replay s other nonce).0 epoch n (suc k) (omega arith)
        (check_replay-Tracked s epoch other nonce n k (omega arith) t))

Tracked-refused :
    (s : HandshakeNonceState) (epoch : Option ℕ) (n k : ℕ)
    → Tracked epoch n k s.windows
    → (check_replay s epoch (some n)).1 ≡ false
Tracked-refused s epoch n k t = step (outcome epoch s.windows)
  where
    step : Outcome epoch s.windows → (check_replay s epoch (some n)).1 ≡ false
    step (inl (absent, u)) = absurd (Tracked-known epoch n k s.windows u t)
    step (inr (w, others, found, r)) =
        rw (check_replay_known s epoch (some n) found)
          (HasSeen-refused w n (Tracked-found epoch n k r t))

accepted-Tracked :
    (s : HandshakeNonceState) (epoch : Option ℕ) (n : ℕ)
    → IsValid s
    → (check_replay s epoch (some n)).1 ≡ true
    → Tracked epoch n 1 (check_replay s epoch (some n)).0.windows
accepted-Tracked s epoch n v ok = step (outcome epoch s.windows)
  where
    step : Outcome epoch s.windows → Tracked epoch n 1 (check_replay s epoch (some n)).0.windows
    step (inl (absent, u)) = rw (check_replay_unknown s epoch (some n) absent) (
        inl (
          refl,
          accepted-HasSeen new n new-IsSound (
              ap (λ (t : HandshakeNonceState × Bool). t.1)
                (sym (check_replay_unknown s epoch (some n) absent))
              ∙ ok),
        ))
    step (inr (w, others, found, r)) = rw (check_replay_known s epoch (some n) found) (
        inl (
          refl,
          accepted-HasSeen w n (Removed-AllSound r v.sound).0 (
              ap (λ (t : HandshakeNonceState × Bool). t.1)
                (sym (check_replay_known s epoch (some n) found))
              ∙ ok),
        ))

-- A message that was accepted from an incarnation is refused when it comes again, if at most seven
-- other messages, of any incarnations, came in between.
pub check_replay_refused :
    (before between : List Message) (epoch : Option ℕ) (n : ℕ)
    → length between ≤ 7
    → (check_replay (receive_all initial before) epoch (some n)).1 ≡ true
    → (check_replay
        (receive_all (check_replay (receive_all initial before) epoch (some n)).0 between)
        epoch
        (some n)).1
      ≡ false
check_replay_refused before between epoch n few ok =
    let s = receive_all initial before in
    let s' = (check_replay s epoch (some n)).0 in
    Tracked-refused (receive_all s' between) epoch n (1 + length between) (
      receive_all-Tracked between s' epoch n 1 (omega arith)
        (accepted-Tracked s epoch n (initial-receive_all-IsValid before) ok))

Removed-IsUnknown :
    {other : Option ℕ} {ws others : Windows} {w : ReplayWindow} (epoch : Option ℕ)
    → Removed other ws w others
    → IsUnknown epoch ws
    → IsUnknown epoch others
Removed-IsUnknown epoch (here e) u = u.1
Removed-IsUnknown epoch (there ne r) u = (u.0, Removed-IsUnknown epoch r u.1)

take-IsUnknown :
    (epoch : Option ℕ) (n : ℕ) (ws : Windows) → IsUnknown epoch ws → IsUnknown epoch (take n ws)
take-IsUnknown epoch zero ws u = tt
take-IsUnknown epoch (suc n) [] u = u
take-IsUnknown epoch (suc n) (e ∷ ws) u = (u.0, take-IsUnknown epoch n ws u.1)

check_replay-IsUnknown :
    (s : HandshakeNonceState) (epoch other nonce : Option ℕ)
    → other ≢ epoch
    → IsUnknown epoch s.windows
    → IsUnknown epoch (check_replay s other nonce).0.windows
check_replay-IsUnknown s epoch other nonce ne u = step (outcome other s.windows)
  where
    step : Outcome other s.windows → IsUnknown epoch (check_replay s other nonce).0.windows
    step (inl (absent, _)) = rw (check_replay_unknown s other nonce absent) (
        take-IsUnknown epoch 8 ((other, (check_and_record_optional new nonce).0) ∷ s.windows)
          (ne, u))
    step (inr (w, others, found, r)) =
        rw (check_replay_known s other nonce found) (ne, Removed-IsUnknown epoch r u)

receive_all-IsUnknown :
    (ms : List Message) (s : HandshakeNonceState) (epoch : Option ℕ)
    → All (λ (m : Message). m.0 ≢ epoch) ms
    → IsUnknown epoch s.windows
    → IsUnknown epoch (receive_all s ms).windows
unfolding receive_all
receive_all-IsUnknown [] s epoch others u = u
receive_all-IsUnknown ((other, nonce) ∷ ms) s epoch others u =
    receive_all-IsUnknown ms (check_replay s other nonce).0 epoch others.1
      (check_replay-IsUnknown s epoch other nonce others.0 u)

fresh-accepted : (nonce : Option ℕ) → (check_and_record_optional new nonce).1 ≡ true
unfolding check_and_record_optional check_and_record new
fresh-accepted none = refl
fresh-accepted (some n) = refl

-- The first message of an incarnation that was not heard of before is accepted, whatever its nonce:
-- a restarted sender is not locked out by the window of its predecessor.
pub restart_accepted :
    (before : List Message) (epoch nonce : Option ℕ)
    → All (λ (m : Message). m.0 ≢ epoch) before
    → (check_replay (receive_all initial before) epoch nonce).1 ≡ true
restart_accepted before epoch nonce unheard =
    let s = receive_all initial before in
    let unknown : IsUnknown epoch s.windows =
      receive_all-IsUnknown before initial epoch unheard (unfold initial in tt) in
    step unknown (outcome epoch s.windows)
  where
    absurd_removed :
        {ws others : Windows} {w : ReplayWindow} → Removed epoch ws w others → ¬ IsUnknown epoch ws
    absurd_removed (here e) u = u.0 e
    absurd_removed (there ne r) u = absurd_removed r u.1

    step :
        IsUnknown epoch (receive_all initial before).windows
        → Outcome epoch (receive_all initial before).windows
        → (check_replay (receive_all initial before) epoch nonce).1 ≡ true
    step u (inl (absent, _)) =
        rw (check_replay_unknown (receive_all initial before) epoch nonce absent)
          (fresh-accepted nonce)
    step u (inr (w, others, found, r)) = absurd (absurd_removed r u)
