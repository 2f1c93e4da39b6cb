-- ===== src/Relay/Once.antt =====
-- paddington/src/relay.rs: the sessions in the course of a process's life. Any steps of any messages
-- may come between opening a payload and recording its nonce, and between two payloads.
use openportal.Base.{
  OnSome, OnSome-found, ℕ, suc, ◌+◌, ◌%◌, ◌≤◌, ◌<◌, List, [], ◌∷◌, Bool, true, false, Option, none,
  some, ◌==◌, nat_eq, list_eq, ==_iff, All, ◌≡◌, refl, sym, ◌∙◌, arith, if◌then◌else◌, ==_refl,
}
use openportal.Base.Assoc.{
  lookup, insert, lookup-insert, insert-All, remove-All, lookup-All, OnSome-insert, OnSome-remove,
}
use openportal.Base.Text.{Text}
use openportal.Relay.Errors.{Error, Result, pass, fail, is_pass}
use openportal.Relay.{RelayEnvelope, RelayedPeer, RelayedSession, RelayState, Environment}
use openportal.Relay.Bootstrap.{Fresh, Network, Started, Outcome, begin_bootstrap, finish_bootstrap}
use openportal.Relay.Receive.{
  Decrypted, begin_receive, record_if, record_nonce, message_of, finish_receive, send_connected,
  drop_session, bootstrap_ended,
}
use openportal.Relay.Proxy.{ServiceConfig, configure}
use openportal.Relay.Sessions.{
  Tables, tables, Change, same, dropped, installed, kept, checked, Changes, begin_bootstrap-Changes,
  finish_bootstrap-Changes, begin_receive-Changes, finish_receive-Changes, send_connected-Changes,
  drop_session-Changes, bootstrap_ended-Changes, configure-Changes,
}
use openportal.Replay.{ReplayWindow, check_and_record_negotiated, u64_mod}
use openportal.Replay.Epochs.{
  IsSound, HasSeen, new-IsSound, check_optional-IsSound, check_optional-HasSeen, accepted-HasSeen,
  HasSeen-refused,
}
use mathlib.Core.Path.{subst}
use mathlib.Core.Option.{some_inj}

negotiated-IsSound :
    (w : ReplayWindow) (nonce : Option ℕ) (supports : Bool)
    → IsSound w
    → IsSound (check_and_record_negotiated w nonce supports).0
unfolding check_and_record_negotiated
negotiated-IsSound w none true h = h
negotiated-IsSound w none false h = check_optional-IsSound w none h
negotiated-IsSound w (some n) supports h = check_optional-IsSound w (some n) h

negotiated-HasSeen :
    (n : ℕ) (w : ReplayWindow) (nonce : Option ℕ) (supports : Bool)
    → HasSeen n w
    → HasSeen n (check_and_record_negotiated w nonce supports).0
unfolding check_and_record_negotiated
negotiated-HasSeen n w none true h = h
negotiated-HasSeen n w none false h = check_optional-HasSeen n w none h
negotiated-HasSeen n w (some m) supports h = check_optional-HasSeen n w (some m) h

-- What holds before any session is made, and is kept: the sessions are of earlier generations.
abbrev pub IsOld : ℕ → Text × RelayedSession → Type 0
IsOld g e = (e.1.generation < g) × IsSound e.1.replay_window

abbrev pub IsValid : Tables → Type 0
IsValid t = All (IsOld t.1) t.0

IsOld-suc :
    (g : ℕ) (entries : List (Text × RelayedSession))
    → All (IsOld g) entries
    → All (IsOld (g + 1)) entries
IsOld-suc g [] h = tt
IsOld-suc g (e ∷ entries) h = ((omega (arith, h.0.0), h.0.1), IsOld-suc g entries h.1)

no_wrap : (g : ℕ) → g + 1 < u64_mod → (g + 1) % u64_mod ≡ g + 1
no_wrap g h = omega arith

Change-IsValid : {s t : Tables} → Change s t → s.1 + 1 < u64_mod → IsValid s → IsValid t
Change-IsValid same small v = v
Change-IsValid {s = s} (dropped name) small v = remove-All (IsOld s.1) name s.0 v
Change-IsValid {s = s} (installed name session g w) small v = rw (no_wrap s.1 small) (
    insert-All (IsOld (s.1 + 1)) name session s.0 (omega (arith, g), rw w new-IsSound)
      (IsOld-suc s.1 s.0 v))
Change-IsValid {s = s} (kept name old new found g w) small v =
    let h = lookup-All (IsOld s.1) name s.0 v found in
    insert-All (IsOld s.1) name new s.0 (omega (arith, g, h.0), rw w h.1) v
Change-IsValid {s = s} (checked name old new heard found g w) small v =
    let h = lookup-All (IsOld s.1) name s.0 v found in
    insert-All (IsOld s.1) name new s.0
      (
        omega (arith, g, h.0),
        rw w (negotiated-IsSound old.replay_window heard old.peer_supports_nonce h.1),
      )
      v

-- The nonce was accepted in the session of that generation, which is the peer's, or gone for good.
abbrev pub Tracked : ℕ → Text → ℕ → Tables → Type 0
Tracked n name g t =
    (g < t.1)
    × OnSome
        (λ (session : RelayedSession). session.generation ≡ g → HasSeen n session.replay_window)
        (lookup name t.0)

-- A session that is written in the place of one of the same generation.
Tracked-write :
    (n : ℕ) (name : Text) (g : ℕ) (t : Tables) (other : Text) (old new : RelayedSession)
    → Tracked n name g t
    → lookup other t.0 ≡ some old
    → new.generation ≡ old.generation
    → (HasSeen n old.replay_window → HasSeen n new.replay_window)
    → Tracked n name g (insert other new t.0, t.1)
Tracked-write n name g t other old new h found same_generation keeps = (
  h.0,
  OnSome-insert
      (λ (session : RelayedSession). session.generation ≡ g → HasSeen n session.replay_window) other
      name new t.0
      (λ e q. keeps (
        OnSome-found
          (λ (session : RelayedSession). session.generation ≡ g → HasSeen n session.replay_window)
          (lookup name t.0) h.1 (subst (λ k. lookup k t.0 ≡ some old) e found)
          (sym same_generation ∙ q)))
      h.1,
)

Change-Tracked :
    {s t : Tables} (n : ℕ) (name : Text) (g : ℕ)
    → Change s t
    → s.1 + 1 < u64_mod
    → Tracked n name g s
    → Tracked n name g t
Change-Tracked n name g same small h = h
Change-Tracked {s = s} n name g (dropped other) small h = (h.0, OnSome-remove _ other name s.0 h.1)
Change-Tracked {s = s} n name g (installed other session made w) small h = rw (no_wrap s.1 small) (
  omega (arith, h.0),
  OnSome-insert _ other name session s.0 (λ e q. absurd (omega (arith, h.0, q, made))) h.1,
)
Change-Tracked {s = s} n name g (kept other old new found made w) small h =
    Tracked-write n name g s other old new h found made (λ seen. rw w seen)
Change-Tracked {s = s} n name g (checked other old new nonce found made w) small h =
    Tracked-write n name g s other old new h found made
      (λ seen. rw w (negotiated-HasSeen n old.replay_window nonce old.peer_supports_nonce seen))

-- One step of a process: of a handshake, of a message that comes or goes, of a task that ends, or a
-- new configuration. The random values, the time and the answers of the network are any.
pub data Step (env : Environment) (s : RelayState) : RelayState → Type 0 where
  configures : (c : ServiceConfig) → Step env s (configure c s).0
  begins : (name : Text) (fresh : Result Fresh) → Step env s (begin_bootstrap env name fresh s).0
  ends :
      (name : Text) (st : Started) (o : Outcome) (net : Network)
      → Step env s (finish_bootstrap env name st o net s).0
  opens :
      (now : ℕ) (v : RelayEnvelope) (from zone : Text) (f : Fresh) (net : Network)
      → Step env s (begin_receive env now v from zone f net s).0
  records : (d : Decrypted) → Step env s (finish_receive d s).0
  sends :
      (to : Text) (peer : RelayedPeer) (payload : Text) (seed : List ℕ) (net : Network)
      → Step env s (send_connected env to peer payload seed net s).0
  loses : (name : Text) → Step env s (drop_session name s)
  rests : (name : Text) → Step env s (bootstrap_ended name s)

-- Any number of steps, which is counted.
pub data Run (env : Environment) : ℕ → RelayState → RelayState → Type 0 where
  stop : {s : RelayState} → Run env 0 s s
  after : {n : ℕ} {s t u : RelayState} → Step env s t → Run env n t u → Run env (suc n) s u

Step-Changes : {env : Environment} {s t : RelayState} → Step env s t → Changes s t
Step-Changes {s = s} (configures c) = configure-Changes c s
Step-Changes {env} {s} (begins name fresh) = begin_bootstrap-Changes env name fresh s
Step-Changes {env} {s} (ends name st o net) = finish_bootstrap-Changes env name st o net s
Step-Changes {env} {s} (opens now v from zone f net) =
    begin_receive-Changes env now v from zone f net s
Step-Changes {s = s} (records d) = finish_receive-Changes d s
Step-Changes {env} {s} (sends to peer payload seed net) =
    send_connected-Changes env to peer payload seed net s
Step-Changes {s = s} (loses name) = drop_session-Changes name s
Step-Changes {s = s} (rests name) = bootstrap_ended-Changes name s

-- A step moves the counter by one at most.
Change-counter : {s t : Tables} → Change s t → s.1 + 1 < u64_mod → t.1 ≤ s.1 + 1
Change-counter {s = s} same small = omega arith
Change-counter {s = s} (dropped name) small = omega arith
Change-counter {s = s} (installed name session g w) small = omega (arith, no_wrap s.1 small)
Change-counter {s = s} (kept name old new found g w) small = omega arith
Change-counter {s = s} (checked name old new checks found g w) small = omega arith

-- Whatever every change keeps, a run keeps, as long as the counter does not wrap.
Run-keeps :
    (P : Tables → Type 0)
    → ((a b : Tables) → Change a b → a.1 + 1 < u64_mod → P a → P b)
    → {env : Environment} {n : ℕ} {s t : RelayState} → Run env n s t
    → s.session_generation + n < u64_mod
    → P (tables s)
    → P (tables t)
Run-keeps P keeps stop small h = h
Run-keeps P keeps {s = s} (after {t = t} step run) small h =
    let c = Step-Changes step in
    Run-keeps P keeps run (omega (arith, Change-counter c (omega arith)))
      (keeps _ _ c (omega arith) h)

-- From tables that are as they should be, any steps of the relay lead to such tables again, as long
-- as the 64-bit counter has room for them: every session's generation is below the counter, and every
-- window stands for a history of nonces.
pub Run-IsValid :
    (env : Environment) {n : ℕ} {s t : RelayState}
    → Run env n s t
    → s.session_generation + n < u64_mod
    → IsValid (tables s)
    → IsValid (tables t)
Run-IsValid env run small v = Run-keeps IsValid (λ a b. Change-IsValid) run small v

negotiated_accepts :
    (n : ℕ) (w : ReplayWindow) (nonce : Option ℕ) (supports : Bool)
    → nonce ≡ some n
    → IsSound w
    → (check_and_record_negotiated w nonce supports).1 ≡ true
    → HasSeen n (check_and_record_negotiated w nonce supports).0
unfolding check_and_record_negotiated
negotiated_accepts n w none supports e h ok = cc
negotiated_accepts n w (some m) supports e h ok =
    subst (λ k. HasSeen k (check_and_record_negotiated w (some m) supports).0) (some_inj.0 e)
      (accepted-HasSeen w m h ok)

negotiated_refuses :
    (n : ℕ) (w : ReplayWindow) (nonce : Option ℕ) (supports : Bool)
    → nonce ≡ some n
    → HasSeen n w
    → (check_and_record_negotiated w nonce supports).1 ≡ false
unfolding check_and_record_negotiated
negotiated_refuses n w none supports e h = cc
negotiated_refuses n w (some m) supports e h =
    HasSeen-refused w m (subst (λ k. HasSeen k w) (sym (some_inj.0 e)) h)

record_if-Tracked :
    (b : Bool) (session : RelayedSession) (d : Decrypted) (n : ℕ) (s : RelayState)
    → (session.generation == d.generation) ≡ b
    → lookup d.from s.sessions ≡ some session
    → IsValid (tables s)
    → d.nonce ≡ some n
    → (record_if b session d s).1 ≡ true
    → Tracked n d.from d.generation (tables (record_if b session d s).0)
unfolding record_if
record_if-Tracked false session d n s q found v e ok = cc
record_if-Tracked true session d n s q found v e ok =
    let h = lookup-All (IsOld s.session_generation) d.from s.sessions v found in
    let seen =
      negotiated_accepts n session.replay_window d.nonce session.peer_supports_nonce e h.1 ok in
    (
      omega (arith, h.0, (==_iff session.generation d.generation).0 q),
      rw (lookup-insert d.from d.from _ s.sessions, ==_refl d.from) (λ g. seen),
    )

record_nonce-Tracked :
    (o : Option RelayedSession) (d : Decrypted) (n : ℕ) (s : RelayState)
    → lookup d.from s.sessions ≡ o
    → IsValid (tables s)
    → d.nonce ≡ some n
    → (record_nonce o d s).1 ≡ true
    → Tracked n d.from d.generation (tables (record_nonce o d s).0)
unfolding record_nonce
record_nonce-Tracked none d n s found v e ok = cc
record_nonce-Tracked (some session) d n s found v e ok =
    record_if-Tracked (session.generation == d.generation) session d n s refl found v e ok

record_if-refused :
    (b : Bool) (session : RelayedSession) (d : Decrypted) (n : ℕ) (s : RelayState)
    → (session.generation == d.generation) ≡ b
    → d.nonce ≡ some n
    → (session.generation ≡ d.generation → HasSeen n session.replay_window)
    → (record_if b session d s).1 ≡ false
unfolding record_if
record_if-refused false session d n s q e seen = refl
record_if-refused true session d n s q e seen =
    negotiated_refuses n session.replay_window d.nonce session.peer_supports_nonce e
      (seen ((==_iff session.generation d.generation).0 q))

record_nonce-refused :
    (o : Option RelayedSession) (d : Decrypted) (n : ℕ) (s : RelayState)
    → d.nonce ≡ some n
    → OnSome
        (λ (session : RelayedSession).
          session.generation ≡ d.generation → HasSeen n session.replay_window)
        o
    → (record_nonce o d s).1 ≡ false
unfolding record_nonce
record_nonce-refused none d n s e seen = refl
record_nonce-refused (some session) d n s e seen =
    record_if-refused (session.generation == d.generation) session d n s refl e seen

finish_receive-ok :
    (d : Decrypted) (s : RelayState)
    → is_pass (finish_receive d s).1 ≡ (record_nonce (lookup d.from s.sessions) d s).1
unfolding finish_receive
finish_receive-ok d s = step (record_nonce (lookup d.from s.sessions) d s).1
  where
    step : (b : Bool) → is_pass (if b then pass (message_of d) else fail Error.invalid_peer) ≡ b
    step true = refl
    step false = refl

finish_receive-Tracked :
    (d : Decrypted) (n : ℕ) (s : RelayState)
    → IsValid (tables s)
    → d.nonce ≡ some n
    → is_pass (finish_receive d s).1 ≡ true
    → Tracked n d.from d.generation (tables (finish_receive d s).0)
unfolding finish_receive
finish_receive-Tracked d n s v e ok =
    record_nonce-Tracked (lookup d.from s.sessions) d n s refl v e
      (sym (finish_receive-ok d s) ∙ ok)

-- Once a payload with a nonce is accepted over a session, then after any further steps of the relay,
-- handshakes that replace the session and drops of it included, no payload of the same sender that was
-- opened with that session and carries that nonce is accepted. The condition is that the sessions were
-- as they should be and the 64-bit counter has room for the steps.
pub finish_receive_once :
    (env : Environment) (d e : Decrypted) (nonce : ℕ) {n : ℕ} (s : RelayState) {t : RelayState}
    → IsValid (tables s)
    → d.nonce ≡ some nonce
    → is_pass (finish_receive d s).1 ≡ true
    → Run env n (finish_receive d s).0 t
    → s.session_generation + suc n < u64_mod
    → e.from ≡ d.from
    → e.generation ≡ d.generation
    → e.nonce ≡ some nonce
    → is_pass (finish_receive e t).1 ≡ false
finish_receive_once env d e nonce s {t = t} v has ok run small same_peer same_session same_nonce =
    let counter = Change-counter (finish_receive-Changes d s) (omega arith) in
    let tracked : Tracked nonce d.from d.generation (tables t) =
      Run-keeps (Tracked nonce d.from d.generation)
        (λ a b. Change-Tracked nonce d.from d.generation) run (omega (arith, counter))
        (finish_receive-Tracked d nonce s v has ok) in
    finish_receive-ok e t
    ∙ record_nonce-refused (lookup e.from t.sessions) e nonce t same_nonce
        (rw (same_peer, same_session) tracked.1)
