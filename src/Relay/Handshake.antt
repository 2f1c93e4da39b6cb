-- ===== src/Relay/Handshake.antt =====
-- paddington/src/relay.rs: a handshake between two agents, from the start message of one to the session
-- of both.
use openportal.Base.{
  ℕ, List, [], ◌∷◌, Bool, true, false, some, nat_eq, list_eq, pair_eq, ==_refl, if◌then◌else◌, leb,
  length, ◌≡◌, refl, sym, ◌∙◌, ap,
}
use openportal.Base.Assoc.{lookup, insert, lookup-insert}
use openportal.Base.Text.{Text}
use mathlib.Core.Path.{subst}
use mathlib.Core.Option.{some_inj}
use openportal.Replay
use openportal.Relay
use openportal.Relay.Errors.{Error, Result, pass, fail, ◌>>=◌, pass_inj, fail_is_not_pass}
use openportal.Relay.{
  RelayEnvelope, StartRelayedConnection, RelayedConnectionAccepted, BootstrapMessage, start,
  accepted, RelayedRole, RelayedPeer, RelayedSession, RelayState, Environment, Action, send,
  my_name, get_peer, install, is_null, permanent_keys, take_bootstrap_nonce, check_bootstrap_replay,
}
use openportal.Relay.Bootstrap.{
  Fresh, Network, Started, answered, client_relay, write_bootstrap, start_message, register,
  begin_with, begin_bootstrap, accepted_message, finish_answered, finish_bootstrap, accept_start,
  answer_start, handle_fresh_start, handle_start,
}

-- The same keys, no nonce used in either direction, and both sides use nonces.
abbrev pub Matches : RelayedSession → RelayedSession → Type 0
Matches a b =
    (a.keys ≡ b.keys)
    × (a.next_nonce ≡ 0)
    × (b.next_nonce ≡ 0)
    × (a.replay_window ≡ Replay.new)
    × (b.replay_window ≡ Replay.new)
    × (a.peer_supports_nonce ≡ true)
    × (b.peer_supports_nonce ≡ true)

-- The sessions of two names.
abbrev pub Paired : Text → RelayState → Text → RelayState → Type 0
Paired name s me t =
    (a : RelayedSession) × (b : RelayedSession) × (lookup name s.sessions ≡ some a)
    × (lookup me t.sessions ≡ some b)
    × Matches a b

-- What the code relies on of encryption and serde for the messages of a handshake.
pub record CarriesBootstrap (sender receiver : Environment) : Type 0 where
  pub opens :
      (keys : Relay.Keys) (seed : List ℕ) (m : BootstrapMessage) (c : Text)
      → sender.seal_bootstrap keys seed m ≡ pass c
      → receiver.open_bootstrap keys c ≡ pass m
  pub reads :
      (v : RelayEnvelope) (text : Text)
      → sender.write_envelope v ≡ pass text
      → receiver.read_envelope text ≡ some v

-- What is read from a bootstrap message is what was written.
write_bootstrap-read :
    (a b : Environment) (from to zone text : Text) (peer : RelayedPeer) (seed : List ℕ)
    (m m' : BootstrapMessage) (v : RelayEnvelope)
    → CarriesBootstrap a b
    → write_bootstrap a from to zone peer seed m ≡ pass text
    → b.read_envelope text ≡ some v
    → b.open_bootstrap (permanent_keys peer) v.ciphertext ≡ pass m'
    → (v.from ≡ from) × (m ≡ m')
unfolding write_bootstrap
write_bootstrap-read a b from to zone text peer seed m m' v law w r o =
    step (a.seal_bootstrap (permanent_keys peer) seed m) refl w
  where
    step :
        (x : Result Text)
        → a.seal_bootstrap (permanent_keys peer) seed m ≡ x
        → (x >>= λ ciphertext.
            a.write_envelope
              (record { from = from; to = to; zone = zone; ciphertext = ciphertext }))
          ≡ pass text
        → (v.from ≡ from) × (m ≡ m')
    step (fail e) sealed h = cc
    step (pass c) sealed h =
        let u : RelayEnvelope = record { from = from; to = to; zone = zone; ciphertext = c } in
        let same : u ≡ v = some_inj.0 (sym (law.reads u text h) ∙ r) in
        let opened : b.open_bootstrap (permanent_keys peer) v.ciphertext ≡ pass m =
          subst
            (λ (u : RelayEnvelope). b.open_bootstrap (permanent_keys peer) u.ciphertext ≡ pass m)
            same (law.opens (permanent_keys peer) seed m c sealed) in
        (sym (ap (λ (u : RelayEnvelope). u.from) same), pass_inj (sym opened ∙ o))

-- The first message that was made, and the values that the handshake keeps.
abbrev Begun : Environment → Text → Fresh → RelayedPeer → Started → Type 0
Begun a name f p st =
    (me : Text) × (nonce : ℕ) × (write_bootstrap a me name p.zone p f.seed
        (start (start_message a f nonce))
      ≡ pass st.payload)
    × (st.fresh ≡ f)

register-Begun :
    (a : Environment) (name me : Text) (nonce : ℕ) (f : Fresh) (p : RelayedPeer) (relay : Text)
    (r : Result Text) (s : RelayState) (st : Started)
    → write_bootstrap a me name p.zone p f.seed (start (start_message a f nonce)) ≡ r
    → (register a name f p relay r s).1 ≡ pass st
    → Begun a name f p st
unfolding register
register-Begun a name me nonce f p relay (fail e) s st w h = cc
register-Begun a name me nonce f p relay (pass payload) s st w h =
    step (leb 256 (length s.pending)) h
  where
    made : Started
    made = record { fresh = f; peer = p; relay = relay; payload = payload }

    outcome : Bool → RelayState × Result Started
    outcome b =
        if b
        then (s, fail Error.invalid_peer)
        else (record s { pending = insert (name, f.magic) f.channel s.pending }, pass made)

    step : (b : Bool) → (outcome b).1 ≡ pass st → Begun a name f p st
    step true h = cc
    step false h =
        let same : made ≡ st = pass_inj h in
        (
          me,
          nonce,
          w ∙ ap (λ (st : Started). pass st.payload) same,
          sym (ap (λ (st : Started). st.fresh) same),
        )

begin_bootstrap-Begun :
    (a : Environment) (name : Text) (f : Fresh) (p : RelayedPeer) (s : RelayState) (st : Started)
    → get_peer name s ≡ pass p
    → (begin_bootstrap a name (pass f) s).1 ≡ pass st
    → Begun a name f p st
unfolding begin_bootstrap
begin_bootstrap-Begun a name f p s st known h =
    by_role (client_relay p.role) (my_name s) (rw known at h)
  where
    by_role :
        (role : Result Text) (mine : Result Text)
        → (begin_with a
            (role >>= λ relay. mine >>= λ me. pass f >>= λ f. pass (p, relay, me, f))
            name
            s).1
          ≡ pass st
        → Begun a name f p st
    by_role (fail e) mine h =
        let refused : fail e ≡ pass st = unfold begin_with in h in absurd (fail_is_not_pass refused)
    by_role (pass relay) (fail e) h =
        let refused : fail e ≡ pass st = unfold begin_with in h in absurd (fail_is_not_pass refused)
    by_role (pass relay) (pass me) h =
        let taken = take_bootstrap_nonce name s in
        register-Begun a name me taken.1 f p relay
          (write_bootstrap a me name p.zone p f.seed (start (start_message a f taken.1))) taken.0 st
          refl (unfold begin_with in h)

-- The answer that was sent, and the session that was made for it.
abbrev Accepted :
    Environment → Text → RelayedPeer → StartRelayedConnection → Fresh → Text → RelayState → Type 0
Accepted b from q m f reply t =
    (me : Text) × (nonce : ℕ) × (g : ℕ) × (write_bootstrap b me from q.zone q f.seed
        (accepted (accepted_message b m f.key nonce))
      ≡ pass reply)
    × (lookup from t.sessions
        ≡ some (record {
          generation = g;
          keys = record {
            inner_key = f.key;
            outer_key = m.session_outer_key;
            inner_key_salt = m.inner_key_salt;
            outer_key_salt = m.outer_key_salt;
          };
          next_nonce = 0;
          replay_window = Replay.new;
          peer_supports_nonce = m.supports_nonce;
        }))

abbrev first_sent : List Action → Text
first_sent (send to zone payload ∷ rest) = payload
first_sent _ = []

answer_start-Accepted :
    (b : Environment) (from me : Text) (nonce : ℕ) (q : RelayedPeer) (relay : Text)
    (m : StartRelayedConnection) (f : Fresh) (net : Network) (t : RelayState) (r : Result Text)
    (hub hub_zone reply : Text) (rest : List Action)
    → write_bootstrap b me from q.zone q f.seed (accepted (accepted_message b m f.key nonce)) ≡ r
    → (answer_start b r from q relay m f.key net t).1 ≡ send hub hub_zone reply ∷ rest
    → (answer_start b r from q relay m f.key net t).2 ≡ pass tt
    → Accepted b from q m f reply (answer_start b r from q relay m f.key net t).0
unfolding answer_start
answer_start-Accepted b from me nonce q relay m f net t (fail e) hub hub_zone reply rest w sent
      done =
    cc
answer_start-Accepted b from me nonce q relay m f net t (pass payload) hub hub_zone reply rest w
      sent done =
    step (is_null m.session_outer_key) net.sent done
  where
    same : payload ≡ reply
    same = ap first_sent sent

    step :
        (null : Bool) (x : Result (Unit {0}))
        → (accept_start b null x from q.zone m f.key net t).2 ≡ pass tt
        → Accepted b from q m f reply (accept_start b null x from q.zone m f.key net t).0
    step null (fail e) d =
        let refused : fail e ≡ pass tt = unfold accept_start in d in
        absurd (fail_is_not_pass refused)
    step true (pass u) d =
        let refused : fail Error.invalid_peer ≡ pass tt = unfold accept_start in d in
        absurd (fail_is_not_pass refused)
    step false (pass u) d =
        unfold accept_start install in
        (
          me,
          nonce,
          t.session_generation,
          w ∙ ap pass same,
          lookup-insert from from _ t.sessions ∙ rw (==_refl from) refl,
        )

handle_start-Accepted :
    (b : Environment) (from : Text) (q : RelayedPeer) (relay : Text) (m : StartRelayedConnection)
    (f : Fresh) (net : Network) (t : RelayState) (hub hub_zone reply : Text) (rest : List Action)
    → (handle_start b from q relay m f net t).1 ≡ send hub hub_zone reply ∷ rest
    → (handle_start b from q relay m f net t).2 ≡ pass tt
    → Accepted b from q m f reply (handle_start b from q relay m f net t).0
unfolding handle_start
handle_start-Accepted b from q relay m f net t hub hub_zone reply rest sent done =
    step (check_bootstrap_replay from m.epoch m.nonce t).1 _ sent done
  where
    answer :
        (x : Result Text) (nonce : ℕ) (s : RelayState)
        → (answer_start b
            (x >>= λ me.
              write_bootstrap b me from q.zone q f.seed
                (accepted (accepted_message b m f.key nonce)))
            from
            q
            relay
            m
            f.key
            net
            s).1
          ≡ send hub hub_zone reply ∷ rest
        → (answer_start b
            (x >>= λ me.
              write_bootstrap b me from q.zone q f.seed
                (accepted (accepted_message b m f.key nonce)))
            from
            q
            relay
            m
            f.key
            net
            s).2
          ≡ pass tt
        → Accepted b from q m f reply
            (answer_start b
              (x >>= λ me.
                write_bootstrap b me from q.zone q f.seed
                  (accepted (accepted_message b m f.key nonce)))
              from
              q
              relay
              m
              f.key
              net
              s).0
    answer (fail e) nonce s sent done =
        let refused : fail e ≡ pass tt = unfold answer_start in done in
        absurd (fail_is_not_pass refused)
    answer (pass me) nonce s sent done =
        answer_start-Accepted b from me nonce q relay m f net s _ hub hub_zone reply rest refl sent
          done

    step :
        (fresh : Bool) (s : RelayState)
        → (handle_fresh_start b fresh from q relay m f net s).1 ≡ send hub hub_zone reply ∷ rest
        → (handle_fresh_start b fresh from q relay m f net s).2 ≡ pass tt
        → Accepted b from q m f reply (handle_fresh_start b fresh from q relay m f net s).0
    step false s sent done =
        let refused : fail Error.invalid_peer ≡ pass tt = unfold handle_fresh_start in done in
        absurd (fail_is_not_pass refused)
    step true s sent done = unfold handle_fresh_start in answer (my_name _) _ _ sent done

-- The session that the other side's answer makes.
abbrev answered_keys : Fresh → RelayedConnectionAccepted → Relay.Keys
answered_keys f acc = record {
  inner_key = acc.session_inner_key;
  outer_key = f.key;
  inner_key_salt = f.inner_key_salt;
  outer_key_salt = f.outer_key_salt;
}

abbrev HasSession : Text → RelayState → Relay.Keys → Bool → Type 0
HasSession name s keys supports =
    (g : ℕ) × (lookup name s.sessions
      ≡ some (record {
        generation = g;
        keys = keys;
        next_nonce = 0;
        replay_window = Replay.new;
        peer_supports_nonce = supports;
      }))

finish_bootstrap-HasSession :
    (a : Environment) (name : Text) (st : Started) (acc : RelayedConnectionAccepted) (net : Network)
    (s : RelayState)
    → (finish_bootstrap a name st (answered acc) net s).2 ≡ pass tt
    → HasSession name
        (finish_bootstrap a name st (answered acc) net s).0
        (answered_keys st.fresh acc)
        acc.supports_nonce
unfolding finish_bootstrap
finish_bootstrap-HasSession a name st acc net s done = step (is_null acc.session_inner_key) done
  where
    step :
        (null : Bool)
        → (finish_answered a null name st acc net s).2 ≡ pass tt
        → HasSession name
            (finish_answered a null name st acc net s).0
            (answered_keys st.fresh acc)
            acc.supports_nonce
    step true d =
        let refused : fail Error.invalid_peer ≡ pass tt = unfold finish_answered in d in
        absurd (fail_is_not_pass refused)
    step false d =
        unfold finish_answered install in
        (s.session_generation, lookup-insert name name _ s.sessions ∙ rw (==_refl name) refl)

abbrev started_by : BootstrapMessage → StartRelayedConnection → StartRelayedConnection
started_by (start m) other = m
started_by _ other = other

abbrev accepted_by : BootstrapMessage → RelayedConnectionAccepted → RelayedConnectionAccepted
accepted_by (accepted acc) other = acc
accepted_by _ other = other

start_inj : (m n : StartRelayedConnection) → start m ≡ start n → m ≡ n
start_inj m n h = ap (λ x. started_by x m) h

accepted_inj : (m n : RelayedConnectionAccepted) → accepted m ≡ accepted n → m ≡ n
accepted_inj m n h = ap (λ x. accepted_by x m) h

same_keys :
    (a b : Environment) (f : Fresh) (m : StartRelayedConnection) (acc : RelayedConnectionAccepted)
    (key : List ℕ) (nonce nonce' : ℕ)
    → start_message a f nonce ≡ m
    → accepted_message b m key nonce' ≡ acc
    → (answered_keys f acc ≡ record {
      inner_key = key;
      outer_key = m.session_outer_key;
      inner_key_salt = m.inner_key_salt;
      outer_key_salt = m.outer_key_salt;
    })
      × (acc.supports_nonce ≡ true)
      × (m.supports_nonce ≡ true)
unfolding start_message accepted_message
same_keys a b f m acc key nonce nonce' e e' = rw (← e', ← e) (refl, refl, refl)

-- A handshake from end to end. One agent begins it; the other reads the start message that was made,
-- handles it without an error and sends an answer; the first reads that answer and ends the handshake
-- without an error, whatever has come in between. Then the two hold sessions with the same keys, no nonce
-- is used in either direction, and each knows that the other uses nonces. The conditions are that the two
-- are configured with the same permanent keys, and that encryption and serde give back what was put in.
pub handshake_pairs :
    (a b : Environment) (name relay hub hub_zone reply : Text) (f f' : Fresh) (p q : RelayedPeer)
    (s u t : RelayState) (st : Started) (v v' : RelayEnvelope) (m : StartRelayedConnection)
    (acc : RelayedConnectionAccepted) (net net' : Network) (rest : List Action)
    → CarriesBootstrap a b
    → CarriesBootstrap b a
    → get_peer name s ≡ pass p
    → permanent_keys p ≡ permanent_keys q
    → (begin_bootstrap a name (pass f) s).1 ≡ pass st
    → b.read_envelope st.payload ≡ some v
    → b.open_bootstrap (permanent_keys q) v.ciphertext ≡ pass (start m)
    → (handle_start b v.from q relay m f' net t).1 ≡ send hub hub_zone reply ∷ rest
    → (handle_start b v.from q relay m f' net t).2 ≡ pass tt
    → a.read_envelope reply ≡ some v'
    → a.open_bootstrap (permanent_keys p) v'.ciphertext ≡ pass (accepted acc)
    → (finish_bootstrap a name st (answered acc) net' u).2 ≡ pass tt
    → Paired name
        (finish_bootstrap a name st (answered acc) net' u).0
        v.from
        (handle_start b v.from q relay m f' net t).0
handshake_pairs a b name relay hub hub_zone reply f f' p q s u t st v v' m acc net net' rest ab ba
      known shared begun read opened sent done read' opened' ended =
    let (me, nonce, w, kept) = begin_bootstrap-Begun a name f p s st known begun in
    let (_, e) =
      write_bootstrap-read a b me name p.zone st.payload p f.seed (start (start_message a f nonce))
        (start m) v ab w read (ap (λ k. b.open_bootstrap k v.ciphertext) shared ∙ opened) in
    let (me', nonce', g', w', there) =
      handle_start-Accepted b v.from q relay m f' net t hub hub_zone reply rest sent done in
    let (_, e') =
      write_bootstrap-read b a me' v.from q.zone reply q f'.seed
        (accepted (accepted_message b m f'.key nonce')) (accepted acc) v' ba w' read'
        (ap (λ k. a.open_bootstrap k v'.ciphertext) (sym shared) ∙ opened') in
    let (g, here) = finish_bootstrap-HasSession a name st acc net' u ended in
    let (same, knows, known') =
      same_keys a b f m acc f'.key nonce nonce' (start_inj _ m e) (accepted_inj _ acc e') in
    (
      _,
      _,
      here,
      there,
      (ap (λ f. answered_keys f acc) kept ∙ same, refl, refl, refl, refl, knows, known'),
    )
