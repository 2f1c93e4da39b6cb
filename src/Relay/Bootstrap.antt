-- ===== src/Relay/Bootstrap.antt =====
-- paddington/src/relay.rs: the handshake between two relayed agents, `bootstrap`, `handle_start` and
-- `notify_session_unknown`. What `bootstrap` does before and after it waits for the other side are two
-- steps, so that other messages may come between them.
use openportal.Base.{
  ℕ, zero, suc, ◌-◌, List, [], ◌∷◌, Bool, true, false, Option, none, some, nat_eq, list_eq, pair_eq,
  if◌then◌else◌, leb, ltb, length,
}
use openportal.Base.Text.{Text}
use openportal.Base.Assoc.{lookup, insert, remove}
use openportal.Relay.Errors.{Error, Result, pass, fail, ◌>>=◌}
use openportal.Relay.{
  StartRelayedConnection, RelayedConnectionAccepted, BootstrapMessage, start, accepted,
  session_unknown, RelayedRole, client, server, RelayedPeer, relay_of, RelayState, Environment,
  Action, send, connected, permanent_keys, is_null, take_bootstrap_nonce, check_bootstrap_replay,
  my_name, get_peer, install, session_unknown_min_interval, max_pending_bootstraps,
}

-- The random values of a handshake: a session key, two salts, the magic, the channel of the reply
-- and the bytes that encryption mixes in.
pub record Fresh : Type 0 where
  pub key : List ℕ
  pub inner_key_salt : List ℕ
  pub outer_key_salt : List ℕ
  pub magic : Text
  pub channel : ℕ
  pub seed : List ℕ

-- The answers of the network to `exchange::send` and `exchange::received`.
pub record Network : Type 0 where
  pub sent : Result (Unit {0})
  pub received : Result (Unit {0})

-- A handshake that waits for its reply.
pub record Started : Type 0 where
  pub fresh : Fresh
  pub peer : RelayedPeer
  pub relay : Text
  pub payload : Text

-- How the wait ends.
pub data Outcome : Type 0 where
  send_failed : Error → Outcome
  cancelled timed_out : Outcome
  answered : RelayedConnectionAccepted → Outcome

-- Only the client of a relayed connection starts it.
unfoldable pub client_relay : RelayedRole → Result Text
client_relay (client relay) = pass relay
client_relay (server relay) = fail Error.invalid_peer

-- `loop { match exchange::send(…) }`, with the answer of the network to each attempt, by the retries
-- that remain.
unfoldable pub send_retrying : ℕ → (ℕ → Result (Unit {0})) → Result (Unit {0})
send_retrying zero answer = answer zero
send_retrying (suc n) answer =
    let rest = send_retrying n answer in elim (answer (suc n)) [ pass u ↦ pass u | fail e ↦ rest ]

-- Whether the last notification is too recent for another.
unfoldable pub too_recent : ℕ → Option ℕ → Bool
too_recent now none = false
too_recent now (some previous) = ltb (now - previous) session_unknown_min_interval

module _ (env : Environment) where
  -- A bootstrap message in its envelope, as the text that is sent.
  unfoldable pub write_bootstrap :
      Text → Text → Text → RelayedPeer → List ℕ → BootstrapMessage → Result Text
  write_bootstrap from to zone peer seed message =
      env.seal_bootstrap (permanent_keys peer) seed message >>= λ ciphertext.
      env.write_envelope (record { from = from; to = to; zone = zone; ciphertext = ciphertext })

  -- The handshake's first message.
  unfoldable pub start_message : Fresh → ℕ → StartRelayedConnection
  start_message f nonce = record {
    session_outer_key = f.key;
    inner_key_salt = f.inner_key_salt;
    outer_key_salt = f.outer_key_salt;
    magic = f.magic;
    engine = env.engine;
    version = env.version;
    supports_nonce = true;
    nonce = nonce;
    epoch = some env.epoch;
  }

  -- The cap on the handshakes in flight, and the new entry.
  unfoldable pub register :
      Text → Fresh → RelayedPeer → Text → Result Text → RelayState → RelayState × Result Started
  register name f peer relay (fail e) s = (s, fail e)
  register name f peer relay (pass payload) s =
      if leb max_pending_bootstraps (length s.pending) then (s, fail Error.invalid_peer) else (
        record s { pending = insert (name, f.magic) f.channel s.pending },
        pass (record { fresh = f; peer = peer; relay = relay; payload = payload }),
      )

  unfoldable pub begin_with :
      Result (RelayedPeer × Text × Text × Fresh) → Text → RelayState → RelayState × Result Started
  begin_with (fail e) name s = (s, fail e)
  begin_with (pass (peer, relay, me, f)) name s =
      let (s1, nonce) = take_bootstrap_nonce name s in
      register name f peer relay
        (write_bootstrap me name peer.zone peer f.seed (start (start_message f nonce))) s1

  -- `bootstrap` up to the wait; the random values may fail to come.
  unfoldable pub begin_bootstrap : Text → Result Fresh → RelayState → RelayState × Result Started
  begin_bootstrap name fresh s =
      begin_with
        (get_peer name s >>= λ peer. client_relay peer.role >>= λ relay.
          my_name s >>= λ me. fresh >>= λ f. pass (peer, relay, me, f))
        name s

  unfoldable pub drop_pending : Text → Text → RelayState → RelayState
  drop_pending name magic s = record s { pending = remove (name, magic) s.pending }

  -- The reply installs the session, unless its key is null.
  unfoldable pub finish_answered :
      Bool
      → Text
      → Started
      → RelayedConnectionAccepted
      → Network
      → RelayState
      → RelayState × List Action × Result (Unit {0})
  finish_answered true name st a net s = (s, [], fail Error.invalid_peer)
  finish_answered false name st a net s = (
    install name
        (record {
          inner_key = a.session_inner_key;
          outer_key = st.fresh.key;
          inner_key_salt = st.fresh.inner_key_salt;
          outer_key_salt = st.fresh.outer_key_salt;
        })
        a.supports_nonce s,
    connected name st.peer.zone a.engine a.version ∷ [],
    net.received,
  )

  -- `bootstrap` after the wait.
  unfoldable pub finish_bootstrap :
      Text → Started → Outcome → Network → RelayState → RelayState × List Action × Result (Unit {0})
  finish_bootstrap name st (send_failed e) net s = (drop_pending name st.fresh.magic s, [], fail e)
  finish_bootstrap name st cancelled net s = (s, [], fail Error.invalid_peer)
  finish_bootstrap name st timed_out net s =
      (drop_pending name st.fresh.magic s, [], fail Error.invalid_peer)
  finish_bootstrap name st (answered a) net s =
      finish_answered (is_null a.session_inner_key) name st a net s

  -- The other side's answer to a handshake.
  unfoldable pub accepted_message : StartRelayedConnection → List ℕ → ℕ → RelayedConnectionAccepted
  accepted_message m key nonce = record {
    session_inner_key = key;
    magic = m.magic;
    engine = env.engine;
    version = env.version;
    supports_nonce = true;
    nonce = nonce;
    epoch = some env.epoch;
  }

  -- `handle_start` once its answer is sent.
  unfoldable pub accept_start :
      Bool
      → Result (Unit {0})
      → Text
      → Text
      → StartRelayedConnection
      → List ℕ
      → Network
      → RelayState
      → RelayState × List Action × Result (Unit {0})
  accept_start null (fail e) from zone m key net s = (s, [], fail e)
  accept_start true (pass u) from zone m key net s = (s, [], fail Error.invalid_peer)
  accept_start false (pass u) from zone m key net s = (
    install from
        (record {
          inner_key = key;
          outer_key = m.session_outer_key;
          inner_key_salt = m.inner_key_salt;
          outer_key_salt = m.outer_key_salt;
        })
        m.supports_nonce s,
    connected from zone m.engine m.version ∷ [],
    net.received,
  )

  unfoldable pub answer_start :
      Result Text
      → Text
      → RelayedPeer
      → Text
      → StartRelayedConnection
      → List ℕ
      → Network
      → RelayState
      → RelayState × List Action × Result (Unit {0})
  answer_start (fail e) from peer relay m key net s = (s, [], fail e)
  answer_start (pass payload) from peer relay m key net s =
      let (s1, done, r) =
        accept_start (is_null m.session_outer_key) net.sent from peer.zone m key net s in
      (s1, send relay peer.relay_zone payload ∷ done, r)

  unfoldable pub handle_fresh_start :
      Bool
      → Text
      → RelayedPeer
      → Text
      → StartRelayedConnection
      → Fresh
      → Network
      → RelayState
      → RelayState × List Action × Result (Unit {0})
  handle_fresh_start false from peer relay m f net s = (s, [], fail Error.invalid_peer)
  handle_fresh_start true from peer relay m f net s =
      let (s1, nonce) = take_bootstrap_nonce from s in
      answer_start
        (my_name s >>= λ me.
          write_bootstrap me from peer.zone peer f.seed (accepted (accepted_message m f.key nonce)))
        from peer relay m f.key net s1

  -- `handle_start`; the caller passes the configured zone of the peer. It is one step: nothing comes between
  -- the check, the sending of the answer and the new session.
  unfoldable pub handle_start :
      Text
      → RelayedPeer
      → Text
      → StartRelayedConnection
      → Fresh
      → Network
      → RelayState
      → RelayState × List Action × Result (Unit {0})
  handle_start from peer relay m f net s =
      let (s1, fresh) = check_bootstrap_replay from m.epoch m.nonce s in
      handle_fresh_start fresh from peer relay m f net s1

  unfoldable pub send_unknown :
      Result Text
      → RelayedPeer
      → Network
      → RelayState
      → RelayState × List Action × Result (Unit {0})
  send_unknown (fail e) peer net s = (s, [], fail e)
  send_unknown (pass payload) peer net s =
      (s, send (relay_of peer) peer.relay_zone payload ∷ [], net.sent)

  unfoldable pub notify_unless :
      Bool
      → ℕ
      → Text
      → RelayedPeer
      → Fresh
      → Network
      → RelayState
      → RelayState × List Action × Result (Unit {0})
  notify_unless true now name peer f net s = (s, [], pass tt)
  notify_unless false now name peer f net s =
      let (s1, nonce) =
        take_bootstrap_nonce name
          (record s { last_session_unknown = insert name now s.last_session_unknown }) in
      send_unknown
        (my_name s >>= λ me.
          write_bootstrap me name peer.zone peer f.seed (session_unknown nonce (some env.epoch)))
        peer net s1

  -- `notify_session_unknown` at a time.
  unfoldable pub notify_session_unknown :
      ℕ
      → Text
      → RelayedPeer
      → Fresh
      → Network
      → RelayState
      → RelayState × List Action × Result (Unit {0})
  notify_session_unknown now name peer f net s =
      notify_unless (too_recent now (lookup name s.last_session_unknown)) now name peer f net s
