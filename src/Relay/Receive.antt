-- ===== src/Relay/Receive.antt =====
-- paddington/src/relay.rs: `handle_incoming_envelope`, `relay_dispatch_handler` and `send`. The code
-- opens a payload with a copy of the session and records its nonce under a lock that it takes later:
-- the two are two steps, so that other messages may come between them.
use openportal.Base.{
  ℕ, ◌+◌, ◌%◌, List, [], ◌∷◌, Bool, true, false, not, Option, none, some, ◌==◌, nat_eq, list_eq,
  pair_eq, if◌then◌else◌, any, is_some, ◌++◌, filter,
}
use openportal.Base.Text.{Text}
use openportal.Base.Assoc.{lookup, insert, remove}
use openportal.Relay.Errors.{Error, Result, pass, fail, ◌>>=◌}
use openportal.Relay.{
  RelayEnvelope, StartRelayedConnection, RelayedConnectionAccepted, BootstrapMessage, start,
  accepted, session_unknown, RelayedRole, client, server, RelayedPeer, relay_of,
  arrived_over_configured_relay, RelayedSession, RelayState, Environment, Message, Action, send,
  reply, spawn_bootstrap, check_bootstrap_replay, my_name, get_peer, permanent_keys,
}
use openportal.Relay.Bootstrap.{Fresh, Network, handle_start, notify_session_unknown}
use openportal.Replay.{for_peer, into_parts, check_and_record_negotiated, u64_mod}

-- A payload that was opened and whose nonce is not recorded yet.
pub record Decrypted : Type 0 where
  pub from : Text
  pub me : Text
  pub peer : RelayedPeer
  pub generation : ℕ
  pub nonce : Option ℕ
  pub payload : Text

unfoldable pub answer_waiting :
    Option ℕ
    → Text
    → RelayedConnectionAccepted
    → RelayState
    → RelayState × List Action × Result (Unit {0})
answer_waiting none from a s = (s, [], pass tt)
answer_waiting (some channel) from a s =
    let (s1, fresh) =
      check_bootstrap_replay from a.epoch a.nonce
        (record s { pending = remove (from, a.magic) s.pending }) in
    (s1, if fresh then reply channel a ∷ [] else [], pass tt)

-- One task at a time starts a new handshake with a peer.
unfoldable pub rebootstrap : RelayedRole → Text → RelayState → RelayState × List Action
rebootstrap (server relay) from s = (s, [])
rebootstrap (client relay) from s =
    if any (λ running. running == from) s.bootstrapping
    then (s, [])
    else (record s { bootstrapping = from ∷ s.bootstrapping }, spawn_bootstrap from ∷ [])

unfoldable pub forget_session :
    Bool → Text → RelayedPeer → RelayState → RelayState × List Action × Result (Unit {0})
forget_session false from peer s = (s, [], pass tt)
forget_session true from peer s =
    let (s1, actions) =
      rebootstrap peer.role from (record s { sessions = remove from s.sessions }) in
    (s1, actions, pass tt)

-- The first two checks: the envelope is for this agent, and came over the sender's relay. What fails
-- them is ignored.
unfoldable pub accept_envelope :
    RelayEnvelope → Text → Text → RelayState → Result (Option (Text × RelayedPeer))
accept_envelope v arrived_from arrived_zone s = my_name s >>= λ me.
    let known = get_peer v.from s >>= λ peer. pass (
      if arrived_over_configured_relay peer arrived_from arrived_zone
      then some (me, peer)
      else none) in
    if v.to == me then known else pass none

module _ (env : Environment) where
  unfoldable pub receive_start :
      RelayedRole
      → Text
      → RelayedPeer
      → StartRelayedConnection
      → Fresh
      → Network
      → RelayState
      → RelayState × List Action × Result (Unit {0})
  receive_start (client relay) from peer m f net s = (s, [], pass tt)
  receive_start (server relay) from peer m f net s = handle_start env from peer relay m f net s

  unfoldable pub receive_bootstrap :
      BootstrapMessage
      → Text
      → RelayedPeer
      → Fresh
      → Network
      → RelayState
      → RelayState × List Action × Result (Unit {0})
  receive_bootstrap (start m) from peer f net s = receive_start peer.role from peer m f net s
  receive_bootstrap (accepted a) from peer f net s =
      answer_waiting (lookup (from, a.magic) s.pending) from a s
  receive_bootstrap (session_unknown nonce epoch) from peer f net s =
      let (s1, fresh) = check_bootstrap_replay from epoch nonce s in
      forget_session fresh from peer s1

  -- A payload for a session, or for none.
  unfoldable pub open_with :
      Option RelayedSession
      → ℕ
      → RelayEnvelope
      → Text
      → RelayedPeer
      → Fresh
      → Network
      → RelayState
      → RelayState × List Action × Result (Option Decrypted)
  open_with none now v me peer f net s =
      let (s1, actions, notified) = notify_session_unknown env now v.from peer f net s in
      (s1, actions, fail Error.invalid_peer)
  open_with (some session) now v me peer f net s = (
    s,
    [],
    env.open_payload session.keys v.ciphertext >>= λ wrapped.
        let (nonce, payload) = into_parts wrapped in
        pass (
          some (record {
            from = v.from;
            me = me;
            peer = peer;
            generation = session.generation;
            nonce = nonce;
            payload = payload;
          })),
  )

  -- A text that the permanent keys open is a bootstrap message.
  unfoldable pub open_envelope :
      Result BootstrapMessage
      → ℕ
      → RelayEnvelope
      → Text
      → RelayedPeer
      → Fresh
      → Network
      → RelayState
      → RelayState × List Action × Result (Option Decrypted)
  open_envelope (pass message) now v me peer f net s =
      let (s1, actions, r) = receive_bootstrap message v.from peer f net s in
      (s1, actions, r >>= λ u. pass none)
  open_envelope (fail e) now v me peer f net s =
      open_with (lookup v.from s.sessions) now v me peer f net s

  unfoldable pub open_accepted :
      Result (Option (Text × RelayedPeer))
      → ℕ
      → RelayEnvelope
      → Fresh
      → Network
      → RelayState
      → RelayState × List Action × Result (Option Decrypted)
  open_accepted (fail e) now v f net s = (s, [], fail e)
  open_accepted (pass none) now v f net s = (s, [], pass none)
  open_accepted (pass (some (me, peer))) now v f net s =
      open_envelope (env.open_bootstrap (permanent_keys peer) v.ciphertext) now v me peer f net s

  -- `handle_incoming_envelope` up to where the nonce is recorded.
  unfoldable pub begin_receive :
      ℕ
      → RelayEnvelope
      → Text
      → Text
      → Fresh
      → Network
      → RelayState
      → RelayState × List Action × Result (Option Decrypted)
  begin_receive now v arrived_from arrived_zone f net s =
      open_accepted (accept_envelope v arrived_from arrived_zone s) now v f net s

unfoldable pub record_if : Bool → RelayedSession → Decrypted → RelayState → RelayState × Bool
record_if false session d s = (s, false)
record_if true session d s =
    let (w, ok) =
      check_and_record_negotiated session.replay_window d.nonce session.peer_supports_nonce in
    (record s { sessions = insert d.from (record session { replay_window = w }) s.sessions }, ok)

-- The nonce is recorded in the session that the payload was opened with, and in no other.
unfoldable pub record_nonce : Option RelayedSession → Decrypted → RelayState → RelayState × Bool
record_nonce none d s = (s, false)
record_nonce (some session) d s = record_if (session.generation == d.generation) session d s

abbrev pub message_of : Decrypted → Message
message_of d = record { sender = d.from; recipient = d.me; zone = d.peer.zone; payload = d.payload }

-- The rest of `handle_incoming_envelope`.
unfoldable pub finish_receive : Decrypted → RelayState → RelayState × Result Message
finish_receive d s =
    let (s1, ok) = record_nonce (lookup d.from s.sessions) d s in
    (s1, if ok then pass (message_of d) else fail Error.invalid_peer)

-- What `relay_dispatch_handler` does next: nothing, the inner handler, or the second step.
pub data Dispatched : Type 0 where
  done : Dispatched
  inner : Message → Dispatched
  opened : Decrypted → Dispatched

abbrev pub next_of : Result (Option Decrypted) → Dispatched
next_of (fail e) = done
next_of (pass none) = done
next_of (pass (some d)) = opened d

unfoldable pub dispatch_envelope :
    Environment
    → Option RelayEnvelope
    → ℕ
    → Message
    → Fresh
    → Network
    → RelayState
    → RelayState × List Action × Dispatched
dispatch_envelope env none now message f net s = (s, [], inner message)
dispatch_envelope env (some v) now message f net s =
    let (s1, actions, r) = begin_receive env now v message.sender message.zone f net s in
    (s1, actions, next_of r)

-- `relay_dispatch_handler` in the same two steps.
unfoldable pub relay_dispatch :
    Environment → ℕ → Message → Fresh → Network → RelayState → RelayState × List Action × Dispatched
relay_dispatch env now message f net s =
    dispatch_envelope env (env.read_envelope message.payload) now message f net s

abbrev pub inner_of : Result Message → Dispatched
inner_of (fail e) = done
inner_of (pass m) = inner m

unfoldable pub finish_dispatch : Decrypted → RelayState → RelayState × Dispatched
finish_dispatch d s = let (s1, r) = finish_receive d s in (s1, inner_of r)

module _ (env : Environment) where
  unfoldable pub send_payload :
      Result Text
      → RelayedPeer
      → Network
      → RelayState
      → RelayState × List Action × Result (Unit {0})
  send_payload (fail e) peer net s = (s, [], fail e)
  send_payload (pass payload) peer net s =
      (s, send (relay_of peer) peer.relay_zone payload ∷ [], net.sent)

  -- The nonce is taken from the session, and a failure to encrypt does not give it back.
  unfoldable pub send_in_session :
      Option RelayedSession
      → Text
      → Text
      → RelayedPeer
      → Text
      → List ℕ
      → Network
      → RelayState
      → RelayState × List Action × Result (Unit {0})
  send_in_session none me to peer payload seed net s = (s, [], fail Error.invalid_peer)
  send_in_session (some session) me to peer payload seed net s =
      let next = record session { next_nonce = (session.next_nonce + 1) % u64_mod } in
      send_payload
        (env.seal_payload session.keys seed
            (for_peer session.next_nonce payload session.peer_supports_nonce)
          >>= λ ciphertext.
              env.write_envelope
                (record { from = me; to = to; zone = peer.zone; ciphertext = ciphertext }))
        peer net (record s { sessions = insert to next s.sessions })

  unfoldable pub send_named :
      Result Text
      → Text
      → RelayedPeer
      → Text
      → List ℕ
      → Network
      → RelayState
      → RelayState × List Action × Result (Unit {0})
  send_named (fail e) to peer payload seed net s = (s, [], fail e)
  send_named (pass me) to peer payload seed net s =
      send_in_session (lookup to s.sessions) me to peer payload seed net s

  -- `send` where there is a session with the peer.
  unfoldable pub send_connected :
      Text
      → RelayedPeer
      → Text
      → List ℕ
      → Network
      → RelayState
      → RelayState × List Action × Result (Unit {0})
  send_connected to peer payload seed net s = send_named (my_name s) to peer payload seed net s

  unfoldable pub send_once_connected :
      RelayState × List Action × Result (Unit {0})
      → Text
      → RelayedPeer
      → Text
      → List ℕ
      → Network
      → RelayState × List Action × Result (Unit {0})
  send_once_connected (s, actions, fail e) to peer payload seed net = (s, actions, fail e)
  send_once_connected (s, actions, pass u) to peer payload seed net =
      let (s1, more, r) = send_connected to peer payload seed net s in (s1, actions ++ more, r)

  -- `bootstrap` is any change of the state that a whole handshake makes.
  unfoldable pub send_after :
      RelayedRole
      → (RelayState → RelayState × List Action × Result (Unit {0}))
      → Text
      → RelayedPeer
      → Text
      → List ℕ
      → Network
      → RelayState
      → RelayState × List Action × Result (Unit {0})
  send_after (server relay) bootstrap to peer payload seed net s = (s, [], fail Error.invalid_peer)
  send_after (client relay) bootstrap to peer payload seed net s =
      send_once_connected (bootstrap s) to peer payload seed net

  unfoldable pub send_to_peer :
      Result RelayedPeer
      → (RelayState → RelayState × List Action × Result (Unit {0}))
      → Text
      → Text
      → List ℕ
      → Network
      → RelayState
      → RelayState × List Action × Result (Unit {0})
  send_to_peer (fail e) bootstrap to payload seed net s = (s, [], fail e)
  send_to_peer (pass peer) bootstrap to payload seed net s =
      if is_some (lookup to s.sessions)
      then send_connected to peer payload seed net s
      else send_after peer.role bootstrap to peer payload seed net s

  unfoldable pub relay_send :
      (RelayState → RelayState × List Action × Result (Unit {0}))
      → Text
      → Text
      → List ℕ
      → Network
      → RelayState
      → RelayState × List Action × Result (Unit {0})
  relay_send bootstrap to payload seed net s =
      send_to_peer (get_peer to s) bootstrap to payload seed net s

-- `maintain_relayed_client` when the connection to the relay has dropped, and the end of the task
-- that a `SessionUnknown` started.
unfoldable pub drop_session : Text → RelayState → RelayState
drop_session name s = record s { sessions = remove name s.sessions }

unfoldable pub bootstrap_ended : Text → RelayState → RelayState
bootstrap_ended name s = record s {
  bootstrapping = filter (λ running. not (running == name)) s.bootstrapping;
}
