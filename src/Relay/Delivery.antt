-- ===== src/Relay/Delivery.antt =====
-- paddington/src/relay.rs: two agents and what reaches the other side: a payload that one sends is the
-- payload that the other receives.
use openportal.Base.{
  ℕ, List, [], ◌∷◌, Bool, true, false, none, some, nat_eq, list_eq, ==_refl, ==_iff, if◌then◌else◌,
  ◌≡◌, refl, ◌∙◌, ap,
}
use openportal.Base.Assoc.{lookup}
use openportal.Base.Text.{Text}
use openportal.Relay
use openportal.Relay.Errors.{Error, pass, fail}
use openportal.Relay.{
  RelayEnvelope, StartRelayedConnection, RelayedConnectionAccepted, RelayedPeer, RelayedSession,
  RelayState, Environment, Message, Action, send, my_name, get_peer, relay_of,
  arrived_over_configured_relay, install, is_null, permanent_keys,
}
use openportal.Relay.Bootstrap.{Fresh, Network}
use openportal.Relay.Receive.{
  Decrypted, accept_envelope, open_with, open_envelope, open_accepted, begin_receive,
  relay_dispatch, dispatch_envelope, opened, inner, message_of, record_if, record_nonce,
  finish_receive, finish_dispatch, send_payload, send_in_session, send_named, send_connected,
}
use openportal.Replay.{check_and_record_negotiated, for_peer, into_parts, NoncedPayload}

-- What the code relies on of encryption and serde.
pub record IsFaithful (sender receiver : Environment) : Type 0 where
  pub opens :
      (keys : Relay.Keys) (seed : List ℕ) (w : NoncedPayload) (c : Text)
      → sender.seal_payload keys seed w ≡ pass c
      → receiver.open_payload keys c ≡ pass w
  pub reads :
      (v : RelayEnvelope) (text : Text)
      → sender.write_envelope v ≡ pass text
      → receiver.read_envelope text ≡ some v

into_parts-for_peer :
    (n : ℕ) (payload : Text) (supports : Bool)
    → into_parts (for_peer n payload supports) ≡ (if supports then some n else none, payload)
unfolding into_parts for_peer
into_parts-for_peer n payload true = refl
into_parts-for_peer n payload false = refl

-- What the receiver has opened: the payload of the sender, with its nonce.
abbrev pub delivered :
    Text → Text → RelayedPeer → RelayedSession → RelayedSession → Text → Decrypted
delivered me to peer session session' payload = record {
  from = me;
  me = to;
  peer = peer;
  generation = session'.generation;
  nonce = if session.peer_supports_nonce then some session.next_nonce else none;
  payload = payload;
}

abbrev pub wrapped : RelayedSession → Text → NoncedPayload
wrapped session payload = for_peer session.next_nonce payload session.peer_supports_nonce

abbrev pub envelope_of : Text → Text → RelayedPeer → Text → RelayEnvelope
envelope_of me to peer c = record { from = me; to = to; zone = peer.zone; ciphertext = c }

-- The message as the connection to the relay brings it.
abbrev pub relayed : Text → RelayedPeer → Text → Message
relayed to peer body = record {
  sender = relay_of peer;
  recipient = to;
  zone = peer.relay_zone;
  payload = body;
}

module _ (sender receiver : Environment) (me to : Text) (peer peer' : RelayedPeer)
    (session session' : RelayedSession) (s t : RelayState) where
  send_connected-sends :
      (payload : Text) (seed : List ℕ) (c body : Text) (net : Network)
      → my_name s ≡ pass me
      → lookup to s.sessions ≡ some session
      → sender.seal_payload session.keys seed (wrapped session payload) ≡ pass c
      → sender.write_envelope (envelope_of me to peer c) ≡ pass body
      → (send_connected sender to peer payload seed net s).1
        ≡ send (relay_of peer) peer.relay_zone body ∷ []
  unfolding send_connected send_named send_in_session send_payload
  send_connected-sends payload seed c body net named found sealed written =
      rw (named, send_named, found, send_in_session, sealed, written, send_payload) refl

  begin_receive-opens :
      (payload : Text) (seed : List ℕ) (c : Text) (now : ℕ) (f : Fresh) (net : Network) (e : Error)
      → IsFaithful sender receiver
      → my_name t ≡ pass to
      → get_peer me t ≡ pass peer'
      → lookup me t.sessions ≡ some session'
      → session'.keys ≡ session.keys
      → receiver.open_bootstrap (permanent_keys peer') c ≡ fail e
      → sender.seal_payload session.keys seed (wrapped session payload) ≡ pass c
      → begin_receive receiver now
          (envelope_of me to peer c)
          (relay_of peer')
          peer'.relay_zone
          f
          net
          t
        ≡ (t, [], pass (some (delivered me to peer' session session' payload)))
  unfolding begin_receive accept_envelope open_accepted open_envelope open_with
      arrived_over_configured_relay
  begin_receive-opens payload seed c now f net e faithful named known found keys other sealed =
      rw
        (
          named,
          known,
          ==_refl to,
          ==_refl (relay_of peer'),
          ==_refl peer'.relay_zone,
          open_accepted,
          other,
          open_envelope,
          found,
          open_with,
          keys,
          faithful.opens session.keys seed (wrapped session payload) c sealed,
          into_parts-for_peer session.next_nonce payload session.peer_supports_nonce,
        )
        refl

record_nonce-accepts :
    (d : Decrypted) (o : RelayedSession) (t : RelayState)
    → o.generation ≡ d.generation
    → (check_and_record_negotiated o.replay_window d.nonce o.peer_supports_nonce).1 ≡ true
    → (record_nonce (some o) d t).1 ≡ true
unfolding record_nonce
record_nonce-accepts d o t same ok =
    ap (λ b. (record_if b o d t).1) ((==_iff o.generation d.generation).1 same)
    ∙ unfold record_if in ok

finish_dispatch-inner :
    (d : Decrypted) (o : RelayedSession) (t : RelayState)
    → lookup d.from t.sessions ≡ some o
    → o.generation ≡ d.generation
    → (check_and_record_negotiated o.replay_window d.nonce o.peer_supports_nonce).1 ≡ true
    → (finish_dispatch d t).1 ≡ inner (message_of d)
unfolding finish_dispatch finish_receive
finish_dispatch-inner d o t found same ok = rw (found, record_nonce-accepts d o t same ok) refl

-- A payload that one agent sends over its session goes to its relay. When the relay hands the text to
-- the other agent, whose session has the same keys and whose window accepts the nonce, that agent's
-- handler gets exactly that payload from the true sender, in the zone that the receiver configured. The
-- conditions are the laws of encryption and serde, that the text does not open as a bootstrap message,
-- and that both agents are configured.
pub send_connected-received :
    (sender receiver : Environment) (me to : Text) (peer peer' : RelayedPeer)
    (session session' : RelayedSession) (s t : RelayState) (payload : Text) (seed : List ℕ)
    (c body : Text) (now : ℕ) (f : Fresh) (net net' : Network) (e : Error)
    → IsFaithful sender receiver
    → my_name s ≡ pass me
    → lookup to s.sessions ≡ some session
    → sender.seal_payload session.keys seed (wrapped session payload) ≡ pass c
    → sender.write_envelope (envelope_of me to peer c) ≡ pass body
    → my_name t ≡ pass to
    → get_peer me t ≡ pass peer'
    → lookup me t.sessions ≡ some session'
    → session'.keys ≡ session.keys
    → receiver.open_bootstrap (permanent_keys peer') c ≡ fail e
    → (check_and_record_negotiated session'.replay_window
        (delivered me to peer' session session' payload).nonce
        session'.peer_supports_nonce).1
      ≡ true
    → ((send_connected sender to peer payload seed net s).1
        ≡ send (relay_of peer) peer.relay_zone body ∷ [])
      × (relay_dispatch receiver now (relayed to peer' body) f net' t
          ≡ (t, [], opened (delivered me to peer' session session' payload)))
      × ((finish_dispatch (delivered me to peer' session session' payload) t).1
          ≡ inner (record { sender = me; recipient = to; zone = peer'.zone; payload = payload }))
unfolding relay_dispatch dispatch_envelope
send_connected-received sender receiver me to peer peer' session session' s t payload seed c body
      now f net net' e faithful named found sealed written named' known found' keys other fresh =
    (
      send_connected-sends sender receiver me to peer peer' session session' s t payload seed c body
          net named found sealed written,
      rw
          (
            faithful.reads (envelope_of me to peer c) body written,
            dispatch_envelope,
            begin_receive-opens sender receiver me to peer peer' session session' s t payload seed c
                now f net' e faithful named' known found' keys other sealed,
          )
          refl,
      finish_dispatch-inner (delivered me to peer' session session' payload) session' t found' refl
          fresh,
    )
