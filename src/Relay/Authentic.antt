-- ===== src/Relay/Authentic.antt =====
-- paddington/src/relay.rs: what the text that arrives on a connection may cause. An envelope is not
-- authenticated itself; only the connection is, and what the keys of a peer open.
use openportal.Base.{
  ℕ, List, [], Bool, true, false, Option, none, some, ◌==◌, nat_eq, list_eq, ==_iff, ◌&&◌,
  &&-eq-true, All, inl, inr, ◌⊎◌, ◌≡◌, refl, sym, ◌∙◌, ap, if◌then◌else◌,
}
use openportal.Base.Assoc.{lookup}
use openportal.Base.Text.{Text}
use mathlib.Core.Option.{some_inj}
use openportal.Relay.Errors.{Error, Result, pass, fail, ◌>>=◌, pass_inj, require_some}
use openportal.Relay.{
  RelayEnvelope, RelayConfig, RelayedPeer, RelayedSession, RelayState, BootstrapMessage,
  Environment, Message, Action, send, my_name, get_peer, relay_of, arrived_over_configured_relay,
  permanent_keys, take_bootstrap_nonce,
}
use openportal.Relay.Bootstrap.{
  Fresh, Network, too_recent, send_unknown, notify_unless, notify_session_unknown,
}
use openportal.Relay.Receive.{
  Decrypted, accept_envelope, receive_bootstrap, open_with, open_envelope, open_accepted,
  begin_receive, Dispatched, done, inner, opened, next_of, dispatch_envelope, relay_dispatch,
}
use openportal.Replay.{NoncedPayload, into_parts}

-- The envelope is for this agent, names a configured peer, and the connection that it came over is that
-- to the peer's relay, in the zone of that connection.
abbrev pub IsAddressed : RelayEnvelope → Text → Text → RelayState → Text → RelayedPeer → Type 0
IsAddressed v arrived_from arrived_zone s me peer =
    (c : RelayConfig) × (s.config ≡ some c)
    × (me ≡ c.my_name)
    × (v.to ≡ me)
    × (lookup v.from c.peers ≡ some peer)
    × (arrived_from ≡ relay_of peer)
    × (arrived_zone ≡ peer.relay_zone)

accept_envelope-IsAddressed :
    (v : RelayEnvelope) (arrived_from arrived_zone : Text) (s : RelayState) (me : Text)
    (peer : RelayedPeer)
    → accept_envelope v arrived_from arrived_zone s ≡ pass (some (me, peer))
    → IsAddressed v arrived_from arrived_zone s me peer
unfolding accept_envelope my_name get_peer arrived_over_configured_relay
accept_envelope-IsAddressed v arrived_from arrived_zone s me peer h = configured s.config refl
  where
    Known : RelayConfig → Option RelayedPeer → Type 0
    Known c o =
        (me ≡ c.my_name)
        × (o ≡ some peer)
        × (arrived_from ≡ relay_of peer)
        × (arrived_zone ≡ peer.relay_zone)

    wanted : Result (Option (Text × RelayedPeer))
    wanted = pass (some (me, peer))

    arrived :
        (c : RelayConfig) (p : RelayedPeer) (b : Bool)
        → (arrived_from == relay_of p && arrived_zone == p.relay_zone) ≡ b
        → pass (if b then some (c.my_name, p) else none) ≡ wanted
        → Known c (some p)
    arrived c p true e q =
        let same : (c.my_name, p) ≡ (me, peer) = some_inj.0 (pass_inj q) in
        let (f, z) = &&-eq-true (arrived_from == relay_of p) (arrived_zone == p.relay_zone) e in
        let same_peer : p ≡ peer = ap (λ x. x.1) same in
        (
          sym (ap (λ x. x.0) same),
          ap some same_peer,
          (==_iff arrived_from (relay_of p)).0 f ∙ ap relay_of same_peer,
          (==_iff arrived_zone p.relay_zone).0 z ∙ ap (λ p. p.relay_zone) same_peer,
        )
    arrived c p false e q = cc

    chosen : RelayConfig → RelayedPeer → Option (Text × RelayedPeer)
    chosen c p =
        if arrived_from == relay_of p && arrived_zone == p.relay_zone
        then some (c.my_name, p)
        else none

    named :
        (c : RelayConfig) (o : Option RelayedPeer) (b : Bool)
        → (if b then (require_some o Error.unknown_peer >>= λ p. pass (chosen c p)) else pass none)
          ≡ wanted
        → (b ≡ true) × Known c o
    named c (some p) true q =
        (refl, arrived c p (arrived_from == relay_of p && arrived_zone == p.relay_zone) refl q)
    named c none true q = cc
    named c o false q = cc

    configured :
        (o : Option RelayConfig) → s.config ≡ o → IsAddressed v arrived_from arrived_zone s me peer
    configured none e = absurd (refused (rw e at h))
      where
        refused : fail Error.invalid_peer ≡ wanted → ⊥
        refused q = cc
    configured (some c) e =
        let (here, (mine, found, from, zone)) =
          named c (lookup v.from c.peers) (v.to == c.my_name) (rw e at h) in
        (c, e, mine, (==_iff v.to c.my_name).0 here ∙ sym mine, found, from, zone)

abbrev pub IsNoticeTo : RelayedPeer → Action → Type 0
IsNoticeTo peer (send to zone payload) = (to ≡ relay_of peer) × (zone ≡ peer.relay_zone)
IsNoticeTo peer _ = ⊥

module _ (env : Environment) where
  -- The payload of an envelope, opened with the keys of the session with its sender.
  abbrev pub IsOpenedBy : RelayEnvelope → RelayedSession → Decrypted → Type 0
  IsOpenedBy v session d =
      (d.from ≡ v.from)
      × (d.generation ≡ session.generation)
      × ((w : NoncedPayload) × (env.open_payload session.keys v.ciphertext ≡ pass w)
          × ((d.nonce, d.payload) ≡ into_parts w))

  -- What an envelope that is addressed to this agent causes: its text opens under the permanent keys of the
  -- peer and is a bootstrap message; or it changes and sends nothing, and may be a payload of the session;
  -- or there is no session, and at most a notice goes back over the peer's relay.
  abbrev pub IsCaused :
      RelayEnvelope → RelayedPeer → RelayState → RelayState × List Action × Dispatched → Type 0
  IsCaused v peer s (t, actions, next) =
      ((m : BootstrapMessage) × (env.open_bootstrap (permanent_keys peer) v.ciphertext ≡ pass m)
        × (next ≡ done))
      ⊎ ((session : RelayedSession) × (lookup v.from s.sessions ≡ some session)
          × (t ≡ s)
          × (actions ≡ [])
          × ((next ≡ done) ⊎ ((d : Decrypted) × (next ≡ opened d) × IsOpenedBy v session d)))
      ⊎ (lookup v.from s.sessions ≡ none)
        × (t.sessions ≡ s.sessions)
        × (t.pending ≡ s.pending)
        × All (IsNoticeTo peer) actions
        × (next ≡ done)

  abbrev Causes :
      RelayEnvelope
      → RelayedPeer
      → RelayState
      → RelayState × List Action × Result (Option Decrypted)
      → Type 0
  Causes v peer s (t, actions, r) = IsCaused v peer s (t, actions, next_of r)

  send_unknown-IsNoticeTo :
      (r : Result Text) (peer : RelayedPeer) (net : Network) (s : RelayState)
      → (t : RelayState) → (t.sessions ≡ s.sessions)
      → (t.pending ≡ s.pending)
      → ((send_unknown env r peer net t).0.sessions ≡ s.sessions)
        × ((send_unknown env r peer net t).0.pending ≡ s.pending)
        × All (IsNoticeTo peer) (send_unknown env r peer net t).1
  unfolding send_unknown
  send_unknown-IsNoticeTo (fail e) peer net s t p q = (p, q, tt)
  send_unknown-IsNoticeTo (pass x) peer net s t p q = (p, q, ((refl, refl), tt))

  notify_unless-IsNoticeTo :
      (b : Bool) (now : ℕ) (name : Text) (peer : RelayedPeer) (f : Fresh) (net : Network)
      (s : RelayState)
      → ((notify_unless env b now name peer f net s).0.sessions ≡ s.sessions)
        × ((notify_unless env b now name peer f net s).0.pending ≡ s.pending)
        × All (IsNoticeTo peer) (notify_unless env b now name peer f net s).1
  unfolding notify_unless take_bootstrap_nonce
  notify_unless-IsNoticeTo true now name peer f net s = (refl, refl, tt)
  notify_unless-IsNoticeTo false now name peer f net s =
      send_unknown-IsNoticeTo _ peer net s _ refl refl

  open_with-IsCaused :
      (o : Option RelayedSession) (now : ℕ) (v : RelayEnvelope) (me : Text) (peer : RelayedPeer)
      (f : Fresh) (net : Network) (s : RelayState)
      → lookup v.from s.sessions ≡ o
      → Causes v peer s (open_with env o now v me peer f net s)
  unfolding open_with notify_session_unknown
  open_with-IsCaused none now v me peer f net s e =
      let (same, waiting, notices) =
        notify_unless-IsNoticeTo (too_recent now (lookup v.from s.last_session_unknown)) now v.from
          peer f net s in
      inr (inr (e, same, waiting, notices, refl))
  open_with-IsCaused (some session) now v me peer f net s e =
      inr (inl (session, e, refl, refl, step (env.open_payload session.keys v.ciphertext) refl))
    where
      result : Result NoncedPayload → Result (Option Decrypted)
      result r = r >>= λ wrapped.
          let (nonce, payload) = into_parts wrapped in
          pass (
            some (record {
              from = v.from;
              me = me;
              peer = peer;
              generation = session.generation;
              nonce = nonce;
              payload = payload;
            }))

      step :
          (r : Result NoncedPayload)
          → env.open_payload session.keys v.ciphertext ≡ r
          → (next_of (result r) ≡ done)
            ⊎ ((d : Decrypted) × (next_of (result r) ≡ opened d) × IsOpenedBy v session d)
      step (fail e) q = inl refl
      step (pass w) q = inr (_, refl, (refl, refl, (w, q, refl)))

  open_envelope-IsCaused :
      (r : Result BootstrapMessage) (now : ℕ) (v : RelayEnvelope) (me : Text) (peer : RelayedPeer)
      (f : Fresh) (net : Network) (s : RelayState)
      → env.open_bootstrap (permanent_keys peer) v.ciphertext ≡ r
      → Causes v peer s (open_envelope env r now v me peer f net s)
  unfolding open_envelope
  open_envelope-IsCaused (pass m) now v me peer f net s e =
      inl (m, e, step (receive_bootstrap env m v.from peer f net s).2)
    where
      step : (r : Result (Unit {0})) → next_of (r >>= λ u. pass none) ≡ done
      step (pass u) = refl
      step (fail x) = refl
  open_envelope-IsCaused (fail x) now v me peer f net s e =
      open_with-IsCaused (lookup v.from s.sessions) now v me peer f net s refl

  -- Either nothing happens, or the envelope is addressed to this agent and has one of those effects.
  abbrev pub IsAuthentic :
      RelayEnvelope → Message → RelayState → RelayState × List Action × Dispatched → Type 0
  IsAuthentic v message s r =
      (r ≡ (s, [], done))
      ⊎ ((me : Text) × (peer : RelayedPeer) × IsAddressed v message.sender message.zone s me peer
          × IsCaused v peer s r)

  open_accepted-IsAuthentic :
      (r : Result (Option (Text × RelayedPeer))) (now : ℕ) (v : RelayEnvelope) (message : Message)
      (f : Fresh) (net : Network) (s : RelayState)
      → accept_envelope v message.sender message.zone s ≡ r
      → let (t, actions, x) = open_accepted env r now v f net s in
        IsAuthentic v message s (t, actions, next_of x)
  unfolding open_accepted
  open_accepted-IsAuthentic (fail e) now v message f net s q = inl refl
  open_accepted-IsAuthentic (pass none) now v message f net s q = inl refl
  open_accepted-IsAuthentic (pass (some (me, peer))) now v message f net s q = inr (
    me,
    peer,
    accept_envelope-IsAddressed v message.sender message.zone s me peer q,
    open_envelope-IsCaused _ now v me peer f net s refl,
  )

  -- A text from the network that is no envelope goes to the inner handler as it is, and nothing else
  -- happens. An envelope causes nothing at all unless it is for this agent, names a configured peer and
  -- came over the connection, in the zone, of that peer's relay. Then one of three things holds. Its text
  -- opens under the permanent keys of the peer, and no payload is delivered. Or there is a session with
  -- the peer, nothing changes and nothing is sent, and a payload is taken on only if the keys of that
  -- session open it. Or there is no session; then no session and no handshake is touched, no payload is
  -- delivered, and whatever is sent goes to the peer's relay.
  pub relay_dispatch-IsAuthentic :
      (now : ℕ) (message : Message) (f : Fresh) (net : Network) (s : RelayState)
      → (env.read_envelope message.payload ≡ none)
          × (relay_dispatch env now message f net s ≡ (s, [], inner message))
        ⊎ ((v : RelayEnvelope) × (env.read_envelope message.payload ≡ some v)
            × IsAuthentic v message s (relay_dispatch env now message f net s))
  unfolding relay_dispatch
  relay_dispatch-IsAuthentic now message f net s = step (env.read_envelope message.payload) refl
    where
      step :
          (o : Option RelayEnvelope)
          → env.read_envelope message.payload ≡ o
          → (o ≡ none) × (dispatch_envelope env o now message f net s ≡ (s, [], inner message))
            ⊎ ((v : RelayEnvelope) × (o ≡ some v)
                × IsAuthentic v message s (dispatch_envelope env o now message f net s))
      step none q = unfold dispatch_envelope in inl (refl, refl)
      step (some v) q =
          unfold dispatch_envelope begin_receive in
          inr (v, refl, open_accepted-IsAuthentic _ now v message f net s refl)
