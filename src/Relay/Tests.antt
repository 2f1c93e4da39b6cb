-- ===== src/Relay/Tests.antt =====
-- Concrete agents for the theorems on relayed sessions.
use openportal.Base.{
  ℕ, Bool, ◌⊎◌, pair_eq, zero, suc, List, [], ◌∷◌, true, false, Option, none, some, ◌≡◌, refl, sym,
  ap, ◌∙◌, arith, All, length, ◌≤◌, list_eq, nat_eq,
}
use openportal.Base.Assoc.{lookup, insert}
use openportal.Base.Text.{Text, text}
use openportal.Relay.Errors.{Error, Result, pass, fail, is_pass, pass_inj}
use openportal.Relay.{
  StartRelayedConnection, RelayedConnectionAccepted, start, accepted, Action, connected,
  permanent_keys, RelayEnvelope, BootstrapMessage, session_unknown, client, server, RelayedPeer,
  Keys, RelayedSession, RelayState, Environment, Message, send, my_name, get_peer, install, is_null,
  arrived_over_configured_relay, take_bootstrap_nonce, check_bootstrap_replay,
}
use openportal.Relay.Bootstrap.{
  Fresh, Network, Started, answered, start_message, accepted_message, finish_bootstrap,
  finish_answered, accept_start, begin_bootstrap, begin_with, register, client_relay, too_recent,
  notify_session_unknown, notify_unless, send_unknown, write_bootstrap, handle_start,
  handle_fresh_start, answer_start,
}
use openportal.Relay.Receive.{
  Decrypted, begin_receive, finish_receive, record_nonce, record_if, drop_session, relay_dispatch,
  opened, inner, finish_dispatch, send_connected,
}
use openportal.Relay.Proxy.{
  configure_proxy, use_zones, proxy_client_zones, add_zones, PeerEntry, ServiceConfig,
  relayed_peers, add_entries, add_relayed, relay_zone_of, RelayPolicy, allow, permits, ProxyState,
  proxy_handler, forward,
}
use openportal.Relay.Sessions.{tables}
use openportal.Relay.Once.{
  IsValid, Run, stop, after, loses, records, Run-IsValid, finish_receive_once,
}
use openportal.Relay.Handshake.{Paired, CarriesBootstrap, handshake_pairs}
use openportal.Relay.Authentic.{IsAuthentic, relay_dispatch-IsAuthentic}
use openportal.Relay.Forwarding.{IsForwarded, proxy_handler-IsForwarded}
use openportal.Relay.Notices.{begin_bootstrap-pending}
use openportal.Relay.Delivery.{IsFaithful, envelope_of, delivered, relayed, send_connected-received}
use openportal.Replay.{
  NoncedPayload, nonced, legacy, new, check_and_record, check_and_record_optional,
  check_and_record_negotiated, set_bit, test_bit, shift_left, shift_by_words, shift_by_bits,
  carry_words, zero_words, carry_bits, initial, take_next_nonce, check_replay, remove_entry,
  for_peer, into_parts,
}
use openportal.Replay.Epochs.{new-IsSound}

program : Unit {0}
unfolding lookup insert my_name get_peer install is_null arrived_over_configured_relay
    take_bootstrap_nonce check_bootstrap_replay finish_bootstrap finish_answered accept_start
    begin_bootstrap begin_with register client_relay too_recent notify_session_unknown notify_unless
    send_unknown write_bootstrap begin_receive finish_receive record_nonce record_if drop_session
    relay_dispatch finish_dispatch send_connected relayed_peers add_entries add_relayed
    relay_zone_of allow permits proxy_handler forward new check_and_record check_and_record_optional
    check_and_record_negotiated set_bit test_bit shift_left shift_by_words shift_by_bits carry_words
    zero_words carry_bits initial take_next_nonce check_replay remove_entry for_peer into_parts
program = tt

-- A text in front of another, and back.
abbrev pack : Text → Text → Text
pack [] rest = 0 ∷ rest
pack (n ∷ t) rest = suc n ∷ pack t rest

abbrev unpack : Text → Text × Text
unpack [] = ([], [])
unpack (zero ∷ rest) = ([], rest)
unpack (suc n ∷ t) = let (a, rest) = unpack t in (n ∷ a, rest)

unpack-pack : (t rest : Text) → unpack (pack t rest) ≡ (t, rest)
unpack-pack [] rest = refl
unpack-pack (n ∷ t) rest = ap (λ r. (n ∷ r.0, r.1)) (unpack-pack t rest)

abbrev write : RelayEnvelope → Text
write v = pack v.from (pack v.to (pack v.zone v.ciphertext))

abbrev read : Text → RelayEnvelope
read t =
    let (from, t1) = unpack t in
    let (to, t2) = unpack t1 in
    let (zone, t3) = unpack t2 in record { from = from; to = to; zone = zone; ciphertext = t3 }

read-write : (v : RelayEnvelope) → read (write v) ≡ v
read-write v =
    rw
      (
        unpack-pack v.from (pack v.to (pack v.zone v.ciphertext)),
        unpack-pack v.to (pack v.zone v.ciphertext),
        unpack-pack v.zone v.ciphertext,
      )
      refl

-- A cipher that hides nothing: the theorems use its laws only.
abbrev seal : NoncedPayload → Text
seal (nonced n payload) = 3 ∷ n ∷ payload
seal (legacy payload) = 4 ∷ payload

abbrev unseal : Text → Result NoncedPayload
unseal (suc (suc (suc zero)) ∷ n ∷ payload) = pass (nonced n payload)
unseal (suc (suc (suc (suc zero))) ∷ payload) = pass (legacy payload)
unseal _ = fail Error.any

unseal-seal : (w : NoncedPayload) → unseal (seal w) ≡ pass w
unseal-seal (nonced n payload) = refl
unseal-seal (legacy payload) = refl

abbrev digit : Bool → ℕ
digit true = 1
digit false = 0

abbrev is_one : ℕ → Bool
is_one zero = false
is_one (suc n) = true

is_one-digit : (b : Bool) → is_one (digit b) ≡ b
is_one-digit true = refl
is_one-digit false = refl

abbrev tail_of : Option ℕ → Text
tail_of none = []
tail_of (some n) = n ∷ []

abbrev head_of : Text → Option ℕ
head_of [] = none
head_of (n ∷ t) = some n

head_of-tail_of : (o : Option ℕ) → head_of (tail_of o) ≡ o
head_of-tail_of none = refl
head_of-tail_of (some n) = refl

abbrev seal_message : BootstrapMessage → Text
seal_message (session_unknown n epoch) = 2 ∷ n ∷ tail_of epoch
seal_message (start m) =
    0
    ∷ digit m.supports_nonce
    ∷ m.nonce
    ∷ pack m.session_outer_key (
        pack m.inner_key_salt
          (pack m.outer_key_salt (pack m.magic (pack m.engine (pack m.version (tail_of m.epoch))))))
seal_message (accepted m) =
    1
    ∷ digit m.supports_nonce
    ∷ m.nonce
    ∷ pack m.session_inner_key (pack m.magic (pack m.engine (pack m.version (tail_of m.epoch))))

abbrev unseal_start : ℕ → ℕ → Text → StartRelayedConnection
unseal_start supports nonce t =
    let (key, t1) = unpack t in
    let (inner_salt, t2) = unpack t1 in
    let (outer_salt, t3) = unpack t2 in
    let (magic, t4) = unpack t3 in
    let (engine, t5) = unpack t4 in
    let (version, t6) = unpack t5 in
    record {
      session_outer_key = key;
      inner_key_salt = inner_salt;
      outer_key_salt = outer_salt;
      magic = magic;
      engine = engine;
      version = version;
      supports_nonce = is_one supports;
      nonce = nonce;
      epoch = head_of t6;
    }

abbrev unseal_accepted : ℕ → ℕ → Text → RelayedConnectionAccepted
unseal_accepted supports nonce t =
    let (key, t1) = unpack t in
    let (magic, t2) = unpack t1 in
    let (engine, t3) = unpack t2 in
    let (version, t4) = unpack t3 in
    record {
      session_inner_key = key;
      magic = magic;
      engine = engine;
      version = version;
      supports_nonce = is_one supports;
      nonce = nonce;
      epoch = head_of t4;
    }

abbrev unseal_message : Text → Result BootstrapMessage
unseal_message (suc (suc zero) ∷ n ∷ t) = pass (session_unknown n (head_of t))
unseal_message (zero ∷ supports ∷ nonce ∷ t) = pass (start (unseal_start supports nonce t))
unseal_message (suc zero ∷ supports ∷ nonce ∷ t) =
    pass (accepted (unseal_accepted supports nonce t))
unseal_message _ = fail Error.any

unseal_message-seal_message : (m : BootstrapMessage) → unseal_message (seal_message m) ≡ pass m
unseal_message-seal_message (session_unknown n epoch) = rw (head_of-tail_of epoch) refl
unseal_message-seal_message (start m) =
    let t5 : Text = pack m.version (tail_of m.epoch) in
    let t4 : Text = pack m.engine t5 in
    let t3 : Text = pack m.magic t4 in
    let t2 : Text = pack m.outer_key_salt t3 in
    let t1 : Text = pack m.inner_key_salt t2 in
    rw
      (
        unpack-pack m.session_outer_key t1,
        unpack-pack m.inner_key_salt t2,
        unpack-pack m.outer_key_salt t3,
        unpack-pack m.magic t4,
        unpack-pack m.engine t5,
        unpack-pack m.version (tail_of m.epoch),
        head_of-tail_of m.epoch,
        is_one-digit m.supports_nonce,
      )
      refl
unseal_message-seal_message (accepted m) =
    let t3 : Text = pack m.version (tail_of m.epoch) in
    let t2 : Text = pack m.engine t3 in
    let t1 : Text = pack m.magic t2 in
    rw
      (
        unpack-pack m.session_inner_key t1,
        unpack-pack m.magic t2,
        unpack-pack m.engine t3,
        unpack-pack m.version (tail_of m.epoch),
        head_of-tail_of m.epoch,
        is_one-digit m.supports_nonce,
      )
      refl

abbrev plain : Environment
plain = record {
  seal_bootstrap = λ keys seed m. pass (seal_message m);
  open_bootstrap = λ keys c. unseal_message c;
  seal_payload = λ keys seed w. pass (seal w);
  open_payload = λ keys c. unseal c;
  write_envelope = λ v. pass (write v);
  read_envelope = λ t. some (read t);
  engine = text "paddington";
  version = text "1";
  epoch = 7;
}

plain-IsFaithful : IsFaithful plain plain
plain-IsFaithful = record {
  opens = λ keys seed w c h. ap unseal (sym (pass_inj h)) ∙ unseal-seal w;
  reads = λ v t h. ap (λ t. some (read t)) (sym (pass_inj h)) ∙ ap some (read-write v);
}

plain-CarriesBootstrap : CarriesBootstrap plain plain
plain-CarriesBootstrap = record {
  opens = λ keys seed m c h. ap unseal_message (sym (pass_inj h)) ∙ unseal_message-seal_message m;
  reads = λ v t h. ap (λ t. some (read t)) (sym (pass_inj h)) ∙ ap some (read-write v);
}

abbrev brics : Text
brics = text "brics"

abbrev airr : Text
airr = text "airr"

abbrev hub : Text
hub = text "proxy"

abbrev zone : Text
zone = text "ukri"

abbrev hub_zone : Text
hub_zone = text "hub"

abbrev fresh : Fresh
fresh = record {
  key = 5 ∷ [];
  inner_key_salt = 1 ∷ [];
  outer_key_salt = 2 ∷ [];
  magic = text "m";
  channel = 3;
  seed = 9 ∷ [];
}

abbrev net : Network
net = record { sent = pass tt; received = pass tt }

abbrev to_airr : RelayedPeer
to_airr = record {
  zone = zone;
  relay_zone = hub_zone;
  role = client hub;
  inner_key = 1 ∷ [];
  outer_key = 2 ∷ [];
}

abbrev to_brics : RelayedPeer
to_brics = record {
  zone = zone;
  relay_zone = hub_zone;
  role = server hub;
  inner_key = 1 ∷ [];
  outer_key = 2 ∷ [];
}

abbrev empty : RelayState
empty = record {
  config = none;
  sessions = [];
  pending = [];
  last_session_unknown = [];
  bootstrapping = [];
  nonces = [];
  session_generation = 0;
}

abbrev at_brics : RelayState
at_brics = record empty { config = some (record { my_name = brics; peers = (airr, to_airr) ∷ [] }) }

abbrev at_airr : RelayState
at_airr = record empty { config = some (record { my_name = airr; peers = (brics, to_brics) ∷ [] }) }

abbrev keys : Keys
keys = record {
  inner_key = 6 ∷ [];
  outer_key = 5 ∷ [];
  inner_key_salt = 1 ∷ [];
  outer_key_salt = 2 ∷ [];
}

-- A session whose next nonce is 4, with a window that has seen nothing.
abbrev session : RelayedSession
session = record {
  generation = 0;
  keys = keys;
  next_nonce = 4;
  replay_window = new;
  peer_supports_nonce = true;
}

abbrev brics_connected : RelayState
brics_connected = record at_brics { sessions = (airr, session) ∷ []; session_generation = 1 }

abbrev airr_connected : RelayState
airr_connected = record at_airr { sessions = (brics, session) ∷ []; session_generation = 1 }

airr_connected-IsValid : IsValid (tables airr_connected)
airr_connected-IsValid = ((omega arith, new-IsSound), tt)

abbrev word : Text
word = text "job"

abbrev received : Decrypted
received = delivered brics airr to_brics session session word

received_accepted : is_pass (finish_receive received airr_connected).1 ≡ true
unfolding program
received_accepted = refl

-- The payload is recorded, the session is dropped and another payload comes.
later_steps :
    Run plain 2
      (finish_receive received airr_connected).0
      (finish_receive received (drop_session airr (finish_receive received airr_connected).0)).0
later_steps = after (loses airr) (after (records received) stop)

Run-IsValid_example : IsValid (
    tables
      (finish_receive received (drop_session airr (finish_receive received airr_connected).0)).0)
Run-IsValid_example =
    Run-IsValid plain (after (records received) later_steps) (omega arith) airr_connected-IsValid

finish_receive_once_example :
    is_pass
      (finish_receive received
        (finish_receive received
          (drop_session airr (finish_receive received airr_connected).0)).0).1
    ≡ false
finish_receive_once_example =
    finish_receive_once plain received received 4 airr_connected airr_connected-IsValid refl
      received_accepted later_steps (omega arith) refl refl refl

send_connected-received_example :
    ((send_connected plain airr to_airr word [] net brics_connected).1
      ≡ send hub hub_zone (write (envelope_of brics airr to_airr (seal (nonced 4 word)))) ∷ [])
    × (relay_dispatch plain 0
          (relayed airr to_brics (write (envelope_of brics airr to_airr (seal (nonced 4 word)))))
          fresh
          net
          airr_connected
        ≡ (airr_connected, [], opened received))
    × ((finish_dispatch received airr_connected).1
        ≡ inner (record { sender = brics; recipient = airr; zone = zone; payload = word }))
unfolding program
send_connected-received_example =
    send_connected-received plain plain brics airr to_airr to_brics session session brics_connected
      airr_connected word [] (seal (nonced 4 word))
      (write (envelope_of brics airr to_airr (seal (nonced 4 word)))) 0 fresh net net Error.any
      plain-IsFaithful refl refl refl refl refl refl refl refl refl refl

abbrev answer_values : Fresh
answer_values = record fresh { key = 6 ∷ [] }

-- brics begins, airr reads the start message and answers, and brics reads the answer.
abbrev begun_message : StartRelayedConnection
begun_message = start_message plain fresh 0

abbrev answer_message : RelayedConnectionAccepted
answer_message = accepted_message plain begun_message (6 ∷ []) 0

abbrev begun_envelope : RelayEnvelope
begun_envelope = envelope_of brics airr to_airr (seal_message (start begun_message))

abbrev answer_envelope : RelayEnvelope
answer_envelope = envelope_of airr brics to_brics (seal_message (accepted answer_message))

abbrev begun : Started
begun = record { fresh = fresh; peer = to_airr; relay = hub; payload = write begun_envelope }

abbrev answering : RelayState × List Action × Result (Unit {0})
answering = handle_start plain brics to_brics hub begun_message answer_values net at_airr

handshake_runs :
    ((begin_bootstrap plain airr (pass fresh) at_brics).1 ≡ pass begun)
    × (plain.read_envelope begun.payload ≡ some begun_envelope)
    × (plain.open_bootstrap (permanent_keys to_brics) begun_envelope.ciphertext
        ≡ pass (start begun_message))
    × (answering.1
        ≡ send hub hub_zone (write answer_envelope)
          ∷ connected brics zone begun_message.engine begun_message.version
          ∷ [])
    × (answering.2 ≡ pass tt)
    × (plain.read_envelope (write answer_envelope) ≡ some answer_envelope)
    × (plain.open_bootstrap (permanent_keys to_airr) answer_envelope.ciphertext
        ≡ pass (accepted answer_message))
    × ((finish_bootstrap plain airr begun (answered answer_message) net at_brics).2 ≡ pass tt)
unfolding program start_message accepted_message handle_start handle_fresh_start answer_start
handshake_runs = (refl, refl, refl, refl, refl, refl, refl, refl)

handshake_pairs_example :
    Paired airr
      (finish_bootstrap plain airr begun (answered answer_message) net at_brics).0
      brics
      answering.0
unfolding get_peer lookup
handshake_pairs_example =
    let (h1, h2, h3, h4, h5, h6, h7, h8) = handshake_runs in
    handshake_pairs plain plain airr hub hub hub_zone (write answer_envelope) fresh answer_values
      to_airr to_brics at_brics at_brics at_airr begun begun_envelope answer_envelope begun_message
      answer_message net net (connected brics zone begun_message.engine begun_message.version ∷ [])
      plain-CarriesBootstrap plain-CarriesBootstrap refl refl h1 h2 h3 h4 h5 h6 h7 h8

begin_bootstrap-pending_example :
    length (begin_bootstrap plain airr (pass fresh) at_brics).0.pending ≤ 256
begin_bootstrap-pending_example =
    begin_bootstrap-pending plain airr (pass fresh) at_brics (omega arith)

-- A payload that brics sent to airr, and the same text over another connection.
abbrev delivery : Message
delivery = record {
  sender = hub;
  recipient = airr;
  zone = hub_zone;
  payload = write (envelope_of brics airr to_airr (seal (nonced 4 word)));
}

relay_dispatch-IsAuthentic_example :
    (plain.read_envelope delivery.payload ≡ none)
      × (relay_dispatch plain 0 delivery fresh net airr_connected
          ≡ (airr_connected, [], inner delivery))
    ⊎ ((v : RelayEnvelope) × (plain.read_envelope delivery.payload ≡ some v)
        × IsAuthentic plain v delivery airr_connected
            (relay_dispatch plain 0 delivery fresh net airr_connected))
relay_dispatch-IsAuthentic_example =
    relay_dispatch-IsAuthentic plain 0 delivery fresh net airr_connected

abbrev policy : RelayPolicy
policy = record { pairs = (brics, airr) ∷ [] }

abbrev proxy : ProxyState
proxy = record { policy = policy; client_zones = (brics, hub_zone) ∷ (airr, hub_zone) ∷ [] }

-- What brics sends to the proxy, over its own connection.
abbrev posted : Message
posted = record {
  sender = brics;
  recipient = hub;
  zone = hub_zone;
  payload = write (envelope_of brics airr to_airr word);
}

proxy_forwards : proxy_handler plain posted proxy ≡ send airr hub_zone posted.payload ∷ []
unfolding program
proxy_forwards = refl

abbrev entry : Text → Text → Option Text → PeerEntry
entry name zone proxy = record {
  name = name;
  zone = zone;
  proxy = proxy;
  inner_key = 1 ∷ [];
  outer_key = 2 ∷ [];
}

abbrev hub_service : ServiceConfig
hub_service = record {
  name = hub;
  servers = [];
  clients = entry brics hub_zone none ∷ entry airr hub_zone none ∷ [];
}

abbrev unready : ProxyState
unready = record { policy = policy; client_zones = [] }

hub_is_ready : (configure_proxy hub_service unready).1 ≡ pass tt
unfolding program configure_proxy use_zones proxy_client_zones add_zones
hub_is_ready = refl

proxy_handler-IsForwarded_example :
    All
      (IsForwarded plain posted hub_service.clients policy.pairs)
      (proxy_handler plain posted (configure_proxy hub_service unready).0)
proxy_handler-IsForwarded_example =
    proxy_handler-IsForwarded plain posted hub_service unready hub_is_ready

abbrev service : ServiceConfig
service = record {
  name = brics;
  servers = entry hub hub_zone none ∷ entry airr zone (some hub) ∷ [];
  clients = entry (text "portal") zone (some hub) ∷ [];
}

abbrev service_peers : List (Text × RelayedPeer)
service_peers = (airr, to_airr) ∷ (text "portal", record to_airr { role = server hub }) ∷ []
