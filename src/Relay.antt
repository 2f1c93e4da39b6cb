-- ===== src/Relay.antt =====
-- paddington/src/relay.rs: sessions between two agents that reach each other only through a proxy.
-- The process's tables under their locks are the fields of one state. What goes out (messages,
-- events, replies to a waiting task) is a list of actions in the order of the code.
use openportal.Base.{
  ℕ, zero, suc, ◌+◌, ◌%◌, List, [], ◌∷◌, Bool, true, false, Option, none, some, ◌==◌, nat_eq,
  list_eq, pair_eq, ◌&&◌, if◌then◌else◌, all, nat_beq,
}
use openportal.Base.Text.{Text, text}
use openportal.Base.Assoc.{lookup, insert, remove}
use openportal.Relay.Errors
use openportal.Relay.Errors.{Error, Result, pass, fail, ◌>>=◌, require, require_some}
use openportal.Replay
use openportal.Replay.{
  ReplayWindow, HandshakeNonceState, NoncedPayload, initial, take_next_nonce, check_replay, u64_mod,
}
pub mod Errors
pub mod Bootstrap
pub mod Receive
pub mod Proxy
pub mod Sessions
pub mod Once
pub mod Zones
pub mod Authentic
pub mod Forwarding
pub mod Notices
pub mod Delivery
pub mod Handshake
mod Tests

pub record RelayEnvelope : Type 0 where
  pub from : Text
  pub to : Text
  pub zone : Text
  pub ciphertext : Text

-- A key or salt is the list of its bytes.
pub record StartRelayedConnection : Type 0 where
  pub session_outer_key : List ℕ
  pub inner_key_salt : List ℕ
  pub outer_key_salt : List ℕ
  pub magic : Text
  pub engine : Text
  pub version : Text
  pub supports_nonce : Bool
  pub nonce : ℕ
  pub epoch : Option ℕ

pub record RelayedConnectionAccepted : Type 0 where
  pub session_inner_key : List ℕ
  pub magic : Text
  pub engine : Text
  pub version : Text
  pub supports_nonce : Bool
  pub nonce : ℕ
  pub epoch : Option ℕ

pub data BootstrapMessage : Type 0 where
  start : StartRelayedConnection → BootstrapMessage
  accepted : RelayedConnectionAccepted → BootstrapMessage
  session_unknown : ℕ → Option ℕ → BootstrapMessage

-- Each with the name of the relay.
pub data RelayedRole : Type 0 where
  client server : Text → RelayedRole

pub record RelayedPeer : Type 0 where
  pub zone : Text
  pub relay_zone : Text
  pub role : RelayedRole
  pub inner_key : List ℕ
  pub outer_key : List ℕ

abbrev pub relay_of_role : RelayedRole → Text
relay_of_role (client relay) = relay
relay_of_role (server relay) = relay

-- `RelayedPeer::relay`
abbrev pub relay_of : RelayedPeer → Text
relay_of p = relay_of_role p.role

unfoldable pub arrived_over_configured_relay : RelayedPeer → Text → Text → Bool
arrived_over_configured_relay p arrived_from arrived_zone =
    arrived_from == relay_of p && arrived_zone == p.relay_zone

pub record RelayConfig : Type 0 where
  pub my_name : Text
  pub peers : List (Text × RelayedPeer)

pub record Keys : Type 0 where
  pub inner_key : List ℕ
  pub outer_key : List ℕ
  pub inner_key_salt : List ℕ
  pub outer_key_salt : List ℕ

pub record RelayedSession : Type 0 where
  pub generation : ℕ
  pub keys : Keys
  pub next_nonce : ℕ
  pub replay_window : ReplayWindow
  pub peer_supports_nonce : Bool

-- The tables of the process. A waiting task is the number of its channel, and an instant is in
-- nanoseconds, the precision of `Duration`.
pub record RelayState : Type 0 where
  pub config : Option RelayConfig
  pub sessions : List (Text × RelayedSession)
  pub pending : List ((Text × Text) × ℕ)
  pub last_session_unknown : List (Text × ℕ)
  pub bootstrapping : List Text
  pub nonces : List (Text × HandshakeNonceState)
  pub session_generation : ℕ

-- What `crate::connection` and serde do: encryption under two keys with random bytes, its inverse,
-- and the JSON text of an envelope. `engine`, `version` and `epoch` are those of this process.
pub record Environment : Type 0 where
  pub seal_bootstrap : Keys → List ℕ → BootstrapMessage → Result Text
  pub open_bootstrap : Keys → Text → Result BootstrapMessage
  pub seal_payload : Keys → List ℕ → NoncedPayload → Result Text
  pub open_payload : Keys → Text → Result NoncedPayload
  pub write_envelope : RelayEnvelope → Result Text
  pub read_envelope : Text → Option RelayEnvelope
  pub engine : Text
  pub version : Text
  pub epoch : ℕ

pub record Message : Type 0 where
  pub sender : Text
  pub recipient : Text
  pub zone : Text
  pub payload : Text

pub data Action : Type 0 where
  -- `exchange::send` to an agent in a zone
  send : Text → Text → Text → Action
  -- `exchange::received` of a connected event
  connected : Text → Text → Text → Text → Action
  -- the reply to the task that waits on a channel
  reply : ℕ → RelayedConnectionAccepted → Action
  -- a task that runs `bootstrap`
  spawn_bootstrap : Text → Action

abbrev pub session_unknown_min_interval : ℕ
session_unknown_min_interval = 5000000000

abbrev pub max_pending_bootstraps : ℕ
max_pending_bootstraps = 256

-- `"ab".repeat(32)` as hexadecimal digits
abbrev pub bytes_of : ℕ → List ℕ → List ℕ
bytes_of zero bs = bs
bytes_of (suc n) bs = bytes_of n (171 ∷ bs)

abbrev pub bootstrap_salt : List ℕ
bootstrap_salt = bytes_of 32 []

-- The permanent keys of a peer, with the salt of bootstrap messages.
abbrev pub permanent_keys : RelayedPeer → Keys
permanent_keys p = record {
  inner_key = p.inner_key;
  outer_key = p.outer_key;
  inner_key_salt = bootstrap_salt;
  outer_key_salt = bootstrap_salt;
}

-- `Key::is_null`
unfoldable pub is_null : List ℕ → Bool
is_null key = all (λ b. nat_beq b 0) key

abbrev pub nonces_of : Text → RelayState → HandshakeNonceState
nonces_of name s = elim (lookup name s.nonces) [ some n ↦ n | none ↦ initial ]

unfoldable pub take_bootstrap_nonce : Text → RelayState → RelayState × ℕ
take_bootstrap_nonce name s =
    let (n, nonce) = take_next_nonce (nonces_of name s) in
    (record s { nonces = insert name n s.nonces }, nonce)

unfoldable pub check_bootstrap_replay : Text → Option ℕ → ℕ → RelayState → RelayState × Bool
check_bootstrap_replay name epoch nonce s =
    let (n, fresh) = check_replay (nonces_of name s) epoch (some nonce) in
    (record s { nonces = insert name n s.nonces }, fresh)

-- `my_name`
unfoldable pub my_name : RelayState → Result Text
my_name s = elim s.config [ some c ↦ pass c.my_name | none ↦ fail Error.invalid_peer ]

-- `get_peer`
unfoldable pub get_peer : Text → RelayState → Result RelayedPeer
get_peer name s = elim s.config [
  | some c ↦ require_some (lookup name c.peers) Error.unknown_peer
  | none ↦ fail Error.unknown_peer
]

-- `is_configured`
unfoldable pub is_configured : Text → RelayState → Bool
is_configured name s = elim (get_peer name s) [ pass p ↦ true | fail e ↦ false ]

-- `next_session_generation`, and the session that it stamps.
unfoldable pub install : Text → Keys → Bool → RelayState → RelayState
install name keys supports_nonce s = record s {
  session_generation = (s.session_generation + 1) % u64_mod;
  sessions =
      insert name
        (record {
          generation = s.session_generation;
          keys = keys;
          next_nonce = 0;
          replay_window = Replay.new;
          peer_supports_nonce = supports_nonce;
        })
        s.sessions;
}
