-- ===== src/Relay/Sessions.antt =====
-- What the operations of paddington/src/relay.rs do to the table of sessions and to the counter of
-- their generations.
use openportal.Base.{
  ℕ, ◌+◌, ◌%◌, List, Bool, true, false, Option, none, some, ◌==◌, nat_eq, list_eq, pair_eq, if_elim,
  ◌≡◌, refl, sym, leb, length, any,
}
use openportal.Base.Text.{Text}
use mathlib.Core.Path.{subst}
use openportal.Base.Assoc.{lookup, insert, remove}
use openportal.Relay.Errors.{Result, pass, fail}
use openportal.Relay.{
  RelayEnvelope, StartRelayedConnection, RelayedConnectionAccepted, BootstrapMessage, start,
  accepted, session_unknown, RelayedRole, client, server, RelayedPeer, RelayedSession, RelayState,
  Environment, Action, take_bootstrap_nonce, check_bootstrap_replay, install, is_null,
  max_pending_bootstraps,
}
use openportal.Relay.Bootstrap.{
  Fresh, Network, Started, Outcome, send_failed, cancelled, timed_out, answered, register,
  begin_with, begin_bootstrap, drop_pending, finish_answered, finish_bootstrap, accept_start,
  answer_start, handle_fresh_start, handle_start, send_unknown, notify_unless,
  notify_session_unknown,
}
use openportal.Relay.Receive.{
  Decrypted, answer_waiting, rebootstrap, forget_session, receive_start, receive_bootstrap,
  open_with, open_envelope, open_accepted, begin_receive, record_if, record_nonce, finish_receive,
  send_payload, send_in_session, send_named, send_connected, drop_session, bootstrap_ended,
}
use openportal.Relay.Proxy.{ServiceConfig, configure, use_peers, relayed_peers}
use openportal.Replay
use openportal.Replay.{check_and_record_negotiated, u64_mod}

-- The sessions and the counter of their generations.
abbrev pub Tables : Type 0
Tables = List (Text × RelayedSession) × ℕ

abbrev pub tables : RelayState → Tables
tables s = (s.sessions, s.session_generation)

-- One step's effect: none, a session dropped, a new session under the next generation, or a session
-- that keeps its generation, with its window as it was or after one more check.
pub data Change (s : Tables) : Tables → Type 0 where
  same : Change s s
  dropped : (name : Text) → Change s (remove name s.0, s.1)
  installed :
      (name : Text) (session : RelayedSession)
      → session.generation ≡ s.1
      → session.replay_window ≡ Replay.new
      → Change s (insert name session s.0, (s.1 + 1) % u64_mod)
  kept :
      (name : Text) (old new : RelayedSession)
      → lookup name s.0 ≡ some old
      → new.generation ≡ old.generation
      → new.replay_window ≡ old.replay_window
      → Change s (insert name new s.0, s.1)
  checked :
      (name : Text) (old new : RelayedSession) (nonce : Option ℕ)
      → lookup name s.0 ≡ some old
      → new.generation ≡ old.generation
      → new.replay_window
        ≡ (check_and_record_negotiated old.replay_window nonce old.peer_supports_nonce).0
      → Change s (insert name new s.0, s.1)

abbrev pub Changes : RelayState → RelayState → Type 0
Changes s t = Change (tables s) (tables t)

module _ (env : Environment) where
  register-Changes :
      (name : Text) (f : Fresh) (peer : RelayedPeer) (relay : Text) (r : Result Text)
      (s : RelayState)
      → Changes s (register env name f peer relay r s).0
  unfolding register
  register-Changes name f peer relay (fail e) s = same
  register-Changes name f peer relay (pass payload) s =
      if_elim (λ (r : RelayState × Result Started). Changes s r.0)
        (leb max_pending_bootstraps (length s.pending)) same same

  begin_with-Changes :
      (r : Result (RelayedPeer × Text × Text × Fresh)) (name : Text) (s : RelayState)
      → Changes s (begin_with env r name s).0
  unfolding begin_with take_bootstrap_nonce
  begin_with-Changes (fail e) name s = same
  begin_with-Changes (pass (peer, relay, me, f)) name s = register-Changes name f peer relay _ _

  pub begin_bootstrap-Changes :
      (name : Text) (fresh : Result Fresh) (s : RelayState)
      → Changes s (begin_bootstrap env name fresh s).0
  unfolding begin_bootstrap
  begin_bootstrap-Changes name fresh s = begin_with-Changes _ name s

  finish_answered-Changes :
      (null : Bool) (name : Text) (st : Started) (a : RelayedConnectionAccepted) (net : Network)
      (s : RelayState)
      → Changes s (finish_answered env null name st a net s).0
  unfolding finish_answered install
  finish_answered-Changes true name st a net s = same
  finish_answered-Changes false name st a net s = installed name _ refl refl

  pub finish_bootstrap-Changes :
      (name : Text) (st : Started) (o : Outcome) (net : Network) (s : RelayState)
      → Changes s (finish_bootstrap env name st o net s).0
  unfolding finish_bootstrap drop_pending
  finish_bootstrap-Changes name st (send_failed e) net s = same
  finish_bootstrap-Changes name st cancelled net s = same
  finish_bootstrap-Changes name st timed_out net s = same
  finish_bootstrap-Changes name st (answered a) net s =
      finish_answered-Changes (is_null a.session_inner_key) name st a net s

  accept_start-Changes :
      (null : Bool) (r : Result (Unit {0})) (from zone : Text) (m : StartRelayedConnection)
      (key : List ℕ) (net : Network) (s : RelayState)
      → Changes s (accept_start env null r from zone m key net s).0
  unfolding accept_start install
  accept_start-Changes null (fail e) from zone m key net s = same
  accept_start-Changes true (pass u) from zone m key net s = same
  accept_start-Changes false (pass u) from zone m key net s = installed from _ refl refl

  answer_start-Changes :
      (r : Result Text) (from : Text) (peer : RelayedPeer) (relay : Text)
      (m : StartRelayedConnection) (key : List ℕ) (net : Network) (s : RelayState)
      → Changes s (answer_start env r from peer relay m key net s).0
  unfolding answer_start
  answer_start-Changes (fail e) from peer relay m key net s = same
  answer_start-Changes (pass payload) from peer relay m key net s =
      accept_start-Changes (is_null m.session_outer_key) net.sent from peer.zone m key net s

  handle_fresh_start-Changes :
      (fresh : Bool) (from : Text) (peer : RelayedPeer) (relay : Text) (m : StartRelayedConnection)
      (f : Fresh) (net : Network) (s : RelayState)
      → Changes s (handle_fresh_start env fresh from peer relay m f net s).0
  unfolding handle_fresh_start take_bootstrap_nonce
  handle_fresh_start-Changes false from peer relay m f net s = same
  handle_fresh_start-Changes true from peer relay m f net s =
      answer_start-Changes _ from peer relay m f.key net _

  send_unknown-Changes :
      (r : Result Text) (peer : RelayedPeer) (net : Network) (s : RelayState)
      → Changes s (send_unknown env r peer net s).0
  unfolding send_unknown
  send_unknown-Changes (fail e) peer net s = same
  send_unknown-Changes (pass payload) peer net s = same

  notify_unless-Changes :
      (recent : Bool) (now : ℕ) (name : Text) (peer : RelayedPeer) (f : Fresh) (net : Network)
      (s : RelayState)
      → Changes s (notify_unless env recent now name peer f net s).0
  unfolding notify_unless take_bootstrap_nonce
  notify_unless-Changes true now name peer f net s = same
  notify_unless-Changes false now name peer f net s = send_unknown-Changes _ peer net _

  receive_start-Changes :
      (role : RelayedRole) (from : Text) (peer : RelayedPeer) (m : StartRelayedConnection)
      (f : Fresh) (net : Network) (s : RelayState)
      → Changes s (receive_start env role from peer m f net s).0
  unfolding receive_start handle_start check_bootstrap_replay
  receive_start-Changes (client relay) from peer m f net s = same
  receive_start-Changes (server relay) from peer m f net s =
      handle_fresh_start-Changes _ from peer relay m f net _

  answer_waiting-Changes :
      (o : Option ℕ) (from : Text) (a : RelayedConnectionAccepted) (s : RelayState)
      → Changes s (answer_waiting o from a s).0
  unfolding answer_waiting check_bootstrap_replay
  answer_waiting-Changes none from a s = same
  answer_waiting-Changes (some channel) from a s = same

  rebootstrap-tables :
      (role : RelayedRole) (from : Text) (s : RelayState)
      → tables (rebootstrap role from s).0 ≡ tables s
  unfolding rebootstrap
  rebootstrap-tables (server relay) from s = refl
  rebootstrap-tables (client relay) from s =
      if_elim (λ (r : RelayState × List Action). tables r.0 ≡ tables s)
        (any (λ running. running == from) s.bootstrapping) refl refl

  forget_session-Changes :
      (fresh : Bool) (from : Text) (peer : RelayedPeer) (s : RelayState)
      → Changes s (forget_session fresh from peer s).0
  unfolding forget_session
  forget_session-Changes false from peer s = same
  forget_session-Changes true from peer s =
      subst (λ t. Change (tables s) t) (sym (rebootstrap-tables peer.role from _)) (dropped from)

  receive_bootstrap-Changes :
      (m : BootstrapMessage) (from : Text) (peer : RelayedPeer) (f : Fresh) (net : Network)
      (s : RelayState)
      → Changes s (receive_bootstrap env m from peer f net s).0
  unfolding receive_bootstrap check_bootstrap_replay
  receive_bootstrap-Changes (start m) from peer f net s =
      receive_start-Changes peer.role from peer m f net s
  receive_bootstrap-Changes (accepted a) from peer f net s = answer_waiting-Changes _ from a s
  receive_bootstrap-Changes (session_unknown nonce epoch) from peer f net s =
      forget_session-Changes _ from peer _

  open_with-Changes :
      (o : Option RelayedSession) (now : ℕ) (v : RelayEnvelope) (me : Text) (peer : RelayedPeer)
      (f : Fresh) (net : Network) (s : RelayState)
      → Changes s (open_with env o now v me peer f net s).0
  unfolding open_with notify_session_unknown
  open_with-Changes none now v me peer f net s = notify_unless-Changes _ now v.from peer f net s
  open_with-Changes (some session) now v me peer f net s = same

  open_envelope-Changes :
      (r : Result BootstrapMessage) (now : ℕ) (v : RelayEnvelope) (me : Text) (peer : RelayedPeer)
      (f : Fresh) (net : Network) (s : RelayState)
      → Changes s (open_envelope env r now v me peer f net s).0
  unfolding open_envelope
  open_envelope-Changes (pass m) now v me peer f net s =
      receive_bootstrap-Changes m v.from peer f net s
  open_envelope-Changes (fail e) now v me peer f net s = open_with-Changes _ now v me peer f net s

  open_accepted-Changes :
      (r : Result (Option (Text × RelayedPeer))) (now : ℕ) (v : RelayEnvelope) (f : Fresh)
      (net : Network) (s : RelayState)
      → Changes s (open_accepted env r now v f net s).0
  unfolding open_accepted
  open_accepted-Changes (fail e) now v f net s = same
  open_accepted-Changes (pass none) now v f net s = same
  open_accepted-Changes (pass (some (me, peer))) now v f net s =
      open_envelope-Changes _ now v me peer f net s

  pub begin_receive-Changes :
      (now : ℕ) (v : RelayEnvelope) (arrived_from arrived_zone : Text) (f : Fresh) (net : Network)
      (s : RelayState)
      → Changes s (begin_receive env now v arrived_from arrived_zone f net s).0
  unfolding begin_receive
  begin_receive-Changes now v arrived_from arrived_zone f net s =
      open_accepted-Changes _ now v f net s

  send_payload-Changes :
      (r : Result Text) (peer : RelayedPeer) (net : Network) (s : RelayState)
      → tables (send_payload env r peer net s).0 ≡ tables s
  unfolding send_payload
  send_payload-Changes (fail e) peer net s = refl
  send_payload-Changes (pass payload) peer net s = refl

  send_in_session-Changes :
      (o : Option RelayedSession) (me to : Text) (peer : RelayedPeer) (payload : Text)
      (seed : List ℕ) (net : Network) (s : RelayState)
      → lookup to s.sessions ≡ o
      → Changes s (send_in_session env o me to peer payload seed net s).0
  unfolding send_in_session
  send_in_session-Changes none me to peer payload seed net s e = same
  send_in_session-Changes (some session) me to peer payload seed net s e =
      subst (λ t. Change (tables s) t) (sym (send_payload-Changes _ peer net _))
        (kept to session _ e refl refl)

  send_named-Changes :
      (r : Result Text) (to : Text) (peer : RelayedPeer) (payload : Text) (seed : List ℕ)
      (net : Network) (s : RelayState)
      → Changes s (send_named env r to peer payload seed net s).0
  unfolding send_named
  send_named-Changes (fail e) to peer payload seed net s = same
  send_named-Changes (pass me) to peer payload seed net s =
      send_in_session-Changes (lookup to s.sessions) me to peer payload seed net s refl

  pub send_connected-Changes :
      (to : Text) (peer : RelayedPeer) (payload : Text) (seed : List ℕ) (net : Network)
      (s : RelayState)
      → Changes s (send_connected env to peer payload seed net s).0
  unfolding send_connected
  send_connected-Changes to peer payload seed net s =
      send_named-Changes _ to peer payload seed net s

record_if-Changes :
    (b : Bool) (session : RelayedSession) (d : Decrypted) (s : RelayState)
    → lookup d.from s.sessions ≡ some session
    → Changes s (record_if b session d s).0
unfolding record_if
record_if-Changes false session d s e = same
record_if-Changes true session d s e = checked d.from session _ d.nonce e refl refl

record_nonce-Changes :
    (o : Option RelayedSession) (d : Decrypted) (s : RelayState)
    → lookup d.from s.sessions ≡ o
    → Changes s (record_nonce o d s).0
unfolding record_nonce
record_nonce-Changes none d s e = same
record_nonce-Changes (some session) d s e =
    record_if-Changes (session.generation == d.generation) session d s e

pub finish_receive-Changes : (d : Decrypted) (s : RelayState) → Changes s (finish_receive d s).0
unfolding finish_receive
finish_receive-Changes d s = record_nonce-Changes (lookup d.from s.sessions) d s refl

pub drop_session-Changes : (name : Text) (s : RelayState) → Changes s (drop_session name s)
unfolding drop_session
drop_session-Changes name s = dropped name

pub bootstrap_ended-Changes : (name : Text) (s : RelayState) → Changes s (bootstrap_ended name s)
unfolding bootstrap_ended
bootstrap_ended-Changes name s = same

use_peers-Changes :
    (r : Result (List (Text × RelayedPeer))) (c : ServiceConfig) (s : RelayState)
    → Changes s (use_peers r c s).0
unfolding use_peers
use_peers-Changes (fail e) c s = same
use_peers-Changes (pass peers) c s = same

pub configure-Changes : (c : ServiceConfig) (s : RelayState) → Changes s (configure c s).0
unfolding configure
configure-Changes c s = use_peers-Changes (relayed_peers c) c s
