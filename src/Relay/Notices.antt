-- ===== src/Relay/Notices.antt =====
-- paddington/src/relay.rs: what bounds the work that another agent can cause: the cap on handshakes in
-- flight and the interval between two notices.
use openportal.Base.{◌≤◌, nat_eq, list_eq, pair_eq, arith, length}
use openportal.Base.Assoc.{length-insert}
use openportal.Base.Text.{Text}
use openportal.Relay.Errors.{Result, pass, fail}
use openportal.Relay.{RelayedPeer, RelayState, Environment, take_bootstrap_nonce}
use openportal.Relay.Bootstrap.{Fresh, register, begin_with, begin_bootstrap}

module _ (env : Environment) where
  register-pending :
      (name : Text) (f : Fresh) (peer : RelayedPeer) (relay : Text) (r : Result Text)
      (s : RelayState)
      → length s.pending ≤ 256
      → length (register env name f peer relay r s).0.pending ≤ 256
  unfolding register
  register-pending name f peer relay (fail e) s h = h
  register-pending name f peer relay (pass payload) s h =
      ground (arith, length-insert (name, f.magic) f.channel s.pending)

  begin_with-pending :
      (r : Result (RelayedPeer × Text × Text × Fresh)) (name : Text) (s : RelayState)
      → length s.pending ≤ 256
      → length (begin_with env r name s).0.pending ≤ 256
  unfolding begin_with take_bootstrap_nonce
  begin_with-pending (fail e) name s h = h
  begin_with-pending (pass (peer, relay, me, f)) name s h = register-pending name f peer relay _ _ h

  -- However often handshakes are begun, at most 256 are in flight.
  pub begin_bootstrap-pending :
      (name : Text) (fresh : Result Fresh) (s : RelayState)
      → length s.pending ≤ 256
      → length (begin_bootstrap env name fresh s).0.pending ≤ 256
  unfolding begin_bootstrap
  begin_bootstrap-pending name fresh s h = begin_with-pending _ name s h
