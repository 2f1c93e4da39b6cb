-- ===== src/Handler/Gate.antt =====
-- templemeads/src/handler.rs: what the checks before a job is accepted establish.
use openportal.Base.{
  List, ◌++◌, Bool, true, false, not, ◌&&◌, Option, none, some, ◌==◌, nat_eq, list_eq, ==_iff, ◌≡◌,
  refl, arith, if◌then◌else◌, eq_false_of_not, OnSome,
}
use openportal.Base.Text.{Text}
use openportal.Destination
use openportal.Destination.{Destination, Position, position}
use openportal.Error
use openportal.Error.{Result, ok, err, ◌>>◌, guard, >>=-eq-ok, guard-eq-ok}
use openportal.Peer.{Peer}
use mathlib.Core.Path.{subst}
use mathlib.Core.Option.{some_inj}
use openportal.Portal.{PortalIdentifier}
use openportal.Routes.{
  expected_route, is_collided, zone_has_portal_route, destination_matches_route,
}
use openportal.Routes.Peers.{destination_matches_route_iff}
use openportal.Job.{Domain, Job}
use openportal.Handler.{
  Agent, no_collision, assert_no_portal_collision, check_first, check_portal_ownership, check_route,
  assert_portal_route, owned_at, assert_portal_ownership, gate,
}

check_route-prefix :
    (o : Option Destination) (d : Destination)
    → check_route o d ≡ ok tt
    → OnSome (λ route. (rest : List Text) × (d.agents ≡ route.agents ++ rest)) o
unfolding check_route
check_route-prefix none d h = tt
check_route-prefix (some r) d h =
    (destination_matches_route_iff d r).0 (guard_passed (destination_matches_route d r) h)
  where
    guard_passed : (b : Bool) → guard b Error.invalid_instruction ≡ ok tt → b ≡ true
    guard_passed true h = refl
    guard_passed false h = cc

taken : (b : Bool) (r : Result (Unit {0})) → b ≡ true → (if b then r else ok tt) ≡ ok tt → r ≡ ok tt
taken true r e h = h
taken false r e h = cc

module _ {L : Domain} where
  -- The job's path begins with the portal, and with the route to it that is known, if one is.
  abbrev pub IsOwnedBy : Agent L → Job L → Peer → PortalIdentifier → Type 0
  IsOwnedBy agent job sender p =
      (p.portal ≡ Destination.first job.command.destination)
      × OnSome
          (λ route. (rest : List Text) × (job.command.destination.agents ≡ route.agents ++ rest))
          (expected_route agent.routes sender.zone p.portal)

  checked-IsOwnedBy :
      (o : Option PortalIdentifier) (agent : Agent L) (job : Job L) (sender : Peer)
      (p : PortalIdentifier)
      → o ≡ some p
      → (check_first o job.command.destination >> assert_portal_route agent job o sender) ≡ ok tt
      → IsOwnedBy agent job sender p
  unfolding check_first assert_portal_route
  checked-IsOwnedBy none agent job sender p e h = cc
  checked-IsOwnedBy (some q) agent job sender p e h =
      let (same, checked) =
        guard-eq-ok (q.portal == Destination.first job.command.destination) _ _ h in
      subst (IsOwnedBy agent job sender) (some_inj.0 e) (
        (==_iff q.portal (Destination.first job.command.destination)).0 same,
        check_route-prefix (expected_route agent.routes sender.zone q.portal)
            job.command.destination checked,
      )

  owned_at-IsOwnedBy :
      (place : Position) (agent : Agent L) (job : Job L) (sender : Peer) (p : PortalIdentifier)
      → L.owning_portal job.command.instruction ≡ some p
      → place ≡ Position.destination
      → (agent.verify_portal_ownership && zone_has_portal_route agent.routes sender.zone) ≡ true
      → owned_at place agent job sender ≡ ok tt
      → IsOwnedBy agent job sender p
  unfolding owned_at check_portal_ownership
  owned_at-IsOwnedBy Position.destination agent job sender p named last on h =
      checked-IsOwnedBy (L.owning_portal job.command.instruction) agent job sender p named (
        taken (agent.verify_portal_ownership && zone_has_portal_route agent.routes sender.zone) _ on
          h)
  owned_at-IsOwnedBy Position.upstream agent job sender p named last on h = cc
  owned_at-IsOwnedBy Position.downstream agent job sender p named last on h = cc
  owned_at-IsOwnedBy Position.error agent job sender p named last on h = cc

  no_collision-passed :
      (o : Option PortalIdentifier) (agent : Agent L) (zone : Text) (p : PortalIdentifier)
      → o ≡ some p
      → no_collision o agent.routes zone ≡ ok tt
      → is_collided agent.routes zone p.portal ≡ false
  unfolding no_collision
  no_collision-passed none agent zone p e h = cc
  no_collision-passed (some q) agent zone p e h =
      subst (λ p. is_collided agent.routes zone p.portal ≡ false) (some_inj.0 e)
        (eq_false_of_not (is_collided agent.routes zone q.portal)
          (passed (not (is_collided agent.routes zone q.portal)) h))
    where
      passed : (b : Bool) → guard b Error.invalid_instruction ≡ ok tt → b ≡ true
      passed true h = refl
      passed false h = cc

  -- When this agent is the last of a job's path and checks the ownership of portals, and routes are known
  -- in the sender's zone: a job about a portal that passes the checks is about a portal without conflicting
  -- routes, comes by a path that begins with that portal, and, where a route of the portal is known, by
  -- one that begins with the whole route.
  pub gate-IsOwnedBy :
      (agent : Agent L) (job : Job L) (sender : Peer) (recipient : Text) (p : PortalIdentifier)
      → L.owning_portal job.command.instruction ≡ some p
      → position job.command.destination recipient sender.name ≡ Position.destination
      → agent.verify_portal_ownership ≡ true
      → zone_has_portal_route agent.routes sender.zone ≡ true
      → gate agent job sender recipient ≡ ok tt
      → (is_collided agent.routes sender.zone p.portal ≡ false) × IsOwnedBy agent job sender p
  unfolding gate assert_no_portal_collision assert_portal_ownership
  gate-IsOwnedBy agent job sender recipient p named last on known h =
      let (_, clear, owned) =
        >>=-eq-ok (no_collision (L.owning_portal job.command.instruction) agent.routes sender.zone)
          _ h in
      (
        no_collision-passed (L.owning_portal job.command.instruction) agent sender.zone p named
            clear,
        owned_at-IsOwnedBy (position job.command.destination recipient sender.name) agent job sender
            p named last (ground (arith, on, known)) owned,
      )
