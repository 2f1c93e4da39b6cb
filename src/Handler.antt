-- ===== src/Handler.antt =====
-- templemeads/src/handler.rs: the checks before a job is accepted, and what an agent does with a job
-- that a peer updates or deletes. The time is read once for a command.
use openportal.Base.{
  ℕ, zero, suc, List, [], ◌∷◌, Bool, true, false, not, ◌&&◌, Option, none, some, ◌==◌, nat_eq,
  list_eq, if◌then◌else◌, nat_beq,
}
use openportal.Base.Text.{Text, text}
use openportal.Destination
use openportal.Destination.{Destination, Position, position, next, previous}
use openportal.Error
use openportal.Error.{Error, Result, ok, err, ◌>>=◌, ◌>>◌, guard}
use openportal.Peer.{Peer}
use openportal.Portal.{PortalIdentifier}
use openportal.Routes.{
  RouteTable, expected_route, is_collided, zone_has_portal_route, destination_matches_route,
}
use openportal.Job.{Domain, Job, is_expired, is_finished, is_duplicate, assert_is_not_expired}
use openportal.Job.Operations.{errored}
use openportal.Job.States.{Status}
use openportal.Board.{Command, put, update, delete, other}
use openportal.Transfer.{
  Boards, Network, Reply, reply, append_reply, and_then, put_to, update_to, delete_from, received,
  deleted,
}
use openportal.Transfer.Waiting.{World, wait}
use openportal.Transfer.Syncing.{virtual_update}
pub mod Puts
pub mod Gate
pub mod Placement
pub mod Running
pub mod Duplicates
pub mod Keeping
pub mod Arrivals
pub mod Commands
mod Tests

-- What the handler asks of its process: the routes of portals and whether they are checked, which
-- peers are itself or virtual, whether a peer connects in time, how an error prints, and the runner of
-- the service, which gets the recipient, the sender and the job. While it runs, it and other tasks may
-- change the boards, tell listeners and send commands.
pub record Agent (L : Domain) : Type 0 where
  pub routes : RouteTable
  pub verify_portal_ownership : Bool
  pub is_self : Peer → Bool
  pub is_virtual : Peer → Bool
  pub wait_for : Peer → Result (Unit {0})
  pub run : Text → Peer → Job L → Boards L → Reply L (Job L)
  pub print : Error → Text
  pub net : Network L
  pub world : World L

unfoldable pub no_collision : Option PortalIdentifier → RouteTable → Text → Result (Unit {0})
no_collision none routes zone = ok tt
no_collision (some p) routes zone =
    guard (not (is_collided routes zone p.portal)) Error.invalid_instruction

unfoldable pub check_first : Option PortalIdentifier → Destination → Result (Unit {0})
check_first none d = ok tt
check_first (some p) d = guard (p.portal == Destination.first d) Error.invalid_instruction

unfoldable pub check_route : Option Destination → Destination → Result (Unit {0})
check_route none d = ok tt
check_route (some route) d = guard (destination_matches_route d route) Error.invalid_instruction

-- The neighbour that a job goes on to.
unfoldable pub onward : Position → Text → Destination → Option Text
onward Position.upstream recipient d = previous d recipient
onward Position.downstream recipient d = next d recipient
onward _ recipient d = none

module _ {L : Domain} where
  -- `assert_no_portal_collision`
  unfoldable pub assert_no_portal_collision : Agent L → Job L → Peer → Result (Unit {0})
  assert_no_portal_collision agent job sender =
      no_collision (L.owning_portal job.command.instruction) agent.routes sender.zone

  -- `check_portal_ownership`
  unfoldable pub check_portal_ownership : Job L → Bool → Result (Unit {0})
  check_portal_ownership job false = ok tt
  check_portal_ownership job true =
      check_first (L.owning_portal job.command.instruction) job.command.destination

  -- `assert_portal_route`
  unfoldable pub assert_portal_route :
      Agent L → Job L → Option PortalIdentifier → Peer → Result (Unit {0})
  assert_portal_route agent job none sender = ok tt
  assert_portal_route agent job (some p) sender =
      check_route (expected_route agent.routes sender.zone p.portal) job.command.destination

  unfoldable pub owned_at : Position → Agent L → Job L → Peer → Result (Unit {0})
  owned_at Position.destination agent job sender =
      if agent.verify_portal_ownership && zone_has_portal_route agent.routes sender.zone
      then check_portal_ownership job true
        >> assert_portal_route agent job (L.owning_portal job.command.instruction) sender
      else ok tt
  owned_at _ agent job sender = ok tt

  -- `assert_portal_ownership`
  unfoldable pub assert_portal_ownership : Agent L → Job L → Peer → Text → Result (Unit {0})
  assert_portal_ownership agent job sender recipient =
      owned_at (position job.command.destination recipient sender.name) agent job sender

  -- The first `and` the second.
  unfoldable pub gate : Agent L → Job L → Peer → Text → Result (Unit {0})
  gate agent job sender recipient =
      assert_no_portal_collision agent job sender
      >> assert_portal_ownership agent job sender recipient

  unfoldable pub finish : {A : Type 0} → Reply L A → Reply L (Unit {0})
  finish r = and_then r (λ s a. reply s (ok tt))

  unfoldable pub tell_sender :
      Result (Job L) → ℕ → ℕ → Agent L → Peer → Boards L → Reply L (Unit {0})
  tell_sender (err e) latest now agent sender s = reply s (err e)
  tell_sender (ok job) latest now agent sender s =
      finish (update_to latest now agent.net sender job s)

  -- The job fails with the text of the error, and the sender is told.
  unfoldable pub refuse : ℕ → ℕ → Agent L → Peer → Error → Job L → Boards L → Reply L (Unit {0})
  refuse latest now agent sender e job s =
      tell_sender (errored now (agent.print e) job) latest now agent sender s

  unfoldable pub update_connected :
      Result (Unit {0}) → ℕ → ℕ → Agent L → Peer → Job L → Boards L → Reply L (Unit {0})
  update_connected (err e) latest now agent peer job s = reply s (err e)
  update_connected (ok u) latest now agent peer job s =
      finish (update_to latest now agent.net peer job s)

  unfoldable pub update_onward :
      Option Text → ℕ → ℕ → Agent L → Text → Job L → Boards L → Reply L (Unit {0})
  update_onward none latest now agent zone job s = reply s (ok tt)
  update_onward (some name) latest now agent zone job s =
      let peer : Peer = record { name = name; zone = zone } in
      update_connected (agent.wait_for peer) latest now agent peer job s

  unfoldable pub update_gated :
      Result (Unit {0}) → ℕ → ℕ → Agent L → Text → Peer → Job L → Boards L → Reply L (Unit {0})
  update_gated (err e) latest now agent recipient sender job s =
      refuse latest now agent sender e job s
  update_gated (ok u) latest now agent recipient sender job s =
      and_then (received latest now sender job s) (λ s1 k.
        update_onward
          (onward (position k.command.destination recipient sender.name) recipient
            k.command.destination)
          latest now agent sender.zone k s1)

  -- `Command::Update`
  unfoldable pub handle_update :
      ℕ → ℕ → Agent L → Text → Peer → Job L → Boards L → Reply L (Unit {0})
  handle_update latest now agent recipient sender job s =
      if is_expired now job
      then reply s (ok tt)
      else update_gated (gate agent job sender recipient) latest now agent recipient sender job s

  unfoldable pub delete_connected :
      Result (Unit {0}) → ℕ → Agent L → Peer → Job L → Boards L → Reply L (Unit {0})
  delete_connected (err e) now agent peer job s = reply s (err e)
  delete_connected (ok u) now agent peer job s = finish (delete_from now agent.net peer job s)

  unfoldable pub delete_onward :
      Option Text → ℕ → Agent L → Text → Job L → Boards L → Reply L (Unit {0})
  delete_onward none now agent zone job s = reply s (ok tt)
  delete_onward (some name) now agent zone job s =
      let peer : Peer = record { name = name; zone = zone } in
      delete_connected (agent.wait_for peer) now agent peer job s

  -- `Command::Delete`
  unfoldable pub handle_delete : ℕ → Agent L → Text → Peer → Job L → Boards L → Reply L (Unit {0})
  handle_delete now agent recipient sender job s =
      if is_expired now job
      then reply s (ok tt)
      else and_then (deleted now sender job s) (λ s1 k.
        delete_onward
          (onward (position k.command.destination recipient sender.name) recipient
            k.command.destination)
          now agent sender.zone k s1)
