-- ===== src/Handler/Tests.antt =====
-- Concrete agents and jobs for the theorems on the handler of control messages.
use openportal.Base.{
  List, [], ◌∷◌, true, false, none, Bool, ◌==◌, ◌≡◌, refl, nat_eq, list_eq, if◌then◌else◌,
}
use openportal.Base.Text.{Text, text}
use openportal.Base.Assoc.{lookup}
use openportal.Destination
use openportal.Destination.{
  Position, first, last, position, position_internal, index_of, next, previous,
}
use openportal.Error.{ok}
use openportal.Peer.{Peer, peer_eq}
use openportal.Job.{Job, is_finished}
use openportal.Job.Samples.{sample, slurm_peer, pending_job, failed_job}
use openportal.Routes.{
  RouteTable, key, expected_route, is_collided, zone_has_portal_route, destination_matches_route,
}
use openportal.Board.{new}
use openportal.Transfer.{Boards, Reply, reply, received}
use openportal.Transfer.Waiting.{World, wait}
use openportal.Handler.{
  Agent, gate, assert_no_portal_collision, no_collision, assert_portal_ownership, owned_at,
  check_portal_ownership, check_first, check_route, assert_portal_route, handle_update,
}
use openportal.Handler.Puts.{
  run, step_of, step_at, run_unless_finished, wait_duplicate, still_waited, handle_put, put_gated,
  put_received, place_job, answer_put, take_step, failed_with,
}
use openportal.Handler.Commands.{Arrival, put_arrives, update_arrives, delete_arrives}
use openportal.Handler.Gate.{IsOwnedBy, gate-IsOwnedBy}
use openportal.Handler.Duplicates.{wait_duplicate_once}

program : Unit {0}
unfolding gate assert_no_portal_collision no_collision assert_portal_ownership owned_at
    check_portal_ownership check_first check_route assert_portal_route expected_route is_collided
    zone_has_portal_route destination_matches_route first position position_internal
    Destination.place index_of next previous last lookup step_of step_at run_unless_finished
    is_finished wait_duplicate still_waited handle_put handle_update put_gated put_received
    place_job answer_put take_step failed_with
program = tt

abbrev route_table : RouteTable
route_table = record {
  routes =
      (
        key (text "default") (record { portal = text "brics" }),
        record {
          route = record { agents = text "brics" ∷ text "slurm" ∷ [] };
          learned_from = none;
        },
      )
      ∷ [];
  collided = [];
}

abbrev quiet : World sample
quiet = record {
  channel = λ s. 7;
  now = λ s. 2000;
  hears = λ channel s. (s, ok failed_job);
  hears_within = λ timeout channel s. (s, ok none);
}

-- A service that writes the job's failure on the board of another peer.
abbrev runner_of : Text → Peer → Job sample → Boards sample → Reply sample (Job sample)
runner_of recipient sender job s = received 100000000000000 2000 slurm_peer failed_job s

abbrev idle : Text → Peer → Job sample → Boards sample → Reply sample (Job sample)
idle recipient sender job s = reply s (ok job)

abbrev agent : Agent sample
agent = record {
  routes = route_table;
  verify_portal_ownership = true;
  is_self = λ p. p.name == text "slurm";
  is_virtual = λ p. false;
  wait_for = λ p. ok tt;
  run = runner_of;
  print = λ e. text "failed";
  net = λ c p. ok tt;
  world = quiet;
}

abbrev brics_peer : Peer
brics_peer = record { name = text "brics"; zone = text "default" }

is_last :
    position pending_job.command.destination (text "slurm") brics_peer.name ≡ Position.destination
unfolding program
is_last = refl

knows_a_route : zone_has_portal_route agent.routes brics_peer.zone ≡ true
unfolding program
knows_a_route = refl

gate_opens : gate agent pending_job brics_peer (text "slurm") ≡ ok tt
unfolding program
gate_opens = refl

gate-IsOwnedBy_example :
    (is_collided route_table (text "default") (text "brics") ≡ false)
    × IsOwnedBy agent pending_job brics_peer (record { portal = text "brics" })
gate-IsOwnedBy_example =
    gate-IsOwnedBy agent pending_job brics_peer (text "slurm") (record { portal = text "brics" })
      refl is_last refl knows_a_route gate_opens

runs_here : step_of (text "slurm") brics_peer pending_job ≡ run
unfolding program
runs_here = refl

abbrev with_job : Boards sample
with_job = (slurm_peer, record (new slurm_peer) { jobs = (text "a", pending_job) ∷ [] }) ∷ []

wait_duplicate_once_example : wait_duplicate 3 2000 quiet (with_job, ok pending_job) ≡ (
    if is_finished pending_job then (with_job, ok pending_job) else wait quiet pending_job with_job)
wait_duplicate_once_example = wait_duplicate_once 2 2000 quiet pending_job with_job

abbrev arrivals : List (Arrival sample × Bool)
arrivals =
    (put_arrives 100000000000000 2000 (text "slurm") brics_peer pending_job, false)
    ∷ (update_arrives 100000000000000 2000 (text "brics") slurm_peer failed_job, false)
    ∷ (put_arrives 100000000000000 2000 (text "slurm") brics_peer pending_job, true)
    ∷ (delete_arrives 100000000000000 2000 (text "slurm") brics_peer pending_job, false)
    ∷ []
