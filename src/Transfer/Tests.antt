-- ===== src/Transfer/Tests.antt =====
-- Concrete boards, jobs and networks for the theorems on sending.
use openportal.Base.{
  ℕ, List, [], ◌∷◌, true, false, none, some, All, ◌≡◌, ◌⊎◌, refl, arith, nat_eq, list_eq,
}
use openportal.Base.Text.{text}
use openportal.Base.Assoc.{lookup, insert, has_key, remove}
use openportal.Destination.{last, position, position_internal, place, index_of}
use openportal.Error
use openportal.Error.{Result, ok, err}
use openportal.Job.{
  Job, is_expired, is_pending, is_finished, clamp_expires, expires_ceiling, ceiling, checked_add,
  assert_is_for_board, assert_is_not_expired, wrapping_add,
}
use openportal.Job.Operations.{duplicate, duplicate_from, is_duplicate_of, pending, pending_from}
use openportal.Job.States.{Status, status_beq}
use openportal.Job.Samples.{sample, slurm_peer, pending_job, job_with, failed_job}
use openportal.Peer.{peer_beq, peer_eq}
use openportal.Board.{
  Board, unchanged, duplicated, put, update, command_job, new, store, store_over, admit,
  age_minutes,
}
use openportal.Board.Add.{
  add, add_from, add_admitted, settle, settle_duplicate, record_duplicate, find_original, conclude,
  announce, wake, finish_each, is_added, is_stored,
}
use openportal.Board.Operations.{
  queue, queue_job, get_waiter, wait_on, get, get_from, would_be_changed_by, changes_over,
}
use openportal.Transfer.{
  Boards, Network, reply, open_board, get_board, on_board, add_at, queue_on, after_send,
  send_or_queue, deliver, put_job, put_to, update_job, update_to, is_unsent, is_unchanged,
}
use openportal.Transfer.Waiting.{
  World, waiter_at, hear, wait_at, wait_once, wait_more, wait, try_wait,
}
use openportal.Transfer.Syncing.{commands_for, use_of, use_in, use_at, send_queued}
use openportal.Transfer.Boards.{AreValid}
use openportal.Transfer.Runs.{puts, resends, syncs, cleans, perform_all, perform_all-AreValid}
use openportal.Transfer.Sending.{IsPlaced, put_to-IsPlaced}
use openportal.Transfer.Waits.{wait_expired}
use openportal.Transfer.Queued.{send_queued_lost}
use openportal.Transfer.Selection.{IsTaken, commands_for-IsTaken}

program : Unit {0}
unfolding add add_from add_admitted store store_over admit settle settle_duplicate record_duplicate
    find_original conclude announce wake finish_each is_added is_stored duplicate duplicate_from
    is_duplicate_of is_expired is_pending is_finished clamp_expires expires_ceiling ceiling
    checked_add assert_is_for_board assert_is_not_expired wrapping_add status_beq last peer_beq
    lookup insert has_key remove age_minutes queue queue_job open_board get_board on_board add_at
    queue_on after_send send_or_queue deliver put_job put_to update_job update_to is_unsent
    is_unchanged pending pending_from get_waiter wait_on get get_from waiter_at hear wait_at
    wait_once wait_more wait command_job commands_for use_of use_in use_at would_be_changed_by
    changes_over position position_internal place index_of
program = tt

abbrev latest : ℕ
latest = 100000000000000

abbrev offline : Network sample
offline c peer = err Error.delivery

abbrev none_yet : Boards sample
none_yet = []

abbrev after_put : Boards sample
after_put = (slurm_peer, record (new slurm_peer) { queued_commands = put pending_job ∷ [] }) ∷ []

put_answers : (put_to latest 2000 offline slurm_peer pending_job none_yet).answer ≡ ok pending_job
unfolding program
put_answers = refl

put_queues : (put_to latest 2000 offline slurm_peer pending_job none_yet).boards ≡ after_put
unfolding program
put_queues = refl

put_to-IsPlaced_example :
    (j : Job sample) × (pending 2000 pending_job ≡ ok j)
    × IsPlaced
        (λ t. (t ≡ unchanged) ⊎ (t ≡ duplicated))
        offline
        put
        slurm_peer
        (add_at latest 2000 slurm_peer j none_yet).2
        pending_job
        (put_to latest 2000 offline slurm_peer pending_job none_yet)
put_to-IsPlaced_example =
    put_to-IsPlaced latest 2000 offline slurm_peer pending_job pending_job none_yet put_answers

update_answers :
    (update_to latest 2000 offline slurm_peer failed_job none_yet).answer ≡ ok failed_job
unfolding program
update_answers = refl

perform_all-AreValid_example : AreValid (
    perform_all
      (puts latest 2000 offline slurm_peer pending_job
        ∷ syncs 2000 2000 (text "brics") slurm_peer (failed_job ∷ [])
        ∷ resends latest 3000 offline slurm_peer
        ∷ cleans 9500 (text "brics")
        ∷ [])
      none_yet)
perform_all-AreValid_example =
    perform_all-AreValid
      (puts latest 2000 offline slurm_peer pending_job
        ∷ syncs 2000 2000 (text "brics") slurm_peer (failed_job ∷ [])
        ∷ resends latest 3000 offline slurm_peer
        ∷ cleans 9500 (text "brics")
        ∷ [])
      none_yet (omega arith, tt)

-- The first channel hears that the job has failed.
abbrev world : ℕ → World sample
world now = record {
  channel = λ s. 7;
  now = λ s. now;
  hears = λ channel s. (s, ok failed_job);
  hears_within = λ timeout channel s. (s, ok none);
}

abbrev with_job : Boards sample
with_job = (slurm_peer, record (new slurm_peer) { jobs = (text "a", pending_job) ∷ [] }) ∷ []

wait_hears : (wait (world 2000) pending_job with_job).1 ≡ ok failed_job
unfolding program
wait_hears = refl

pending_is_open : is_finished pending_job ≡ false
unfolding program
pending_is_open = refl

expired_later : is_expired 10000 pending_job ≡ true
unfolding program
expired_later = refl

wait_expired_example :
    (wait (world 10000) pending_job with_job ≡ (with_job, err Error.invalid_state))
    × (try_wait 5 (world 10000) pending_job with_job ≡ (with_job, ok (some pending_job)))
wait_expired_example =
    wait_expired (world 10000) pending_job with_job 5 pending_is_open expired_later

abbrev two_queued : Board sample
two_queued = record (new slurm_peer) {
  queued_commands =
      put pending_job ∷ put (record (job_with (text "b") Status.pending) { expires = 90000 }) ∷ [];
}

finds_queue : lookup slurm_peer ((slurm_peer, two_queued) ∷ []) ≡ some two_queued
unfolding program
finds_queue = refl

first_job : command_job (put pending_job) ≡ some pending_job
unfolding program
first_job = refl

send_queued_lost_example :
    send_queued latest 10000 offline slurm_peer ((slurm_peer, two_queued) ∷ [])
    ≡ reply
        (insert slurm_peer
          (record two_queued { queued_commands = [] })
          ((slurm_peer, two_queued) ∷ []))
        (err Error.expired)
send_queued_lost_example =
    send_queued_lost latest 10000 offline slurm_peer (put pending_job)
      (put (record (job_with (text "b") Status.pending) { expires = 90000 }) ∷ []) pending_job
      two_queued ((slurm_peer, two_queued) ∷ []) finds_queue refl first_job expired_later

abbrev synced : List (Job sample)
synced =
    failed_job
    ∷ record pending_job { id = text "b" }
    ∷ record pending_job { id = text "c"; expires = 10 }
    ∷ []

sync_runs :
    commands_for 2000 2000
      (text "slurm")
      (record { name = text "brics"; zone = text "default" })
      synced
      (new slurm_peer)
    ≡ update failed_job ∷ put (record pending_job { id = text "b" }) ∷ []
unfolding program
sync_runs = refl

commands_for-IsTaken_example :
    All
      (IsTaken 2000 2000
        (text "slurm")
        (record { name = text "brics"; zone = text "default" })
        (new slurm_peer))
      (commands_for 2000 2000
        (text "slurm")
        (record { name = text "brics"; zone = text "default" })
        synced
        (new slurm_peer))
commands_for-IsTaken_example =
    commands_for-IsTaken 2000 2000 (text "slurm")
      (record { name = text "brics"; zone = text "default" }) synced (new slurm_peer)
