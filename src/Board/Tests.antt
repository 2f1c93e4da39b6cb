-- ===== src/Board/Tests.antt =====
-- Boards at concrete inputs.
use openportal.Base.{
  ℕ, [], ◌∷◌, true, false, none, some, All, ◌≡◌, refl, ap, arith, nat_eq, list_eq,
}
use openportal.Base.Text.{text}
use openportal.Base.Assoc.{lookup, insert, has_key, remove}
use openportal.Error
use openportal.Error.{Result, ok, err}
use openportal.Job.{
  Job, is_expired, is_pending, is_finished, clamp_expires, expires_ceiling, ceiling, checked_add,
  assert_is_for_board, assert_is_not_expired, wrapping_add,
}
use openportal.Job.Operations.{duplicate, duplicate_from, is_duplicate_of}
use openportal.Job.States.{Status, status_beq}
use openportal.Destination.{last}
use openportal.Peer.{peer_beq}
use openportal.Job.Samples.{sample, slurm_peer, pending_job, job_with}
use openportal.Board.{
  Board, Command, command_job, new, added, duplicated, unchanged, store, store_over, admit,
  age_minutes,
}
use openportal.Board.Add.{
  add, add_from, add_admitted, settle, settle_duplicate, record_duplicate, find_original, conclude,
  announce, wake, finish_each, is_added, is_stored,
}
use openportal.Board.Expiry.{remove_expired_jobs}
use openportal.Board.Entries.{IsValid}
use openportal.Board.Keeping.{on_add, on_queue, on_take, handle_all, new-handle_all-IsValid}
use openportal.Board.Held.{add-lookup}
use openportal.Board.Reaping.{IsFresh, remove_expired_jobs-All}

abbrev board : Board sample
board = new slurm_peer

abbrev latest : ℕ
latest = 100000000000000

-- The board with one pending job.
abbrev one_job : Board sample
one_job = record board { jobs = (text "a", pending_job) ∷ [] }

abbrev second_job : Job sample
second_job = job_with (text "b") Status.pending

program : Unit {0}
unfolding add add_from add_admitted store store_over admit settle settle_duplicate record_duplicate
    find_original conclude announce wake finish_each is_added is_stored duplicate duplicate_from
    is_duplicate_of is_expired is_pending is_finished clamp_expires expires_ceiling ceiling
    checked_add assert_is_for_board assert_is_not_expired wrapping_add status_beq last peer_beq
    lookup insert has_key remove age_minutes
program = tt

first_added : add latest 2000 pending_job board ≡ (one_job, [], ok (pending_job, added))
unfolding program
first_added = refl

abbrev duplicate_job : Job sample
duplicate_job = record second_job {
  changed = 3000;
  version = 6;
  state = Status.duplicate;
  result = some (text "a");
}

abbrev two_jobs : Board sample
two_jobs = record board {
  jobs = (text "a", pending_job) ∷ (text "b", duplicate_job) ∷ [];
  duplicates = (text "a", text "b" ∷ []) ∷ [];
}

-- A second pending job with the same instruction becomes a duplicate of the first.
second_duplicated :
    add latest 3000 second_job one_job ≡ (two_jobs, [], ok (duplicate_job, duplicated))
unfolding program
second_duplicated = refl

again_unchanged : (add latest 3000 pending_job one_job).2 ≡ ok (pending_job, unchanged)
unfolding program
again_unchanged = refl

abbrev stray_job : Job sample
stray_job = record pending_job { board = none }

stray_refused : (add latest 3000 stray_job one_job).2 ≡ err Error.invalid_board
unfolding program
stray_refused = refl

one_job-IsValid : IsValid one_job
one_job-IsValid = record {
  filed = ((refl, refl), tt);
  bounded = omega arith;
  queue_bounded = omega arith;
}

new-handle_all-IsValid_example : IsValid (
    handle_all
      (on_add latest 2000 pending_job ∷ on_queue (Command.put pending_job) ∷ on_take ∷ [])
      board)
new-handle_all-IsValid_example =
    new-handle_all-IsValid slurm_peer
      (on_add latest 2000 pending_job ∷ on_queue (Command.put pending_job) ∷ on_take ∷ [])

add-lookup_example :
    lookup (text "b") (add latest 3000 second_job one_job).0.jobs ≡ some duplicate_job
add-lookup_example =
    add-lookup latest 3000 second_job one_job (ap (λ r. r.2) second_duplicated) (λ e. cc)

remove_expired_jobs-All_example :
    All (λ e. is_expired 10000 e.1 ≡ false) (remove_expired_jobs 10000 one_job).0.jobs
    × All (λ c. IsFresh 10000 (command_job c)) (remove_expired_jobs 10000 one_job).0.queued_commands
    × All (λ j. is_expired 10000 j ≡ true) (remove_expired_jobs 10000 one_job).2
remove_expired_jobs-All_example = remove_expired_jobs-All 10000 one_job one_job-IsValid
