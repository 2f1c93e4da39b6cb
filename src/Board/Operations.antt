-- ===== src/Board/Operations.antt =====
-- templemeads/src/board.rs: the other operations of a board.
use openportal.Base.{
  ℕ, List, [], ◌∷◌, ◌++◌, Bool, true, false, Option, none, some, ◌==◌, nat_eq, list_eq,
  if◌then◌else◌, leb, ltb, length,
}
use openportal.Base.Text.{Text, text}
use openportal.Base.Assoc.{lookup, remove, has_key}
use openportal.Error
use openportal.Error.{Result, ok, err, ◌>>◌, ◌>>=◌, guard, ok_or}
use openportal.Job.{Domain, Job, is_expired, is_finished, assert_is_for_board}
use openportal.Job.Operations.{errored}
use openportal.Board.{
  Board, Command, command_job, Waiter, waiting, finished, Notices, notify_all, values_of,
  push_value, max_queued_commands,
}
use openportal.Board.Add.{finish_duplicate, wake}

module _ {L : Domain} where
  -- The first queued job with an id.
  unfoldable pub queued_job : Text → List (Command L) → Option (Job L)
  queued_job id [] = none
  queued_job id (c ∷ cs) =
      let rest = queued_job id cs in
      elim (command_job c) [ some j ↦ if j.id == id then some j else rest | none ↦ rest ]

  unfoldable pub get_from : Option (Job L) → Text → Board L → Result (Job L)
  get_from (some j) id b = ok j
  get_from none id b = elim (queued_job id b.queued_commands) [
    | some j ↦ ok j
    | none ↦ err Error.not_found
  ]

  -- `Board::get`
  unfoldable pub get : Text → Board L → Result (Job L)
  unfolding get_from
  get id b = get_from (lookup id b.jobs) id b

  unfoldable pub wait_on : Result (Job L) → ℕ → Text → Board L → Board L × Result (Waiter L)
  wait_on (ok j) channel id b =
      if is_finished j
      then (b, ok (finished j))
      else (record b { waiters = push_value id channel b.waiters }, ok (waiting channel))
  wait_on (err e) channel id b = (b, err e)

  -- `Board::get_waiter`, with the number of the new channel.
  unfoldable pub get_waiter : ℕ → Job L → Board L → Board L × Result (Waiter L)
  unfolding wait_on
  get_waiter channel job b = wait_on (get job.id b) channel job.id b

  unfoldable pub queue_job : Option (Job L) → Command L → Board L → Board L
  queue_job none command b = b
  queue_job (some j) command b =
      let removed = record b { jobs = remove j.id b.jobs } in
      if leb max_queued_commands (length b.queued_commands)
      then removed
      else record removed { queued_commands = b.queued_commands ++ (command ∷ []) }

  -- `Board::queue`
  unfoldable pub queue : Command L → Board L → Board L
  unfolding queue_job
  queue command b = queue_job (command_job command) command b

  -- `Board::take_queued`
  unfoldable pub take_queued : Board L → Board L × List (Command L)
  take_queued b = (record b { queued_commands = [] }, b.queued_commands)

  unfoldable pub changes_over : Option (Job L) → Job L → Bool
  changes_over (some j) job = ltb j.version job.version
  changes_over none job = true

  -- `Board::would_be_changed_by`
  unfoldable pub would_be_changed_by : ℕ → Job L → Board L → Bool
  would_be_changed_by now job b =
      if is_expired now job then false else changes_over (lookup job.id b.jobs) job

  unfoldable pub remove_one : ℕ → Job L → Text → Option (Job L) → Board L → Board L × Notices L
  remove_one now job id none b = (b, [])
  remove_one now job id (some dup) b =
      wake id (finish_duplicate now job dup) (record b { jobs = remove id b.jobs })

  -- The loop over the duplicates of a removed job.
  unfoldable pub remove_each : ℕ → Job L → List Text → Board L → Board L × Notices L
  remove_each now job [] b = (b, [])
  remove_each now job (id ∷ ids) b =
      let (b1, told) = remove_one now job id (lookup id b.jobs) b in
      let (b2, more) = remove_each now job ids b1 in (b2, told ++ more)

  -- What the listeners of a removed job are told.
  unfoldable pub removal_notice : ℕ → Job L → Result (Job L)
  removal_notice now job =
      if is_finished job then ok job else errored now (text "Job removed from board") job

  -- `remove` once the first listeners are told.
  unfoldable pub remove_told : ℕ → Job L → Board L → Notices L → Board L × Notices L × Result Bool
  remove_told now job b told =
      let (b1, again) = wake job.id job (record b { jobs = remove job.id b.jobs }) in
      let ids = values_of job.id b1.duplicates in
      let (b2, more) =
        remove_each now job ids (record b1 { duplicates = remove job.id b1.duplicates }) in
      (b2, told ++ (again ++ more), ok (has_key job.id b.jobs))

  unfoldable pub remove_noticed :
      Result (Job L) → ℕ → Job L → List ℕ → Board L → Board L × Notices L × Result Bool
  remove_noticed (ok k) now job channels b = remove_told now job b (notify_all channels k)
  remove_noticed (err e) now job channels b = (b, [], err e)

  unfoldable pub remove_from :
      Option (List ℕ) → ℕ → Job L → Board L → Board L × Notices L × Result Bool
  remove_from none now job b = remove_told now job b []
  remove_from (some channels) now job b =
      remove_noticed (removal_notice now job) now job channels
        (record b { waiters = remove job.id b.waiters })

  unfoldable pub remove_checked :
      Result (Unit {0}) → ℕ → Job L → Board L → Board L × Notices L × Result Bool
  remove_checked (ok u) now job b = remove_from (lookup job.id b.waiters) now job b
  remove_checked (err e) now job b = (b, [], err e)

  -- `Board::remove`
  unfoldable pub remove_job : ℕ → Job L → Board L → Board L × Notices L × Result Bool
  unfolding remove_checked
  remove_job now job b = remove_checked (assert_is_for_board now job b.peer) now job b
