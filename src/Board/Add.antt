-- ===== src/Board/Add.antt =====
-- templemeads/src/board.rs, `Board::add`.
use openportal.Base.{
  ℕ, List, [], ◌∷◌, ◌++◌, Bool, true, false, not, ◌&&◌, Option, none, some, ◌==◌, nat_eq, list_eq,
  if◌then◌else◌, leb, ltb, length,
}
use openportal.Base.Text.{Text}
use openportal.Base.Assoc.{lookup, insert, remove}
use openportal.Error.{Result, ok, err, ok_or}
use openportal.Job.{Domain, Job, clamp_expires, is_pending, is_finished}
use openportal.Job.Operations.{errored, duplicate, is_duplicate_of, copy_result_from}
use openportal.Board.{
  Board, JobAddState, added, updated, duplicated, Notices, notify_all, values_of, push_value,
  put_job, store, admit, age_minutes, too_old_message, too_many_message, copy_failed_message,
  max_duplicates,
}

-- `state == JobAddState::Added || state == JobAddState::Updated`
unfoldable pub is_stored : JobAddState → Bool
is_stored added = true
is_stored updated = true
is_stored _ = false

unfoldable pub is_added : JobAddState → Bool
is_added added = true
is_added _ = false

module _ {L : Domain} where
  -- The candidate: the first other job of which this one is a duplicate.
  unfoldable pub find_original : ℕ → Job L → List (Text × Job L) → Option (Text × Job L)
  find_original now job [] = none
  find_original now job ((id, existing) ∷ m) =
      if not (id == job.id) && is_duplicate_of now job existing
      then some (id, existing)
      else find_original now job m

  -- The board and the answer after a duplicate is found: an errored job where the original is too old
  -- or has too many duplicates, else a duplicate of it. None where the change of state fails.
  unfoldable pub fail_duplicate :
      ℕ → Text → Job L → Board L → Option (Board L × Job L × JobAddState)
  fail_duplicate now message job b = elim (errored now message job) [
    | ok k ↦ some (put_job k b, k, added)
    | err _ ↦ none
  ]

  unfoldable pub record_duplicate :
      ℕ → Text → Job L → Job L → Board L → Option (Board L × Job L × JobAddState)
  record_duplicate now id existing job b = elim (duplicate now job existing) [
    | ok k ↦ some (
      record b { jobs = insert k.id k b.jobs; duplicates = push_value id k.id b.duplicates },
      k,
      duplicated,
    )
    | err _ ↦ none
  ]

  unfoldable pub settle_duplicate :
      ℕ → Text → Job L → Job L → Board L → Option (Board L × Job L × JobAddState)
  settle_duplicate now id existing job b =
      let age = age_minutes now existing.created in
      let count = length (values_of id b.duplicates) in
      if ltb 10 age
      then fail_duplicate now (too_old_message age) job b
      else if leb max_duplicates count
      then fail_duplicate now (too_many_message count) job b
      else record_duplicate now id existing job b

  -- The new state of a duplicate of a job that has finished.
  unfoldable pub finish_duplicate : ℕ → Job L → Job L → Job L
  finish_duplicate now job dup =
      if is_finished dup
      then dup
      else ok_or (copy_result_from now dup job) (ok_or (errored now copy_failed_message dup) dup)

  -- Taking the listeners of a job.
  unfoldable pub wake : Text → Job L → Board L → Board L × Notices L
  wake id j b = (record b { waiters = remove id b.waiters }, notify_all (values_of id b.waiters) j)

  unfoldable pub finish_one : ℕ → Job L → Text → Option (Job L) → Board L → Board L × Notices L
  finish_one now job id none b = (b, [])
  finish_one now job id (some dup) b =
      let done = finish_duplicate now job dup in
      wake id done (record b { jobs = insert id done b.jobs })

  -- The loop over the recorded duplicates.
  unfoldable pub finish_each : ℕ → Job L → List Text → Board L → Board L × Notices L
  finish_each now job [] b = (b, [])
  finish_each now job (id ∷ ids) b =
      let (b1, told) = finish_one now job id (lookup id b.jobs) b in
      let (b2, more) = finish_each now job ids b1 in (b2, told ++ more)

  -- The last step of `add`: listeners and duplicates learn that a job has finished.
  unfoldable pub announce : ℕ → Job L → JobAddState → Board L → Board L × Notices L
  announce now job state b =
      let (b1, told) = wake job.id job b in
      let ids = values_of job.id b1.duplicates in
      let (b2, more) =
        finish_each now job ids (record b1 { duplicates = remove job.id b1.duplicates }) in
      if is_stored state && is_finished job then (b2, told ++ more) else (b, [])

  unfoldable pub conclude :
      ℕ
      → Option (Board L × Job L × JobAddState)
      → Board L × Job L × JobAddState
      → Board L × Notices L × Result (Job L × JobAddState)
  conclude now (some (b, k, s)) _ = (b, [], ok (k, s))
  conclude now none (b, k, s) = let (b1, told) = announce now k s b in (b1, told, ok (k, s))

  -- The candidate of a new pending job, settled.
  unfoldable pub settle : ℕ → Board L × Job L × JobAddState → Option (Board L × Job L × JobAddState)
  settle now (b, job, state) = elim (find_original now job b.jobs) [
    | some (id, existing) ↦
        if is_added state && is_pending job then settle_duplicate now id existing job b else none
    | none ↦ none
  ]

  unfoldable pub add_admitted :
      ℕ → ℕ → Job L → Board L → Board L × Notices L × Result (Job L × JobAddState)
  add_admitted latest now job b =
      let stored = store now (clamp_expires latest now job) b in
      conclude now (settle now stored) stored

  unfoldable pub add_from :
      Result (Unit {0})
      → ℕ
      → ℕ
      → Job L
      → Board L
      → Board L × Notices L × Result (Job L × JobAddState)
  add_from (ok u) latest now job b = add_admitted latest now job b
  add_from (err e) latest now job b = (b, [], err e)

  -- `Board::add`
  unfoldable pub add : ℕ → ℕ → Job L → Board L → Board L × Notices L × Result (Job L × JobAddState)
  unfolding add_from
  add latest now job b = add_from (admit now job b) latest now job b
