-- ===== src/Job/Operations.antt =====
-- templemeads/src/job.rs: the operations by which a job changes its state, and what is read from it.
use openportal.Base.{ℕ, Bool, true, false, not, ◌&&◌, Option, none, some, ◌==◌, nat_eq, list_eq}
use openportal.Base.Text.{Text, text}
use openportal.Error.{Error, Result, ok, err, ◌>>=◌, ◌>>◌, guard}
use openportal.Destination.{last}
use openportal.Job.{
  Domain, Job, wrapping_add, is_expired, is_pending, is_finished, assert_is_not_expired,
}
use openportal.Job.Failures.{JobError, unwrap_message, infer}
use openportal.Job.States.{Status, status_eq}

-- A state from which a job may fail or take the result of another.
unfoldable pub is_open : Status → Bool
is_open Status.duplicate = true
is_open Status.pending = true
is_open Status.running = true
is_open _ = false

-- A state from which a job may run or complete.
unfoldable pub is_active : Status → Bool
is_active Status.pending = true
is_active Status.running = true
is_active _ = false

module _ {L : Domain} where
  unfoldable pub pending_from : Status → ℕ → Job L → Result (Job L)
  pending_from Status.created now j =
      ok (record j { changed = now; version = wrapping_add j.version 1; state = Status.pending })
  pending_from Status.pending now j = ok j
  pending_from _ now j = err Error.invalid_state

  -- `Job::pending`
  unfoldable pub pending : ℕ → Job L → Result (Job L)
  unfolding pending_from
  pending now j = pending_from j.state now j

  -- `Job::is_duplicate_of`
  unfoldable pub is_duplicate_of : ℕ → Job L → Job L → Bool
  is_duplicate_of now j other =
      (last j.command.destination == last other.command.destination)
      && L.instruction_eq.beq j.command.instruction other.command.instruction
      && is_pending other
      && not (is_expired now other)
      && is_pending j

  unfoldable pub duplicate_from : Status → ℕ → Job L → Job L → Result (Job L)
  duplicate_from Status.pending now j other = ok (record j {
    changed = now;
    version = wrapping_add j.version 1;
    command = other.command;
    state = Status.duplicate;
    result = some other.id;
    result_type = none;
    error = none;
  })
  duplicate_from _ now j other = err Error.invalid_state

  -- `Job::duplicate`
  unfoldable pub duplicate : ℕ → Job L → Job L → Result (Job L)
  unfolding duplicate_from
  duplicate now j other =
      guard (is_duplicate_of now j other) Error.invalid_state >> duplicate_from j.state now j other

  -- `Job::running`
  unfoldable pub running : ℕ → Option Text → Job L → Result (Job L)
  running now progress j =
      guard (is_active j.state) Error.invalid_state
      >> ok (record j {
        changed = now;
        version = wrapping_add j.version 1;
        state = Status.running;
        result = progress;
        result_type = none;
        error = none;
      })

  -- `Job::copy_result_from`
  unfoldable pub copy_result_from : ℕ → Job L → Job L → Result (Job L)
  copy_result_from now j other =
      guard (is_finished other) Error.invalid_state
      >> guard (is_open j.state) Error.invalid_state
      >> ok (record j {
        changed = now;
        version = wrapping_add j.version 1000;
        state = other.state;
        result = other.result;
        result_type = other.result_type;
        error = other.error;
      })

  -- `Job::completed`, with the JSON text of the result, if serde makes one, and its type's name.
  unfoldable pub completed : ℕ → Result Text → Text → Job L → Result (Job L)
  completed now json type_name j =
      guard (is_active j.state) Error.invalid_state >> json >>= λ value. ok (record j {
        changed = now;
        version = wrapping_add j.version 1000;
        state = Status.complete;
        result = some value;
        result_type = some type_name;
        error = none;
      })

  -- `Job::completed_none`
  unfoldable pub completed_none : ℕ → Job L → Result (Job L)
  completed_none now j =
      guard (is_active j.state) Error.invalid_state
      >> ok (record j {
        changed = now;
        version = wrapping_add j.version 1000;
        state = Status.complete;
        result = none;
        result_type = some (text "None");
        error = none;
      })

  -- `Job::errored_with`
  unfoldable pub errored_with : ℕ → JobError → Job L → Result (Job L)
  errored_with now e j =
      guard (is_open j.state) Error.invalid_state
      >> ok (record j {
        changed = now;
        version = wrapping_add j.version 1000;
        state = Status.error;
        result = some e.message;
        result_type = some (text "Error");
        error = some e;
      })

  -- `Job::errored`
  unfoldable pub errored : ℕ → Text → Job L → Result (Job L)
  errored now message j =
      errored_with now (infer message (L.error_kind_for (unwrap_message message))) j

  -- `Job::execute`, with the text of the failure it records.
  unfoldable pub execute : ℕ → Text → Job L → Result (Job L)
  execute now message j =
      assert_is_not_expired now j
      >> guard (is_pending j) Error.invalid_state
      >> errored now message j
