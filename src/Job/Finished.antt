-- ===== src/Job/Finished.antt =====
-- A finished job refuses every operation.
use openportal.Base.{ℕ, true, false, ◌||◌, ◌==◌, List, [], ◌∷◌, ◌≡◌, refl, arith}
use openportal.Error
use openportal.Error.{Result, ok, err, guard, ◌>>◌, ◌>>=◌, ok_or}
use openportal.Job.{Domain, Job, is_finished, is_pending}
use openportal.Job.Operations.{
  pending, duplicate, running, copy_result_from, completed, completed_none, errored, errored_with,
  pending_from, is_open, is_active, is_duplicate_of,
}
use openportal.Job.States.{Status, status_eq, status_beq}
use openportal.Job.Steps.{
  Operation, to_pending, to_completed_none, to_duplicate, to_copy, to_running, to_completed,
  to_errored, to_errored_with, apply,
}
use openportal.Job.Versions.{apply_all}

-- The tests of a final state.
abbrev IsFinal : Status → Type 0
IsFinal s = ((s == Status.complete) || (s == Status.error)) ≡ true

final_closed : (s : Status) → IsFinal s → is_open s ≡ false
unfolding is_open status_beq
final_closed Status.complete h = refl
final_closed Status.error h = refl
final_closed _ h = cc

final_inactive : (s : Status) → IsFinal s → is_active s ≡ false
unfolding is_active status_beq
final_inactive Status.complete h = refl
final_inactive Status.error h = refl
final_inactive _ h = cc

final_not_pending : (s : Status) → IsFinal s → (s == Status.pending) ≡ false
unfolding status_beq
final_not_pending Status.complete h = refl
final_not_pending Status.error h = refl
final_not_pending _ h = cc

module _ {L : Domain} where
  pending_from-final :
      (s : Status) (now : ℕ) (j : Job L)
      → IsFinal s
      → pending_from s now j ≡ err Error.invalid_state
  unfolding pending_from status_beq
  pending_from-final Status.complete now j h = refl
  pending_from-final Status.error now j h = refl
  pending_from-final _ now j h = cc

  not_duplicate :
      (now : ℕ) (j other : Job L) → IsFinal j.state → is_duplicate_of now j other ≡ false
  unfolding is_duplicate_of is_pending
  not_duplicate now j other h = ground (arith, final_not_pending j.state h)

  -- A completed or failed job refuses every operation: neither its state nor its result changes any
  -- more.
  pub finished-apply :
      (now : ℕ) (op : Operation L) (j : Job L)
      → is_finished j ≡ true
      → apply now op j ≡ err Error.invalid_state
  unfolding apply is_finished pending duplicate running copy_result_from completed completed_none
      errored errored_with
  finished-apply now to_pending j h = pending_from-final j.state now j h
  finished-apply now to_completed_none j h = rw (final_inactive j.state h) refl
  finished-apply now (to_duplicate other) j h = rw (not_duplicate now j other h) refl
  finished-apply now (to_copy other) j h = ground (arith, final_closed j.state h)
  finished-apply now (to_running p) j h = rw (final_inactive j.state h) refl
  finished-apply now (to_completed json t) j h = rw (final_inactive j.state h) refl
  finished-apply now (to_errored m) j h = rw (final_closed j.state h) refl
  finished-apply now (to_errored_with e) j h = rw (final_closed j.state h) refl

  -- No sequence of operations changes a finished job.
  pub apply_all-finished :
      (ops : List (ℕ × Operation L)) (j : Job L) → is_finished j ≡ true → apply_all ops j ≡ j
  unfolding apply_all
  apply_all-finished [] j h = refl
  apply_all-finished ((now, op) ∷ ops) j h =
      rw (finished-apply now op j h) (apply_all-finished ops j h)
