-- ===== src/Job/Steps.antt =====
-- The operations of a job as steps: what each keeps, where each may lead, and its version.
use openportal.Base.{ℕ, Bool, true, false, ◌||◌, ◌==◌, Option, ◌≡◌, refl}
use openportal.Base.Text.{Text}
use openportal.Error
use openportal.Error.{Result, ok, err, guard, ◌>>◌, ok_or, ok_inj, guard-eq-ok, >>=-eq-ok}
use openportal.Job.{Domain, Job, is_finished}
use openportal.Job.Failures.{JobError}
use openportal.Job.Operations.{
  pending, duplicate, running, copy_result_from, completed, completed_none, errored, errored_with,
  pending_from, duplicate_from, is_open, is_active, is_duplicate_of,
}
use openportal.Job.States.{Status, status_eq, status_beq}
use openportal.Peer.{Peer}
use openportal.Destination.{Destination}
use mathlib.Core.Path.{subst, sym}

-- The operations that lead from one state to another, with their arguments.
pub data Operation (L : Domain) : Type 0 where
  to_pending to_completed_none : Operation L
  to_duplicate to_copy : Job L → Operation L
  to_running : Option Text → Operation L
  to_completed : Result Text → Text → Operation L
  to_errored : Text → Operation L
  to_errored_with : JobError → Operation L

-- The state graph.
pub data Transition : Status → Status → Type 0 where
  submit : Transition Status.created Status.pending
  resubmit : Transition Status.pending Status.pending
  shadow : Transition Status.pending Status.duplicate
  start : Transition Status.pending Status.running
  progress : Transition Status.running Status.running
  finish_pending : Transition Status.pending Status.complete
  finish_running : Transition Status.running Status.complete
  finish_duplicate : Transition Status.duplicate Status.complete
  fail_pending : Transition Status.pending Status.error
  fail_running : Transition Status.running Status.error
  fail_duplicate : Transition Status.duplicate Status.error

module _ {L : Domain} where
  unfoldable pub apply : ℕ → Operation L → Job L → Result (Job L)
  apply now to_pending j = pending now j
  apply now to_completed_none j = completed_none now j
  apply now (to_duplicate other) j = duplicate now j other
  apply now (to_copy other) j = copy_result_from now j other
  apply now (to_running p) j = running now p j
  apply now (to_completed json t) j = completed now json t j
  apply now (to_errored m) j = errored now m j
  apply now (to_errored_with e) j = errored_with now e j

  -- What no operation changes.
  abbrev pub frame :
      Job L → Text × ℕ × ℕ × Option Destination × Option Text × Option Text × Option Peer
  frame j = (j.id, j.created, j.expires, j.forwarded_for, j.domain, j.domain_version, j.board)

  -- What an accepted operation gives: the same job, in a state that the graph allows.
  abbrev pub Follows : Job L → Job L → Type 0
  Follows j k = (frame j ≡ frame k) × Transition j.state k.state

complete_transition : (s : Status) → is_active s ≡ true → Transition s Status.complete
unfolding is_active
complete_transition Status.pending h = finish_pending
complete_transition Status.running h = finish_running
complete_transition _ h = cc

running_transition : (s : Status) → is_active s ≡ true → Transition s Status.running
unfolding is_active
running_transition Status.pending h = start
running_transition Status.running h = progress
running_transition _ h = cc

error_transition : (s : Status) → is_open s ≡ true → Transition s Status.error
unfolding is_open
error_transition Status.pending h = fail_pending
error_transition Status.running h = fail_running
error_transition Status.duplicate h = fail_duplicate
error_transition _ h = cc

copy_transition :
    (s t : Status)
    → is_open s ≡ true
    → ((t == Status.complete) || (t == Status.error)) ≡ true
    → Transition s t
unfolding is_open status_beq
copy_transition Status.pending Status.complete h f = finish_pending
copy_transition Status.running Status.complete h f = finish_running
copy_transition Status.duplicate Status.complete h f = finish_duplicate
copy_transition s Status.error h f = error_transition s h
copy_transition _ _ h f = cc

module _ {L : Domain} where
  -- A guarded change of state.
  guarded-Follows :
      (b : Bool) (j m : Job L) {k : Job L}
      → (guard b Error.invalid_state >> ok m) ≡ ok k
      → frame j ≡ frame m
      → (b ≡ true → Transition j.state m.state)
      → Follows j k
  guarded-Follows b j m h f t =
      let (y, e) = guard-eq-ok b Error.invalid_state (ok m) h in
      subst (Follows j) (ok_inj e) (f, t y)

  guarded_twice-Follows :
      (a b : Bool) (j m : Job L) {k : Job L}
      → (guard a Error.invalid_state >> guard b Error.invalid_state >> ok m) ≡ ok k
      → frame j ≡ frame m
      → (a ≡ true → b ≡ true → Transition j.state m.state)
      → Follows j k
  guarded_twice-Follows true b j m h f t = guarded-Follows b j m h f (t refl)
  guarded_twice-Follows false b j m h f t = cc

  pending_from-Follows :
      (s : Status) (now : ℕ) (j : Job L) {k : Job L}
      → j.state ≡ s
      → pending_from s now j ≡ ok k
      → (frame j ≡ frame k) × Transition s k.state
  unfolding pending_from
  pending_from-Follows Status.created now j e h =
      subst (λ k. (frame j ≡ frame k) × Transition Status.created k.state) (ok_inj h) (refl, submit)
  pending_from-Follows Status.pending now j e h =
      subst (λ k. (frame j ≡ frame k) × Transition Status.pending k.state) (ok_inj h)
        (refl, subst (Transition Status.pending) (sym e) resubmit)
  pending_from-Follows _ now j e h = cc

  duplicate_from-Follows :
      (s : Status) (now : ℕ) (j other : Job L) {k : Job L}
      → duplicate_from s now j other ≡ ok k
      → (frame j ≡ frame k) × Transition s k.state
  unfolding duplicate_from
  duplicate_from-Follows Status.pending now j other h =
      subst (λ k. (frame j ≡ frame k) × Transition Status.pending k.state) (ok_inj h) (refl, shadow)
  duplicate_from-Follows _ now j other h = cc

  errored_with-Follows :
      (now : ℕ) (e : JobError) (j : Job L) {k : Job L} → errored_with now e j ≡ ok k → Follows j k
  unfolding errored_with
  errored_with-Follows now e j h =
      guarded-Follows (is_open j.state) j _ h refl (error_transition j.state)

  -- An accepted operation keeps the job's identity and its lifetime and moves its state along the
  -- graph: from created to pending, from pending to duplicate or running, and from these to complete
  -- or error, where it ends.
  pub apply-Follows :
      (now : ℕ) (op : Operation L) (j : Job L) {k : Job L} → apply now op j ≡ ok k → Follows j k
  unfolding apply is_finished pending duplicate running copy_result_from completed completed_none
      errored
  apply-Follows now to_pending j h = pending_from-Follows j.state now j refl h
  apply-Follows now to_completed_none j h =
      guarded-Follows (is_active j.state) j _ h refl (complete_transition j.state)
  apply-Follows now (to_duplicate other) j h =
      duplicate_from-Follows j.state now j other
        (guard-eq-ok (is_duplicate_of now j other) Error.invalid_state _ h).1
  apply-Follows now (to_copy other) j h =
      guarded_twice-Follows (is_finished other) (is_open j.state) j _ h refl
        λ f y. copy_transition j.state other.state y f
  apply-Follows now (to_running p) j h =
      guarded-Follows (is_active j.state) j _ h refl (running_transition j.state)
  apply-Follows now (to_completed json t) j h =
      let (v, g, e) = >>=-eq-ok (guard (is_active j.state) Error.invalid_state >> json) _ h in
      let (y, _) = guard-eq-ok (is_active j.state) Error.invalid_state json g in
      subst (Follows j) (ok_inj e) (refl, complete_transition j.state y)
  apply-Follows now (to_errored m) j h = errored_with-Follows now _ j h
  apply-Follows now (to_errored_with e) j h = errored_with-Follows now e j h
