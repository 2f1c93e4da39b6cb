-- ===== src/Handler/Puts.antt =====
-- templemeads/src/handler.rs: what an agent does with a job that a peer puts.
use openportal.Base.{ℕ, zero, suc, Option, none, some, nat_eq, list_eq, if◌then◌else◌, nat_beq}
use openportal.Base.Text.{Text, text}
use openportal.Destination.{Destination, Position, position, next}
use openportal.Error.{Error, Result, ok, err, ◌>>=◌, ◌>>◌}
use openportal.Peer.{Peer}
use openportal.Job.{Domain, Job, is_expired, is_finished, is_duplicate, assert_is_not_expired}
use openportal.Job.Operations.{errored}
use openportal.Job.States.{Status}
use openportal.Transfer.{Boards, Reply, reply, append_reply, and_then, put_to, update_to, received}
use openportal.Transfer.Waiting.{World, wait}
use openportal.Transfer.Syncing.{virtual_update}
use openportal.Handler.{Agent, gate, finish, refuse}

-- What is done with a job that was put: it goes on, it is run, it stays as it is, or it fails.
pub data Step : Type 0 where
  forward : Text → Step
  run keep : Step
  fail : Text → Step

abbrev pub forward_or_keep : Option Text → Step
forward_or_keep (some name) = forward name
forward_or_keep none = keep

-- `match job.state()` at the destination
unfoldable pub run_unless_finished : Status → Step
run_unless_finished Status.complete = keep
run_unless_finished Status.error = keep
run_unless_finished _ = run

unfoldable pub step_at : Position → Text → Destination → Status → Step
step_at Position.downstream recipient d state = forward_or_keep (next d recipient)
step_at Position.destination recipient d state = run_unless_finished state
step_at Position.error recipient d state = fail (text "Job has got into an errored position")
step_at Position.upstream recipient d state = fail (text "Job has got into an unknown position")

module _ {L : Domain} where
  unfoldable pub step_of : Text → Peer → Job L → Step
  step_of recipient sender job =
      step_at (position job.command.destination recipient sender.name) recipient
        job.command.destination job.state

  -- The job that a failed step leaves.
  unfoldable pub failed_with : ℕ → Agent L → Job L → Result (Job L) → Result (Job L)
  failed_with now agent job (ok k) = ok k
  failed_with now agent job (err e) = errored now (agent.print e) job

  unfoldable pub take_step :
      Step → ℕ → ℕ → Agent L → Text → Peer → Job L → Boards L → Reply L (Job L)
  take_step (forward name) latest now agent recipient sender job s =
      let r = put_to latest now agent.net (record { name = name; zone = sender.zone }) job s in
      record r { answer = failed_with now agent job r.answer }
  take_step run latest now agent recipient sender job s =
      let r = agent.run recipient sender job s in
      record r { answer = failed_with now agent job r.answer }
  take_step keep latest now agent recipient sender job s = reply s (ok job)
  take_step (fail message) latest now agent recipient sender job s =
      reply s (errored now message job)

  abbrev pub reply_of : Boards L × Result (Job L) → Reply L (Job L)
  reply_of (s, r) = reply s r

  unfoldable pub still_waited : ℕ → Boards L × Result (Job L) → Boards L × Result (Job L)
  still_waited now (s, r) =
      (s, r >>= λ k. if is_finished k then ok k else (assert_is_not_expired now k >> ok k))

  -- `while !job.is_finished()` for a duplicate, with the rounds that are left: one is enough, since `wait`
  -- answers only with a finished job or an error.
  unfoldable pub wait_duplicate :
      ℕ → ℕ → World L → Boards L × Result (Job L) → Boards L × Result (Job L)
  wait_duplicate n now w (s, err e) = (s, err e)
  wait_duplicate zero now w (s, ok job) = (s, if is_finished job then ok job else err Error.bug)
  wait_duplicate (suc n) now w (s, ok job) =
      let again = wait_duplicate n now w (still_waited now (wait w job s)) in
      if is_finished job then (s, ok job) else again

  unfoldable pub place_job : ℕ → ℕ → Agent L → Text → Peer → Job L → Boards L → Reply L (Job L)
  place_job latest now agent recipient sender job s =
      let waited = reply_of (wait_duplicate 1 now agent.world (s, ok job)) in
      let stepped =
        take_step (step_of recipient sender job) latest now agent recipient sender job s in
      if is_duplicate job then waited else stepped

  -- The update that tells the sender of the result.
  unfoldable pub answer_put :
      ℕ → ℕ → Agent L → Text → Peer → ℕ → Job L → Boards L → Reply L (Unit {0})
  answer_put latest now agent recipient sender version job s =
      let peer : Peer = record { name = recipient; zone = sender.zone } in
      if nat_beq job.version version
      then reply s (ok tt)
      else if agent.is_self peer
      then finish (update_to latest now agent.net sender job s)
      else if agent.is_virtual peer
      then finish (virtual_update latest now agent.net peer sender job s)
      else reply s (ok tt)

  unfoldable pub put_received :
      Result (Job L) → ℕ → ℕ → Agent L → Text → Peer → Job L → Boards L → Reply L (Unit {0})
  put_received (err e) latest now agent recipient sender job s =
      refuse latest now agent sender e job s
  put_received (ok k) latest now agent recipient sender job s =
      and_then (place_job latest now agent recipient sender k s)
        (λ s1 done. answer_put latest now agent recipient sender k.version done s1)

  unfoldable pub put_gated :
      Result (Unit {0}) → ℕ → ℕ → Agent L → Text → Peer → Job L → Boards L → Reply L (Unit {0})
  put_gated (err e) latest now agent recipient sender job s = refuse latest now agent sender e job s
  put_gated (ok u) latest now agent recipient sender job s =
      let r = received latest now sender job s in
      append_reply r.told r.sent
        (put_received r.answer latest now agent recipient sender job r.boards)

  -- `Command::Put`
  unfoldable pub handle_put : ℕ → ℕ → Agent L → Text → Peer → Job L → Boards L → Reply L (Unit {0})
  handle_put latest now agent recipient sender job s =
      if is_expired now job
      then reply s (ok tt)
      else put_gated (gate agent job sender recipient) latest now agent recipient sender job s
