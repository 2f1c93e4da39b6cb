-- ===== src/Handler/Running.antt =====
-- templemeads/src/handler.rs: when the runner of the service gets a job that was put, and to whom a job
-- goes on.
use openportal.Base.{ℕ, [], true, false, none, some, ◌≡◌, ◌⊎◌, nat_eq, list_eq}
use openportal.Base.Text.{Text}
use openportal.Destination.{Position, position, next, previous}
use openportal.Error.{Result, ok, err}
use openportal.Peer.{Peer}
use openportal.Job.{Domain, Job, is_finished, is_duplicate}
use openportal.Job.Operations.{errored}
use openportal.Job.States.{status_eq}
use openportal.Transfer.{Boards, Reply, put_to}
use openportal.Handler.{Agent}
use openportal.Handler.Puts.{run}

module _ {L : Domain} where
  -- The effects are those of a call, and so is a job that it answers with; its error makes the job fail.
  abbrev pub AnswersAs : ℕ → Agent L → Job L → Result (Job L) → Result (Job L) → Type 0
  AnswersAs now agent job (ok k) answer = answer ≡ ok k
  AnswersAs now agent job (err e) answer = answer ≡ errored now (agent.print e) job

  abbrev pub DoesAs : ℕ → Agent L → Job L → Reply L (Job L) → Reply L (Job L) → Type 0
  DoesAs now agent job call r =
      (r.boards ≡ call.boards)
      × (r.told ≡ call.told)
      × (r.sent ≡ call.sent)
      × AnswersAs now agent job call.answer r.answer

  -- The sender is directly before the recipient on the path of the job, which is no duplicate.
  abbrev pub CameDown : Text → Text → Job L → Type 0
  CameDown recipient sender job =
      (is_duplicate job ≡ false)
      × (next job.command.destination sender ≡ some recipient)
      × (previous job.command.destination recipient ≡ some sender)

  abbrev pub IsRun : ℕ → Agent L → Text → Peer → Job L → Boards L → Reply L (Job L) → Type 0
  IsRun now agent recipient sender job s r =
      CameDown recipient sender.name job
      × (position job.command.destination recipient sender.name ≡ Position.destination)
      × (is_finished job ≡ false)
      × DoesAs now agent job (agent.run recipient sender job s) r

  abbrev pub IsPassedOn :
      ℕ → ℕ → Agent L → Text → Peer → Job L → Boards L → Reply L (Job L) → Type 0
  IsPassedOn latest now agent recipient sender job s r =
      (name : Text) × CameDown recipient sender.name job
      × (next job.command.destination recipient ≡ some name)
      × DoesAs now agent job
          (put_to latest now agent.net (record { name = name; zone = sender.zone }) job s) r

  abbrev pub IsLeft : Text → Peer → Job L → Reply L (Job L) → Type 0
  IsLeft recipient sender job r =
      (r.sent ≡ [])
      × ((is_duplicate job ≡ true)
          ⊎ (position job.command.destination recipient sender.name ≡ Position.error)
          ⊎ (position job.command.destination recipient sender.name ≡ Position.upstream)
          ⊎ (position job.command.destination recipient sender.name ≡ Position.destination)
            × (is_finished job ≡ true)
          ⊎ (position job.command.destination recipient sender.name ≡ Position.downstream)
            × (next job.command.destination recipient ≡ none))

  -- The runner decides nothing unless it is called.
  abbrev pub IsPlaced :
      ℕ → ℕ → Agent L → Text → Peer → Job L → Boards L → Reply L (Job L) → Reply L (Job L) → Type 0
  IsPlaced latest now agent recipient sender job s r r' =
      IsRun now agent recipient sender job s r
      ⊎ (r' ≡ r)
        × (IsPassedOn latest now agent recipient sender job s r ⊎ IsLeft recipient sender job r)

  abbrev pub with_runner : (Text → Peer → Job L → Boards L → Reply L (Job L)) → Agent L → Agent L
  with_runner other agent = record agent { run = other }
