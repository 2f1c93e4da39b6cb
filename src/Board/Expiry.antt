-- ===== src/Board/Expiry.antt =====
-- templemeads/src/board.rs, `Board::remove_expired_jobs` and `Board::job_stats`.
use openportal.Base.{
  ℕ, suc, List, [], ◌∷◌, ◌++◌, not, ◌&&◌, Option, none, some, ◌==◌, nat_eq, list_eq, if◌then◌else◌,
  length,
}
use openportal.Base.Text.{Text, text}
use openportal.Base.Assoc.{lookup, remove}
use openportal.Error.{ok_or}
use openportal.Destination.{first, last}
use openportal.Job.{
  Domain, Job, is_expired, is_pending, is_running, is_finished, is_duplicate, is_error,
}
use openportal.Job.Operations.{errored}
use openportal.Board.{Board, Command, command_job, Notices, values_of}
use openportal.Board.Add.{wake}

module _ {L : Domain} where
  -- The expired jobs of the map.
  unfoldable pub expired_jobs : ℕ → List (Text × Job L) → List (Job L)
  expired_jobs now [] = []
  expired_jobs now ((id, j) ∷ m) =
      let rest = expired_jobs now m in if is_expired now j then j ∷ rest else rest

  unfoldable pub retain_one :
      Option (Job L)
      → ℕ
      → Command L
      → List (Job L) × List (Command L)
      → List (Job L) × List (Command L)
  retain_one (some j) now c (dropped, kept) =
      if is_expired now j then (j ∷ dropped, kept) else (dropped, c ∷ kept)
  retain_one none now c (dropped, kept) = (dropped, c ∷ kept)

  -- The expired jobs among the queued commands, and the commands that are kept.
  unfoldable pub retain_queued : ℕ → List (Command L) → List (Job L) × List (Command L)
  retain_queued now [] = ([], [])
  retain_queued now (c ∷ cs) = retain_one (command_job c) now c (retain_queued now cs)

  -- An expired job in the form that is returned.
  unfoldable pub expired_form : ℕ → Job L → Job L
  expired_form now job =
      if is_finished job then job else ok_or (errored now (text "Job expired") job) job

  unfoldable pub expire_duplicate : ℕ → Job L → Job L
  expire_duplicate now dup =
      if not (is_finished dup) && not (is_expired now dup)
      then ok_or (errored now (text "Original job expired") dup) dup
      else dup

  -- A duplicate of an expired job is told to its listeners and removed.
  unfoldable pub drop_one : ℕ → Text → Option (Job L) → Board L → Board L × Notices L
  drop_one now id none b = (record b { jobs = remove id b.jobs }, [])
  drop_one now id (some dup) b =
      wake id (expire_duplicate now dup) (record b { jobs = remove id b.jobs })

  unfoldable pub drop_each : ℕ → List Text → Board L → Board L × Notices L
  drop_each now [] b = (b, [])
  drop_each now (id ∷ ids) b =
      let (b1, told) = drop_one now id (lookup id b.jobs) b in
      let (b2, more) = drop_each now ids b1 in (b2, told ++ more)

  -- One round of the loop, with the job in its returned form.
  unfoldable pub expire_one : ℕ → Job L → Board L → Board L × Notices L
  expire_one now job b =
      let (b1, told) = wake job.id job b in
      let ids = values_of job.id b1.duplicates in
      let (b2, more) = drop_each now ids (record b1 { duplicates = remove job.id b1.duplicates }) in
      (record b2 { jobs = remove job.id b2.jobs }, told ++ more)

  unfoldable pub expire_each : ℕ → List (Job L) → Board L → Board L × Notices L × List (Job L)
  expire_each now [] b = (b, [], [])
  expire_each now (j ∷ js) b =
      let job = expired_form now j in
      let (b1, told) = expire_one now job b in
      let (b2, more, rest) = expire_each now js b1 in (b2, told ++ more, job ∷ rest)

  -- `Board::remove_expired_jobs`
  unfoldable pub remove_expired_jobs : ℕ → Board L → Board L × Notices L × List (Job L)
  remove_expired_jobs now b =
      let (dropped, kept) = retain_queued now b.queued_commands in
      expire_each now (expired_jobs now b.jobs ++ dropped) (record b { queued_commands = kept })

pub record BoardJobStats : Type 0 where
  pub active : ℕ
  pub pending : ℕ
  pub running : ℕ
  pub completed : ℕ
  pub duplicates : ℕ
  pub successful : ℕ
  pub expired : ℕ
  pub errored : ℕ
  pub in_flight : ℕ
  pub queued : ℕ

abbrev pub default_stats : BoardJobStats
default_stats = record {
  active = 0;
  pending = 0;
  running = 0;
  completed = 0;
  duplicates = 0;
  successful = 0;
  expired = 0;
  errored = 0;
  in_flight = 0;
  queued = 0;
}

module _ {L : Domain} where
  -- A finished job in the statistics.
  unfoldable pub count_finished : ℕ → Job L → BoardJobStats → BoardJobStats
  count_finished now j s =
      let t = record s { completed = suc s.completed } in
      if is_expired now j
      then record t { expired = suc t.expired }
      else if is_error j
      then record t { errored = suc t.errored }
      else record t { successful = suc t.successful }

  -- One round of the loop.
  unfoldable pub count_job : ℕ → Text → Job L → BoardJobStats → BoardJobStats
  count_job now my_name j s =
      let is_final_destination = last j.command.destination == my_name in
      let is_sender = first j.command.destination == my_name in
      if not is_sender && not is_final_destination
      then record s { in_flight = suc s.in_flight }
      else if is_pending j
      then record s { pending = suc s.pending }
      else if is_running j
      then record s { running = suc s.running }
      else if is_finished j
      then count_finished now j s
      else if is_duplicate j
      then record s { duplicates = suc s.duplicates }
      else s

  unfoldable pub count_jobs : ℕ → Text → List (Text × Job L) → BoardJobStats → BoardJobStats
  count_jobs now my_name [] s = s
  count_jobs now my_name ((id, j) ∷ m) s = count_jobs now my_name m (count_job now my_name j s)

  -- `Board::job_stats`
  unfoldable pub job_stats : ℕ → Text → Board L → BoardJobStats
  job_stats now my_name b = record (count_jobs now my_name b.jobs default_stats) {
    active = length b.jobs;
    queued = length b.queued_commands;
  }

  -- `Board::sync_state`
  unfoldable pub sync_state : Board L → List (Job L)
  sync_state b = values b.jobs
    where
      values : List (Text × Job L) → List (Job L)
      values [] = []
      values ((id, j) ∷ m) = j ∷ values m
