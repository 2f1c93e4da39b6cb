-- ===== src/Board.antt =====
-- templemeads/src/board.rs and templemeads/src/command.rs: the board of the jobs that an agent shares
-- with one peer. A `HashMap` is an association list; a `Listener` is the number of its channel, and
-- `notify` is a pair of the channel and the job, in the order in which they are sent.
use openportal.Base.{
  ℕ, zero, suc, ◌+◌, ◌-◌, ◌/◌, ◌%◌, List, [], ◌∷◌, ◌++◌, Bool, true, false, not, ◌&&◌, ◌||◌, Option,
  none, some, ◌==◌, nat_eq, list_eq, if◌then◌else◌, leb, ltb, length, is_some,
}
use openportal.Base.Text.{Text, text}
use openportal.Base.Assoc.{lookup, insert, remove, has_key}
use openportal.Error
use openportal.Error.{Result, ok, err, ◌>>◌, guard}
use openportal.Peer.{Peer}
use openportal.Job.{
  Domain, Job, saturating_add, clamp_expires, is_pending, is_finished, with_version,
  assert_is_for_board,
}
use openportal.Job.Operations.{errored, duplicate, is_duplicate_of, copy_result_from}
pub mod Add
pub mod Operations
pub mod Expiry
pub mod Entries
pub mod Adding
pub mod Keeping
pub mod Held
pub mod Answers
pub mod Reaping
pub mod Finishing
mod Tests

-- The variants of `Command`; what has no job is one variant.
pub data Command (L : Domain) : Type 0 where
  put update delete : Job L → Command L
  other : Command L

pub data JobAddState : Type 0 where
  added updated duplicated unchanged : JobAddState

pub data Waiter (L : Domain) : Type 0 where
  waiting : ℕ → Waiter L
  finished : Job L → Waiter L

pub record Board (L : Domain) : Type 0 where
  pub peer : Peer
  pub jobs : List (Text × Job L)
  pub queued_commands : List (Command L)
  pub waiters : List (Text × List ℕ)
  pub duplicates : List (Text × List Text)

abbrev pub max_plausible_job_version : ℕ
max_plausible_job_version = 1152921504606846976

abbrev pub max_jobs_per_board : ℕ
max_jobs_per_board = 10000

abbrev pub max_queued_commands : ℕ
max_queued_commands = 1000

abbrev pub max_duplicates : ℕ
max_duplicates = 100

-- A count as `{}` prints it, where `fuel` is at least the number of its digits.
unfoldable pub decimal : ℕ → ℕ → Text
decimal zero n = []
decimal (suc fuel) n =
    let rest = decimal fuel (n / 10) in (if ltb n 10 then [] else rest) ++ ((48 + n % 10) ∷ [])

-- `num_minutes` of the time since a job was created.
unfoldable pub age_minutes : ℕ → ℕ → ℕ
age_minutes now created = (now - created) / 60000000000

abbrev pub too_old_message : ℕ → Text
too_old_message age =
    text "TooManyDuplicatesError{Original job is too old ("
    ++ (decimal 20 age ++ text " minutes). Please retry.}")

abbrev pub too_many_message : ℕ → Text
too_many_message count =
    text "TooManyDuplicatesError{Maximum duplicates ("
    ++ (decimal 20 count ++ text ") reached. Please retry later.}")

abbrev pub copy_failed_message : Text
copy_failed_message = text "Failed to copy result from original job"

-- The entry of a key, or none of its values.
abbrev pub values_of {ℓ} : {A : Type ℓ} → Text → List (Text × List A) → List A
values_of k m = elim (lookup k m) [ some vs ↦ vs | none ↦ [] ]

-- `entry(k).or_default().push(v)`
abbrev pub push_value {ℓ} : {A : Type ℓ} → Text → A → List (Text × List A) → List (Text × List A)
push_value k v m = insert k (values_of k m ++ (v ∷ [])) m

-- `job_id` and `job` of a command
unfoldable pub command_job : {L : Domain} → Command L → Option (Job L)
command_job (put j) = some j
command_job (update j) = some j
command_job (delete j) = some j
command_job other = none

-- The jobs told to channels.
abbrev pub Notices : Domain → Type 0
Notices L = List (ℕ × Job L)

module _ {L : Domain} where
  abbrev pub notify_all : List ℕ → Job L → Notices L
  notify_all [] j = []
  notify_all (l ∷ ls) j = (l, j) ∷ notify_all ls j

  -- `Board::new`
  abbrev pub new : Peer → Board L
  new peer = record { peer = peer; jobs = []; queued_commands = []; waiters = []; duplicates = [] }

  -- The checks of `add`.
  unfoldable pub admit : ℕ → Job L → Board L → Result (Unit {0})
  admit now job b =
      assert_is_for_board now job b.peer
      >> guard (not (leb max_jobs_per_board (length b.jobs) && not (has_key job.id b.jobs)))
          Error.unavailable
      >> guard (leb job.version max_plausible_job_version) Error.invalid_state

  abbrev pub put_job : Job L → Board L → Board L
  put_job j b = record b { jobs = insert j.id j b.jobs }

  -- The first `match` of `add`: the job is stored when it is new or newer.
  unfoldable pub store_over : ℕ → Option (Job L) → Job L → Board L → Board L × Job L × JobAddState
  store_over now none job b = (put_job job b, job, added)
  store_over now (some j) job b =
      let newer = with_version now (saturating_add j.version 1) job in
      if ltb j.version job.version
      then (put_job job b, job, updated)
      else if ltb j.changed job.changed
      then (put_job newer b, newer, updated)
      else (b, job, unchanged)

  unfoldable pub store : ℕ → Job L → Board L → Board L × Job L × JobAddState
  unfolding store_over
  store now job b = store_over now (lookup job.id b.jobs) job b
