-- ===== src/Transfer/Waiting.antt =====
-- templemeads/src/job.rs: `_wait`, `wait` and `try_wait`. What the listener of a channel hears, and
-- what happens to the boards while a task waits for it, are a parameter.
use openportal.Base.{[], ℕ, zero, suc, ◌||◌, Option, none, some, nat_beq, if◌then◌else◌}
use openportal.Error
use openportal.Error.{Result, ok, err, ◌>>=◌}
use openportal.Peer.{Peer}
use openportal.Job.{Domain, Job, is_expired, is_finished}
use openportal.Board.{Waiter, waiting, finished}
use openportal.Board.Operations.{get_waiter}
use openportal.Transfer.{Boards, get_board, on_board}

-- The number of a new channel, and what a task hears on a channel, with the boards at that time; with a
-- timeout it may hear nothing.
pub record World (L : Domain) : Type 0 where
  pub channel : Boards L → ℕ
  pub now : Boards L → ℕ
  pub hears : ℕ → Boards L → Boards L × Result (Job L)
  pub hears_within : ℕ → ℕ → Boards L → Boards L × Result (Option (Job L))

module _ {L : Domain} where
  -- `get_waiter` on a board, which tells nobody anything.
  unfoldable pub waiter_at : World L → Peer → Job L → Boards L → Boards L × Result (Waiter L)
  waiter_at w agent job s =
      let (s1, told, r) =
        on_board (λ b. let (b1, r) = get_waiter (w.channel s) job b in (b1, [], r)) agent
          (get_board agent s) in
      (s1, r)

  unfoldable pub hear : World L → Boards L × Result (Waiter L) → Boards L × Result (Job L)
  hear w (s, err e) = (s, err e)
  hear w (s, ok (finished job)) = (s, ok job)
  hear w (s, ok (waiting channel)) = w.hears channel s

  unfoldable pub wait_at : Option Peer → World L → Job L → Boards L → Boards L × Result (Job L)
  wait_at none w job s = (s, err Error.invalid_board)
  wait_at (some agent) w job s = hear w (waiter_at w agent job s)

  -- `Job::_wait`
  unfoldable pub wait_once : World L → Job L → Boards L → Boards L × Result (Job L)
  wait_once w job s =
      if is_finished job || is_expired (w.now s) job then (s, ok job) else wait_at job.board w job s

  -- The loop of `wait`, by the waits that are left of ten.
  unfoldable pub wait_more : ℕ → World L → Boards L × Result (Job L) → Boards L × Result (Job L)
  wait_more n w (s, err e) = (s, err e)
  wait_more zero w (s, ok job) = (s, if is_finished job then ok job else err Error.invalid_state)
  wait_more (suc n) w (s, ok job) =
      let again = wait_more n w (wait_once w job s) in
      if is_finished job then (s, ok job) else again

  -- `Job::wait`
  unfoldable pub wait : World L → Job L → Boards L → Boards L × Result (Job L)
  wait w job s = wait_more 10 w (wait_once w job s)

  unfoldable pub hear_within :
      ℕ → World L → Boards L × Result (Waiter L) → Boards L × Result (Option (Job L))
  hear_within timeout w (s, err e) = (s, err e)
  hear_within timeout w (s, ok (finished job)) = (s, ok (some job))
  hear_within timeout w (s, ok (waiting channel)) = w.hears_within timeout channel s

  unfoldable pub try_wait_at :
      Option Peer → ℕ → World L → Job L → Boards L → Boards L × Result (Option (Job L))
  try_wait_at none timeout w job s = (s, err Error.invalid_board)
  try_wait_at (some agent) timeout w job s = hear_within timeout w (waiter_at w agent job s)

  abbrev pub some_of : Boards L × Result (Job L) → Boards L × Result (Option (Job L))
  some_of (s, r) = (s, r >>= λ job. ok (some job))

  -- `Job::try_wait`
  unfoldable pub try_wait : ℕ → World L → Job L → Boards L → Boards L × Result (Option (Job L))
  try_wait timeout w job s =
      if is_finished job || is_expired (w.now s) job
      then (s, ok (some job))
      else if nat_beq timeout 0
      then some_of (wait w job s)
      else try_wait_at job.board timeout w job s
