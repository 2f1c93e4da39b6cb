-- ===== src/Transfer/Waits.antt =====
-- templemeads/src/job.rs: what `wait` answers with.
use openportal.Base.{ℕ, zero, suc, Bool, true, false, ◌||◌, some, ◌≡◌, refl, arith, if◌then◌else◌}
use openportal.Error
use openportal.Error.{Result, ok, err, ok_inj}
use openportal.Job.{Domain, Job, is_expired, is_finished}
use openportal.Transfer.{Boards}
use openportal.Transfer.Waiting.{World, wait_once, wait_more, wait, try_wait}
use mathlib.Core.Path.{subst}

module _ {L : Domain} where
  wait_more-finished :
      (n : ℕ) (w : World L) (r : Boards L × Result (Job L)) (k : Job L)
      → (wait_more n w r).1 ≡ ok k
      → is_finished k ≡ true
  unfolding wait_more
  wait_more-finished n w (s, err e) k h = cc
  wait_more-finished zero w (s, ok job) k h = step (is_finished job) refl h
    where
      step :
          (b : Bool)
          → is_finished job ≡ b
          → (if b then ok job else err Error.invalid_state) ≡ ok k
          → is_finished k ≡ true
      step true e h = subst (λ j. is_finished j ≡ true) (ok_inj h) e
      step false e h = cc
  wait_more-finished (suc n) w (s, ok job) k h =
      step (is_finished job) refl h (wait_more-finished n w (wait_once w job s) k)
    where
      step :
          (b : Bool)
          → is_finished job ≡ b
          → (if b then (s, ok job) else wait_more n w (wait_once w job s)).1 ≡ ok k
          → ((wait_more n w (wait_once w job s)).1 ≡ ok k → is_finished k ≡ true)
          → is_finished k ≡ true
      step true e h rest = subst (λ j. is_finished j ≡ true) (ok_inj h) e
      step false e h rest = rest h

  wait_once-now :
      (w : World L) (job : Job L) (s : Boards L)
      → (is_finished job || is_expired (w.now s) job) ≡ true
      → wait_once w job s ≡ (s, ok job)
  unfolding wait_once
  wait_once-now w job s e = rw e refl

  wait_more-expired :
      (n : ℕ) (w : World L) (job : Job L) (s : Boards L)
      → is_finished job ≡ false
      → is_expired (w.now s) job ≡ true
      → wait_more n w (s, ok job) ≡ (s, err Error.invalid_state)
  unfolding wait_more
  wait_more-expired zero w job s f e = rw f refl
  wait_more-expired (suc n) w job s f e =
      rw (f, wait_once-now w job s (ground (arith, f, e))) (wait_more-expired n w job s f e)

  -- Whatever happens while the task waits: the job that `wait` answers with has finished.
  pub wait-is_finished :
      (w : World L) (job k : Job L) (s : Boards L) → (wait w job s).1 ≡ ok k → is_finished k ≡ true
  unfolding wait
  wait-is_finished w job k s h = wait_more-finished 10 w (wait_once w job s) k h

  -- A job that has expired unfinished is not answered with: `wait` fails on it after ten rounds that
  -- change nothing, where `try_wait`, with any timeout, answers with the same job at once.
  pub wait_expired :
      (w : World L) (job : Job L) (s : Boards L) (timeout : ℕ)
      → is_finished job ≡ false
      → is_expired (w.now s) job ≡ true
      → (wait w job s ≡ (s, err Error.invalid_state))
        × (try_wait timeout w job s ≡ (s, ok (some job)))
  unfolding wait try_wait
  wait_expired w job s timeout f e = (
    rw (wait_once-now w job s (ground (arith, f, e))) (wait_more-expired 10 w job s f e),
    rw e (rw f refl),
  )
