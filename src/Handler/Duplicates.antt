-- ===== src/Handler/Duplicates.antt =====
-- templemeads/src/handler.rs: the loop that waits for the original of a duplicate.
use openportal.Base.{ℕ, zero, suc, true, ◌≡◌, refl, if◌then◌else◌}
use openportal.Error.{Result, ok, err}
use openportal.Job.{Domain, Job, is_finished}
use openportal.Transfer.{Boards}
use openportal.Transfer.Waiting.{World, wait}
use openportal.Transfer.Waits.{wait-is_finished}
use openportal.Handler.Puts.{still_waited, wait_duplicate}

module _ {L : Domain} where
  abbrev IsEnded : Boards L × Result (Job L) → Type 0
  IsEnded r = (k : Job L) → r.1 ≡ ok k → is_finished k ≡ true

  still_waited_ended :
      (now : ℕ) (r : Boards L × Result (Job L)) → IsEnded r → still_waited now r ≡ r
  unfolding still_waited
  still_waited_ended now (s, ok k) h = rw (h k refl) refl
  still_waited_ended now (s, err e) h = refl

  wait_duplicate_ended :
      (n now : ℕ) (w : World L) (r : Boards L × Result (Job L))
      → IsEnded r
      → wait_duplicate n now w r ≡ r
  unfolding wait_duplicate
  wait_duplicate_ended zero now w (s, ok k) h = rw (h k refl) refl
  wait_duplicate_ended (suc n) now w (s, ok k) h = rw (h k refl) refl
  wait_duplicate_ended zero now w (s, err e) h = refl
  wait_duplicate_ended (suc n) now w (s, err e) h = refl

  -- The loop that waits for the original of a duplicate ends after at most one round, whatever happens
  -- while the task waits and however many rounds are allowed: it answers with the job itself, if that has
  -- finished, and otherwise with what one `wait` answers.
  pub wait_duplicate_once :
      (n now : ℕ) (w : World L) (job : Job L) (s : Boards L)
      → wait_duplicate (suc n) now w (s, ok job)
        ≡ (if is_finished job then (s, ok job) else wait w job s)
  unfolding wait_duplicate
  wait_duplicate_once n now w job s = rw (again, ended) refl
    where
      ended : still_waited now (wait w job s) ≡ wait w job s
      ended = still_waited_ended now (wait w job s) (λ k. wait-is_finished w job k s)

      again :
          wait_duplicate n now w (still_waited now (wait w job s)) ≡ still_waited now (wait w job s)
      again =
          rw ended (wait_duplicate_ended n now w (wait w job s) (λ k. wait-is_finished w job k s))
