-- ===== src/Job/Lifetimes.antt =====
-- How long a job that a peer sends may live.
use openportal.Base.{ℕ, ◌+◌, ◌≤◌, min, Option, none, some, ◌≡◌, arith}
use openportal.Job.{
  Domain, Job, max_job_lifetime, checked_add, ceiling, expires_ceiling, clamp_expires,
}

module _ {L : Domain} (latest now : ℕ) (j : Job L) where
  ceiling-le : (a : Option ℕ) (d : ℕ) → ceiling now a (checked_add latest now d) ≤ now + d
  unfolding ceiling checked_add
  ceiling-le none d = ground arith
  ceiling-le (some c) d = ground arith

  -- Whatever a peer writes in `created` and `expires`, a clamped job expires at most an hour from
  -- now, and no later than before.
  pub clamp_expires_now :
      ((clamp_expires latest now j).expires ≤ now + max_job_lifetime)
      × ((clamp_expires latest now j).expires ≤ j.expires)
  unfolding clamp_expires expires_ceiling
  clamp_expires_now =
      ground (arith, ceiling-le (checked_add latest j.created max_job_lifetime) max_job_lifetime)

  -- Where neither sum is out of range, clamping takes the smallest of the expiry, an hour after
  -- creation and an hour from now.
  pub clamp_expires-min :
      j.created + max_job_lifetime ≤ latest
      → now + max_job_lifetime ≤ latest
      → (clamp_expires latest now j).expires
        ≡ min j.expires (min (j.created + max_job_lifetime) (now + max_job_lifetime))
  unfolding clamp_expires expires_ceiling ceiling checked_add
  clamp_expires-min c n = ground arith
