-- ===== src/Board/Answers.antt =====
-- Refused jobs, and jobs that change nothing.
use openportal.Base.{
  OnSome, ℕ, [], Bool, true, false, Option, none, some, nat_eq, list_eq, if◌then◌else◌, ltb, ◌≡◌,
  refl, sym, ap, ◌∙◌, if_elim,
}
use openportal.Base.Assoc.{lookup}
use mathlib.Core.Path.{subst}
use openportal.Error
use openportal.Error.{Result, ok, err, ok_inj}
use openportal.Job.{Domain, Job, is_expired, clamp_expires}
use openportal.Board.{Board, JobAddState, updated, unchanged, put_job, store, store_over, admit}
use openportal.Board.Add.{add, add_from, add_admitted, conclude, settle}
use openportal.Board.Operations.{would_be_changed_by, changes_over}
use openportal.Board.Adding.{clamp_expires-id}
use openportal.Board.Held.{IsNew, settle-IsNew}

module _ {L : Domain} where
  conclude_ok {ℓ} :
      {A : Type ℓ} (now : ℕ) (o : Option (Board L × Job L × JobAddState)) (b : Board L) (k : Job L)
      (s : JobAddState) {e : Error.Error}
      → (conclude now o (b, k, s)).2 ≡ err e
      → A
  unfolding conclude
  conclude_ok now none b k s h = cc
  conclude_ok now (some (c, j, t)) b k s h = cc

  -- A job that `add` refuses leaves the board as it is, and nobody is told anything.
  pub add_refused :
      (latest now : ℕ) (job : Job L) (b : Board L) {e : Error.Error}
      → (add latest now job b).2 ≡ err e
      → ((add latest now job b).0 ≡ b) × ((add latest now job b).1 ≡ [])
  unfolding add add_from add_admitted
  add_refused latest now job b {e = e} h = step (admit now job b) h
    where
      step :
          (r : Result (Unit {0}))
          → (add_from r latest now job b).2 ≡ err e
          → ((add_from r latest now job b).0 ≡ b) × ((add_from r latest now job b).1 ≡ [])
      step (err x) h = (refl, refl)
      step (ok u) h =
          let stored = store now (clamp_expires latest now job) b in
          conclude_ok now (settle now stored) stored.0 stored.1 stored.2 h

  conclude-unchanged :
      (now : ℕ) (o : Option (Board L × Job L × JobAddState)) (b : Board L) (j : Job L)
      (t : JobAddState) {k : Job L}
      → OnSome IsNew o
      → (conclude now o (b, j, t)).2 ≡ ok (k, unchanged)
      → t ≡ unchanged
  unfolding conclude
  conclude-unchanged now none b j t w h = ap (λ x. x.1) (ok_inj h)
  conclude-unchanged now (some (c, i, u)) b j t w h = absurd (w.1 (ap (λ x. x.1) (ok_inj h)))

  over-unchanged :
      (now : ℕ) (o : Option (Job L)) (job : Job L) (b : Board L)
      → (store_over now o job b).2 ≡ unchanged
      → changes_over o job ≡ false
  unfolding store_over changes_over
  over-unchanged now none job b h = cc
  over-unchanged now (some j) job b h = not_updated (ltb j.version job.version) _ h
    where
      not_updated :
          (x : Bool) (r : Board L × Job L × JobAddState)
          → (if x then (put_job job b, job, updated) else r).2 ≡ unchanged
          → x ≡ false
      not_updated true r h = cc
      not_updated false r h = refl

  clamp_expires-version :
      (latest now : ℕ) (j : Job L) → (clamp_expires latest now j).version ≡ j.version
  unfolding clamp_expires
  clamp_expires-version latest now j = if_elim (λ (k : Job L). k.version ≡ j.version) _ refl refl

  changes_over-version :
      (o : Option (Job L)) (j k : Job L)
      → j.version ≡ k.version
      → changes_over o j ≡ changes_over o k
  unfolding changes_over
  changes_over-version none j k e = refl
  changes_over-version (some i) j k e = ap (ltb i.version) e

  changes_clamped :
      (latest now : ℕ) (job : Job L) (b : Board L)
      → changes_over
          (lookup (clamp_expires latest now job).id b.jobs)
          (clamp_expires latest now job)
        ≡ false
      → would_be_changed_by now job b ≡ false
  unfolding would_be_changed_by
  changes_clamped latest now job b h =
      let clamped = clamp_expires latest now job in
      let f : changes_over (lookup job.id b.jobs) clamped ≡ false =
        subst (λ i. changes_over (lookup i b.jobs) clamped ≡ false)
          (clamp_expires-id latest now job) h in
      let g =
        changes_over-version (lookup job.id b.jobs) clamped job
          (clamp_expires-version latest now job) in
      if_elim (λ x. x ≡ false) (is_expired now job) refl (sym g ∙ f)

  store-unchanged :
      (now : ℕ) (job : Job L) (b : Board L)
      → (store now job b).2 ≡ unchanged
      → changes_over (lookup job.id b.jobs) job ≡ false
  unfolding store
  store-unchanged now job b h = step (lookup job.id b.jobs) h
    where
      step :
          (o : Option (Job L)) → (store_over now o job b).2 ≡ unchanged → changes_over o job ≡ false
      step o h = over-unchanged now o job b h

  -- Where `add` answers that nothing has changed, `would_be_changed_by` said so before.
  pub add_unchanged :
      (latest now : ℕ) (job : Job L) (b : Board L) {k : Job L}
      → (add latest now job b).2 ≡ ok (k, unchanged)
      → would_be_changed_by now job b ≡ false
  unfolding add add_from add_admitted
  add_unchanged latest now job b {k = k} h = step (admit now job b) h
    where
      step :
          (r : Result (Unit {0}))
          → (add_from r latest now job b).2 ≡ ok (k, unchanged)
          → would_be_changed_by now job b ≡ false
      step (err x) h = cc
      step (ok u) h =
          let clamped = clamp_expires latest now job in
          let stored = store now clamped b in
          changes_clamped latest now job b (
            store-unchanged now clamped b (
              conclude-unchanged now (settle now stored) stored.0 stored.1 stored.2
                (settle-IsNew now stored.0 stored.1 stored.2) h))
