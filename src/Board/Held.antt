-- ===== src/Board/Held.antt =====
-- The job that `add` answers with is on the board.
use openportal.Base.{
  OnSome, ℕ, List, [], ◌∷◌, true, false, ◌&&◌, Option, none, some, ◌==◌, nat_eq, list_eq, ==_iff,
  ==_refl, if◌then◌else◌, length, leb, ltb, ◌≡◌, ◌≢◌, ◌⊎◌, inl, inr, refl, sym, ap, ◌∙◌, arith,
  Bool-cases, if_elim,
}
use openportal.Base.Text.{Text}
use openportal.Base.Assoc.{lookup, insert, lookup-insert}
use mathlib.Core.Option.{some_inj}
use mathlib.Core.Path.{subst}
use openportal.Error.{Result, ok, err, ok_inj}
use openportal.Job.{
  Domain, Job, is_finished, is_pending, clamp_expires, with_version, saturating_add,
}
use openportal.Job.Operations.{errored, duplicate}
use openportal.Board.{
  Board, JobAddState, added, duplicated, unchanged, put_job, store, store_over, admit, push_value,
  values_of, age_minutes, max_duplicates,
}
use openportal.Board.Add.{
  add, add_from, add_admitted, announce, conclude, settle, settle_duplicate, fail_duplicate,
  record_duplicate, finish_duplicate, finish_one, finish_each, wake, find_original, is_added,
  is_stored,
}

module _ {L : Domain} where
  -- The answer's job is the board's, unless nothing was stored.
  abbrev pub IsHeld : Board L × Job L × JobAddState → Type 0
  IsHeld (b, k, s) = (s ≡ unchanged) ⊎ (lookup k.id b.jobs ≡ some k)

  put_job-lookup : (k : Job L) (b : Board L) → lookup k.id (put_job k b).jobs ≡ some k
  put_job-lookup k b = rw (lookup-insert k.id k.id k b.jobs, ==_refl k.id) refl

  store-IsHeld : (now : ℕ) (job : Job L) (b : Board L) → IsHeld (store now job b)
  unfolding store store_over
  store-IsHeld now job b = step (lookup job.id b.jobs)
    where
      step : (o : Option (Job L)) → IsHeld (store_over now o job b)
      step none = inr (put_job-lookup job b)
      step (some j) = if_elim IsHeld (ltb j.version job.version) (inr (put_job-lookup job b)) (
          if_elim IsHeld (ltb j.changed job.changed)
            (inr (put_job-lookup (with_version now (saturating_add j.version 1) job) b)) (inl refl))

  -- What a settled duplicate gives is held, and is a change.
  abbrev pub IsNew : Board L × Job L × JobAddState → Type 0
  IsNew (b, k, s) = (lookup k.id b.jobs ≡ some k) × (s ≢ unchanged)

  fail_duplicate-IsNew :
      (now : ℕ) (message : Text) (job : Job L) (b : Board L)
      → OnSome IsNew (fail_duplicate now message job b)
  unfolding fail_duplicate
  fail_duplicate-IsNew now message job b = step (errored now message job)
    where
      step :
          (o : Result (Job L))
          → OnSome IsNew (elim o [ ok k ↦ some (put_job k b, k, added) | err _ ↦ none ])
      step (ok k) = (put_job-lookup k b, λ e. cc)
      step (err x) = tt

  record_duplicate-IsNew :
      (now : ℕ) (id : Text) (existing job : Job L) (b : Board L)
      → OnSome IsNew (record_duplicate now id existing job b)
  unfolding record_duplicate
  record_duplicate-IsNew now id existing job b = step (duplicate now job existing)
    where
      step :
          (o : Result (Job L))
          → OnSome IsNew (elim o [
            | ok k ↦ some (
              record b {
                jobs = insert k.id k b.jobs;
                duplicates = push_value id k.id b.duplicates;
              },
              k,
              duplicated,
            )
            | err _ ↦ none
          ])
      step (ok k) = (put_job-lookup k b, λ e. cc)
      step (err x) = tt

  pub settle-IsNew :
      (now : ℕ) (b : Board L) (job : Job L) (s : JobAddState)
      → OnSome IsNew (settle now (b, job, s))
  unfolding settle settle_duplicate
  settle-IsNew now b job s = step (find_original now job b.jobs)
    where
      step :
          (o : Option (Text × Job L))
          → OnSome IsNew (elim o [
            | some (id, existing) ↦
                if is_added s && is_pending job
                then settle_duplicate now id existing job b
                else none
            | none ↦ none
          ])
      step none = tt
      step (some (id, existing)) =
          if_elim (OnSome IsNew) (is_added s && is_pending job)
            (if_elim (OnSome IsNew) (ltb 10 (age_minutes now existing.created))
              (fail_duplicate-IsNew now _ job b)
              (if_elim (OnSome IsNew) (leb max_duplicates (length (values_of id b.duplicates)))
                (fail_duplicate-IsNew now _ job b) (record_duplicate-IsNew now id existing job b)))
            tt

  finish_duplicate_finished :
      (now : ℕ) (job k : Job L) → is_finished k ≡ true → finish_duplicate now job k ≡ k
  unfolding finish_duplicate
  finish_duplicate_finished now job k f = rw f refl

  -- A finished job stays as it is when duplicates take the result of another.
  finish_one-lookup :
      (now : ℕ) (job k : Job L) (id : Text) (b : Board L)
      → is_finished k ≡ true
      → lookup k.id b.jobs ≡ some k
      → lookup k.id (finish_one now job id (lookup id b.jobs) b).0.jobs ≡ some k
  unfolding finish_one wake
  finish_one-lookup now job k id b f h = step (lookup id b.jobs) refl
    where
      step :
          (o : Option (Job L))
          → lookup id b.jobs ≡ o
          → lookup k.id (finish_one now job id o b).0.jobs ≡ some k
      step none e = h
      step (some dup) e =
          lookup-insert id k.id (finish_duplicate now job dup) b.jobs
          ∙ over (Bool-cases (id == k.id))
        where
          over :
              ((id == k.id) ≡ true) ⊎ ((id == k.id) ≡ false)
              → (if id == k.id then some (finish_duplicate now job dup) else lookup k.id b.jobs)
                ≡ some k
          over (inr n) = rw n h
          over (inl y) =
              let p : dup ≡ k =
                some_inj.0
                  (sym e ∙ subst (λ i. lookup i b.jobs ≡ some k) (sym ((==_iff id k.id).0 y)) h) in
              rw y (
                ap some (
                  subst (λ d. finish_duplicate now job d ≡ k) (sym p)
                    (finish_duplicate_finished now job k f)))

  finish_each-lookup :
      (now : ℕ) (job k : Job L) (ids : List Text) (b : Board L)
      → is_finished k ≡ true
      → lookup k.id b.jobs ≡ some k
      → lookup k.id (finish_each now job ids b).0.jobs ≡ some k
  unfolding finish_each
  finish_each-lookup now job k [] b f h = h
  finish_each-lookup now job k (id ∷ ids) b f h =
      finish_each-lookup now job k ids _ f (finish_one-lookup now job k id b f h)

  announce-lookup :
      (now : ℕ) (k : Job L) (s : JobAddState) (b : Board L)
      → lookup k.id b.jobs ≡ some k
      → lookup k.id (announce now k s b).0.jobs ≡ some k
  unfolding announce wake
  announce-lookup now k s b h = elim (Bool-cases (is_stored s && is_finished k)) [
    | inl y ↦ rw y (finish_each-lookup now k k _ _ (ground (arith, y)) h)
    | inr n ↦ rw n h
  ]

  conclude-lookup :
      (now : ℕ) (o : Option (Board L × Job L × JobAddState)) (b : Board L) (j : Job L)
      (t : JobAddState) {k : Job L} {s : JobAddState}
      → OnSome IsNew o
      → IsHeld (b, j, t)
      → (conclude now o (b, j, t)).2 ≡ ok (k, s)
      → s ≢ unchanged
      → lookup k.id (conclude now o (b, j, t)).0.jobs ≡ some k
  unfolding conclude
  conclude-lookup now (some (c, i, u)) b j t w v h n =
      subst (λ k. lookup k.id c.jobs ≡ some k) (ap (λ x. x.0) (ok_inj h)) w.0
  conclude-lookup now none b j t {k = k} w (inl e) h n =
      absurd (n (sym (ap (λ x. x.1) (ok_inj h)) ∙ e))
  conclude-lookup now none b j t w (inr l) h n =
      subst (λ k. lookup k.id (announce now j t b).0.jobs ≡ some k) (ap (λ x. x.0) (ok_inj h))
        (announce-lookup now j t b l)

  -- The job that `add` answers with is the one that the board then holds under its id, unless `add`
  -- answers that nothing has changed.
  pub add-lookup :
      (latest now : ℕ) (job : Job L) (b : Board L) {k : Job L} {s : JobAddState}
      → (add latest now job b).2 ≡ ok (k, s)
      → s ≢ unchanged
      → lookup k.id (add latest now job b).0.jobs ≡ some k
  unfolding add add_from add_admitted
  add-lookup latest now job b {k = k} {s = s} h n = step (admit now job b) h
    where
      step :
          (r : Result (Unit {0}))
          → (add_from r latest now job b).2 ≡ ok (k, s)
          → lookup k.id (add_from r latest now job b).0.jobs ≡ some k
      step (err x) h = cc
      step (ok u) h =
          let clamped = clamp_expires latest now job in
          let stored = store now clamped b in
          conclude-lookup now (settle now stored) stored.0 stored.1 stored.2
            (settle-IsNew now stored.0 stored.1 stored.2) (store-IsHeld now clamped b) h n
