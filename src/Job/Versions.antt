-- ===== src/Job/Versions.antt =====
-- How the operations of a job move its version.
use openportal.Base.{
  ℕ, ◌+◌, ◌*◌, ◌≤◌, ◌<◌, Bool, true, false, List, [], ◌∷◌, length, ◌≡◌, ◌⊎◌, inl, inr, refl, arith,
}
use mathlib.Core.Path.{subst}
use openportal.Error
use openportal.Error.{Result, ok, err, guard, ◌>>◌, ok_or, ok_inj, guard-eq-ok, >>=-eq-ok}
use openportal.Job.{Domain, Job, wrapping_add, version_values, is_finished}
use openportal.Job.Failures.{JobError}
use openportal.Job.Operations.{
  pending, duplicate, running, copy_result_from, completed, completed_none, errored, errored_with,
  pending_from, duplicate_from, is_open, is_active, is_duplicate_of,
}
use openportal.Job.States.{Status}
use openportal.Job.Steps.{
  Operation, to_pending, to_completed_none, to_duplicate, to_copy, to_running, to_completed,
  to_errored, to_errored_with, apply,
}

pub wrapping_add-small : (v n : ℕ) → v + n < version_values → wrapping_add v n ≡ v + n
unfolding wrapping_add
wrapping_add-small v n h = omega arith

module _ {L : Domain} where
  -- Nothing has changed, or the version is larger, by a thousand at most.
  abbrev pub Newer : Job L → Job L → Type 0
  Newer j k = (j ≡ k) ⊎ ((j.version < k.version) × (k.version ≤ j.version + 1000))

  -- A change that adds to the version.
  module _ (j : Job L) (small : j.version + 1000 < version_values) where
    added :
        (n : ℕ) (m : Job L) {k : Job L}
        → 1 ≤ n
        → n ≤ 1000
        → m.version ≡ wrapping_add j.version n
        → ok m ≡ ok k
        → Newer j k
    added n m l u e h =
        let w = wrapping_add-small j.version n omega arith in
        subst (Newer j) (ok_inj h) (inr (omega arith, omega arith))

    guarded-Newer :
        (b : Bool) (n : ℕ) (m : Job L) {k : Job L}
        → 1 ≤ n
        → n ≤ 1000
        → m.version ≡ wrapping_add j.version n
        → (guard b Error.invalid_state >> ok m) ≡ ok k
        → Newer j k
    guarded-Newer true n m l u e h = added n m l u e h
    guarded-Newer false n m l u e h = cc

    pending_from-Newer :
        (s : Status) (now : ℕ) {k : Job L} → pending_from s now j ≡ ok k → Newer j k
    unfolding pending_from
    pending_from-Newer Status.created now h = added 1 _ omega arith omega arith refl h
    pending_from-Newer Status.pending now h = inl (ok_inj h)
    pending_from-Newer _ now h = cc

    duplicate_from-Newer :
        (s : Status) (now : ℕ) (other : Job L) {k : Job L}
        → duplicate_from s now j other ≡ ok k
        → Newer j k
    unfolding duplicate_from
    duplicate_from-Newer Status.pending now other h = added 1 _ (omega arith) (omega arith) refl h
    duplicate_from-Newer _ now other h = cc

    pub errored_with-Newer :
        (now : ℕ) (e : JobError) {k : Job L} → errored_with now e j ≡ ok k → Newer j k
    unfolding errored_with
    errored_with-Newer now e h =
        guarded-Newer (is_open j.state) 1000 _ (omega arith) (omega arith) refl h

    pub copy_result_from-Newer :
        (now : ℕ) (other : Job L) {k : Job L} → copy_result_from now j other ≡ ok k → Newer j k
    unfolding copy_result_from
    copy_result_from-Newer now other h = twice (is_finished other) (is_open j.state) _ refl h
      where
        twice :
            (a b : Bool) (m : Job L) {k : Job L}
            → m.version ≡ wrapping_add j.version 1000
            → (guard a Error.invalid_state >> guard b Error.invalid_state >> ok m) ≡ ok k
            → Newer j k
        twice true b m e h = guarded-Newer b 1000 m (omega arith) (omega arith) e h
        twice false b m e h = cc

    -- An accepted operation leaves the job as it is, or gives it a larger version, by a thousand at
    -- most, while the version is more than a thousand below the end of its range.
    pub apply-Newer : (now : ℕ) (op : Operation L) {k : Job L} → apply now op j ≡ ok k → Newer j k
    unfolding apply pending duplicate running completed completed_none errored
    apply-Newer now to_pending h = pending_from-Newer j.state now h
    apply-Newer now to_completed_none h =
        guarded-Newer (is_active j.state) 1000 _ (omega arith) (omega arith) refl h
    apply-Newer now (to_duplicate other) h =
        duplicate_from-Newer j.state now other
          (guard-eq-ok (is_duplicate_of now j other) Error.invalid_state _ h).1
    apply-Newer now (to_copy other) h = copy_result_from-Newer now other h
    apply-Newer now (to_running p) h =
        guarded-Newer (is_active j.state) 1 _ (omega arith) (omega arith) refl h
    apply-Newer now (to_completed json t) h =
        let (v, _, e) = >>=-eq-ok (guard (is_active j.state) Error.invalid_state >> json) _ h in
        added 1000 _ (omega arith) (omega arith) refl e
    apply-Newer now (to_errored m) h = errored_with-Newer now _ h
    apply-Newer now (to_errored_with e) h = errored_with-Newer now e h

  -- Operations one after another, at the given times; a refused one leaves the job as it is.
  unfoldable pub apply_all : List (ℕ × Operation L) → Job L → Job L
  apply_all [] j = j
  apply_all ((now, op) ∷ ops) j = apply_all ops (ok_or (apply now op j) j)

  Newer-le : (j k : Job L) → Newer j k → (j.version ≤ k.version) × (k.version ≤ j.version + 1000)
  Newer-le j k (inl e) =
      subst (λ k. (j.version ≤ k.version) × (k.version ≤ j.version + 1000)) e
        (omega arith, omega arith)
  Newer-le j k (inr (l, u)) = (omega arith, u)

  ok_or_version :
      (r : Result (Job L)) (j : Job L)
      → ((k : Job L) → r ≡ ok k → Newer j k)
      → (j.version ≤ (ok_or r j).version) × ((ok_or r j).version ≤ j.version + 1000)
  ok_or_version (ok k) j f = Newer-le j k (f k refl)
  ok_or_version (err e) j f = (omega arith, omega arith)

  -- After any number of operations, accepted or refused, the version is no smaller than before and
  -- larger by a thousand for each at most, where that many stay in range.
  pub apply_all_version :
      (ops : List (ℕ × Operation L)) (j : Job L)
      → j.version + 1000 * length ops < version_values
      → (j.version ≤ (apply_all ops j).version)
        × ((apply_all ops j).version ≤ j.version + 1000 * length ops)
  unfolding apply_all
  apply_all_version [] j h = (omega arith, omega arith)
  apply_all_version ((now, op) ∷ ops) j h =
      let k = ok_or (apply now op j) j in
      let b = ok_or_version (apply now op j) j λ k e. apply-Newer j (omega arith) now op e in
      let r = apply_all_version ops k (omega (arith, b.1)) in
      (omega (arith, b.0, r.0), omega (arith, b.1, r.1))
