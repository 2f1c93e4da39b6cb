-- ===== src/Board/Adding.antt =====
-- Adding a job keeps a board in order.
use openportal.Base.{
  OnSome, ℕ, ◌≤◌, List, [], ◌∷◌, Bool, true, false, not, ◌&&◌, Option, none, some, ◌==◌, nat_eq,
  list_eq, ==_iff, ==_refl, option_eq, if◌then◌else◌, length, leb, ltb, ◌≡◌, refl, sym, ◌∙◌, arith,
  Bool-cases, inl, inr, is_some, if_elim,
}
use openportal.Base.Text.{Text}
use openportal.Base.Assoc.{
  lookup, insert, has_key, lookup-insert, length-insert, insert-All, has_key-lookup,
}
use mathlib.Core.Path.{subst}
use openportal.Peer.{peer_eq}
use openportal.Error
use openportal.Error.{Result, ok, err, ok_or, guard, ◌>>◌, ok_inj, guard-eq-ok, >>=-eq-ok}
use openportal.Job.{
  Domain, Job, is_finished, is_pending, clamp_expires, with_version, assert_is_for_board,
  assert_is_not_expired, is_expired,
}
use openportal.Job.Operations.{errored, duplicate}
use openportal.Job.Steps.{frame, to_duplicate, apply, apply-Follows}
use openportal.Board.{
  Board, JobAddState, added, updated, duplicated, max_jobs_per_board, put_job, store, push_value,
  values_of, age_minutes, max_duplicates, max_plausible_job_version, store_over, admit,
}
use openportal.Board.Add.{
  finish_one, finish_each, announce, conclude, settle, settle_duplicate, fail_duplicate,
  record_duplicate, add_admitted, add, add_from, find_original, is_added, is_stored,
}
use openportal.Board.Entries.{
  IsFiled, IsValid, errored-frame, finish_duplicate-frame, rewrite-IsValid, duplicates-IsValid,
  wake-IsValid,
}

passed :
    (a b c d : Bool) (w x y z : Error.Error) {u : Unit {0}}
    → (guard a w >> guard b x >> guard c y >> guard d z) ≡ ok u
    → (a ≡ true) × (b ≡ true) × (c ≡ true) × (d ≡ true)
passed true true true true w x y z h = (refl, refl, refl, refl)
passed _ _ _ _ w x y z h = cc

module _ {L : Domain} where
  finish_one-IsValid :
      (now : ℕ) (job : Job L) (id : Text) (b : Board L)
      → IsValid b
      → IsValid (finish_one now job id (lookup id b.jobs) b).0
  unfolding finish_one
  finish_one-IsValid now job id b v = step (lookup id b.jobs) refl
    where
      step : (o : Option (Job L)) → lookup id b.jobs ≡ o → IsValid (finish_one now job id o b).0
      step none e = v
      step (some dup) e =
          wake-IsValid id _ _ (rewrite-IsValid id dup _ b v e (finish_duplicate-frame now job dup))

  finish_each-IsValid :
      (now : ℕ) (job : Job L) (ids : List Text) (b : Board L)
      → IsValid b
      → IsValid (finish_each now job ids b).0
  unfolding finish_each
  finish_each-IsValid now job [] b v = v
  finish_each-IsValid now job (id ∷ ids) b v =
      finish_each-IsValid now job ids _ (finish_one-IsValid now job id b v)

  announce-IsValid :
      (now : ℕ) (job : Job L) (state : JobAddState) (b : Board L)
      → IsValid b
      → IsValid (announce now job state b).0
  unfolding announce
  announce-IsValid now job state b v = elim (Bool-cases (is_stored state && is_finished job)) [
    | inl y ↦
        rw y
          (finish_each-IsValid now job _ _ (duplicates-IsValid _ _ (wake-IsValid job.id job b v)))
    | inr n ↦ rw n v
  ]

  -- A stored job is filed, and the map has an entry for it.
  abbrev pub IsStored : Board L × Job L × JobAddState → Type 0
  IsStored (b, j, s) = IsValid b × (j.board ≡ some b.peer) × (is_some (lookup j.id b.jobs) ≡ true)

  -- Writing a job that belongs to the board, where there is room or an entry.
  put_job-IsStored :
      (j : Job L) (b : Board L) (s : JobAddState)
      → IsValid b
      → j.board ≡ some b.peer
      → length (put_job j b).jobs ≤ max_jobs_per_board
      → IsStored (put_job j b, j, s)
  put_job-IsStored j b s v e l = (
    record {
      filed = insert-All (IsFiled b.peer) j.id j b.jobs (refl, e) v.filed;
      bounded = l;
      queue_bounded = v.queue_bounded;
    },
    e,
    rw (lookup-insert j.id j.id j b.jobs, ==_refl j.id) refl,
  )

  store-IsStored :
      (now : ℕ) (job : Job L) (b : Board L)
      → IsValid b
      → job.board ≡ some b.peer
      → (not (leb max_jobs_per_board (length b.jobs) && not (has_key job.id b.jobs))) ≡ true
      → IsStored (store now job b)
  unfolding store store_over with_version
  store-IsStored now job b v e room = step (lookup job.id b.jobs) refl
    where
      step : (o : Option (Job L)) → lookup job.id b.jobs ≡ o → IsStored (store_over now o job b)
      step none f =
          put_job-IsStored job b added v e
            (ground (arith, length-insert job.id job b.jobs, f, room, has_key-lookup job.id b.jobs))
      step (some j) f =
          if_elim IsStored (ltb j.version job.version) (over job e refl)
            (if_elim IsStored (ltb j.changed job.changed) (over _ e refl) (v, e, rw f refl))
        where
          over :
              (k : Job L)
              → k.board ≡ some b.peer
              → k.id ≡ job.id
              → IsStored (put_job k b, k, updated)
          over k e i =
              put_job-IsStored k b updated v e
                (ground (arith, length-insert k.id k b.jobs, f, v.bounded))

  -- Another state of a stored job, written in its place.
  put_over-IsStored :
      (job k : Job L) (b : Board L) (s : JobAddState)
      → IsStored (b, job, added)
      → frame job ≡ frame k
      → IsStored (put_job k b, k, s)
  put_over-IsStored job k b s (v, e, l) f =
      let i : job.id ≡ k.id = cc in
      let p : k.board ≡ some b.peer = cc in
      let h : is_some (lookup k.id b.jobs) ≡ true =
        subst (λ i. is_some (lookup i b.jobs) ≡ true) i l in
      put_job-IsStored k b s v p (ground (arith, length-insert k.id k b.jobs, h, v.bounded))

  fail_duplicate-IsStored :
      (now : ℕ) (message : Text) (job : Job L) (b : Board L)
      → IsStored (b, job, added)
      → OnSome IsStored (fail_duplicate now message job b)
  unfolding fail_duplicate
  fail_duplicate-IsStored now message job b v = step (errored now message job) refl
    where
      step :
          (o : Result (Job L))
          → errored now message job ≡ o
          → OnSome IsStored (elim o [ ok k ↦ some (put_job k b, k, added) | err _ ↦ none ])
      step (ok k) f = put_over-IsStored job k b added v (errored-frame now message job k f)
      step (err x) f = tt

  record_duplicate-IsStored :
      (now : ℕ) (id : Text) (existing job : Job L) (b : Board L)
      → IsStored (b, job, added)
      → OnSome IsStored (record_duplicate now id existing job b)
  unfolding record_duplicate apply
  record_duplicate-IsStored now id existing job b v = step (duplicate now job existing) refl
    where
      step :
          (o : Result (Job L))
          → duplicate now job existing ≡ o
          → OnSome IsStored (elim o [
            | ok k ↦ some (
              record b {
                jobs = insert k.id k b.jobs;
                duplicates = push_value id k.id b.duplicates;
              },
              k,
              duplicated,
            )
            | err _ ↦ none
          ])
      step (ok k) f =
          let (w, p, l) =
            put_over-IsStored job k b duplicated v
              (apply-Follows now (to_duplicate existing) job f).0 in
          (duplicates-IsValid _ _ w, p, l)
      step (err x) f = tt

  settle-IsStored :
      (now : ℕ) (b : Board L) (job : Job L) (s : JobAddState)
      → IsStored (b, job, s)
      → OnSome IsStored (settle now (b, job, s))
  unfolding settle settle_duplicate
  settle-IsStored now b job s v = step (find_original now job b.jobs)
    where
      step :
          (o : Option (Text × Job L))
          → OnSome IsStored (elim o [
            | some (id, existing) ↦
                if is_added s && is_pending job
                then settle_duplicate now id existing job b
                else none
            | none ↦ none
          ])
      step none = tt
      step (some (id, existing)) =
          if_elim (OnSome IsStored) (is_added s && is_pending job)
            (if_elim (OnSome IsStored) (ltb 10 (age_minutes now existing.created))
              (fail_duplicate-IsStored now _ job b v)
              (if_elim (OnSome IsStored) (leb max_duplicates (length (values_of id b.duplicates)))
                (fail_duplicate-IsStored now _ job b v)
                (record_duplicate-IsStored now id existing job b v)))
            tt

  conclude-IsValid :
      (now : ℕ) (o : Option (Board L × Job L × JobAddState)) (b : Board L) (job : Job L)
      (s : JobAddState)
      → IsStored (b, job, s)
      → OnSome IsStored o
      → IsValid (conclude now o (b, job, s)).0
  unfolding conclude
  conclude-IsValid now none b job s v w = announce-IsValid now job s b v.0
  conclude-IsValid now (some (c, k, t)) b job s v w = w.0

  clamp_expires-board : (latest now : ℕ) (j : Job L) → (clamp_expires latest now j).board ≡ j.board
  unfolding clamp_expires
  clamp_expires-board latest now j = if_elim (λ (k : Job L). k.board ≡ j.board) _ refl refl

  pub clamp_expires-id : (latest now : ℕ) (j : Job L) → (clamp_expires latest now j).id ≡ j.id
  unfolding clamp_expires
  clamp_expires-id latest now j = if_elim (λ (k : Job L). k.id ≡ j.id) _ refl refl

  -- What the checks of `add` say.
  pub admit_lem :
      (now : ℕ) (job : Job L) (b : Board L) {u : Unit {0}}
      → admit now job b ≡ ok u
      → (job.board ≡ some b.peer)
        × (is_expired now job ≡ false)
        × (job.version ≤ max_plausible_job_version)
        × ((not (leb max_jobs_per_board (length b.jobs) && not (has_key job.id b.jobs))) ≡ true)
  unfolding admit assert_is_for_board assert_is_not_expired
  admit_lem now job b h =
      let (a, c, d, e) =
        passed (not (is_expired now job)) (job.board == some b.peer) _
          (leb job.version max_plausible_job_version) _ _ _ _ h in
      ((==_iff job.board (some b.peer)).0 c, ground (arith, a), ground (arith, e), d)

  add_admitted-IsValid :
      (latest now : ℕ) (job : Job L) (b : Board L)
      → IsValid b
      → job.board ≡ some b.peer
      → (not (leb max_jobs_per_board (length b.jobs) && not (has_key job.id b.jobs))) ≡ true
      → IsValid (add_admitted latest now job b).0
  unfolding add_admitted
  add_admitted-IsValid latest now job b v e room =
      let clamped = clamp_expires latest now job in
      let stored = store now clamped b in
      let w : IsStored stored =
        store-IsStored now clamped b v (clamp_expires-board latest now job ∙ e) (
          subst
            (λ i. (not (leb max_jobs_per_board (length b.jobs) && not (has_key i b.jobs))) ≡ true)
            (sym (clamp_expires-id latest now job)) room) in
      conclude-IsValid now (settle now stored) stored.0 stored.1 stored.2 w
        (settle-IsStored now stored.0 stored.1 stored.2 w)

  -- Adding a job, refused or not, keeps a board in order: every job stands under its own id and names
  -- this board's peer, and there are at most 10000 jobs and 1000 queued commands.
  pub add-IsValid :
      (latest now : ℕ) (job : Job L) (b : Board L) → IsValid b → IsValid (add latest now job b).0
  unfolding add add_from
  add-IsValid latest now job b v = step (admit now job b) refl
    where
      step : (r : Result (Unit {0})) → admit now job b ≡ r → IsValid (add_from r latest now job b).0
      step (err x) f = v
      step (ok u) f =
          let (e, _, _, room) = admit_lem now job b f in
          add_admitted-IsValid latest now job b v e room
