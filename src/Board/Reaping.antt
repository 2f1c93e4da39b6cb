-- ===== src/Board/Reaping.antt =====
-- What `remove_expired_jobs` removes.
use openportal.Base.{
  ℕ, List, [], ◌∷◌, ◌++◌, Bool, true, false, Option, none, some, ◌==◌, nat_eq, list_eq, ==_iff,
  if◌then◌else◌, All, any, ◌≡◌, ◌⊎◌, inl, inr, refl, sym, ap, ◌∙◌, arith, Bool-cases, if_elim,
  All-append, All-map, ltb,
}
use openportal.Base.Text.{Text}
use openportal.Base.Assoc.{lookup, remove-All, remove-others}
use mathlib.Core.Path.{subst}
use openportal.Peer.{Peer}
use openportal.Job.{Domain, Job, is_expired, is_finished}
use openportal.Job.Operations.{errored}
use openportal.Board.{Board, Command, command_job}
use openportal.Board.Add.{wake}
use openportal.Board.Expiry.{
  expired_jobs, retain_one, retain_queued, expired_form, drop_one, drop_each, expire_one,
  expire_each, remove_expired_jobs,
}
use openportal.Board.Entries.{IsFiled, IsValid, errored-frame, ok_or-frame}
use openportal.Job.Steps.{frame}

module _ {L : Domain} (now : ℕ) where
  -- An entry is not expired, or it is still to be removed.
  abbrev pub IsReaped : List (Job L) → Text × Job L → Type 0
  IsReaped js (id, j) = (is_expired now j ≡ false) ⊎ (any (λ k. k.id == id) js ≡ true)

  -- A command has no expired job.
  abbrev pub IsFresh : Option (Job L) → Type 0
  IsFresh none = Unit {0}
  IsFresh (some j) = is_expired now j ≡ false

  expired_jobs-All :
      (m : List (Text × Job L)) → All (λ j. is_expired now j ≡ true) (expired_jobs now m)
  unfolding expired_jobs
  expired_jobs-All [] = tt
  expired_jobs-All ((id, j) ∷ m) = elim (Bool-cases (is_expired now j)) [
    | inl y ↦ rw y (y, expired_jobs-All m)
    | inr n ↦ rw n (expired_jobs-All m)
  ]

  expired_form-frame : (j : Job L) → frame j ≡ frame (expired_form now j)
  unfolding expired_form
  expired_form-frame j =
      if_elim (λ (k : Job L). frame j ≡ frame k) (is_finished j) refl
        (ok_or-frame (errored now _ j) j j (errored-frame now _ j) refl)

  -- Dropping entries keeps what holds of all.
  drop_each-All :
      (P : Text × Job L → Type 0) (ids : List Text) (b : Board L)
      → All P b.jobs
      → All P (drop_each now ids b).0.jobs
  unfolding drop_each drop_one wake
  drop_each-All P [] b a = a
  drop_each-All P (id ∷ ids) b a = drop_each-All P ids _ (step (lookup id b.jobs))
    where
      step : (o : Option (Job L)) → All P (drop_one now id o b).0.jobs
      step none = remove-All P id b.jobs a
      step (some dup) = remove-All P id b.jobs a

  drop_each-queue :
      (ids : List Text) (b : Board L) → (drop_each now ids b).0.queued_commands ≡ b.queued_commands
  unfolding drop_each drop_one wake
  drop_each-queue [] b = refl
  drop_each-queue (id ∷ ids) b = drop_each-queue ids _ ∙ step (lookup id b.jobs)
    where
      step : (o : Option (Job L)) → (drop_one now id o b).0.queued_commands ≡ b.queued_commands
      step none = refl
      step (some dup) = refl

  -- A round removes the job's own entry.
  IsReaped-rest :
      (j k : Job L) (js : List (Job L)) (e : Text × Job L)
      → j.id ≡ k.id
      → IsReaped (j ∷ js) e × ((e.0 == k.id) ≡ false)
      → IsReaped js e
  IsReaped-rest j k js (id, i) f (inl x, n) = inl x
  IsReaped-rest j k js (id, i) f (inr y, n) =
      inr (ground (arith, y, n, f, ==_iff id k.id, ==_iff j.id id))

  expire_one-All :
      (j : Job L) (js : List (Job L)) (b : Board L)
      → All (IsReaped (j ∷ js)) b.jobs
      → All (IsReaped js) (expire_one now (expired_form now j) b).0.jobs
  unfolding expire_one wake
  expire_one-All j js b a =
      let k = expired_form now j in
      let d = drop_each-All (IsReaped (j ∷ js)) _ _ a in
      All-map _ (IsReaped js) _ (λ e. IsReaped-rest j k js e (ap (λ f. f.0) (expired_form-frame j)))
        (remove-others (IsReaped (j ∷ js)) k.id _ d)

  expire_each-All :
      (js : List (Job L)) (b : Board L)
      → All (IsReaped js) b.jobs
      → All (IsReaped []) (expire_each now js b).0.jobs
  unfolding expire_each
  expire_each-All [] b a = a
  expire_each-All (j ∷ js) b a = expire_each-All js _ (expire_one-All j js b a)

  expire_each-queue :
      (js : List (Job L)) (b : Board L)
      → (expire_each now js b).0.queued_commands ≡ b.queued_commands
  unfolding expire_each expire_one wake
  expire_each-queue [] b = refl
  expire_each-queue (j ∷ js) b = expire_each-queue js _ ∙ drop_each-queue _ _

  expired_kept :
      (j k : Job L) → frame j ≡ frame k → is_expired now j ≡ true → is_expired now k ≡ true
  unfolding is_expired
  expired_kept j k e h = subst (λ f. ltb f.2 now ≡ true) e h

  IsReaped-none : (e : Text × Job L) → IsReaped [] e → is_expired now e.1 ≡ false
  IsReaped-none (id, j) (inl n) = n
  IsReaped-none (id, j) (inr y) = cc

  IsReaped-more :
      (j : Job L) (js : List (Job L)) (e : Text × Job L) → IsReaped js e → IsReaped (j ∷ js) e
  IsReaped-more j js (id, i) (inl n) = inl n
  IsReaped-more j js (id, i) (inr y) = inr (ground (arith, y))

  expire_each-expired :
      (js : List (Job L)) (b : Board L)
      → All (λ j. is_expired now j ≡ true) js
      → All (λ j. is_expired now j ≡ true) (expire_each now js b).2
  unfolding expire_each
  expire_each-expired [] b a = tt
  expire_each-expired (j ∷ js) b (h, a) =
      (expired_kept j (expired_form now j) (expired_form-frame j) h, expire_each-expired js _ a)

  All-IsReaped :
      (peer : Peer) (m : List (Text × Job L)) (ys : List (Job L))
      → All (IsFiled peer) m
      → All (IsReaped (expired_jobs now m ++ ys)) m
  unfolding expired_jobs
  All-IsReaped peer [] ys a = tt
  All-IsReaped peer ((id, j) ∷ m) ys (f, a) =
      step (is_expired now j) refl (All-IsReaped peer m ys a)
    where
      step :
          (x : Bool)
          → is_expired now j ≡ x
          → All (IsReaped (expired_jobs now m ++ ys)) m
          → All
              (IsReaped ((if x then j ∷ expired_jobs now m else expired_jobs now m) ++ ys))
              ((id, j) ∷ m)
      step false n r = (inl n, r)
      step true y r = (
        inr (ground (arith, f.0, ==_iff j.id id)),
        All-map (IsReaped (expired_jobs now m ++ ys)) (IsReaped (j ∷ (expired_jobs now m ++ ys))) m
            (IsReaped-more j (expired_jobs now m ++ ys)) r,
      )

  retain_one-All :
      (o : Option (Job L)) (c : Command L) (r : List (Job L) × List (Command L))
      → command_job c ≡ o
      → All (λ j. is_expired now j ≡ true) r.0
      → All (λ c. IsFresh (command_job c)) r.1
      → All (λ j. is_expired now j ≡ true) (retain_one o now c r).0
        × All (λ c. IsFresh (command_job c)) (retain_one o now c r).1
  unfolding retain_one
  retain_one-All none c (dropped, kept) e a f = (a, (subst IsFresh (sym e) tt, f))
  retain_one-All (some j) c (dropped, kept) e a f = elim (Bool-cases (is_expired now j)) [
    | inl y ↦ rw y ((y, a), f)
    | inr n ↦ rw n (a, (subst IsFresh (sym e) n, f))
  ]

  retain_queued-All :
      (cs : List (Command L))
      → All (λ j. is_expired now j ≡ true) (retain_queued now cs).0
        × All (λ c. IsFresh (command_job c)) (retain_queued now cs).1
  unfolding retain_queued
  retain_queued-All [] = (tt, tt)
  retain_queued-All (c ∷ cs) =
      let (a, f) = retain_queued-All cs in
      retain_one-All (command_job c) c (retain_queued now cs) refl a f

  -- After `remove_expired_jobs` neither the jobs nor the queued commands of a board in order have an
  -- expired job, and each job that is returned is expired.
  pub remove_expired_jobs-All :
      (b : Board L)
      → IsValid b
      → All (λ e. is_expired now e.1 ≡ false) (remove_expired_jobs now b).0.jobs
        × All (λ c. IsFresh (command_job c)) (remove_expired_jobs now b).0.queued_commands
        × All (λ j. is_expired now j ≡ true) (remove_expired_jobs now b).2
  unfolding remove_expired_jobs
  remove_expired_jobs-All b v =
      let (a, f) = retain_queued-All b.queued_commands in
      let dropped = (retain_queued now b.queued_commands).0 in
      let kept = record b { queued_commands = (retain_queued now b.queued_commands).1 } in
      let js = expired_jobs now b.jobs ++ dropped in
      (
        All-map (IsReaped []) (λ e. is_expired now e.1 ≡ false) _ IsReaped-none
            (expire_each-All js kept (All-IsReaped b.peer b.jobs dropped v.filed)),
        subst (All (λ c. IsFresh (command_job c))) (sym (expire_each-queue js kept)) f,
        expire_each-expired js kept (
            All-append (λ j. is_expired now j ≡ true) (expired_jobs now b.jobs) dropped
              (expired_jobs-All b.jobs) a),
      )
