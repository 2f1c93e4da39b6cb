-- ===== src/Board/Entries.antt =====
-- The entries of a board, and the steps that keep them in order.
use openportal.Base.{
  ℕ, ◌≤◌, List, some, nat_eq, list_eq, length, All, ◌≡◌, refl, arith, Bool-cases, inl, inr,
}
use openportal.Base.Text.{Text}
use openportal.Base.Assoc.{
  lookup, insert, remove, length-insert, length-remove-le, insert-All, remove-All, lookup-All,
}
use openportal.Peer.{Peer}
use openportal.Error.{Result, ok, err, ok_or}
use openportal.Job.{Domain, Job, is_finished}
use openportal.Job.Operations.{errored, copy_result_from}
use openportal.Job.Steps.{frame, to_errored, to_copy, apply, apply-Follows}
use openportal.Board.{Board, max_jobs_per_board, max_queued_commands}
use openportal.Board.Add.{finish_duplicate, wake}

module _ {L : Domain} where
  -- A job under its own id that belongs to the board of the peer.
  abbrev pub IsFiled : Peer → Text × Job L → Type 0
  IsFiled peer (id, j) = (j.id ≡ id) × (j.board ≡ some peer)

  -- Every job is filed, and neither the jobs nor the queued commands exceed their limits.
  pub record IsValid (b : Board L) : Type 0 where
    pub filed : All (IsFiled b.peer) b.jobs
    pub bounded : length b.jobs ≤ max_jobs_per_board
    pub queue_bounded : length b.queued_commands ≤ max_queued_commands

  -- A job with the frame of a filed job is filed.
  pub frame-IsFiled :
      (peer : Peer) (id : Text) (j k : Job L)
      → frame j ≡ frame k
      → IsFiled peer (id, j)
      → IsFiled peer (id, k)
  frame-IsFiled peer id j k e (i, b) = (cc, cc)

  pub ok_or-frame :
      (r : Result (Job L)) (j d : Job L)
      → ((k : Job L) → r ≡ ok k → frame j ≡ frame k)
      → frame j ≡ frame d
      → frame j ≡ frame (ok_or r d)
  ok_or-frame (ok k) j d f e = f k refl
  ok_or-frame (err x) j d f e = e

  pub errored-frame :
      (now : ℕ) (m : Text) (j k : Job L) → errored now m j ≡ ok k → frame j ≡ frame k
  unfolding apply
  errored-frame now m j k h = (apply-Follows now (to_errored m) j h).0

  pub finish_duplicate-frame :
      (now : ℕ) (job dup : Job L) → frame dup ≡ frame (finish_duplicate now job dup)
  unfolding finish_duplicate apply
  finish_duplicate-frame now job dup = elim (Bool-cases (is_finished dup)) [
    | inl y ↦ rw y refl
    | inr n ↦ rw n (
        ok_or-frame (copy_result_from now dup job) dup _
          (λ k h. (apply-Follows now (to_copy job) dup h).0)
          (ok_or-frame (errored now _ dup) dup dup (errored-frame now _ dup) refl))
  ]

  -- Writing a filed job over an entry, or removing one.
  pub rewrite-IsValid :
      (id : Text) (j k : Job L) (b : Board L)
      → IsValid b
      → lookup id b.jobs ≡ some j
      → frame j ≡ frame k
      → IsValid (record b { jobs = insert id k b.jobs })
  rewrite-IsValid id j k b v h e = record {
    filed =
        insert-All (IsFiled b.peer) id k b.jobs
          (frame-IsFiled b.peer id j k e (lookup-All (IsFiled b.peer) id b.jobs v.filed h)) v.filed;
    bounded = ground (arith, length-insert id k b.jobs, h, v.bounded);
    queue_bounded = v.queue_bounded;
  }

  pub remove-IsValid :
      (id : Text) (b : Board L) → IsValid b → IsValid (record b { jobs = remove id b.jobs })
  remove-IsValid id b v = record {
    filed = remove-All (IsFiled b.peer) id b.jobs v.filed;
    bounded = omega (arith, length-remove-le id b.jobs, v.bounded);
    queue_bounded = v.queue_bounded;
  }

  pub waiters-IsValid :
      (ws : List (Text × List ℕ)) (b : Board L) → IsValid b → IsValid (record b { waiters = ws })
  waiters-IsValid ws b v = record {
    filed = v.filed;
    bounded = v.bounded;
    queue_bounded = v.queue_bounded;
  }

  pub duplicates-IsValid :
      (ds : List (Text × List Text)) (b : Board L)
      → IsValid b
      → IsValid (record b { duplicates = ds })
  duplicates-IsValid ds b v = record {
    filed = v.filed;
    bounded = v.bounded;
    queue_bounded = v.queue_bounded;
  }

  pub wake-IsValid : (id : Text) (j : Job L) (b : Board L) → IsValid b → IsValid (wake id j b).0
  unfolding wake
  wake-IsValid id j b v = waiters-IsValid (remove id b.waiters) b v
