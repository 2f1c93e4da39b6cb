-- ===== src/Board/Keeping.antt =====
-- Every operation keeps a board in order, so every board that is reached is.
use openportal.Base.{
  ℕ, suc, ◌≤◌, List, [], ◌∷◌, Option, none, some, nat_eq, list_eq, length, length-append, leb,
  arith, Bool-cases, inl, inr, if_elim,
}
use openportal.Base.Text.{Text}
use openportal.Base.Assoc.{lookup}
use openportal.Peer.{Peer}
use openportal.Error.{Result, ok, err}
use openportal.Job.{Domain, Job, is_finished}
use openportal.Board.{
  Board, Command, command_job, Waiter, new, Notices, notify_all, max_queued_commands,
}
use openportal.Board.Add.{add}
use openportal.Board.Operations.{
  get, get_waiter, wait_on, remove_noticed, remove_checked, queue, queue_job, take_queued,
  remove_one, remove_each, remove_told, remove_from, remove_job, removal_notice,
}
use openportal.Board.Expiry.{
  drop_one, drop_each, expire_one, expire_each, expired_form, retain_queued, retain_one,
  remove_expired_jobs,
}
use openportal.Board.Entries.{
  IsValid, remove-IsValid, waiters-IsValid, duplicates-IsValid, wake-IsValid,
}
use openportal.Board.Adding.{add-IsValid}

module _ {L : Domain} where
  remove_one-IsValid :
      (now : ℕ) (job : Job L) (id : Text) (o : Option (Job L)) (b : Board L)
      → IsValid b
      → IsValid (remove_one now job id o b).0
  unfolding remove_one
  remove_one-IsValid now job id none b v = v
  remove_one-IsValid now job id (some dup) b v = wake-IsValid id _ _ (remove-IsValid id b v)

  remove_each-IsValid :
      (now : ℕ) (job : Job L) (ids : List Text) (b : Board L)
      → IsValid b
      → IsValid (remove_each now job ids b).0
  unfolding remove_each
  remove_each-IsValid now job [] b v = v
  remove_each-IsValid now job (id ∷ ids) b v =
      remove_each-IsValid now job ids _ (remove_one-IsValid now job id (lookup id b.jobs) b v)

  remove_told-IsValid :
      (now : ℕ) (job : Job L) (b : Board L) (told : Notices L)
      → IsValid b
      → IsValid (remove_told now job b told).0
  unfolding remove_told
  remove_told-IsValid now job b told v =
      remove_each-IsValid now job _ _
        (duplicates-IsValid _ _ (wake-IsValid job.id job _ (remove-IsValid job.id b v)))

  remove_noticed-IsValid :
      (r : Result (Job L)) (now : ℕ) (job : Job L) (channels : List ℕ) (b : Board L)
      → IsValid b
      → IsValid (remove_noticed r now job channels b).0
  unfolding remove_noticed
  remove_noticed-IsValid (ok k) now job channels b v =
      remove_told-IsValid now job b (notify_all channels k) v
  remove_noticed-IsValid (err e) now job channels b v = v

  remove_from-IsValid :
      (o : Option (List ℕ)) (now : ℕ) (job : Job L) (b : Board L)
      → IsValid b
      → IsValid (remove_from o now job b).0
  unfolding remove_from
  remove_from-IsValid none now job b v = remove_told-IsValid now job b [] v
  remove_from-IsValid (some channels) now job b v =
      remove_noticed-IsValid (removal_notice now job) now job channels _ (waiters-IsValid _ b v)

  remove_checked-IsValid :
      (r : Result (Unit {0})) (now : ℕ) (job : Job L) (b : Board L)
      → IsValid b
      → IsValid (remove_checked r now job b).0
  unfolding remove_checked
  remove_checked-IsValid (ok u) now job b v =
      remove_from-IsValid (lookup job.id b.waiters) now job b v
  remove_checked-IsValid (err e) now job b v = v

  queue_job-IsValid :
      (o : Option (Job L)) (c : Command L) (b : Board L) → IsValid b → IsValid (queue_job o c b)
  unfolding queue_job
  queue_job-IsValid none c b v = v
  queue_job-IsValid (some j) c b v =
      elim (Bool-cases (leb max_queued_commands (length b.queued_commands))) [
        | inl y ↦ rw y (remove-IsValid j.id b v)
        | inr n ↦
            let w = remove-IsValid j.id b v in
            rw n (record {
              filed = w.filed;
              bounded = w.bounded;
              queue_bounded = ground (arith, n, length-append b.queued_commands (c ∷ []));
            })
      ]

  wait_on-IsValid :
      (r : Result (Job L)) (channel : ℕ) (id : Text) (b : Board L)
      → IsValid b
      → IsValid (wait_on r channel id b).0
  unfolding wait_on
  wait_on-IsValid (ok j) channel id b v =
      if_elim {A = Board L × Result (Waiter L)} (λ r. IsValid r.0) (is_finished j) v
        (waiters-IsValid _ b v)
  wait_on-IsValid (err e) channel id b v = v

  drop_one-IsValid :
      (now : ℕ) (id : Text) (o : Option (Job L)) (b : Board L)
      → IsValid b
      → IsValid (drop_one now id o b).0
  unfolding drop_one
  drop_one-IsValid now id none b v = remove-IsValid id b v
  drop_one-IsValid now id (some dup) b v = wake-IsValid id _ _ (remove-IsValid id b v)

  drop_each-IsValid :
      (now : ℕ) (ids : List Text) (b : Board L) → IsValid b → IsValid (drop_each now ids b).0
  unfolding drop_each
  drop_each-IsValid now [] b v = v
  drop_each-IsValid now (id ∷ ids) b v =
      drop_each-IsValid now ids _ (drop_one-IsValid now id (lookup id b.jobs) b v)

  expire_one-IsValid :
      (now : ℕ) (job : Job L) (b : Board L) → IsValid b → IsValid (expire_one now job b).0
  unfolding expire_one
  expire_one-IsValid now job b v =
      remove-IsValid job.id _
        (drop_each-IsValid now _ _ (duplicates-IsValid _ _ (wake-IsValid job.id job b v)))

  expire_each-IsValid :
      (now : ℕ) (js : List (Job L)) (b : Board L) → IsValid b → IsValid (expire_each now js b).0
  unfolding expire_each
  expire_each-IsValid now [] b v = v
  expire_each-IsValid now (j ∷ js) b v =
      expire_each-IsValid now js _ (expire_one-IsValid now (expired_form now j) b v)

  retain_one-le :
      (o : Option (Job L)) (now : ℕ) (c : Command L) (r : List (Job L) × List (Command L))
      → length (retain_one o now c r).1 ≤ suc (length r.1)
  unfolding retain_one
  retain_one-le none now c (dropped, kept) = omega arith
  retain_one-le (some j) now c (dropped, kept) = ground arith

  retain_queued-le : (now : ℕ) (cs : List (Command L)) → length (retain_queued now cs).1 ≤ length cs
  unfolding retain_queued
  retain_queued-le now [] = omega arith
  retain_queued-le now (c ∷ cs) =
      omega
        (arith, retain_one-le (command_job c) now c (retain_queued now cs), retain_queued-le now cs)

  remove_expired_jobs-IsValid :
      (now : ℕ) (b : Board L) → IsValid b → IsValid (remove_expired_jobs now b).0
  unfolding remove_expired_jobs
  remove_expired_jobs-IsValid now b v = expire_each-IsValid now _ _ (record {
    filed = v.filed;
    bounded = v.bounded;
    queue_bounded = omega (arith, retain_queued-le now b.queued_commands, v.queue_bounded);
  })

-- What may happen to a board, with the times and the number of a new channel.
pub data Event (L : Domain) : Type 0 where
  on_add : ℕ → ℕ → Job L → Event L
  on_remove : ℕ → Job L → Event L
  on_queue : Command L → Event L
  on_wait : ℕ → Job L → Event L
  on_take : Event L
  on_expire : ℕ → Event L

module _ {L : Domain} where
  unfoldable pub handle : Event L → Board L → Board L
  handle (on_add latest now job) b = (add latest now job b).0
  handle (on_remove now job) b = (remove_job now job b).0
  handle (on_queue c) b = queue c b
  handle (on_wait channel job) b = (get_waiter channel job b).0
  handle on_take b = (take_queued b).0
  handle (on_expire now) b = (remove_expired_jobs now b).0

  unfoldable pub handle_all : List (Event L) → Board L → Board L
  handle_all [] b = b
  handle_all (e ∷ es) b = handle_all es (handle e b)

  pub handle-IsValid : (e : Event L) (b : Board L) → IsValid b → IsValid (handle e b)
  unfolding handle remove_job queue get_waiter take_queued
  handle-IsValid (on_add latest now job) b v = add-IsValid latest now job b v
  handle-IsValid (on_remove now job) b v = remove_checked-IsValid _ now job b v
  handle-IsValid (on_queue c) b v = queue_job-IsValid (command_job c) c b v
  handle-IsValid (on_wait channel job) b v = wait_on-IsValid (get job.id b) channel job.id b v
  handle-IsValid on_take b v = record {
    filed = v.filed;
    bounded = v.bounded;
    queue_bounded = omega arith;
  }
  handle-IsValid (on_expire now) b v = remove_expired_jobs-IsValid now b v

  handle_all-IsValid : (es : List (Event L)) (b : Board L) → IsValid b → IsValid (handle_all es b)
  unfolding handle_all
  handle_all-IsValid [] b v = v
  handle_all-IsValid (e ∷ es) b v = handle_all-IsValid es (handle e b) (handle-IsValid e b v)

  -- Whatever the peer sends and whatever else happens to a new board, in any order, each of its jobs
  -- stands under its own id and names this board's peer, and it holds at most 10000 jobs and 1000
  -- queued commands.
  pub new-handle_all-IsValid :
      (peer : Peer) (es : List (Event L)) → IsValid (handle_all es (new peer))
  new-handle_all-IsValid peer es =
      handle_all-IsValid es (new peer)
        (record { filed = tt; bounded = omega arith; queue_bounded = omega arith })
