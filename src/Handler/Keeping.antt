-- ===== src/Handler/Keeping.antt =====
-- templemeads/src/handler.rs: the boards of all peers stay in order while control messages are handled.
use openportal.Base.{ℕ, zero, suc, Option, none, some, if_elim, nat_eq, list_eq, nat_beq}
use openportal.Base.Text.{Text}
use openportal.Error.{Error, Result, ok, err}
use openportal.Peer.{Peer}
use openportal.Job.{Domain, Job, is_expired, is_finished}
use openportal.Board.{Waiter, finished, waiting}
use openportal.Board.Keeping.{handle, handle-IsValid, on_wait}
use openportal.Transfer.{Boards, Reply}
use openportal.Transfer.Waiting.{World, waiter_at, hear, wait_at, wait_once, wait_more, wait}
use openportal.Transfer.Boards.{
  AreValid, at-AreValid, update_to-AreValid, received-AreValid, deleted-AreValid,
  delete_from-AreValid, and_then-AreValid,
}
use openportal.Transfer.Exchanges.{virtual_update-AreValid}
use openportal.Handler.{
  Agent, finish, tell_sender, refuse, update_connected, update_onward, update_gated, handle_update,
  delete_connected, delete_onward, handle_delete,
}
use openportal.Handler.Puts.{still_waited, wait_duplicate, answer_put}

-- Whatever other tasks do while one waits keeps the boards in order.
module _ {L : Domain} (w : World L)
    (calm : (channel : ℕ) (s : Boards L) → AreValid s → AreValid (w.hears channel s).0) where
  waiter_at-AreValid :
      (agent : Peer) (job : Job L) (s : Boards L)
      → AreValid s
      → AreValid (waiter_at w agent job s).0
  unfolding waiter_at handle
  waiter_at-AreValid agent job s v =
      at-AreValid _ agent s (λ b v. handle-IsValid (on_wait (w.channel s) job) b v) v

  hear-AreValid : (r : Boards L × Result (Waiter L)) → AreValid r.0 → AreValid (hear w r).0
  unfolding hear
  hear-AreValid (s, err e) v = v
  hear-AreValid (s, ok (finished job)) v = v
  hear-AreValid (s, ok (waiting channel)) v = calm channel s v

  wait_at-AreValid :
      (o : Option Peer) (job : Job L) (s : Boards L) → AreValid s → AreValid (wait_at o w job s).0
  unfolding wait_at
  wait_at-AreValid none job s v = v
  wait_at-AreValid (some agent) job s v = hear-AreValid _ (waiter_at-AreValid agent job s v)

  wait_once-AreValid : (job : Job L) (s : Boards L) → AreValid s → AreValid (wait_once w job s).0
  unfolding wait_once
  wait_once-AreValid job s v =
      if_elim (λ (r : Boards L × Result (Job L)). AreValid r.0) _ v
        (wait_at-AreValid job.board job s v)

  wait_more-AreValid :
      (n : ℕ) (r : Boards L × Result (Job L)) → AreValid r.0 → AreValid (wait_more n w r).0
  unfolding wait_more
  wait_more-AreValid zero (s, ok job) v = v
  wait_more-AreValid zero (s, err e) v = v
  wait_more-AreValid (suc n) (s, err e) v = v
  wait_more-AreValid (suc n) (s, ok job) v =
      if_elim (λ (r : Boards L × Result (Job L)). AreValid r.0) (is_finished job) v
        (wait_more-AreValid n _ (wait_once-AreValid job s v))

  pub wait_duplicate-AreValid :
      (n now : ℕ) (r : Boards L × Result (Job L))
      → AreValid r.0
      → AreValid (wait_duplicate n now w r).0
  unfolding wait_duplicate still_waited wait
  wait_duplicate-AreValid zero now (s, ok job) v = v
  wait_duplicate-AreValid zero now (s, err e) v = v
  wait_duplicate-AreValid (suc n) now (s, err e) v = v
  wait_duplicate-AreValid (suc n) now (s, ok job) v =
      if_elim (λ (r : Boards L × Result (Job L)). AreValid r.0) (is_finished job) v
        (wait_duplicate-AreValid n now (still_waited now (wait w job s))
          (wait_more-AreValid 10 _ (wait_once-AreValid job s v)))

module _ {L : Domain} where
  finish-AreValid : {A : Type 0} (r : Reply L A) → AreValid r.boards → AreValid (finish r).boards
  unfolding finish
  finish-AreValid r v = and_then-AreValid r _ v (λ a. v)

  pub refuse-AreValid :
      (latest now : ℕ) (agent : Agent L) (sender : Peer) (e : Error) (job : Job L) (s : Boards L)
      → AreValid s
      → AreValid (refuse latest now agent sender e job s).boards
  unfolding refuse
  refuse-AreValid latest now agent sender e job s v = step _
    where
      step : (r : Result (Job L)) → AreValid (tell_sender r latest now agent sender s).boards
      step (err e) = unfold tell_sender in v
      step (ok k) =
          unfold tell_sender in
          finish-AreValid _ (update_to-AreValid latest now agent.net sender k s v)

  update_onward-AreValid :
      (o : Option Text) (latest now : ℕ) (agent : Agent L) (zone : Text) (job : Job L)
      (s : Boards L)
      → AreValid s
      → AreValid (update_onward o latest now agent zone job s).boards
  unfolding update_onward
  update_onward-AreValid none latest now agent zone job s v = v
  update_onward-AreValid (some name) latest now agent zone job s v = step _
    where
      step :
          (r : Result (Unit {0}))
          → AreValid
              (update_connected r latest now agent
                (record { name = name; zone = zone })
                job
                s).boards
      step (err e) = unfold update_connected in v
      step (ok u) =
          unfold update_connected in
          finish-AreValid _ (update_to-AreValid latest now agent.net _ job s v)

  delete_onward-AreValid :
      (o : Option Text) (now : ℕ) (agent : Agent L) (zone : Text) (job : Job L) (s : Boards L)
      → AreValid s
      → AreValid (delete_onward o now agent zone job s).boards
  unfolding delete_onward
  delete_onward-AreValid none now agent zone job s v = v
  delete_onward-AreValid (some name) now agent zone job s v = step _
    where
      step :
          (r : Result (Unit {0}))
          → AreValid
              (delete_connected r now agent (record { name = name; zone = zone }) job s).boards
      step (err e) = unfold delete_connected in v
      step (ok u) =
          unfold delete_connected in
          finish-AreValid _ (delete_from-AreValid now agent.net _ job s v)

  pub handle_update-AreValid :
      (latest now : ℕ) (agent : Agent L) (recipient : Text) (sender : Peer) (job : Job L)
      (s : Boards L)
      → AreValid s
      → AreValid (handle_update latest now agent recipient sender job s).boards
  unfolding handle_update
  handle_update-AreValid latest now agent recipient sender job s v =
      if_elim (λ (r : Reply L (Unit {0})). AreValid r.boards) (is_expired now job) v (step _)
    where
      step :
          (r : Result (Unit {0}))
          → AreValid (update_gated r latest now agent recipient sender job s).boards
      step (err e) = unfold update_gated in refuse-AreValid latest now agent sender e job s v
      step (ok u) =
          unfold update_gated in
          let w = received-AreValid latest now sender job s v in
          and_then-AreValid _ _ w (λ k. update_onward-AreValid _ latest now agent sender.zone k _ w)

  pub handle_delete-AreValid :
      (now : ℕ) (agent : Agent L) (recipient : Text) (sender : Peer) (job : Job L) (s : Boards L)
      → AreValid s
      → AreValid (handle_delete now agent recipient sender job s).boards
  unfolding handle_delete
  handle_delete-AreValid now agent recipient sender job s v =
      let w = deleted-AreValid now sender job s v in
      if_elim (λ (r : Reply L (Unit {0})). AreValid r.boards) (is_expired now job) v
        (and_then-AreValid _ _ w (λ k. delete_onward-AreValid _ now agent sender.zone k _ w))

  pub answer_put-AreValid :
      (latest now : ℕ) (agent : Agent L) (recipient : Text) (sender : Peer) (version : ℕ)
      (job : Job L) (s : Boards L)
      → AreValid s
      → AreValid (answer_put latest now agent recipient sender version job s).boards
  unfolding answer_put
  answer_put-AreValid latest now agent recipient sender version job s v =
      let peer : Peer = record { name = recipient; zone = sender.zone } in
      let IsFine : Reply L (Unit {0}) → Type 0 = λ r. AreValid r.boards in
      if_elim IsFine (nat_beq job.version version) v (
        if_elim IsFine (agent.is_self peer)
          (finish-AreValid _ (update_to-AreValid latest now agent.net sender job s v))
          (if_elim IsFine (agent.is_virtual peer)
            (finish-AreValid _ (virtual_update-AreValid latest now agent.net peer sender job s v))
            v))
