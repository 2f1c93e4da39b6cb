-- ===== src/Transfer/Exchanges.antt =====
-- templemeads/src/job.rs and templemeads/src/state.rs: synchronisation, resending, updates of virtual agents
-- and cleaning keep the boards in order.
use openportal.Base.{ℕ, List, [], ◌∷◌, Option, none, some, if_elim, ltb, length, nat_eq, list_eq}
use openportal.Base.Text.{Text}
use openportal.Error.{Result, ok, err}
use openportal.Peer.{Peer, peer_eq}
use openportal.Job.{Domain, Job}
use openportal.Board.{Board, Command, put, update, delete, other}
use openportal.Board.Operations.{take_queued}
use openportal.Board.Adding.{add-IsValid}
use openportal.Board.Keeping.{handle, handle-IsValid}
use openportal.Transfer.{Boards, Network, get_board, send_or_queue, append_reply}
use openportal.Transfer.Syncing.{
  sync_with, sync_from_peer, send_command, send_each, take_and_send, send_queued, add_ignoring,
  update_upstream, virtual_update_checked, virtual_update,
}
use openportal.Transfer.Boards.{
  AreValid, IsOpened, get_board-IsOpened, write-AreValid, at-AreValid, take_queued-IsValid,
  after_send-AreValid, put_to-AreValid, update_to-AreValid, delete_from-AreValid, and_then-AreValid,
}
use openportal.Transfer.Cleaning.{clean_opened, clean_each}
use openportal.Board.Keeping.{on_expire}

module _ {L : Domain} where
  send_command-AreValid :
      (latest now : ℕ) (net : Network L) (peer : Peer) (c : Command L) (s : Boards L)
      → AreValid s
      → AreValid (send_command latest now net peer c s).boards
  unfolding send_command
  send_command-AreValid latest now net peer (put job) s v =
      let w = put_to-AreValid latest now net peer job s v in and_then-AreValid _ _ w (λ a. w)
  send_command-AreValid latest now net peer (update job) s v =
      let w = update_to-AreValid latest now net peer job s v in and_then-AreValid _ _ w (λ a. w)
  send_command-AreValid latest now net peer (delete job) s v =
      let w = delete_from-AreValid now net peer job s v in and_then-AreValid _ _ w (λ a. w)
  send_command-AreValid latest now net peer other s v = v

  send_each-AreValid :
      (latest now : ℕ) (net : Network L) (peer : Peer) (cs : List (Command L)) (s : Boards L)
      → AreValid s
      → AreValid (send_each latest now net peer cs s).boards
  unfolding send_each
  send_each-AreValid latest now net peer [] s v = v
  send_each-AreValid latest now net peer (c ∷ cs) s v =
      let w = send_command-AreValid latest now net peer c s v in
      and_then-AreValid _ _ w (λ a. send_each-AreValid latest now net peer cs _ w)

  pub send_queued-AreValid :
      (latest now : ℕ) (net : Network L) (peer : Peer) (s : Boards L)
      → AreValid s
      → AreValid (send_queued latest now net peer s).boards
  unfolding send_queued
  send_queued-AreValid latest now net peer s v =
      step (get_board peer s) (get_board-IsOpened peer s v)
    where
      step :
          (r : Boards L × Result (Board L))
          → IsOpened peer r
          → AreValid (take_and_send latest now net peer r).boards
      step (t, err e) w = unfold take_and_send in w
      step (t, ok b) w =
          unfold take_and_send in
          send_each-AreValid latest now net peer _ _
            (write-AreValid peer b (take_queued b).0 t w.0 w.2 (take_queued-IsValid b w.1))

  pub sync_from_peer-AreValid :
      (now later : ℕ) (recipient : Text) (peer : Peer) (jobs : List (Job L)) (s : Boards L)
      → AreValid s
      → AreValid (sync_from_peer now later recipient peer jobs s).0
  unfolding sync_from_peer
  sync_from_peer-AreValid now later recipient peer [] s v = v
  sync_from_peer-AreValid now later recipient peer (job ∷ jobs) s v =
      if_elim (λ (r : Boards L × List (Command L) × Result (Unit {0})). AreValid r.0)
        (ltb 10000 (length (job ∷ jobs))) v (step (get_board peer s) (get_board-IsOpened peer s v))
    where
      step :
          (r : Boards L × Result (Board L))
          → IsOpened peer r
          → AreValid (sync_with now later recipient peer (job ∷ jobs) r).0
      step (t, err e) w = unfold sync_with in w
      step (t, ok b) w = unfold sync_with in w.0

  add_ignoring-AreValid :
      (latest now : ℕ) (peer : Peer) (job : Job L) (s : Boards L)
      → AreValid s
      → AreValid (add_ignoring latest now peer job s).0
  unfolding add_ignoring
  add_ignoring-AreValid latest now peer job s v =
      at-AreValid _ peer s (λ b w. add-IsValid latest now (record job { board = some peer }) b w) v

  update_upstream-AreValid :
      (o : Option Text) (latest now : ℕ) (net : Network L) (virtual hosting : Peer) (job : Job L)
      (s : Boards L)
      → AreValid s
      → AreValid (update_upstream o latest now net virtual hosting job s).boards
  unfolding update_upstream send_or_queue
  update_upstream-AreValid none latest now net virtual hosting job s v = v
  update_upstream-AreValid (some name) latest now net virtual hosting job s v =
      let w =
        add_ignoring-AreValid latest now (record { name = name; zone = hosting.zone }) job s v in
      and_then-AreValid _ _ w (λ u. after_send-AreValid _ _ _ _ w)

  pub virtual_update-AreValid :
      (latest now : ℕ) (net : Network L) (virtual hosting : Peer) (job : Job L) (s : Boards L)
      → AreValid s
      → AreValid (virtual_update latest now net virtual hosting job s).boards
  unfolding virtual_update
  virtual_update-AreValid latest now net virtual hosting job s v = step _
    where
      step :
          (r : Result (Unit {0}))
          → AreValid (virtual_update_checked r latest now net virtual hosting job s).boards
      step (err e) = unfold virtual_update_checked in v
      step (ok u) =
          unfold virtual_update_checked in
          let w = add_ignoring-AreValid latest now hosting job s v in
          and_then-AreValid _ _ w (λ u.
            let x = add_ignoring-AreValid latest now virtual job _ w in
            and_then-AreValid _ _ x
              (λ u. update_upstream-AreValid _ latest now net virtual hosting job _ x))

  clean_opened-AreValid :
      (r : Boards L × Result (Board L)) (now : ℕ) (my_name : Text) (peer : Peer)
      → IsOpened peer r
      → AreValid (clean_opened r now my_name peer).boards
  unfolding clean_opened handle
  clean_opened-AreValid (s, err e) now my_name peer v = v
  clean_opened-AreValid (s, ok b) now my_name peer v =
      write-AreValid peer b _ s v.0 v.2 (handle-IsValid (on_expire now) b v.1)

  pub clean_each-AreValid :
      (peers : List Peer) (now : ℕ) (my_name : Text) (s : Boards L)
      → AreValid s
      → AreValid (clean_each peers now my_name s).boards
  unfolding clean_each append_reply
  clean_each-AreValid [] now my_name s v = v
  clean_each-AreValid (peer ∷ peers) now my_name s v =
      clean_each-AreValid peers now my_name _
        (clean_opened-AreValid (get_board peer s) now my_name peer (get_board-IsOpened peer s v))
