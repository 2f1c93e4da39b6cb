-- ===== src/Transfer/Boards.antt =====
-- templemeads/src/state.rs and templemeads/src/job.rs: the boards of all peers stay in order.
use openportal.Base.{
  ℕ, ◌≤◌, Bool, true, false, Option, none, some, if_elim, leb, length, All, Bool-cases, inl, inr,
  ◌≡◌, refl, ◌∙◌, ==_refl, arith, nat_eq, list_eq,
}
use openportal.Base.Assoc.{lookup, insert, length-insert, insert-All, lookup-All, lookup-insert}
use openportal.Error.{Result, ok, err}
use openportal.Peer.{Peer, peer_eq}
use openportal.Job.{Domain, Job}
use openportal.Board.{Board, Command, put, update, JobAddState, Notices, new}
use openportal.Board.Add.{add}
use openportal.Board.Operations.{queue, take_queued, remove_job}
use openportal.Board.Entries.{IsValid}
use openportal.Board.Adding.{add-IsValid}
use openportal.Board.Keeping.{handle, handle-IsValid, on_remove, on_queue, on_take}
use openportal.Transfer.{
  Boards, Network, Reply, open_board, get_board, on_board, add_at, queue_on, after_send,
  send_or_queue, deliver, put_job, put_to, update_job, update_to, receive_job, received, updated_on,
  updated_checked, updated_here, remove_at, deleted_job, deleted, delete_sent, delete_job,
  delete_from, append_reply, and_then_from, and_then, is_unsent, is_unchanged,
}

module _ {L : Domain} where
  -- At most a thousand boards, each of them in order.
  abbrev pub AreValid : Boards L → Type 0
  AreValid s = (length s ≤ 1000) × All (λ e. IsValid e.1) s

  -- A board that is opened is in order, and stands in the table.
  abbrev pub IsOpened : Peer → Boards L × Result (Board L) → Type 0
  IsOpened peer (s, err e) = AreValid s
  IsOpened peer (s, ok b) = AreValid s × IsValid b × (lookup peer s ≡ some b)

  new-IsValid : (peer : Peer) → IsValid {L = L} (new peer)
  new-IsValid peer = record { filed = tt; bounded = omega arith; queue_bounded = omega arith }

  open_board-IsOpened :
      (o : Option (Board L)) (peer : Peer) (s : Boards L)
      → lookup peer s ≡ o
      → AreValid s
      → IsOpened peer (open_board o peer s)
  unfolding open_board
  open_board-IsOpened (some b) peer s e v = (v, lookup-All (λ e. IsValid e.1) peer s v.1 e, e)
  open_board-IsOpened none peer s e v = elim (Bool-cases (leb 1000 (length s))) [
    | inl y ↦ rw y v
    | inr n ↦ rw n (
      (
        ground (arith, n, length-insert peer (new peer) s, v.0),
        insert-All (λ e. IsValid e.1) peer (new peer) s (new-IsValid peer) v.1,
      ),
      new-IsValid peer,
      lookup-insert peer peer (new peer) s ∙ rw (==_refl peer) refl,
    )
  ]

  pub get_board-IsOpened :
      (peer : Peer) (s : Boards L) → AreValid s → IsOpened peer (get_board peer s)
  unfolding get_board
  get_board-IsOpened peer s v = open_board-IsOpened (lookup peer s) peer s refl v

  -- A board that is written back.
  pub write-AreValid :
      (peer : Peer) (b b' : Board L) (s : Boards L)
      → AreValid s
      → lookup peer s ≡ some b
      → IsValid b'
      → AreValid (insert peer b' s)
  write-AreValid peer b b' s v e w =
      (rw (length-insert peer b' s, e) v.0, insert-All (λ e. IsValid e.1) peer b' s w v.1)

  on_board-AreValid :
      {A : Type 0} (f : Board L → Board L × Notices L × Result A) (peer : Peer)
      (r : Boards L × Result (Board L))
      → ((b : Board L) → IsValid b → IsValid (f b).0)
      → IsOpened peer r
      → AreValid (on_board f peer r).0
  unfolding on_board
  on_board-AreValid f peer (s, err e) keeps v = v
  on_board-AreValid f peer (s, ok b) keeps v = write-AreValid peer b _ s v.0 v.2 (keeps b v.1)

  pub at-AreValid :
      {A : Type 0} (f : Board L → Board L × Notices L × Result A) (peer : Peer) (s : Boards L)
      → ((b : Board L) → IsValid b → IsValid (f b).0)
      → AreValid s
      → AreValid (on_board f peer (get_board peer s)).0
  at-AreValid f peer s keeps v =
      on_board-AreValid f peer (get_board peer s) keeps (get_board-IsOpened peer s v)

  queue-IsValid : (c : Command L) (b : Board L) → IsValid b → IsValid (queue c b)
  unfolding handle
  queue-IsValid c b v = handle-IsValid (on_queue c) b v

  remove_job-IsValid :
      (now : ℕ) (job : Job L) (b : Board L) → IsValid b → IsValid (remove_job now job b).0
  unfolding handle
  remove_job-IsValid now job b v = handle-IsValid (on_remove now job) b v

  pub take_queued-IsValid : (b : Board L) → IsValid b → IsValid (take_queued b).0
  unfolding handle
  take_queued-IsValid b v = handle-IsValid on_take b v

  queue_on-AreValid :
      (o : Option (Board L)) (c : Command L) (peer : Peer) (s : Boards L)
      → lookup peer s ≡ o
      → AreValid s
      → AreValid (queue_on o c peer s)
  unfolding queue_on
  queue_on-AreValid none c peer s e v = v
  queue_on-AreValid (some b) c peer s e v =
      write-AreValid peer b (queue c b) s v e
        (queue-IsValid c b (lookup-All (λ e. IsValid e.1) peer s v.1 e))

  pub after_send-AreValid :
      (r : Result (Unit {0})) (c : Command L) (peer : Peer) (s : Boards L)
      → AreValid s
      → AreValid (after_send r c peer s)
  unfolding after_send
  after_send-AreValid (ok u) c peer s v = v
  after_send-AreValid (err e) c peer s v = queue_on-AreValid (lookup peer s) c peer s refl v

  deliver-AreValid :
      (quiet : JobAddState → Bool) (command : Job L → Command L) (net : Network L) (peer : Peer)
      (r : Boards L × Notices L × Result (Job L × JobAddState))
      → AreValid r.0
      → AreValid (deliver quiet command net peer r).boards
  unfolding deliver send_or_queue
  deliver-AreValid quiet command net peer (s, told, err e) v = v
  deliver-AreValid quiet command net peer (s, told, ok (job, state)) v =
      if_elim (λ (r : Reply L (Job L)). AreValid r.boards) (quiet state) v
        (after_send-AreValid _ (command job) peer s v)

  add_at-AreValid :
      (latest now : ℕ) (peer : Peer) (job : Job L) (s : Boards L)
      → AreValid s
      → AreValid (add_at latest now peer job s).0
  unfolding add_at
  add_at-AreValid latest now peer job s v =
      at-AreValid (add latest now (record job { board = some peer })) peer s
        (λ b w. add-IsValid latest now (record job { board = some peer }) b w) v

  pub put_to-AreValid :
      (latest now : ℕ) (net : Network L) (peer : Peer) (job : Job L) (s : Boards L)
      → AreValid s
      → AreValid (put_to latest now net peer job s).boards
  unfolding put_to
  put_to-AreValid latest now net peer job s v = step _
    where
      step : (r : Result (Job L)) → AreValid (put_job r latest now net peer s).boards
      step (err e) = unfold put_job in v
      step (ok k) =
          unfold put_job in
          deliver-AreValid is_unsent put net peer _ (add_at-AreValid latest now peer k s v)

  pub update_to-AreValid :
      (latest now : ℕ) (net : Network L) (peer : Peer) (job : Job L) (s : Boards L)
      → AreValid s
      → AreValid (update_to latest now net peer job s).boards
  unfolding update_to
  update_to-AreValid latest now net peer job s v = step _
    where
      step : (r : Result (Unit {0})) → AreValid (update_job r latest now net peer job s).boards
      step (err e) = unfold update_job in v
      step (ok u) =
          unfold update_job in
          deliver-AreValid is_unchanged update net peer _ (add_at-AreValid latest now peer job s v)

  pub received-AreValid :
      (latest now : ℕ) (peer : Peer) (job : Job L) (s : Boards L)
      → AreValid s
      → AreValid (received latest now peer job s).boards
  unfolding received
  received-AreValid latest now peer job s v = step _
    where
      step : (r : Result (Unit {0})) → AreValid (receive_job r latest now peer job s).boards
      step (err e) = unfold receive_job in v
      step (ok u) = unfold receive_job in add_at-AreValid latest now peer job s v

  pub updated_here-AreValid :
      (latest now : ℕ) (job : Job L) (s : Boards L)
      → AreValid s
      → AreValid (updated_here latest now job s).boards
  unfolding updated_here
  updated_here-AreValid latest now job s v = step _
    where
      on : (o : Option Peer) → AreValid (updated_on o latest now job s).boards
      on none = unfold updated_on in v
      on (some agent) =
          unfold updated_on in
          at-AreValid (add latest now job) agent s (λ b w. add-IsValid latest now job b w) v

      step : (r : Result (Unit {0})) → AreValid (updated_checked r latest now job s).boards
      step (err e) = unfold updated_checked in v
      step (ok u) = unfold updated_checked in on job.board

  remove_at-AreValid :
      (now : ℕ) (peer : Peer) (job : Job L) (s : Boards L)
      → AreValid s
      → AreValid (remove_at now peer job s).0
  unfolding remove_at
  remove_at-AreValid now peer job s v =
      at-AreValid (remove_job now (record job { board = some peer })) peer s
        (λ b w. remove_job-IsValid now (record job { board = some peer }) b w) v

  pub deleted-AreValid :
      (now : ℕ) (peer : Peer) (job : Job L) (s : Boards L)
      → AreValid s
      → AreValid (deleted now peer job s).boards
  unfolding deleted
  deleted-AreValid now peer job s v = step _
    where
      step : (r : Result (Unit {0})) → AreValid (deleted_job r now peer job s).boards
      step (err e) = unfold deleted_job in v
      step (ok u) = unfold deleted_job in remove_at-AreValid now peer job s v

  delete_sent-AreValid :
      (net : Network L) (peer : Peer) (job : Job L) (r : Boards L × Notices L × Result Bool)
      → AreValid r.0
      → AreValid (delete_sent net peer job r).boards
  unfolding delete_sent send_or_queue
  delete_sent-AreValid net peer job (s, told, err e) v = v
  delete_sent-AreValid net peer job (s, told, ok false) v = v
  delete_sent-AreValid net peer job (s, told, ok true) v = after_send-AreValid _ _ peer s v

  pub delete_from-AreValid :
      (now : ℕ) (net : Network L) (peer : Peer) (job : Job L) (s : Boards L)
      → AreValid s
      → AreValid (delete_from now net peer job s).boards
  unfolding delete_from
  delete_from-AreValid now net peer job s v = step _
    where
      step : (r : Result (Unit {0})) → AreValid (delete_job r now net peer job s).boards
      step (err e) = unfold delete_job in v
      step (ok u) =
          unfold delete_job in
          delete_sent-AreValid net peer job _ (remove_at-AreValid now peer job s v)

  pub and_then-AreValid :
      {A B : Type 0} (r : Reply L A) (f : Boards L → A → Reply L B)
      → AreValid r.boards
      → ((a : A) → AreValid (f r.boards a).boards)
      → AreValid (and_then r f).boards
  unfolding and_then
  and_then-AreValid {A = A} r f v w = step r.answer
    where
      step : (x : Result A) → AreValid (and_then_from x r.boards r.told r.sent f).boards
      step (err e) = unfold and_then_from in v
      step (ok a) = unfold and_then_from append_reply in w a
