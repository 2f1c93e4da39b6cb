-- ===== src/Transfer.antt =====
-- templemeads/src/state.rs and templemeads/src/job.rs: the boards of all peers, and the operations by
-- which a job goes from one agent to another. `send_to` is a parameter, the answer of the network to a
-- command; what is sent is a list beside the answer. The time is read once for an operation, and an
-- operation is one step: other tasks do nothing to the boards while a command is sent.
use openportal.Base.{
  ℕ, zero, suc, List, [], ◌∷◌, ◌++◌, Bool, true, false, not, ◌||◌, Option, none, some, ◌==◌, nat_eq,
  list_eq, if◌then◌else◌, leb, length,
}
use openportal.Base.Text.{Text}
use openportal.Base.Assoc.{lookup, insert}
use openportal.Destination.{previous}
use openportal.Error
use openportal.Error.{Result, ok, err, ◌>>=◌, ◌>>◌, guard}
use openportal.Peer.{Peer, peer_eq}
use openportal.Job.{Domain, Job, assert_is_not_expired}
use openportal.Job.Operations.{pending}
use openportal.Job.States.{Status, status_eq}
use openportal.Board.{
  Board, Command, put, update, delete, other, JobAddState, added, updated, duplicated, unchanged,
  Notices, new,
}
use openportal.Board.Add.{add}
use openportal.Board.Operations.{queue, take_queued, remove_job}
pub mod Waiting
pub mod Syncing
pub mod Cleaning
pub mod Boards
pub mod Exchanges
pub mod Runs
pub mod Sending
pub mod Waits
pub mod Queued
pub mod Selection
mod Tests

abbrev pub max_boards : ℕ
max_boards = 1000

-- `States`
abbrev pub Boards : Domain → Type 0
Boards L = List (Peer × Board L)

-- The answers of `send_to` for a command and a peer.
abbrev pub Network : Domain → Type 0
Network L = Command L → Peer → Result (Unit {0})

-- An operation's effect: the boards, what listeners are told, what was given to `send_to`, the answer.
pub record Reply (L : Domain) (A : Type 0) : Type 0 where
  pub boards : Boards L
  pub told : Notices L
  pub sent : List (Command L × Peer)
  pub answer : Result A

-- `state != Unchanged` is for an update, and a job is sent unless it is unchanged or a duplicate.
unfoldable pub is_unchanged : JobAddState → Bool
is_unchanged unchanged = true
is_unchanged _ = false

unfoldable pub is_unsent : JobAddState → Bool
is_unsent unchanged = true
is_unsent duplicated = true
is_unsent _ = false

module _ {L : Domain} where
  abbrev pub reply : {A : Type 0} → Boards L → Result A → Reply L A
  reply s r = record { boards = s; told = []; sent = []; answer = r }

  unfoldable pub open_board : Option (Board L) → Peer → Boards L → Boards L × Result (Board L)
  open_board (some b) peer s = (s, ok b)
  open_board none peer s =
      if leb max_boards (length s)
      then (s, err Error.unavailable)
      else (insert peer (new peer) s, ok (new peer))

  -- `state::get`
  unfoldable pub get_board : Peer → Boards L → Boards L × Result (Board L)
  get_board peer s = open_board (lookup peer s) peer s

  unfoldable pub on_board :
      {A : Type 0}
      → (Board L → Board L × Notices L × Result A)
      → Peer
      → Boards L × Result (Board L)
      → Boards L × Notices L × Result A
  on_board f peer (s, err e) = (s, [], err e)
  on_board f peer (s, ok b) = let (b1, told, r) = f b in (insert peer b1 s, told, r)

  -- `board.add` on the board of a peer.
  unfoldable pub add_at :
      ℕ → ℕ → Peer → Job L → Boards L → Boards L × Notices L × Result (Job L × JobAddState)
  add_at latest now peer job s =
      on_board (add latest now (record job { board = some peer })) peer (get_board peer s)

  unfoldable pub queue_on : Option (Board L) → Command L → Peer → Boards L → Boards L
  queue_on (some b) c peer s = insert peer (queue c b) s
  queue_on none c peer s = s

  -- A command that could not be sent is queued.
  unfoldable pub after_send : Result (Unit {0}) → Command L → Peer → Boards L → Boards L
  after_send (ok u) c peer s = s
  after_send (err e) c peer s = queue_on (lookup peer s) c peer s

  unfoldable pub send_or_queue : Network L → Command L → Peer → Boards L → Boards L
  send_or_queue net c peer s = after_send (net c peer) c peer s

  -- What `put` and `update` do once the job is added.
  unfoldable pub deliver :
      (JobAddState → Bool)
      → (Job L → Command L)
      → Network L
      → Peer
      → Boards L × Notices L × Result (Job L × JobAddState)
      → Reply L (Job L)
  deliver quiet command net peer (s, told, err e) = record {
    boards = s;
    told = told;
    sent = [];
    answer = err e;
  }
  deliver quiet command net peer (s, told, ok (job, state)) =
      if quiet state
      then record { boards = s; told = told; sent = []; answer = ok job }
      else record {
        boards = send_or_queue net (command job) peer s;
        told = told;
        sent = (command job, peer) ∷ [];
        answer = ok job;
      }

  unfoldable pub put_job : Result (Job L) → ℕ → ℕ → Network L → Peer → Boards L → Reply L (Job L)
  put_job (err e) latest now net peer s = reply s (err e)
  put_job (ok job) latest now net peer s =
      deliver is_unsent put net peer (add_at latest now peer job s)

  -- `Job::put`
  unfoldable pub put_to : ℕ → ℕ → Network L → Peer → Job L → Boards L → Reply L (Job L)
  put_to latest now net peer job s =
      put_job (assert_is_not_expired now job >> pending now job) latest now net peer s

  unfoldable pub update_job :
      Result (Unit {0}) → ℕ → ℕ → Network L → Peer → Job L → Boards L → Reply L (Job L)
  update_job (err e) latest now net peer job s = reply s (err e)
  update_job (ok u) latest now net peer job s =
      deliver is_unchanged update net peer (add_at latest now peer job s)

  -- `Job::update`
  unfoldable pub update_to : ℕ → ℕ → Network L → Peer → Job L → Boards L → Reply L (Job L)
  update_to latest now net peer job s =
      update_job (assert_is_not_expired now job) latest now net peer job s

  abbrev pub kept : {A : Type 0} → Boards L × Notices L × Result A → Reply L A
  kept (s, told, r) = record { boards = s; told = told; sent = []; answer = r }

  unfoldable pub receive_job : Result (Unit {0}) → ℕ → ℕ → Peer → Job L → Boards L → Reply L (Job L)
  receive_job (err e) latest now peer job s = reply s (err e)
  receive_job (ok u) latest now peer job s =
      let (s1, told, r) = add_at latest now peer job s in kept (s1, told, r >>= λ k. ok k.0)

  -- `Job::received`
  unfoldable pub received : ℕ → ℕ → Peer → Job L → Boards L → Reply L (Job L)
  received latest now peer job s =
      receive_job
        (guard (not (job.state == Status.created)) Error.invalid_state
          >> assert_is_not_expired now job)
        latest now peer job s

  unfoldable pub changed_job : Job L → Job L × JobAddState → Job L
  changed_job self (job, state) = if is_unchanged state then self else job

  unfoldable pub updated_on : Option Peer → ℕ → ℕ → Job L → Boards L → Reply L (Job L)
  updated_on none latest now job s = reply s (err Error.invalid_board)
  updated_on (some agent) latest now job s =
      let (s1, told, r) = on_board (add latest now job) agent (get_board agent s) in
      kept (s1, told, r >>= λ k. ok (changed_job job k))

  unfoldable pub updated_checked : Result (Unit {0}) → ℕ → ℕ → Job L → Boards L → Reply L (Job L)
  updated_checked (err e) latest now job s = reply s (err e)
  updated_checked (ok u) latest now job s = updated_on job.board latest now job s

  -- `Job::updated`
  unfoldable pub updated_here : ℕ → ℕ → Job L → Boards L → Reply L (Job L)
  updated_here latest now job s = updated_checked (assert_is_not_expired now job) latest now job s

  -- `board.remove` on the board of a peer.
  unfoldable pub remove_at : ℕ → Peer → Job L → Boards L → Boards L × Notices L × Result Bool
  remove_at now peer job s =
      on_board (remove_job now (record job { board = some peer })) peer (get_board peer s)

  abbrev pub without_board : Job L → Job L
  without_board job = record job { board = none }

  unfoldable pub deleted_job : Result (Unit {0}) → ℕ → Peer → Job L → Boards L → Reply L (Job L)
  deleted_job (err e) now peer job s = reply s (err e)
  deleted_job (ok u) now peer job s =
      let (s1, told, r) = remove_at now peer job s in
      kept (s1, told, r >>= λ changed. ok (without_board job))

  -- `Job::deleted`
  unfoldable pub deleted : ℕ → Peer → Job L → Boards L → Reply L (Job L)
  deleted now peer job s = deleted_job (assert_is_not_expired now job) now peer job s

  unfoldable pub delete_sent :
      Network L → Peer → Job L → Boards L × Notices L × Result Bool → Reply L (Job L)
  delete_sent net peer job (s, told, err e) = kept (s, told, err e)
  delete_sent net peer job (s, told, ok false) = kept (s, told, ok (without_board job))
  delete_sent net peer job (s, told, ok true) =
      let c = delete (without_board job) in
      record {
        boards = send_or_queue net c peer s;
        told = told;
        sent = (c, peer) ∷ [];
        answer = ok (without_board job);
      }

  unfoldable pub delete_job :
      Result (Unit {0}) → ℕ → Network L → Peer → Job L → Boards L → Reply L (Job L)
  delete_job (err e) now net peer job s = reply s (err e)
  delete_job (ok u) now net peer job s = delete_sent net peer job (remove_at now peer job s)

  -- `Job::delete`
  unfoldable pub delete_from : ℕ → Network L → Peer → Job L → Boards L → Reply L (Job L)
  delete_from now net peer job s = delete_job (assert_is_not_expired now job) now net peer job s

  unfoldable pub append_reply :
      {B : Type 0} → Notices L → List (Command L × Peer) → Reply L B → Reply L B
  append_reply told sent r = record {
    boards = r.boards;
    told = told ++ r.told;
    sent = sent ++ r.sent;
    answer = r.answer;
  }

  unfoldable pub and_then_from :
      {A B : Type 0}
      → Result A
      → Boards L
      → Notices L
      → List (Command L × Peer)
      → (Boards L → A → Reply L B)
      → Reply L B
  and_then_from (err e) s told sent f = record {
    boards = s;
    told = told;
    sent = sent;
    answer = err e;
  }
  and_then_from (ok a) s told sent f = append_reply told sent (f s a)

  -- `?`, with the rest of the function
  unfoldable pub and_then : {A B : Type 0} → Reply L A → (Boards L → A → Reply L B) → Reply L B
  and_then r f = and_then_from r.answer r.boards r.told r.sent f
