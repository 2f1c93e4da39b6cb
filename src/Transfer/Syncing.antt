-- ===== src/Transfer/Syncing.antt =====
-- templemeads/src/job.rs: `sync_from_peer`, which takes over what a peer's board has that this agent's
-- lacks, and `send_queued`, which sends what could not be sent before; and the two commands on a virtual
-- agent's boards.
use openportal.Base.{
  ℕ, List, [], ◌∷◌, ◌++◌, Bool, true, false, not, Option, none, some, if◌then◌else◌, ltb, length,
  filter,
}
use openportal.Base.Text.{Text}
use openportal.Base.Assoc.{insert}
use openportal.Destination.{Position, position, previous}
use openportal.Error
use openportal.Error.{Result, ok, err, ◌>>=◌}
use openportal.Peer.{Peer, peer_eq}
use openportal.Job.{Domain, Job, is_expired, assert_is_not_expired}
use openportal.Job.States.{Status}
use openportal.Board.{Board, Command, put, update, delete, other, Notices}
use openportal.Board.Add.{add}
use openportal.Board.Operations.{would_be_changed_by, take_queued}
use openportal.Transfer.{
  Boards, Network, Reply, reply, get_board, on_board, and_then, put_to, update_to, kept,
  delete_from, send_or_queue,
}

abbrev pub max_synced_jobs : ℕ
max_synced_jobs = 10000

-- What is done with a job of the peer's.
pub data Use : Type 0 where
  as_update as_put unused : Use

abbrev pub is_as_update : Use → Bool
is_as_update as_update = true
is_as_update _ = false

abbrev pub is_as_put : Use → Bool
is_as_put as_put = true
is_as_put _ = false

unfoldable pub use_at : Position → Use
use_at Position.upstream = as_update
use_at Position.downstream = as_put
use_at Position.destination = as_put
use_at Position.error = unused

module _ {L : Domain} where
  unfoldable pub use_in : Status → Text → Peer → Job L → Use
  use_in Status.complete recipient peer job = as_update
  use_in Status.error recipient peer job = as_update
  use_in _ recipient peer job = use_at (position job.command.destination recipient peer.name)

  unfoldable pub use_of : ℕ → Text → Peer → Board L → Job L → Use
  use_of now recipient peer b job =
      if would_be_changed_by now job b then use_in job.state recipient peer job else unused

  abbrev pub updates : List (Job L) → List (Command L)
  updates [] = []
  updates (j ∷ js) = update j ∷ updates js

  abbrev pub puts : List (Job L) → List (Command L)
  puts [] = []
  puts (j ∷ js) = put j ∷ puts js

  -- The commands that are handed to `received_from`, in order.
  unfoldable pub commands_for : ℕ → ℕ → Text → Peer → List (Job L) → Board L → List (Command L)
  commands_for now later recipient peer jobs b =
      updates (
        filter (λ j. not (is_expired later j))
          (filter (λ j. is_as_update (use_of now recipient peer b j)) jobs))
      ++ puts (
          filter (λ j. not (is_expired later j))
            (filter (λ j. is_as_put (use_of now recipient peer b j)) jobs))

  unfoldable pub sync_with :
      ℕ
      → ℕ
      → Text
      → Peer
      → List (Job L)
      → Boards L × Result (Board L)
      → Boards L × List (Command L) × Result (Unit {0})
  sync_with now later recipient peer jobs (s, err e) = (s, [], err e)
  sync_with now later recipient peer jobs (s, ok b) =
      (s, commands_for now later recipient peer jobs b, ok tt)

  -- `sync_from_peer`
  unfoldable pub sync_from_peer :
      ℕ
      → ℕ
      → Text
      → Peer
      → List (Job L)
      → Boards L
      → Boards L × List (Command L) × Result (Unit {0})
  sync_from_peer now later recipient peer [] s = (s, [], ok tt)
  sync_from_peer now later recipient peer (job ∷ jobs) s =
      let rest = sync_with now later recipient peer (job ∷ jobs) (get_board peer s) in
      if ltb max_synced_jobs (length (job ∷ jobs)) then (s, [], err Error.unavailable) else rest

  unfoldable pub send_command : ℕ → ℕ → Network L → Peer → Command L → Boards L → Reply L (Unit {0})
  send_command latest now net peer (put job) s =
      and_then (put_to latest now net peer job s) (λ s1 k. reply s1 (ok tt))
  send_command latest now net peer (update job) s =
      and_then (update_to latest now net peer job s) (λ s1 k. reply s1 (ok tt))
  send_command latest now net peer (delete job) s =
      and_then (delete_from now net peer job s) (λ s1 k. reply s1 (ok tt))
  send_command latest now net peer other s = reply s (ok tt)

  -- The loop over the queued commands; the first error ends it.
  unfoldable pub send_each :
      ℕ → ℕ → Network L → Peer → List (Command L) → Boards L → Reply L (Unit {0})
  send_each latest now net peer [] s = reply s (ok tt)
  send_each latest now net peer (c ∷ cs) s =
      and_then (send_command latest now net peer c s) (λ s1 k. send_each latest now net peer cs s1)

  unfoldable pub take_and_send :
      ℕ → ℕ → Network L → Peer → Boards L × Result (Board L) → Reply L (Unit {0})
  take_and_send latest now net peer (s, err e) = reply s (err e)
  take_and_send latest now net peer (s, ok b) =
      let (b1, queued) = take_queued b in send_each latest now net peer queued (insert peer b1 s)

  -- `send_queued`
  unfoldable pub send_queued : ℕ → ℕ → Network L → Peer → Boards L → Reply L (Unit {0})
  send_queued latest now net peer s = take_and_send latest now net peer (get_board peer s)

  -- `board.add` where an error is only logged.
  unfoldable pub add_ignoring :
      ℕ → ℕ → Peer → Job L → Boards L → Boards L × Notices L × Result (Unit {0})
  add_ignoring latest now peer job s =
      on_board
        (λ b.
          let (b1, told, r) = add latest now (record job { board = some peer }) b in
          (b1, told, ok tt))
        peer (get_board peer s)

  unfoldable pub update_upstream :
      Option Text → ℕ → ℕ → Network L → Peer → Peer → Job L → Boards L → Reply L (Job L)
  update_upstream none latest now net virtual hosting job s =
      reply s (ok (record job { board = some virtual }))
  update_upstream (some name) latest now net virtual hosting job s =
      let peer : Peer = record { name = name; zone = hosting.zone } in
      let upstream = record job { board = some peer } in
      and_then (kept (add_ignoring latest now peer job s)) (λ s1 u. record {
        boards = send_or_queue net (update upstream) peer s1;
        told = [];
        sent = (update upstream, peer) ∷ [];
        answer = ok upstream;
      })

  unfoldable pub virtual_update_checked :
      Result (Unit {0}) → ℕ → ℕ → Network L → Peer → Peer → Job L → Boards L → Reply L (Job L)
  virtual_update_checked (err e) latest now net virtual hosting job s = reply s (err e)
  virtual_update_checked (ok u) latest now net virtual hosting job s =
      and_then (kept (add_ignoring latest now hosting job s)) (λ s1 u.
        and_then (kept (add_ignoring latest now virtual job s1)) (λ s2 u.
          update_upstream (previous job.command.destination hosting.name) latest now net virtual
            hosting job s2))

  -- `Job::virtual_update`
  unfoldable pub virtual_update :
      ℕ → ℕ → Network L → Peer → Peer → Job L → Boards L → Reply L (Job L)
  virtual_update latest now net virtual hosting job s =
      virtual_update_checked (assert_is_not_expired now job) latest now net virtual hosting job s
