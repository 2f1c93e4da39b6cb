-- ===== src/Transfer/Runs.antt =====
-- templemeads/src/job.rs and templemeads/src/state.rs: the boards stay in order over any operations.
use openportal.Base.{ℕ, List, [], ◌∷◌, nat_eq, list_eq}
use openportal.Base.Text.{Text}
use openportal.Peer.{Peer, peer_eq}
use openportal.Job.{Domain, Job}
use openportal.Transfer.{
  Boards, Network, put_to, update_to, received, updated_here, deleted, delete_from,
}
use openportal.Transfer.Syncing.{sync_from_peer, send_queued, virtual_update}
use openportal.Transfer.Boards.{
  AreValid, put_to-AreValid, update_to-AreValid, received-AreValid, updated_here-AreValid,
  deleted-AreValid, delete_from-AreValid,
}
use openportal.Transfer.Cleaning.{peers_of, clean_boards}
use openportal.Transfer.Exchanges.{
  send_queued-AreValid, sync_from_peer-AreValid, virtual_update-AreValid, clean_each-AreValid,
}

-- The operations on jobs, each with its times and the answers of the network.
pub data Operation (L : Domain) : Type 0 where
  puts updates : ℕ → ℕ → Network L → Peer → Job L → Operation L
  receives : ℕ → ℕ → Peer → Job L → Operation L
  changes : ℕ → ℕ → Job L → Operation L
  deletes : ℕ → Network L → Peer → Job L → Operation L
  is_deleted : ℕ → Peer → Job L → Operation L
  virtually_updates : ℕ → ℕ → Network L → Peer → Peer → Job L → Operation L
  syncs : ℕ → ℕ → Text → Peer → List (Job L) → Operation L
  resends : ℕ → ℕ → Network L → Peer → Operation L
  cleans : ℕ → Text → Operation L

module _ {L : Domain} where
  unfoldable pub perform : Operation L → Boards L → Boards L
  perform (puts latest now net peer job) s = (put_to latest now net peer job s).boards
  perform (updates latest now net peer job) s = (update_to latest now net peer job s).boards
  perform (receives latest now peer job) s = (received latest now peer job s).boards
  perform (changes latest now job) s = (updated_here latest now job s).boards
  perform (deletes now net peer job) s = (delete_from now net peer job s).boards
  perform (is_deleted now peer job) s = (deleted now peer job s).boards
  perform (virtually_updates latest now net virtual hosting job) s =
      (virtual_update latest now net virtual hosting job s).boards
  perform (syncs now later recipient peer jobs) s =
      (sync_from_peer now later recipient peer jobs s).0
  perform (resends latest now net peer) s = (send_queued latest now net peer s).boards
  perform (cleans now my_name) s = (clean_boards now my_name s).boards

  unfoldable pub perform_all : List (Operation L) → Boards L → Boards L
  perform_all [] s = s
  perform_all (o ∷ os) s = perform_all os (perform o s)

  perform-AreValid : (o : Operation L) (s : Boards L) → AreValid s → AreValid (perform o s)
  unfolding perform clean_boards
  perform-AreValid (puts latest now net peer job) s v = put_to-AreValid latest now net peer job s v
  perform-AreValid (updates latest now net peer job) s v =
      update_to-AreValid latest now net peer job s v
  perform-AreValid (receives latest now peer job) s v = received-AreValid latest now peer job s v
  perform-AreValid (changes latest now job) s v = updated_here-AreValid latest now job s v
  perform-AreValid (deletes now net peer job) s v = delete_from-AreValid now net peer job s v
  perform-AreValid (is_deleted now peer job) s v = deleted-AreValid now peer job s v
  perform-AreValid (virtually_updates latest now net virtual hosting job) s v =
      virtual_update-AreValid latest now net virtual hosting job s v
  perform-AreValid (syncs now later recipient peer jobs) s v =
      sync_from_peer-AreValid now later recipient peer jobs s v
  perform-AreValid (resends latest now net peer) s v = send_queued-AreValid latest now net peer s v
  perform-AreValid (cleans now my_name) s v = clean_each-AreValid (peers_of s) now my_name s v

  -- Any jobs that are put, updated, received, deleted, synchronised, sent again or removed as expired, in
  -- any order and whatever the network answers, leave at most a thousand boards, each of them in order: its jobs stand
  -- under their own ids and name its peer, and it keeps its limits of jobs and of queued commands.
  pub perform_all-AreValid :
      (os : List (Operation L)) (s : Boards L) → AreValid s → AreValid (perform_all os s)
  unfolding perform_all
  perform_all-AreValid [] s v = v
  perform_all-AreValid (o ∷ os) s v = perform_all-AreValid os (perform o s) (perform-AreValid o s v)
