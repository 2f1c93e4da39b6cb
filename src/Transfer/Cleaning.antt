-- ===== src/Transfer/Cleaning.antt =====
-- templemeads/src/state.rs: `clean_boards`, which removes the expired jobs from every board.
use openportal.Base.{ℕ, List, [], ◌∷◌, ◌++◌, Option, none, some, nat_eq, list_eq}
use openportal.Base.Text.{Text}
use openportal.Base.Assoc.{insert}
use openportal.Destination.{Position, position, previous}
use openportal.Error.{Result, ok, err}
use openportal.Peer.{Peer, peer_eq}
use openportal.Job.{Domain, Job}
use openportal.Board.{Board, Command, update}
use openportal.Board.Expiry.{remove_expired_jobs}
use openportal.Transfer.{Boards, Reply, reply, get_board, append_reply}

module _ {L : Domain} where
  unfoldable pub notice_to : Option Text → Peer → Job L → List (Command L × Peer)
  notice_to none peer job = []
  notice_to (some name) peer job = (update job, record { name = name; zone = peer.zone }) ∷ []

  unfoldable pub notice_at : Position → Text → Peer → Job L → List (Command L × Peer)
  notice_at Position.downstream my_name peer job =
      notice_to (previous job.command.destination my_name) peer job
  notice_at Position.destination my_name peer job =
      notice_to (previous job.command.destination my_name) peer job
  notice_at _ my_name peer job = []

  -- What is sent back upstream about the expired jobs; a failure to send is only logged.
  unfoldable pub expiry_notices : List (Job L) → Text → Peer → List (Command L × Peer)
  expiry_notices [] my_name peer = []
  expiry_notices (job ∷ jobs) my_name peer =
      notice_at (position job.command.destination my_name peer.name) my_name peer job
      ++ expiry_notices jobs my_name peer

  unfoldable pub clean_opened : Boards L × Result (Board L) → ℕ → Text → Peer → Reply L (Unit {0})
  clean_opened (s, err e) now my_name peer = reply s (ok tt)
  clean_opened (s, ok b) now my_name peer =
      let (b', told, jobs) = remove_expired_jobs now b in
      record {
        boards = insert peer b' s;
        told = told;
        sent = expiry_notices jobs my_name peer;
        answer = ok tt;
      }

  unfoldable pub clean_each : List Peer → ℕ → Text → Boards L → Reply L (Unit {0})
  clean_each [] now my_name s = reply s (ok tt)
  clean_each (peer ∷ peers) now my_name s =
      let r = clean_opened (get_board peer s) now my_name peer in
      append_reply r.told r.sent (clean_each peers now my_name r.boards)

  -- `keys().cloned().collect()`
  abbrev pub peers_of : Boards L → List Peer
  peers_of [] = []
  peers_of ((peer, b) ∷ s) = peer ∷ peers_of s

  unfoldable pub clean_boards : ℕ → Text → Boards L → Reply L (Unit {0})
  clean_boards now my_name s = clean_each (peers_of s) now my_name s
