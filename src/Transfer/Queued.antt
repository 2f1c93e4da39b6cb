-- ===== src/Transfer/Queued.antt =====
-- templemeads/src/job.rs, `send_queued`: what becomes of the queue.
use openportal.Base.{ℕ, List, [], ◌∷◌, true, some, ◌≡◌, refl, ◌∙◌, ap, nat_eq, list_eq}
use openportal.Base.Assoc.{lookup, insert}
use openportal.Error
use openportal.Error.{Result, ok, err, guard, ◌>>◌}
use openportal.Peer.{Peer, peer_eq}
use openportal.Job.{Domain, Job, is_expired, assert_is_not_expired}
use openportal.Board.{Board, Command, put, update, delete, other, command_job}
use openportal.Board.Operations.{take_queued}
use openportal.Transfer.{
  Boards, Network, reply, open_board, get_board, put_job, put_to, update_job, update_to, delete_job,
  delete_from, and_then_from, and_then,
}
use mathlib.Core.Option.{some_inj}
use openportal.Transfer.Syncing.{send_command, send_each, take_and_send, send_queued}

module _ {L : Domain} where
  expired_fails :
      (now : ℕ) (job : Job L)
      → is_expired now job ≡ true
      → assert_is_not_expired now job ≡ err Error.expired
  unfolding assert_is_not_expired
  expired_fails now job e = rw e refl

  send_command_expired :
      (latest now : ℕ) (net : Network L) (peer : Peer) (c : Command L) (job : Job L) (s : Boards L)
      → command_job c ≡ some job
      → is_expired now job ≡ true
      → send_command latest now net peer c s ≡ reply s (err Error.expired)
  unfolding command_job send_command and_then
  send_command_expired latest now net peer (put j) job s q e =
      unfold put_to put_job and_then_from in rw (some_inj.0 q, expired_fails now job e) refl
  send_command_expired latest now net peer (update j) job s q e =
      unfold update_to update_job and_then_from in rw (some_inj.0 q, expired_fails now job e) refl
  send_command_expired latest now net peer (delete j) job s q e =
      unfold delete_from delete_job and_then_from in rw (some_inj.0 q, expired_fails now job e) refl
  send_command_expired latest now net peer other job s q e = cc

  get_board-found :
      (peer : Peer) (b : Board L) (s : Boards L)
      → lookup peer s ≡ some b
      → get_board peer s ≡ (s, ok b)
  unfolding get_board open_board
  get_board-found peer b s found = rw (found, open_board) refl

  send_each_expired :
      (latest now : ℕ) (net : Network L) (peer : Peer) (c : Command L) (cs : List (Command L))
      (job : Job L) (s : Boards L)
      → command_job c ≡ some job
      → is_expired now job ≡ true
      → send_each latest now net peer (c ∷ cs) s ≡ reply s (err Error.expired)
  unfolding send_each and_then and_then_from
  send_each_expired latest now net peer c cs job s q e =
      rw (send_command_expired latest now net peer c job s q e, and_then_from) refl

  -- The queue is emptied before the first command is tried, and the first failure ends the loop: when
  -- the first queued job has expired meanwhile, `send_queued` sends nothing, and the commands behind it
  -- are neither sent nor queued any more.
  pub send_queued_lost :
      (latest now : ℕ) (net : Network L) (peer : Peer) (c : Command L) (cs : List (Command L))
      (job : Job L) (b : Board L) (s : Boards L)
      → lookup peer s ≡ some b
      → b.queued_commands ≡ c ∷ cs
      → command_job c ≡ some job
      → is_expired now job ≡ true
      → send_queued latest now net peer s
        ≡ reply (insert peer (record b { queued_commands = [] }) s) (err Error.expired)
  unfolding send_queued take_and_send take_queued
  send_queued_lost latest now net peer c cs job b s found queued q e =
      let s1 : Boards L = insert peer (record b { queued_commands = [] }) s in
      ap (take_and_send latest now net peer) (get_board-found peer b s found)
      ∙ ap (λ commands. send_each latest now net peer commands s1) queued
      ∙ send_each_expired latest now net peer c cs job s1 q e
