-- ===== src/Handler/Commands.antt =====
-- templemeads/src/handler.rs: `process_command` for the commands that put, update or delete a job. A
-- command comes with whether a soft restart is in progress when it is handled.
use openportal.Base.{ℕ, List, [], ◌∷◌, Bool, if◌then◌else◌, nat_eq, list_eq}
use openportal.Base.Text.{Text, text}
use openportal.Error
use openportal.Error.{Result, ok, err}
use openportal.Peer.{Peer}
use openportal.Job.{Domain, Job}
use openportal.Job.Operations.{errored}
use openportal.Transfer.{Boards, Reply, reply, update_to}
use openportal.Handler.{Agent, handle_update, handle_delete}
use openportal.Handler.Puts.{handle_put}

-- The time that no instant exceeds, the time now, the recipient and the sender come before the job.
pub data Arrival (L : Domain) : Type 0 where
  put_arrives update_arrives delete_arrives : ℕ → ℕ → Text → Peer → Job L → Arrival L

module _ {L : Domain} where
  -- The answer is only logged.
  unfoldable pub ignoring : {A : Type 0} → Reply L A → Reply L (Unit {0})
  ignoring r = record { boards = r.boards; told = r.told; sent = r.sent; answer = ok tt }

  unfoldable pub send_back : Result (Job L) → ℕ → ℕ → Agent L → Peer → Boards L → Reply L (Unit {0})
  send_back (err e) latest now agent sender s = reply s (err e)
  send_back (ok job) latest now agent sender s =
      ignoring (update_to latest now agent.net sender job s)

  -- A job that comes during a soft restart fails, and is sent back to the sender.
  unfoldable pub turn_away : ℕ → ℕ → Agent L → Peer → Job L → Boards L → Reply L (Unit {0})
  turn_away latest now agent sender job s =
      send_back (errored now (text "Agent is performing a soft restart - please retry") job) latest
        now agent sender s

  unfoldable pub process_command : Arrival L → Bool → Agent L → Boards L → Reply L (Unit {0})
  process_command (put_arrives latest now recipient sender job) restarting agent s =
      if restarting
      then turn_away latest now agent sender job s
      else handle_put latest now agent recipient sender job s
  process_command (update_arrives latest now recipient sender job) restarting agent s =
      if restarting
      then turn_away latest now agent sender job s
      else handle_update latest now agent recipient sender job s
  process_command (delete_arrives latest now recipient sender job) restarting agent s =
      if restarting
      then reply s (err Error.unavailable)
      else handle_delete now agent recipient sender job s

  unfoldable pub process_all : List (Arrival L × Bool) → Agent L → Boards L → Boards L
  process_all [] agent s = s
  process_all ((a, restarting) ∷ rest) agent s =
      process_all rest agent (process_command a restarting agent s).boards
