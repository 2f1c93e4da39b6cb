-- ===== src/Board/Finishing.antt =====
-- What happens to the duplicates of a job that finishes.
use openportal.Base.{ℕ, true, ◌||◌, Option, none, some, nat_eq, list_eq, ◌≡◌}
use openportal.Base.Text.{Text}
use openportal.Job.{Domain, Job, is_finished}
use openportal.Job.Operations.{is_open}
use openportal.Job.States.{status_eq}
use openportal.Board.{Board}
use openportal.Board.Add.{finish_duplicate}

module _ {L : Domain} (now : ℕ) (job : Job L) where
  abbrev finish_found : Option (Job L) → Option (Job L)
  finish_found none = none
  finish_found (some dup) = some (finish_duplicate now job dup)

  -- A found job that may take a result or has one.
  abbrev IsReady : Option (Job L) → Type 0
  IsReady none = ⊥
  IsReady (some d) = (is_finished d || is_open d.state) ≡ true

  -- A found job that has finished.
  abbrev pub IsDone : Option (Job L) → Type 0
  IsDone none = ⊥
  IsDone (some d) = is_finished d ≡ true
