-- ===== src/Handler/Placement.antt =====
-- templemeads/src/handler.rs: what becomes of a job that was put, by where this agent stands on its path.
use openportal.Base.{
  true, false, Option, none, some, ◌≡◌, ◌≢◌, refl, sym, ◌==◌, ◌||◌, ◌∙◌, ◌⊎◌, inl, inr, nat_eq,
  list_eq,
}
use openportal.Base.Text.{Text}
use openportal.Destination.{Destination, Position, position, next, previous}
use openportal.Destination.Hops.{position_adjacent}
use openportal.Peer.{Peer}
use openportal.Job.{Domain, Job}
use openportal.Job.States.{Status, status_eq, status_beq}
use openportal.Handler.Puts.{
  Step, forward, run, keep, fail, forward_or_keep, run_unless_finished, step_at, step_of,
}

-- A job is run only where its path ends, when it has not finished and came from the agent directly before
-- this one. It goes on only to the agent directly after this one, when it came from the one before.
abbrev pub IsLawful : Step → Text → Text → Destination → Status → Type 0
IsLawful (forward name) recipient sender d state =
    (next d recipient ≡ some name)
    × (next d sender ≡ some recipient)
    × (previous d recipient ≡ some sender)
IsLawful run recipient sender d state =
    (position d recipient sender ≡ Position.destination)
    × (next d sender ≡ some recipient)
    × (previous d recipient ≡ some sender)
    × ((state == Status.complete || state == Status.error) ≡ false)
IsLawful keep recipient sender d state =
    (position d recipient sender ≡ Position.downstream) × (next d recipient ≡ none)
    ⊎ (position d recipient sender ≡ Position.destination)
      × ((state == Status.complete || state == Status.error) ≡ true)
IsLawful (fail message) recipient sender d state =
    (position d recipient sender ≡ Position.error)
    ⊎ (position d recipient sender ≡ Position.upstream)

-- The neighbours of an agent that a job has reached going down.
came_down :
    (d : Destination) (recipient sender : Text)
    → position d recipient sender ≢ Position.error
    → position d recipient sender ≢ Position.upstream
    → (next d sender ≡ some recipient) × (previous d recipient ≡ some sender)
came_down d recipient sender e u = step (position_adjacent d recipient sender e)
  where
    step :
        (position d recipient sender ≡ Position.upstream)
            × (next d recipient ≡ some sender)
            × (previous d sender ≡ some recipient)
          ⊎ (position d recipient sender ≢ Position.upstream)
            × (next d sender ≡ some recipient)
            × (previous d recipient ≡ some sender)
        → (next d sender ≡ some recipient) × (previous d recipient ≡ some sender)
    step (inl h) = absurd (u h.0)
    step (inr h) = (h.1, h.2)

run_unless_finished-IsLawful :
    (state : Status) (recipient sender : Text) (d : Destination)
    → position d recipient sender ≡ Position.destination
    → (next d sender ≡ some recipient) × (previous d recipient ≡ some sender)
    → IsLawful (run_unless_finished state) recipient sender d state
unfolding run_unless_finished status_beq
run_unless_finished-IsLawful Status.complete recipient sender d p n = inr (p, refl)
run_unless_finished-IsLawful Status.error recipient sender d p n = inr (p, refl)
run_unless_finished-IsLawful Status.created recipient sender d p n = (p, n.0, n.1, refl)
run_unless_finished-IsLawful Status.pending recipient sender d p n = (p, n.0, n.1, refl)
run_unless_finished-IsLawful Status.running recipient sender d p n = (p, n.0, n.1, refl)
run_unless_finished-IsLawful Status.duplicate recipient sender d p n = (p, n.0, n.1, refl)

forward-IsLawful :
    (o : Option Text) (recipient sender : Text) (d : Destination) (state : Status)
    → position d recipient sender ≡ Position.downstream
    → next d recipient ≡ o
    → (next d sender ≡ some recipient) × (previous d recipient ≡ some sender)
    → IsLawful (forward_or_keep o) recipient sender d state
forward-IsLawful none recipient sender d state p e n = inl (p, e)
forward-IsLawful (some name) recipient sender d state p e n = (e, n.0, n.1)

step_at-IsLawful :
    (p : Position) (recipient sender : Text) (d : Destination) (state : Status)
    → position d recipient sender ≡ p
    → IsLawful (step_at p recipient d state) recipient sender d state
unfolding step_at
step_at-IsLawful Position.upstream recipient sender d state e = inr e
step_at-IsLawful Position.error recipient sender d state e = inl e
step_at-IsLawful Position.downstream recipient sender d state e =
    forward-IsLawful (next d recipient) recipient sender d state e refl
      (came_down d recipient sender (λ q. clash (sym e ∙ q)) (λ q. clash' (sym e ∙ q)))
  where
    clash : Position.downstream ≡ Position.error → ⊥
    clash h = cc

    clash' : Position.downstream ≡ Position.upstream → ⊥
    clash' h = cc
step_at-IsLawful Position.destination recipient sender d state e =
    run_unless_finished-IsLawful state recipient sender d e
      (came_down d recipient sender (λ q. clash (sym e ∙ q)) (λ q. clash' (sym e ∙ q)))
  where
    clash : Position.destination ≡ Position.error → ⊥
    clash h = cc

    clash' : Position.destination ≡ Position.upstream → ⊥
    clash' h = cc

module _ {L : Domain} where
  -- The step that is chosen for a job that was put, by where this agent stands on its path.
  pub step_of-IsLawful :
      (recipient : Text) (sender : Peer) (job : Job L)
      → IsLawful
          (step_of recipient sender job)
          recipient
          sender.name
          job.command.destination
          job.state
  unfolding step_of
  step_of-IsLawful recipient sender job =
      step_at-IsLawful (position job.command.destination recipient sender.name) recipient
        sender.name job.command.destination job.state refl
