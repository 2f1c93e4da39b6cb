-- ===== src/Transfer/Selection.antt =====
-- templemeads/src/job.rs: what `sync_from_peer` takes over from a peer.
use openportal.Base.{
  nat_eq, list_eq, ℕ, ◌≤◌, ◌<◌, Option, none, ltb→lt, List, [], ◌∷◌, Bool, true, false, not, some,
  All, All-filter, All-filter_of, All-map, All-and, All-append, filter, eq_false_of_not, ◌==◌, ◌||◌,
  inl, inr, ◌⊎◌, ◌≡◌, refl, arith, if◌then◌else◌,
}
use openportal.Base.Text.{Text}
use openportal.Base.Assoc.{lookup}
use openportal.Destination.{Position, position}
use openportal.Peer.{Peer, peer_eq}
use openportal.Job.{Domain, Job, is_expired, is_finished}
use openportal.Job.States.{Status, status_eq, status_beq}
use openportal.Board.{Board, Command, put, update}
use openportal.Board.Operations.{would_be_changed_by, changes_over}
use openportal.Transfer.Syncing.{
  Use, unused, is_as_update, is_as_put, use_at, use_in, use_of, updates, puts, commands_for,
}

use_at-update : (p : Position) → is_as_update (use_at p) ≡ true → p ≡ Position.upstream
unfolding use_at
use_at-update Position.upstream h = refl
use_at-update Position.downstream h = cc
use_at-update Position.destination h = cc
use_at-update Position.error h = cc

use_at-put :
    (p : Position)
    → is_as_put (use_at p) ≡ true
    → (p ≡ Position.downstream) ⊎ (p ≡ Position.destination)
unfolding use_at
use_at-put Position.upstream h = cc
use_at-put Position.downstream h = inl refl
use_at-put Position.destination h = inr refl
use_at-put Position.error h = cc

module _ {L : Domain} where
  -- The board's job of the same id is older.
  abbrev pub IsOlder : Option (Job L) → Job L → Type 0
  IsOlder none job = Unit
  IsOlder (some held) job = held.version < job.version

  -- A job is taken over when the board lacks it, or has it in an older version, and it has not expired.
  -- As an update, it has finished or comes from below; as a new job, it comes from above.
  abbrev pub IsNews : ℕ → ℕ → Board L → Job L → Type 0
  IsNews now later b job =
      IsOlder (lookup job.id b.jobs) job
      × (would_be_changed_by now job b ≡ true)
      × (is_expired now job ≡ false)
      × (is_expired later job ≡ false)

  abbrev pub IsTaken : ℕ → ℕ → Text → Peer → Board L → Command L → Type 0
  IsTaken now later recipient peer b (update job) =
      IsNews now later b job
      × ((is_finished job ≡ true)
          ⊎ (position job.command.destination recipient peer.name ≡ Position.upstream))
  IsTaken now later recipient peer b (put job) =
      IsNews now later b job
      × (is_finished job ≡ false)
      × ((position job.command.destination recipient peer.name ≡ Position.downstream)
          ⊎ (position job.command.destination recipient peer.name ≡ Position.destination))
  IsTaken now later recipient peer b _ = ⊥

  changes_over-IsOlder :
      (o : Option (Job L)) (job : Job L) → changes_over o job ≡ true → IsOlder o job
  unfolding changes_over
  changes_over-IsOlder none job h = tt
  changes_over-IsOlder (some held) job h = ltb→lt held.version job.version h

  changed-IsNews :
      (now later : ℕ) (b : Board L) (job : Job L)
      → would_be_changed_by now job b ≡ true
      → is_expired later job ≡ false
      → IsNews now later b job
  changed-IsNews now later b job h live =
      let (changes, alive) = step (is_expired now job) refl (unfold would_be_changed_by in h) in
      (changes_over-IsOlder (lookup job.id b.jobs) job changes, h, alive, live)
    where
      step :
          (c : Bool)
          → is_expired now job ≡ c
          → (if c then false else changes_over (lookup job.id b.jobs) job) ≡ true
          → (changes_over (lookup job.id b.jobs) job ≡ true) × (is_expired now job ≡ false)
      step true e h = cc
      step false e h = (h, e)

  use_in-update :
      (st : Status) (recipient : Text) (peer : Peer) (job : Job L)
      → is_as_update (use_in st recipient peer job) ≡ true
      → ((st == Status.complete || st == Status.error) ≡ true)
        ⊎ (position job.command.destination recipient peer.name ≡ Position.upstream)
  unfolding use_in status_beq
  use_in-update Status.complete recipient peer job h = inl refl
  use_in-update Status.error recipient peer job h = inl refl
  use_in-update Status.created recipient peer job h = inr (use_at-update _ h)
  use_in-update Status.pending recipient peer job h = inr (use_at-update _ h)
  use_in-update Status.running recipient peer job h = inr (use_at-update _ h)
  use_in-update Status.duplicate recipient peer job h = inr (use_at-update _ h)

  use_in-put :
      (st : Status) (recipient : Text) (peer : Peer) (job : Job L)
      → is_as_put (use_in st recipient peer job) ≡ true
      → ((st == Status.complete || st == Status.error) ≡ false)
        × ((position job.command.destination recipient peer.name ≡ Position.downstream)
            ⊎ (position job.command.destination recipient peer.name ≡ Position.destination))
  unfolding use_in status_beq
  use_in-put Status.complete recipient peer job h = cc
  use_in-put Status.error recipient peer job h = cc
  use_in-put Status.created recipient peer job h = (refl, use_at-put _ h)
  use_in-put Status.pending recipient peer job h = (refl, use_at-put _ h)
  use_in-put Status.running recipient peer job h = (refl, use_at-put _ h)
  use_in-put Status.duplicate recipient peer job h = (refl, use_at-put _ h)

  -- A job that is used at all would change the board.
  use_of-changes :
      (f : Use → Bool) (now : ℕ) (recipient : Text) (peer : Peer) (b : Board L) (job : Job L)
      → f unused ≡ false
      → f (use_of now recipient peer b job) ≡ true
      → (would_be_changed_by now job b ≡ true) × (f (use_in job.state recipient peer job) ≡ true)
  unfolding use_of
  use_of-changes f now recipient peer b job off h = step (would_be_changed_by now job b) refl h
    where
      step :
          (c : Bool)
          → would_be_changed_by now job b ≡ c
          → f (if c then use_in job.state recipient peer job else unused) ≡ true
          → (would_be_changed_by now job b ≡ true)
            × (f (use_in job.state recipient peer job) ≡ true)
      step true e h = (e, h)
      step false e h = absurd (ground (arith, off, h))

  update-IsTaken :
      (now later : ℕ) (recipient : Text) (peer : Peer) (b : Board L) (job : Job L)
      → not (is_expired later job) ≡ true
      → is_as_update (use_of now recipient peer b job) ≡ true
      → IsTaken now later recipient peer b (update job)
  unfolding is_finished
  update-IsTaken now later recipient peer b job live h =
      let (changed, used) = use_of-changes is_as_update now recipient peer b job refl h in
      (
        changed-IsNews now later b job changed (eq_false_of_not (is_expired later job) live),
        use_in-update job.state recipient peer job used,
      )

  put-IsTaken :
      (now later : ℕ) (recipient : Text) (peer : Peer) (b : Board L) (job : Job L)
      → not (is_expired later job) ≡ true
      → is_as_put (use_of now recipient peer b job) ≡ true
      → IsTaken now later recipient peer b (put job)
  unfolding is_finished
  put-IsTaken now later recipient peer b job live h =
      let (changed, used) = use_of-changes is_as_put now recipient peer b job refl h in
      let (unfinished, place) = use_in-put job.state recipient peer job used in
      (
        changed-IsNews now later b job changed (eq_false_of_not (is_expired later job) live),
        unfinished,
        place,
      )

  updates-All :
      (P : Command L → Type 0) (jobs : List (Job L))
      → All (λ j. P (update j)) jobs
      → All P (updates jobs)
  updates-All P [] h = tt
  updates-All P (j ∷ jobs) h = (h.0, updates-All P jobs h.1)

  puts-All :
      (P : Command L → Type 0) (jobs : List (Job L)) → All (λ j. P (put j)) jobs → All P (puts jobs)
  puts-All P [] h = tt
  puts-All P (j ∷ jobs) h = (h.0, puts-All P jobs h.1)

  -- Both filters.
  chosen-All :
      (P : Job L → Type 0) (live used : Job L → Bool) (jobs : List (Job L))
      → ((j : Job L) → live j ≡ true → used j ≡ true → P j)
      → All P (filter live (filter used jobs))
  chosen-All P live used jobs f =
      All-map (λ j. (live j ≡ true) × (used j ≡ true)) P (filter live (filter used jobs))
        (λ j h. f j h.0 h.1)
        (All-and (λ j. live j ≡ true) (λ j. used j ≡ true) (filter live (filter used jobs))
          (All-filter live (filter used jobs))
          (All-filter_of (λ j. used j ≡ true) live (filter used jobs) (All-filter used jobs)))

  -- Every command that `sync_from_peer` passes on is an update or a new job that the board lacks or has
  -- in an older version and that has not expired; an update has finished or comes from downstream, and a
  -- new job has not finished and comes from the agent before this one on its path.
  pub commands_for-IsTaken :
      (now later : ℕ) (recipient : Text) (peer : Peer) (jobs : List (Job L)) (b : Board L)
      → All (IsTaken now later recipient peer b) (commands_for now later recipient peer jobs b)
  unfolding commands_for
  commands_for-IsTaken now later recipient peer jobs b =
      All-append (IsTaken now later recipient peer b) (updates _) (puts _)
        (updates-All (IsTaken now later recipient peer b) _ (
          chosen-All _ (λ j. not (is_expired later j))
            (λ j. is_as_update (use_of now recipient peer b j)) jobs
            (update-IsTaken now later recipient peer b)))
        (puts-All (IsTaken now later recipient peer b) _ (
          chosen-All _ (λ j. not (is_expired later j))
            (λ j. is_as_put (use_of now recipient peer b j)) jobs
            (put-IsTaken now later recipient peer b)))

  -- The board has the job, in this version or a newer one.
  abbrev pub Has : Board L → Job L → Type 0
  Has b job = (k : Job L) × (lookup job.id b.jobs ≡ some k) × (job.version ≤ k.version)

  Has-unused :
      (now : ℕ) (recipient : Text) (peer : Peer) (b : Board L) (job : Job L)
      → Has b job
      → use_of now recipient peer b job ≡ unused
  unfolding use_of would_be_changed_by changes_over
  Has-unused now recipient peer b job (k, found, le) = rw (found, changes_over) (ground (arith, le))

  none_used :
      (f : Use → Bool) (now : ℕ) (recipient : Text) (peer : Peer) (b : Board L)
      (jobs : List (Job L))
      → f unused ≡ false
      → All (Has b) jobs
      → filter (λ j. f (use_of now recipient peer b j)) jobs ≡ []
  none_used f now recipient peer b [] off h = refl
  none_used f now recipient peer b (j ∷ jobs) off h =
      rw (Has-unused now recipient peer b j h.0, off)
        (none_used f now recipient peer b jobs off h.1)

  -- Synchronising with a peer whose jobs are all on the board, in the same version or a newer one, passes
  -- nothing on: two agents whose boards agree stay silent.
  pub commands_for_known :
      (now later : ℕ) (recipient : Text) (peer : Peer) (jobs : List (Job L)) (b : Board L)
      → All (Has b) jobs
      → commands_for now later recipient peer jobs b ≡ []
  unfolding commands_for
  commands_for_known now later recipient peer jobs b h =
      rw
        (
          none_used is_as_update now recipient peer b jobs refl h,
          none_used is_as_put now recipient peer b jobs refl h,
        )
        refl
