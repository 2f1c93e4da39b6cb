-- ===== src/Transfer/Sending.antt =====
-- templemeads/src/job.rs: where a job is after `put` or `update`.
use openportal.Base.{
  ℕ, ◌≤◌, List, [], ◌∷◌, ◌++◌, Bool, true, false, Option, none, some, leb, length, Bool-cases, inl,
  inr, ◌⊎◌, ◌≡◌, ◌≢◌, refl, sym, ◌∙◌, arith, ==_refl, if◌then◌else◌, nat_eq, list_eq,
}
use openportal.Base.Assoc.{lookup, lookup-insert, remove, lookup-remove}
use openportal.Error
use openportal.Error.{Result, ok, err, ok_inj, ◌>>◌}
use openportal.Peer.{Peer, peer_eq}
use openportal.Job.{Domain, Job, assert_is_not_expired}
use openportal.Job.Operations.{pending}
use openportal.Board.{
  Board, Command, put, update, command_job, JobAddState, added, updated, duplicated, unchanged,
  Notices, max_queued_commands,
}
use openportal.Board.Add.{add}
use openportal.Board.Held.{add-lookup}
use openportal.Board.Operations.{queue, queue_job}
use openportal.Transfer.{
  Boards, Network, Reply, on_board, get_board, add_at, queue_on, after_send, send_or_queue, deliver,
  is_unchanged, is_unsent, put_job, put_to, update_job, update_to,
}
use mathlib.Core.Path.{subst}

quiet_unsent : (t : JobAddState) → is_unsent t ≡ true → (t ≡ unchanged) ⊎ (t ≡ duplicated)
unfolding is_unsent
quiet_unsent added e = cc
quiet_unsent updated e = cc
quiet_unsent duplicated e = inr refl
quiet_unsent unchanged e = inl refl

loud_unsent : (t : JobAddState) → is_unsent t ≡ false → ¬ ((t ≡ unchanged) ⊎ (t ≡ duplicated))
unfolding is_unsent
loud_unsent added e (inl q) = cc
loud_unsent added e (inr q) = cc
loud_unsent updated e (inl q) = cc
loud_unsent updated e (inr q) = cc
loud_unsent duplicated e q = cc
loud_unsent unchanged e q = cc

quiet_unchanged : (t : JobAddState) → is_unchanged t ≡ true → t ≡ unchanged
unfolding is_unchanged
quiet_unchanged added e = cc
quiet_unchanged updated e = cc
quiet_unchanged duplicated e = cc
quiet_unchanged unchanged e = refl

loud_unchanged : (t : JobAddState) → is_unchanged t ≡ false → ¬ (t ≡ unchanged)
unfolding is_unchanged
loud_unchanged added e q = cc
loud_unchanged updated e q = cc
loud_unchanged duplicated e q = cc
loud_unchanged unchanged e q = cc

module _ {L : Domain} where
  -- The command is the last of the queue, unless the queue was full.
  abbrev pub IsQueued : Command L → Board L → Type 0
  IsQueued c b =
      ((before : List (Command L)) × (b.queued_commands ≡ before ++ (c ∷ [])))
      ⊎ (max_queued_commands ≤ length b.queued_commands)

  -- A job that was sent is on the board. One that could not be sent is not, and waits in the queue.
  abbrev pub IsKeptAs : Result (Unit {0}) → Command L → Job L → Board L → Type 0
  IsKeptAs (ok u) c k b = lookup k.id b.jobs ≡ some k
  IsKeptAs (err e) c k b = (lookup k.id b.jobs ≡ none) × IsQueued c b

  abbrev pub IsDelivered : Network L → Command L → Job L → Peer → Boards L → Type 0
  IsDelivered net c k peer s =
      (b : Board L) × (lookup peer s ≡ some b) × IsKeptAs (net c peer) c k b

  queue_job-IsKeptAs :
      (k : Job L) (c : Command L) (b : Board L) (e : Error.Error)
      → IsKeptAs (err e) c k (queue_job (some k) c b)
  unfolding queue_job
  queue_job-IsKeptAs k c b e =
      let gone : lookup k.id (remove k.id b.jobs) ≡ none =
        lookup-remove k.id k.id b.jobs ∙ rw (==_refl k.id) refl in
      elim (Bool-cases (leb max_queued_commands (length b.queued_commands))) [
        | inl y ↦ rw y (gone, inr (ground (arith, y)))
        | inr n ↦ rw n (gone, inl (b.queued_commands, refl))
      ]

  queue_on-IsDelivered :
      (o : Option (Board L)) (net : Network L) (c : Command L) (k : Job L) (b : Board L)
      (peer : Peer) (s : Boards L) (e : Error.Error)
      → o ≡ some b
      → command_job c ≡ some k
      → (d : Board L) × (lookup peer (queue_on o c peer s) ≡ some d) × IsKeptAs (err e) c k d
  unfolding queue_on queue
  queue_on-IsDelivered none net c k b peer s e found q = cc
  queue_on-IsDelivered (some d) net c k b peer s e found q = (
    queue c d,
    lookup-insert peer peer (queue c d) s ∙ rw (==_refl peer) refl,
    subst (λ o. IsKeptAs (err e) c k (queue_job o c d)) (sym q) (queue_job-IsKeptAs k c d e),
  )

  after_send-IsDelivered :
      (r : Result (Unit {0})) (net : Network L) (c : Command L) (k : Job L) (b : Board L)
      (peer : Peer) (s : Boards L)
      → lookup peer s ≡ some b
      → lookup k.id b.jobs ≡ some k
      → command_job c ≡ some k
      → (d : Board L) × (lookup peer (after_send r c peer s) ≡ some d) × IsKeptAs r c k d
  unfolding after_send
  after_send-IsDelivered (ok u) net c k b peer s found held q = (b, found, held)
  after_send-IsDelivered (err e) net c k b peer s found held q =
      queue_on-IsDelivered (lookup peer s) net c k b peer s e found q

  -- What `board.add` answers is on the board that is written back.
  on_board-found :
      (latest now : ℕ) (job : Job L) (peer : Peer) (r : Boards L × Result (Board L)) (k : Job L)
      (t : JobAddState)
      → (on_board (add latest now job) peer r).2 ≡ ok (k, t)
      → t ≢ unchanged
      → (b : Board L) × (lookup peer (on_board (add latest now job) peer r).0 ≡ some b)
        × (lookup k.id b.jobs ≡ some k)
  unfolding on_board
  on_board-found latest now job peer (s, err e) k t h changed = cc
  on_board-found latest now job peer (s, ok b) k t h changed = (
    (add latest now job b).0,
    lookup-insert peer peer (add latest now job b).0 s ∙ rw (==_refl peer) refl,
    add-lookup latest now job b h changed,
  )

  -- With the answer of the board's `add`: when it has nothing to tell, nothing is sent; otherwise exactly
  -- the command with the job that the answer holds is.
  abbrev pub IsPlaced :
      (JobAddState → Type 0)
      → Network L
      → (Job L → Command L)
      → Peer
      → Result (Job L × JobAddState)
      → Job L
      → Reply L (Job L)
      → Type 0
  IsPlaced IsQuiet net command peer answer k r =
      (t : JobAddState) × (answer ≡ ok (k, t))
      × ((IsQuiet t × (r.sent ≡ []))
          ⊎ (¬ IsQuiet t)
            × (r.sent ≡ (command k, peer) ∷ [])
            × IsDelivered net (command k) k peer r.boards)

  deliver-IsPlaced :
      (IsQuiet : JobAddState → Type 0) (quiet : JobAddState → Bool) (command : Job L → Command L)
      (net : Network L) (peer : Peer) (r : Boards L × Notices L × Result (Job L × JobAddState))
      (k : Job L)
      → ((j : Job L) → command_job (command j) ≡ some j)
      → ((t : JobAddState) → quiet t ≡ true → IsQuiet t)
      → ((t : JobAddState) → quiet t ≡ false → ¬ IsQuiet t)
      → IsQuiet unchanged
      → ((j : Job L) (t : JobAddState)
          → r.2 ≡ ok (j, t)
          → t ≢ unchanged
          → (b : Board L) × (lookup peer r.0 ≡ some b) × (lookup j.id b.jobs ≡ some j))
      → (deliver quiet command net peer r).answer ≡ ok k
      → IsPlaced IsQuiet net command peer r.2 k (deliver quiet command net peer r)
  unfolding deliver send_or_queue
  deliver-IsPlaced IsQuiet quiet command net peer (t, told, err e) k carries silent loud least held
        h =
      cc
  deliver-IsPlaced IsQuiet quiet command net peer (t, told, ok (j, state)) k carries silent loud
        least held h =
      step (quiet state) refl h
    where
      sent : Reply L (Job L)
      sent = record {
        boards = after_send (net (command j) peer) (command j) peer t;
        told = told;
        sent = (command j, peer) ∷ [];
        answer = ok j;
      }

      quietly : Reply L (Job L)
      quietly = record { boards = t; told = told; sent = []; answer = ok j }

      step :
          (b : Bool)
          → quiet state ≡ b
          → (if b then quietly else sent).answer ≡ ok k
          → IsPlaced IsQuiet net command peer (ok (j, state)) k (if b then quietly else sent)
      step true e a =
          subst (λ k. IsPlaced IsQuiet net command peer (ok (j, state)) k quietly) (ok_inj a)
            (state, refl, inl (silent state e, refl))
      step false e a =
          let (b, found, stored) =
            held j state refl (λ q. loud state e (subst IsQuiet (sym q) least)) in
          subst (λ k. IsPlaced IsQuiet net command peer (ok (j, state)) k sent) (ok_inj a)
            (
              state,
              refl,
              inr (
                loud state e,
                refl,
                after_send-IsDelivered (net (command j) peer) net (command j) j b peer t found
                    stored (carries j),
              ),
            )

  -- When `put` answers with a job, the job could be made pending, and the answer is that of `add` on the
  -- peer's board. Nothing is sent exactly when `add` says that nothing has changed or that the job is a
  -- duplicate; otherwise exactly that job is sent. A job that was sent is on the peer's board under its
  -- id; one that the network did not take is off the board, and its command is the last of the queue, or
  -- the queue is full.
  pub put_to-IsPlaced :
      (latest now : ℕ) (net : Network L) (peer : Peer) (job k : Job L) (s : Boards L)
      → (put_to latest now net peer job s).answer ≡ ok k
      → (j : Job L) × (pending now job ≡ ok j)
        × IsPlaced
            (λ t. (t ≡ unchanged) ⊎ (t ≡ duplicated))
            net
            put
            peer
            (add_at latest now peer j s).2
            k
            (put_to latest now net peer job s)
  unfolding put_to
  put_to-IsPlaced latest now net peer job k s h = step _ refl h
    where
      made :
          (r : Result (Unit {0})) (j : Job L)
          → (r >> pending now job) ≡ ok j
          → pending now job ≡ ok j
      made (ok u) j e = e
      made (err x) j e = cc

      step :
          (r : Result (Job L))
          → (assert_is_not_expired now job >> pending now job) ≡ r
          → (put_job r latest now net peer s).answer ≡ ok k
          → (j : Job L) × (pending now job ≡ ok j)
            × IsPlaced
                (λ t. (t ≡ unchanged) ⊎ (t ≡ duplicated))
                net
                put
                peer
                (add_at latest now peer j s).2
                k
                (put_job r latest now net peer s)
      step (err e) q h = absurd (refused (unfold put_job in h))
        where
          refused : err e ≡ ok k → ⊥
          refused h = cc
      step (ok j) q h =
          unfold put_job add_at in
          (
            j,
            made (assert_is_not_expired now job) j q,
            deliver-IsPlaced _ is_unsent put net peer _ k (λ j. unfold command_job in refl)
                quiet_unsent loud_unsent (inl refl)
                (λ i t.
                  on_board-found latest now (record j { board = some peer }) peer (get_board peer s)
                    i t)
                h,
          )

  -- The same of `update`, which sends a duplicate as well.
  pub update_to-IsPlaced :
      (latest now : ℕ) (net : Network L) (peer : Peer) (job k : Job L) (s : Boards L)
      → (update_to latest now net peer job s).answer ≡ ok k
      → IsPlaced
          (λ t. t ≡ unchanged)
          net
          update
          peer
          (add_at latest now peer job s).2
          k
          (update_to latest now net peer job s)
  unfolding update_to
  update_to-IsPlaced latest now net peer job k s h = step _ h
    where
      step :
          (r : Result (Unit {0}))
          → (update_job r latest now net peer job s).answer ≡ ok k
          → IsPlaced
              (λ t. t ≡ unchanged)
              net
              update
              peer
              (add_at latest now peer job s).2
              k
              (update_job r latest now net peer job s)
      step (err e) h = absurd (refused (unfold update_job in h))
        where
          refused : err e ≡ ok k → ⊥
          refused h = cc
      step (ok u) h =
          unfold update_job add_at in
          deliver-IsPlaced _ is_unchanged update net peer _ k (λ j. unfold command_job in refl)
            quiet_unchanged loud_unchanged refl
            (λ i t.
              on_board-found latest now (record job { board = some peer }) peer (get_board peer s) i
                t)
            h
