-- ===== src/Job.antt =====
-- templemeads/src/job.rs and the trait of templemeads/src/domain.rs: jobs, and the operations that
-- change their state. `Utc::now()` is an argument, read once for an operation; an instant is the
-- number of nanoseconds since the earliest `DateTime`; a `Uuid` is its printed text.
use openportal.Base.{
  ℕ, ◌+◌, ◌%◌, min, List, [], ◌∷◌, ◌++◌, Bool, true, false, not, ◌&&◌, ◌||◌, Option, none, some, Eq,
  ◌==◌, nat_eq, list_eq, option_eq, if◌then◌else◌, leb, ltb,
}
use openportal.Base.Text.{Text, text, split_words, join}
use openportal.Error
use openportal.Error.{Error, Result, ok, err, ◌>>=◌, ◌>>◌, guard}
use openportal.Destination
use openportal.Destination.{Destination}
use openportal.Portal.{PortalIdentifier}
use openportal.Peer.{Peer, peer_eq}
use openportal.Job.Failures
use openportal.Job.Failures.{JobError}
use openportal.Job.States
use openportal.Job.States.{Status, status_eq}
pub mod Operations
pub mod Results
pub mod Steps
pub mod Samples
mod Tests
pub mod Versions
pub mod Finished
pub mod Commands
pub mod Failing
pub mod Lifetimes
pub mod States
pub mod Failures

-- The trait `Domain`: what a job needs of the program's domain.
pub record Domain : Type 1 where
  pub Instruction : Type 0
  pub instruction_eq : Eq Instruction
  pub parse_instruction : Text → Result Instruction
  pub owning_portal : Instruction → Option PortalIdentifier
  pub name : Text
  pub version : Text
  pub error_kind_for : Text → Option Text

pub record Command (L : Domain) : Type 0 where
  pub destination : Destination
  pub instruction : L.Instruction

-- The portal check of `Command::parse`.
unfoldable pub check_owner : Option PortalIdentifier → Destination → Result (Unit {0})
check_owner none d = ok tt
check_owner (some p) d = guard (p.portal == Destination.first d) Error.parse

-- `split_whitespace`, `next().unwrap_or("")`
abbrev pub first_word : List Text → Text
first_word [] = []
first_word (w ∷ ws) = w

abbrev pub other_words : List Text → List Text
other_words [] = []
other_words (w ∷ ws) = ws

-- An error of either parser is a parse error.
abbrev pub or_parse_error {ℓ} : {A : Type ℓ} → Result A → Result A
or_parse_error (ok a) = ok a
or_parse_error (err e) = err Error.parse

-- `Command::parse`
unfoldable pub parse_command : (L : Domain) → Text → Bool → Result (Command L)
parse_command L command check_portal =
    let parts = split_words command in
    or_parse_error (Destination.parse (first_word parts)) >>= λ d.
    or_parse_error (L.parse_instruction (join b' ' (other_words parts))) >>= λ i.
    (if check_portal then check_owner (L.owning_portal i) d else ok tt)
    >> ok (record { destination = d; instruction = i })

pub record Job (L : Domain) : Type 0 where
  pub id : Text
  pub created : ℕ
  pub changed : ℕ
  pub expires : ℕ
  pub version : ℕ
  pub command : Command L
  pub state : Status
  pub result : Option Text
  pub result_type : Option Text
  pub forwarded_for : Option Destination
  pub error : Option JobError
  pub domain : Option Text
  pub domain_version : Option Text
  pub board : Option Peer

abbrev pub max_job_lifetime : ℕ
max_job_lifetime = 3600000000000

-- The number of values of a `u64`.
abbrev pub version_values : ℕ
version_values = 18446744073709551616

-- `+` on `u64` in the release profile.
unfoldable pub wrapping_add : ℕ → ℕ → ℕ
wrapping_add v n = (v + n) % version_values

-- `u64::saturating_add`
unfoldable pub saturating_add : ℕ → ℕ → ℕ
saturating_add v n = min (v + n) 18446744073709551615

-- `Job::parse`, with the new id.
unfoldable pub parse : (L : Domain) → ℕ → Text → Text → Bool → Result (Job L)
parse L now id command check_portal = parse_command L command check_portal >>= λ c. ok (record {
  id = id;
  created = now;
  changed = now;
  expires = now + 120000000000;
  version = 1;
  command = c;
  state = Status.created;
  result = none;
  result_type = none;
  forwarded_for = none;
  error = none;
  domain = some L.name;
  domain_version = some L.version;
  board = none;
})

-- `checked_add_signed`, where the latest `DateTime` is `latest`.
unfoldable pub checked_add : ℕ → ℕ → ℕ → Option ℕ
checked_add latest t d = if leb (t + d) latest then some (t + d) else none

-- The `match` on the two sums of `Job::clamp_expires`.
unfoldable pub ceiling : ℕ → Option ℕ → Option ℕ → ℕ
ceiling now (some from_created) (some from_now) = min from_created from_now
ceiling now none (some from_now) = from_now
ceiling now _ none = now

module _ {L : Domain} where
  unfoldable pub expires_ceiling : ℕ → ℕ → Job L → ℕ
  expires_ceiling latest now j =
      ceiling now (checked_add latest j.created max_job_lifetime)
        (checked_add latest now max_job_lifetime)

  -- `Job::clamp_expires`
  unfoldable pub clamp_expires : ℕ → ℕ → Job L → Job L
  clamp_expires latest now j =
      let c = expires_ceiling latest now j in
      if leb j.expires c then j else record j { expires = c }

  -- `Job::set_lifetime`, for a lifetime that keeps the sum in range.
  unfoldable pub set_lifetime : ℕ → Job L → Job L
  set_lifetime lifetime j = record j { expires = j.created + lifetime }

  unfoldable pub is_expired : ℕ → Job L → Bool
  is_expired now j = ltb j.expires now

  unfoldable pub is_pending : Job L → Bool
  is_pending j = j.state == Status.pending

  unfoldable pub is_finished : Job L → Bool
  is_finished j = (j.state == Status.complete) || (j.state == Status.error)

  unfoldable pub is_duplicate : Job L → Bool
  is_duplicate j = j.state == Status.duplicate

  unfoldable pub is_running : Job L → Bool
  is_running j = j.state == Status.running

  unfoldable pub is_error : Job L → Bool
  is_error j = j.state == Status.error

  -- `Job::with_version`
  unfoldable pub with_version : ℕ → ℕ → Job L → Job L
  with_version now v j = record j { version = v; changed = now }

  -- `Job::increment_version`
  unfoldable pub increment_version : ℕ → Job L → Job L
  increment_version now j = record j { version = saturating_add j.version 1; changed = now }

  -- `Job::assert_is_not_expired`
  unfoldable pub assert_is_not_expired : ℕ → Job L → Result (Unit {0})
  assert_is_not_expired now j = guard (not (is_expired now j)) Error.expired

  -- `Job::assert_is_for_board`
  unfoldable pub assert_is_for_board : ℕ → Job L → Peer → Result (Unit {0})
  assert_is_for_board now j agent =
      assert_is_not_expired now j >> guard (j.board == some agent) Error.invalid_board
