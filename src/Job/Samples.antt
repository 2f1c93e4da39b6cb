-- ===== src/Job/Samples.antt =====
-- A small domain and jobs in it, for the tests: an instruction is a text, and `add p.q` belongs to a
-- portal q.
use openportal.Base.{[], ◌∷◌, Option, none, some, nat_eq, list_eq}
use openportal.Base.Text.{Text, text}
use openportal.Error.{ok}
use openportal.Portal.{PortalIdentifier}
use openportal.Peer.{Peer}
use openportal.Job.{Domain, Command, Job}
use openportal.Job.States.{Status}

abbrev pub owner_of : Text → Option PortalIdentifier
owner_of [] = none
owner_of (c ∷ s) = some (record { portal = text "brics" })

abbrev pub sample : Domain
sample = record {
  Instruction = Text;
  instruction_eq = list_eq;
  parse_instruction = ok;
  owning_portal = owner_of;
  name = text "sample";
  version = text "1.0";
  error_kind_for = λ m. none;
}

abbrev pub slurm_peer : Peer
slurm_peer = record { name = text "slurm"; zone = text "default" }

abbrev pub add_command : Command sample
add_command = record {
  destination = record { agents = text "brics" ∷ text "slurm" ∷ [] };
  instruction = text "add";
}

-- A job on the board of the peer, created at 1000, with a state and a version.
abbrev pub job_with : Text → Status → Job sample
job_with id s = record {
  id = id;
  created = 1000;
  changed = 1000;
  expires = 9000;
  version = 5;
  command = add_command;
  state = s;
  result = none;
  result_type = none;
  forwarded_for = none;
  error = none;
  domain = none;
  domain_version = none;
  board = some slurm_peer;
}

abbrev pub pending_job : Job sample
pending_job = job_with (text "a") Status.pending

abbrev pub failed_job : Job sample
failed_job = record (job_with (text "a") Status.error) { result = some (text "boom"); version = 9 }
