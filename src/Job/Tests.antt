-- ===== src/Job/Tests.antt =====
-- Jobs at concrete inputs.
use openportal.Base.{◌≤◌, [], ◌∷◌, true, none, some, ◌≡◌, refl, arith}
use openportal.Base.Text.{text, trim, trim_start, is_whitespace, split, split_words, join}
use openportal.Error
use openportal.Error.{Result, ok, err}
use openportal.Destination
use openportal.Job.{Job, parse_command, is_finished, wrapping_add, check_owner}
use openportal.Job.Failures.{
  new, infer, transport_kind, unwrap_message, is_wrapped, strip_prefix_text,
}
use openportal.Job.States.{Status, status_beq}
use openportal.Job.Operations.{errored, errored_with, is_open, is_active, running}
use openportal.Job.Steps.{to_running, to_errored, apply, apply-Follows, Follows}
use openportal.Job.Versions.{apply_all, apply_all_version}
use openportal.Job.Finished.{finished-apply}
use openportal.Job.Samples.{sample, pending_job, failed_job, add_command}

abbrev running_job : Job sample
running_job = record pending_job { changed = 2000; version = 6; state = Status.running }

pending_job_runs : apply 2000 (to_running none) pending_job ≡ ok running_job
unfolding apply running is_active wrapping_add
pending_job_runs = refl

-- `version + 1` wraps at the end of its range, where `increment_version` stays.
running_wraps :
    apply 2000 (to_running none) (record pending_job { version = 18446744073709551615 })
    ≡ ok (record running_job { version = 0 })
unfolding apply running is_active wrapping_add
running_wraps = refl

apply-Follows_example : Follows pending_job running_job
apply-Follows_example = apply-Follows 2000 (to_running none) pending_job pending_job_runs

apply_all_version_example :
    (pending_job.version
      ≤ (apply_all
          ((2000, to_running none) ∷ (3000, to_errored (text "boom")) ∷ [])
          pending_job).version)
    × ((apply_all
          ((2000, to_running none) ∷ (3000, to_errored (text "boom")) ∷ [])
          pending_job).version
        ≤ 2005)
apply_all_version_example =
    apply_all_version ((2000, to_running none) ∷ (3000, to_errored (text "boom")) ∷ []) pending_job
      (omega arith)

failed_job-is_finished : is_finished failed_job ≡ true
unfolding is_finished status_beq
failed_job-is_finished = refl

finished-apply_example : apply 2000 (to_errored (text "again")) failed_job ≡ err Error.invalid_state
finished-apply_example =
    finished-apply 2000 (to_errored (text "again")) failed_job failed_job-is_finished

abbrev errored_job : Job sample
errored_job = record pending_job {
  changed = 2000;
  version = 1005;
  state = Status.error;
  result = some (text "UnknownError{}");
  result_type = some (text "Error");
  error = some (new (text "unknown") (text "UnknownError{}"));
}

pending_job_fails : errored 2000 (text "UnknownError{}") pending_job ≡ ok errored_job
unfolding errored errored_with is_open wrapping_add infer transport_kind unwrap_message is_wrapped
    strip_prefix_text trim trim_start is_whitespace
pending_job_fails = refl

add_command_parsed : parse_command sample (text "brics.slurm add") true ≡ ok add_command
unfolding parse_command Destination.parse split split_words is_whitespace Destination.has_whitespace
    check_owner join Destination.first
add_command_parsed = refl
