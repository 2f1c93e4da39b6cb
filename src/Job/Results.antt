-- ===== src/Job/Results.antt =====
-- templemeads/src/job.rs: what callers read from a job.
use openportal.Base.{Option, none, some, ◌==◌, nat_eq, list_eq}
use openportal.Base.Text.{Text, text}
use openportal.Error.{Error, Result, ok, err, ◌>>=◌, guard}
use openportal.Job.{Domain, Job}
use openportal.Job.Failures.{JobError, unwrap_message, infer, redact_origin}
use openportal.Job.States.{Status}

unfoldable pub when_error {ℓ} : {A : Type ℓ} → Status → Option A → Option A
when_error Status.error a = a
when_error _ a = none

-- A failed job gives its text as an error.
unfoldable pub failure {ℓ} : {A : Type ℓ} → Option Text → Result A
failure (some message) = err (Error.run message)
failure none = err Error.invalid_state

abbrev pub or_text : Option Text → Text → Text
or_text (some t) d = t
or_text none d = d

unfoldable pub infer_from : (Text → Option Text) → Option JobError → Option Text → Option JobError
infer_from kind_for (some e) m = some e
infer_from kind_for none (some m) = some (infer m (kind_for (unwrap_message m)))
infer_from kind_for none none = none

unfoldable pub progress_from : Status → Option Text → Text
progress_from Status.running r = or_text r (text "Running")
progress_from Status.created r = text "Created"
progress_from Status.pending r = text "Pending"
progress_from Status.complete r = text "Complete"
progress_from Status.duplicate r = text "Pending"
progress_from Status.error r = text "Error"

unfoldable pub result_json_from : Status → Option Text → Result Text
result_json_from Status.error r = failure r
result_json_from Status.complete r = ok (or_text r (text "{}"))
result_json_from _ r = ok (text "null")

unfoldable pub result_type_from : Status → Option Text → Text
result_type_from Status.error t = or_text t (text "Error")
result_type_from Status.complete t = or_text t (text "None")
result_type_from _ t = text "None"

unfoldable pub result_none_from : Status → Option Text → Result Text → Result (Unit {0})
result_none_from Status.error r t = failure r
result_none_from Status.complete r t = t >>= λ name. guard (name == text "None") Error.invalid_state
result_none_from _ r t = ok tt

unfoldable pub result_from {ℓ} :
    {A : Type ℓ} → (Text → Result A) → Status → Option Text → Result (Option A)
result_from from_json Status.error r = failure r
result_from from_json Status.complete (some r) = from_json r >>= λ a. ok (some a)
result_from from_json Status.complete none = err Error.unknown
result_from from_json _ r = ok none

module _ {L : Domain} where
  -- `Job::error_message`
  unfoldable pub error_message : Job L → Option Text
  error_message j = when_error j.state j.result

  -- `Job::error`
  unfoldable pub error : Job L → Option JobError
  error j = when_error j.state j.error

  -- `Job::error_or_infer`
  unfoldable pub error_or_infer : Job L → Option JobError
  error_or_infer j = infer_from L.error_kind_for (error j) (error_message j)

  -- `Job::redact_error_origin`
  unfoldable pub redact_error_origin : Job L → Job L
  redact_error_origin j = elim j.error [
    | some e ↦ record j { error = some (redact_origin e) }
    | none ↦ j
  ]

  -- `Job::progress_message`
  unfoldable pub progress_message : Job L → Option Text
  progress_message j = some (progress_from j.state j.result)

  -- `Job::result_json`
  unfoldable pub result_json : Job L → Result Text
  result_json j = result_json_from j.state j.result

  -- `Job::result_type`
  unfoldable pub result_type : Job L → Result Text
  result_type j = ok (result_type_from j.state j.result_type)

  -- `Job::result_none`
  unfoldable pub result_none : Job L → Result (Unit {0})
  result_none j = result_none_from j.state j.result (result_type j)

  -- `Job::result`, with serde's reader of the type.
  unfoldable pub result {ℓ} : {A : Type ℓ} → (Text → Result A) → Job L → Result (Option A)
  result from_json j = result_from from_json j.state j.result
