-- ===== src/Job/Failing.antt =====
-- What a failed job tells its readers.
use openportal.Base.{true, ℕ, none, some, ◌≡◌, refl, ap}
use openportal.Base.Text.{Text}
use openportal.Error
use openportal.Error.{Result, ok, err, guard, ◌>>◌, ok_inj, guard-eq-ok}
use mathlib.Core.Path.{subst}
use openportal.Job.{Domain, Job, is_finished}
use openportal.Job.Failures.{unwrap_message, infer, infer_message}
use openportal.Job.Operations.{errored, errored_with, is_open}
use openportal.Job.States.{status_eq, status_beq}
use openportal.Job.Results.{
  error_message, error, error_or_infer, infer_from, when_error, failure, result_json,
  result_json_from, result_none, result_none_from,
}

module _ {L : Domain} where
  -- A job of a peer that does not know structured errors: the same job without the field.
  abbrev pub without_error : Job L → Job L
  without_error k = record k { error = none }

  -- The readings of a job that failed with a message.
  pub record Failed (message : Text) (k : Job L) : Type 0 where
    pub finished : is_finished k ≡ true
    pub message_read : error_message k ≡ some message
    pub error_read :
        error_or_infer k ≡ some (infer message (L.error_kind_for (unwrap_message message)))
    pub legacy_read : error_or_infer (without_error k) ≡ error_or_infer k
    pub json_refused : result_json k ≡ err (Error.run message)
    pub none_refused : result_none k ≡ err (Error.run message)

  -- A job that `errored` accepts is finished, gives its message back in every form, and a reader that
  -- gets only the text of the failure infers the same error.
  pub errored-Failed :
      (now : ℕ) (message : Text) (j : Job L) {k : Job L}
      → errored now message j ≡ ok k
      → Failed message k
  unfolding errored errored_with is_finished status_beq error_message error error_or_infer
      infer_from when_error failure result_json result_json_from result_none result_none_from infer
  errored-Failed now message j h =
      let e = infer message (L.error_kind_for (unwrap_message message)) in
      let m = infer_message message (L.error_kind_for (unwrap_message message)) in
      subst (Failed message) (ok_inj (guard-eq-ok (is_open j.state) Error.invalid_state _ h).1)
        (record {
          finished = refl;
          message_read = ap some m;
          error_read = refl;
          legacy_read = rw m refl;
          json_refused = rw m refl;
          none_refused = rw m refl;
        })
