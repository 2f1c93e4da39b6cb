-- ===== src/Job/Failures.antt =====
-- templemeads/src/joberror.rs: why a job failed, with a kind beside the message.
use openportal.Base.{
  [], ◌∷◌, Bool, true, false, ◌&&◌, ◌||◌, Option, none, some, ◌==◌, nat_eq, list_eq, if◌then◌else◌,
  ◌≡◌, refl,
}
use openportal.Base.Text.{Text, text, trim, strip_suffix}
use openportal.Validate.{is_empty}

-- The texts of `mod kind`.
abbrev pub kind_expired : Text
kind_expired = text "expired"

abbrev pub kind_run : Text
kind_run = text "run"

abbrev pub kind_unknown : Text
kind_unknown = text "unknown"

abbrev pub runtime_error_prefix : Text
runtime_error_prefix = text "RuntimeError{"

abbrev pub expiration_error : Text
expiration_error = text "ExpirationError{}"

abbrev pub unknown_error : Text
unknown_error = text "UnknownError{}"

pub record JobError : Type 0 where
  pub kind : Text
  pub message : Text
  pub origin : Option Text

-- `JobError::new`
abbrev pub new : Text → Text → JobError
new kind message = record { kind = kind; message = message; origin = none }

-- `JobError::with_origin`
unfoldable pub with_origin : JobError → Text → JobError
with_origin e origin = record e { origin = some origin }

-- `JobError::redact_origin`
unfoldable pub redact_origin : JobError → JobError
redact_origin e = record e { origin = none }

-- `str::strip_prefix` with a text.
unfoldable pub strip_prefix_text : Text → Text → Option Text
strip_prefix_text [] s = some s
strip_prefix_text (c ∷ cs) [] = none
strip_prefix_text (c ∷ cs) (d ∷ s) = if c == d then strip_prefix_text cs s else none

-- `inner.strip_suffix('}').unwrap_or(inner).trim()`
unfoldable pub unwrap_inner : Text → Text
unwrap_inner inner = elim (strip_suffix b'}' inner) [ some rest ↦ trim rest | none ↦ trim inner ]

-- `JobError::unwrap_message`
unfoldable pub unwrap_message : Text → Text
unwrap_message message = elim (strip_prefix_text runtime_error_prefix (trim message)) [
  | some inner ↦ unwrap_inner inner
  | none ↦ trim message
]

-- `message.trim().starts_with(RUNTIME_ERROR_PREFIX)`
unfoldable pub is_wrapped : Text → Bool
is_wrapped message = elim (strip_prefix_text runtime_error_prefix (trim message)) [
  | some _ ↦ true
  | none ↦ false
]

-- The kind that `JobError::infer` gives without the domain.
unfoldable pub transport_kind : Text → Text
transport_kind message =
    let unwrapped = unwrap_message message in
    if (unwrapped == expiration_error) || (is_empty unwrapped && is_empty message)
    then kind_expired
    else if unwrapped == unknown_error
    then kind_unknown
    else if is_wrapped message
    then kind_run
    else kind_unknown

-- `JobError::infer`
unfoldable pub infer : Text → Option Text → JobError
infer message (some kind) = new kind message
infer message none = new (transport_kind message) message

pub infer_message : (message : Text) (k : Option Text) → (infer message k).message ≡ message
unfolding infer
infer_message message none = refl
infer_message message (some k) = refl
