-- ===== src/Validate/Tests.antt =====
-- Concrete names and addresses for the theorems on validation.
use openportal.Base.{false, ◌≡◌, refl}
use openportal.Base.Text.{
  Text, text, at_sign, contains, split, trim, trim_start, is_whitespace, starts_with, ends_with,
}
use openportal.Error.{ok, err}
use openportal.Error
use openportal.Validate.{
  byte_len, is_bad_char, is_bad_local_char, is_bad_label_char, contains_pair, split_once,
  validate_component, validate_identifier_component, validate_mapping_target, validate_email,
  validate_email_local_part, validate_email_domain, validate_label, validate_labels, unix, email,
  parse_user, as_str, unix_name, is_email,
}
use openportal.Validate.Names.{IsSafeTarget}
use openportal.Validate.Users.{parse_user_lem}

program : Unit {0}
unfolding byte_len is_bad_char is_bad_local_char is_bad_label_char contains_pair split_once
    validate_component validate_identifier_component validate_mapping_target validate_email
    validate_email_local_part validate_email_domain validate_label validate_labels parse_user
    contains split trim trim_start is_whitespace starts_with ends_with
program = tt

target_runs :
    (validate_mapping_target (text "user.project") ≡ ok tt)
    × (validate_mapping_target (text "../etc") ≡ err Error.parse)
    × (validate_mapping_target (text "-rf") ≡ err Error.parse)
    × (validate_identifier_component (text "a-b_c1") ≡ ok tt)
    × (validate_identifier_component (text "a.b") ≡ err Error.parse)
unfolding program
target_runs = (refl, refl, refl, refl, refl)

email_runs :
    (validate_email (text "jo.smith+hpc@example.ac.uk") ≡ ok tt)
    × (validate_email (text "jo@localhost") ≡ err Error.parse)
    × (validate_email (text "a@b@example.com") ≡ err Error.parse)
    × (parse_user (text " jo@example.com ") ≡ ok (email (text "jo@example.com")))
    × (parse_user (text "jo.proj") ≡ ok (unix (text "jo.proj")))
unfolding program
email_runs = (refl, refl, refl, refl, refl)

parse_user_lem_example :
    (contains at_sign (as_str (unix (text "jo.proj"))) ≡ is_email (unix (text "jo.proj")))
    × (parse_user (as_str (unix (text "jo.proj"))) ≡ ok (unix (text "jo.proj")))
    × ((v : Text)
        → unix_name (unix (text "jo.proj")) ≡ ok v
        → IsSafeTarget v × (is_email (unix (text "jo.proj")) ≡ false))
parse_user_lem_example = parse_user_lem (text "jo.proj") {u = unix (text "jo.proj")} email_runs.4
