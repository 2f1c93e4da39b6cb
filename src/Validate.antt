-- ===== src/Validate.antt =====
-- templemeads/src/validate.rs: the checks that every part of an identifier, every local account name
-- and every email address passes before it is used. The children prove what an accepted text cannot
-- contain.
use openportal.Base.{
  ℕ, ◌+◌, List, [], ◌∷◌, Bool, true, false, not, ◌&&◌, ◌||◌, Option, none, some, if◌then◌else◌, any,
  nat_beq, ltb, leb, length,
}
use openportal.Base.Text.{
  Text, period, dash, at_sign, contains, starts_with, ends_with, split, trim,
}
use openportal.Error
use openportal.Error.{Result, ok, err, ◌>>=◌, ◌>>◌, guard}
pub mod Names
pub mod Emails
pub mod Users
mod Tests

abbrev pub max_identifier_component_len : ℕ
max_identifier_component_len = 64

abbrev pub max_email_len : ℕ
max_email_len = 254

abbrev pub max_email_local_part_len : ℕ
max_email_local_part_len = 64

abbrev pub max_domain_label_len : ℕ
max_domain_label_len = 63

-- `str::len` counts the bytes of UTF-8.
unfoldable pub char_len : ℕ → ℕ
char_len c = if ltb c 0x80 then 1 else if ltb c 0x800 then 2 else if ltb c 0x10000 then 3 else 4

unfoldable pub byte_len : Text → ℕ
unfolding char_len
byte_len [] = 0
byte_len (c ∷ s) = char_len c + byte_len s

abbrev pub is_empty : Text → Bool
is_empty [] = true
is_empty (c ∷ s) = false

abbrev pub is_ascii_alphanumeric : ℕ → Bool
is_ascii_alphanumeric c =
    (leb b'0' c && leb c b'9') || (leb b'A' c && leb c b'Z') || (leb b'a' c && leb c b'z')

unfoldable pub is_bad_char : Bool → ℕ → Bool
is_bad_char allow_period c = not (
    is_ascii_alphanumeric c
    || nat_beq c b'_'
    || nat_beq c dash
    || (allow_period && nat_beq c period))

unfoldable pub validate_component : Text → Bool → Result (Unit {0})
validate_component value allow_period = do
  guard (not (is_empty value)) Error.parse
  guard (leb (byte_len value) max_identifier_component_len) Error.parse
  guard (not (starts_with dash value)) Error.parse
  guard (not (any (is_bad_char allow_period) value)) Error.parse

unfoldable pub validate_identifier_component : Text → Result (Unit {0})
validate_identifier_component value = validate_component value false

-- `s.contains("..")`, for the character that is doubled.
unfoldable pub contains_pair : ℕ → Text → Bool
contains_pair c [] = false
contains_pair c (x ∷ []) = false
contains_pair c (x ∷ y ∷ s) = (nat_beq x c && nat_beq y c) || contains_pair c (y ∷ s)

unfoldable pub validate_mapping_target : Text → Result (Unit {0})
validate_mapping_target value = do
  validate_component value true
  guard (not (starts_with period value || ends_with period value)) Error.parse
  guard (not (contains_pair period value)) Error.parse

-- `s.split_once(c)`
unfoldable pub split_once : ℕ → Text → Option (Text × Text)
split_once c [] = none
split_once c (x ∷ s) =
    let rest = split_once c s in
    if nat_beq x c then some ([], s) else elim rest [ none ↦ none | some (a, b) ↦ some (x ∷ a, b) ]

unfoldable pub is_bad_local_char : ℕ → Bool
is_bad_local_char c = not (
    is_ascii_alphanumeric c
    || nat_beq c period
    || nat_beq c b'_'
    || nat_beq c dash
    || nat_beq c b'+')

unfoldable pub validate_email_local_part : Text → Result (Unit {0})
validate_email_local_part local_part = do
  guard (not (is_empty local_part)) Error.parse
  guard (leb (byte_len local_part) max_email_local_part_len) Error.parse
  guard (not (starts_with dash local_part)) Error.parse
  guard (not (any is_bad_local_char local_part)) Error.parse
  guard (not (starts_with period local_part || ends_with period local_part)) Error.parse
  guard (not (contains_pair period local_part)) Error.parse

unfoldable pub is_bad_label_char : ℕ → Bool
is_bad_label_char c = not (is_ascii_alphanumeric c || nat_beq c dash)

-- The body of the loop over the labels.
unfoldable pub validate_label : Text → Result (Unit {0})
validate_label label = do
  guard (not (is_empty label)) Error.parse
  guard (leb (byte_len label) max_domain_label_len) Error.parse
  guard (not (starts_with dash label || ends_with dash label)) Error.parse
  guard (not (any is_bad_label_char label)) Error.parse

unfoldable pub validate_labels : List Text → Result (Unit {0})
unfolding validate_label
validate_labels [] = ok tt
validate_labels (label ∷ labels) = do validate_label label; validate_labels labels

unfoldable pub validate_email_domain : Text → Result (Unit {0})
validate_email_domain domain = do
  guard (not (is_empty domain)) Error.parse
  guard (leb 2 (length (split period domain))) Error.parse
  validate_labels (split period domain)

-- `let Some((local_part, domain)) = value.split_once('@') else { return Err(…) }`
abbrev pub split_email : Text → Result (Text × Text)
split_email value = elim (split_once at_sign value) [ none ↦ err Error.parse | some p ↦ ok p ]

unfoldable pub validate_email : Text → Result (Unit {0})
validate_email value = do
  guard (not (is_empty value)) Error.parse
  guard (leb (byte_len value) max_email_len) Error.parse
  (local_part, domain) ← split_email value
  guard (not (contains at_sign domain)) Error.parse
  validate_email_local_part local_part
  validate_email_domain domain

pub data LocalUser : Type 0 where
  unix email : Text → LocalUser

unfoldable pub parse_user : Text → Result LocalUser
parse_user s =
    let value = trim s in
    if contains at_sign value
    then (do validate_email value; ok (email value))
    else (do validate_mapping_target value; ok (unix value))

unfoldable pub as_str : LocalUser → Text
as_str (unix value) = value
as_str (email value) = value

unfoldable pub unix_name : LocalUser → Result Text
unix_name (unix value) = ok value
unix_name (email value) = err Error.parse

unfoldable pub is_unix : LocalUser → Bool
is_unix (unix value) = true
is_unix (email value) = false

unfoldable pub is_email : LocalUser → Bool
is_email (unix value) = false
is_email (email value) = true
