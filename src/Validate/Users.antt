-- ===== src/Validate/Users.antt =====
-- The local user of a mapping: a Unix account name or an email address, never confused.
use openportal.Base.{true, false, any, Bool-cases, inl, inr, ◌≡◌, refl}
use openportal.Base.Text.{Text, at_sign, contains, trim, trim-same, is_whitespace}
use openportal.Error.{ok, ok_inj, >>=-eq-ok}
use openportal.Validate.{
  LocalUser, unix, email, parse_user, as_str, unix_name, is_email, validate_email,
  validate_mapping_target,
}
use openportal.Validate.Names.{IsSafeTarget, validate_mapping_target-IsSafeTarget}
use openportal.Validate.Emails.{validate_email-IsAddress}

-- What `parse_user` has checked of the user that it gives.
abbrev pub WasChecked : LocalUser → Type 0
WasChecked (unix v) = (contains at_sign v ≡ false) × (validate_mapping_target v ≡ ok tt)
WasChecked (email v) = (contains at_sign v ≡ true) × (validate_email v ≡ ok tt)

pub parse_user-WasChecked : (s : Text) (u : LocalUser) → parse_user s ≡ ok u → WasChecked u
unfolding parse_user
parse_user-WasChecked s u h = elim (Bool-cases (contains at_sign (trim s))) [
  | inl e ↦
      let (_, a, b) = >>=-eq-ok (validate_email (trim s)) (λ _. ok (email (trim s))) (rw e at h) in
      rw (← ok_inj b) (e, a)
  | inr e ↦
      let (_, a, b) =
        >>=-eq-ok (validate_mapping_target (trim s)) (λ _. ok (unix (trim s))) (rw e at h) in
      rw (← ok_inj b) (e, a)
]

pub checked-unspaced : (u : LocalUser) → WasChecked u → any is_whitespace (as_str u) ≡ false
unfolding as_str
checked-unspaced (unix v) c = (validate_mapping_target-IsSafeTarget v c.1).name.no_space
checked-unspaced (email v) c = let (_, _, a) = validate_email-IsAddress v c.1 in a.no_space

pub parse_user-as_str : (u : LocalUser) → WasChecked u → parse_user (as_str u) ≡ ok u
unfolding parse_user as_str
parse_user-as_str (unix v) c = rw (trim-same v (checked-unspaced (unix v) c), c.0, c.1) refl
parse_user-as_str (email v) c = rw (trim-same v (checked-unspaced (email v) c), c.0, c.1) refl

as_str-is_email : (u : LocalUser) → WasChecked u → contains at_sign (as_str u) ≡ is_email u
unfolding as_str is_email
as_str-is_email (unix v) c = c.0
as_str-is_email (email v) c = c.0

unix_name-IsSafeTarget :
    (u : LocalUser) (v : Text) → WasChecked u → unix_name u ≡ ok v → IsSafeTarget v
unfolding unix_name
unix_name-IsSafeTarget (unix w) v c h = rw (← ok_inj h) (validate_mapping_target-IsSafeTarget w c.1)
unix_name-IsSafeTarget (email w) v c h = cc

-- For a local user that parsing accepted: its text holds an `@` exactly when it is an email address,
-- parsing its text gives the same user again, and a text that `unix_name` answers with is a safe account
-- name, and the user is not an email address.
pub parse_user_lem :
    (s : Text) {u : LocalUser}
    → parse_user s ≡ ok u
    → (contains at_sign (as_str u) ≡ is_email u)
      × (parse_user (as_str u) ≡ ok u)
      × ((v : Text) → unix_name u ≡ ok v → IsSafeTarget v × (is_email u ≡ false))
parse_user_lem s {u} h =
    let c = parse_user-WasChecked s u h in
    (
      as_str-is_email u c,
      parse_user-as_str u c,
      λ v k. (unix_name-IsSafeTarget u v c k, not_email u v k),
    )
  where
    not_email : (w : LocalUser) (v : Text) → unix_name w ≡ ok v → is_email w ≡ false
    not_email (unix x) v k = unfold is_email in refl
    not_email (email x) v k = unfold unix_name in cc
