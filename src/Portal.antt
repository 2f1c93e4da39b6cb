-- ===== src/Portal.antt =====
-- templemeads/src/portal_identifier.rs: the name of a portal.
use openportal.Base.{false, ◌≡◌, refl, arith}
use openportal.Base.Text.{Text, trim, trim-same}
use openportal.Error.{Result, ok, ◌>>=◌, ◌>>◌, >>=-eq-ok, ok_inj}
use openportal.Validate.{validate_identifier_component}
use openportal.Validate.Names.{IsSafeName, validate_component-IsSafeName}
mod Tests

pub record PortalIdentifier : Type 0 where
  pub portal : Text

-- `PortalIdentifier::parse`
unfoldable pub parse : Text → Result PortalIdentifier
parse identifier = do
  validate_identifier_component (trim identifier)
  ok (record { portal = trim identifier })

-- `Display for PortalIdentifier`
unfoldable pub display : PortalIdentifier → Text
display p = p.portal

-- An accepted portal name is a safe name, and is read back from its printed form.
pub portal-parse-display :
    (s : Text) {p : PortalIdentifier}
    → parse s ≡ ok p
    → IsSafeName p.portal × (parse (display p) ≡ ok p)
unfolding parse display
portal-parse-display s {p} h =
    let (_, checked, made) = >>=-eq-ok (validate_identifier_component (trim s)) _ h in
    let same : p.portal ≡ trim s = ground arith in
    let passed : validate_identifier_component p.portal ≡ ok tt = rw same checked in
    let safe =
      validate_component-IsSafeName p.portal false
        (unfold validate_identifier_component in passed) in
    (safe, rw (trim-same p.portal safe.no_space, passed) refl)
