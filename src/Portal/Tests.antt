-- ===== src/Portal/Tests.antt =====
-- A concrete portal name.
use openportal.Base.{◌≡◌, refl}
use openportal.Base.Text.{text, trim, trim_start, is_whitespace, starts_with}
use openportal.Error.{ok}
use openportal.Validate.{byte_len, is_bad_char, validate_component, validate_identifier_component}
use openportal.Portal.{PortalIdentifier, parse}

abbrev brics : PortalIdentifier
brics = record { portal = text "brics" }

brics_parses : parse (text " brics ") ≡ ok brics
unfolding parse trim trim_start is_whitespace starts_with byte_len is_bad_char validate_component
    validate_identifier_component
brics_parses = refl
