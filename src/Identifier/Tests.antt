-- ===== src/Identifier/Tests.antt =====
-- Identifiers and mappings at concrete texts.
use openportal.Base.{◌≡◌, refl}
use openportal.Base.Text.{
  text, split, trim, trim_start, contains, starts_with, ends_with, is_whitespace,
}
use openportal.Error.{ok}
use openportal.Validate.{
  email, validate_component, validate_identifier_component, validate_mapping_target, parse_user,
  byte_len, char_len, is_bad_char, contains_pair, validate_email, validate_email_local_part,
  validate_email_domain, validate_labels, validate_label, split_once, is_bad_local_char,
  is_bad_label_char,
}
use openportal.Identifier.{
  ProjectIdentifier, UserIdentifier, ProjectMapping, UserMapping, project_of_parts, parse_project,
  display_project, user_of_parts, parse_identifier, display_user, project_identifier, map_project,
  mapping_of_parts, parse_project_mapping, display_project_mapping, map_user, user_mapping_of_parts,
  parse_user_mapping, display_user_mapping, project_mapping,
}
use openportal.Identifier.Checked.{IsUser}
use openportal.Identifier.Names.{parse_identifier-IsUser}
use openportal.Identifier.Mappings.{IsUserMapping, parse_user_mapping-IsUserMapping}

program : Unit {0}
unfolding split trim trim_start contains starts_with ends_with is_whitespace validate_component
    validate_identifier_component validate_mapping_target parse_user byte_len char_len is_bad_char
    contains_pair validate_email validate_email_local_part validate_email_domain validate_labels
    validate_label split_once is_bad_local_char is_bad_label_char project_of_parts parse_project
    user_of_parts parse_identifier map_project mapping_of_parts parse_project_mapping map_user
    user_mapping_of_parts parse_user_mapping
program = tt

abbrev project : ProjectIdentifier
project = record { project = text "demo"; portal = text "brics" }

abbrev user : UserIdentifier
user = record { username = text "kay"; project = text "demo"; portal = text "brics" }

project_read : parse_project (text "demo. brics") ≡ ok project
unfolding program
project_read = refl

user_read : parse_identifier (text "kay.demo.brics") ≡ ok user
unfolding program
user_read = refl

parse_identifier-IsUser_example :
    IsUser user
    × (parse_identifier (display_user user) ≡ ok user)
    × (parse_project (display_project (project_identifier user)) ≡ ok (project_identifier user))
parse_identifier-IsUser_example = parse_identifier-IsUser (text "kay.demo.brics") user_read

abbrev mapping : ProjectMapping
mapping = record { project = project; local_group = text "g.1" }

mapping_read : parse_project_mapping (text "demo.brics:g.1") ≡ ok mapping
unfolding program
mapping_read = refl

abbrev mapped : UserMapping
mapped = record { user = user; local_user = email (text "k@a.b"); local_group = text "g" }

mapped_read : parse_user_mapping (text "kay.demo.brics: k@a.b :g") ≡ ok mapped
unfolding program
mapped_read = refl

parse_user_mapping-IsUserMapping_example :
    IsUserMapping mapped
    × (parse_user_mapping (display_user_mapping mapped) ≡ ok mapped)
    × (parse_project_mapping (display_project_mapping (project_mapping mapped))
        ≡ ok (project_mapping mapped))
parse_user_mapping-IsUserMapping_example =
    parse_user_mapping-IsUserMapping (text "kay.demo.brics: k@a.b :g") mapped_read
