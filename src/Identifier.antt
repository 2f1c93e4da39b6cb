-- ===== src/Identifier.antt =====
-- greatwestern/src/grammar.rs: the identifiers of projects and users, and their mappings to local groups
-- and users.
use openportal.Base.{ℕ, List, [], ◌∷◌, ◌++◌}
use openportal.Base.Text.{Text, period, split, trim}
use openportal.Error
use openportal.Error.{Result, ok, err, ◌>>=◌, ◌>>◌}
use openportal.Portal.{PortalIdentifier}
use openportal.Validate.{
  LocalUser, as_str, parse_user, validate_identifier_component, validate_mapping_target,
}
pub mod Checked
pub mod Names
pub mod Mappings
mod Tests

abbrev pub colon : ℕ
colon = b':'

pub record ProjectIdentifier : Type 0 where
  pub project : Text
  pub portal : Text

pub record UserIdentifier : Type 0 where
  pub username : Text
  pub project : Text
  pub portal : Text

pub record ProjectMapping : Type 0 where
  pub project : ProjectIdentifier
  pub local_group : Text

pub record UserMapping : Type 0 where
  pub user : UserIdentifier
  pub local_user : LocalUser
  pub local_group : Text

unfoldable pub project_of_parts : List Text → Result ProjectIdentifier
project_of_parts (project ∷ portal ∷ []) = do
  validate_identifier_component (trim project)
  validate_identifier_component (trim portal)
  ok (record { project = trim project; portal = trim portal })
project_of_parts _ = err Error.parse

-- `ProjectIdentifier::parse`
unfoldable pub parse_project : Text → Result ProjectIdentifier
parse_project identifier = project_of_parts (split period identifier)

-- `Display for ProjectIdentifier`
unfoldable pub display_project : ProjectIdentifier → Text
display_project p = p.project ++ (period ∷ p.portal)

unfoldable pub user_of_parts : List Text → Result UserIdentifier
user_of_parts (username ∷ project ∷ portal ∷ []) = do
  validate_identifier_component (trim username)
  validate_identifier_component (trim project)
  validate_identifier_component (trim portal)
  ok (record { username = trim username; project = trim project; portal = trim portal })
user_of_parts _ = err Error.parse

-- `UserIdentifier::parse`
unfoldable pub parse_identifier : Text → Result UserIdentifier
parse_identifier identifier = user_of_parts (split period identifier)

-- `Display for UserIdentifier`
unfoldable pub display_user : UserIdentifier → Text
display_user u = u.username ++ (period ∷ (u.project ++ (period ∷ u.portal)))

-- `UserIdentifier::project_identifier`, and the conversion from a user
unfoldable pub project_identifier : UserIdentifier → ProjectIdentifier
project_identifier u = record { project = u.project; portal = u.portal }

-- `ProjectIdentifier::portal_identifier`
unfoldable pub portal_identifier : ProjectIdentifier → PortalIdentifier
portal_identifier p = record { portal = p.portal }

-- `ProjectMapping::new`
unfoldable pub map_project : ProjectIdentifier → Text → Result ProjectMapping
map_project project local_group = do
  validate_mapping_target (trim local_group)
  ok (record { project = project; local_group = trim local_group })

unfoldable pub mapping_of_parts : List Text → Result ProjectMapping
mapping_of_parts (project ∷ local_group ∷ []) =
    parse_project project >>= λ p. map_project p (trim local_group)
mapping_of_parts _ = err Error.parse

-- `ProjectMapping::parse`
unfoldable pub parse_project_mapping : Text → Result ProjectMapping
parse_project_mapping identifier = mapping_of_parts (split colon identifier)

-- `Display for ProjectMapping`
unfoldable pub display_project_mapping : ProjectMapping → Text
display_project_mapping m = display_project m.project ++ (colon ∷ m.local_group)

-- `UserMapping::new`
unfoldable pub map_user : UserIdentifier → Text → Text → Result UserMapping
map_user user local_user local_group = parse_user local_user >>= λ u.
    (validate_mapping_target (trim local_group)
      >> ok (record { user = user; local_user = u; local_group = trim local_group }))

unfoldable pub user_mapping_of_parts : List Text → Result UserMapping
user_mapping_of_parts (user ∷ local_user ∷ local_group ∷ []) =
    parse_identifier user >>= λ u. map_user u (trim local_user) (trim local_group)
user_mapping_of_parts _ = err Error.parse

-- `UserMapping::parse`
unfoldable pub parse_user_mapping : Text → Result UserMapping
parse_user_mapping identifier = user_mapping_of_parts (split colon identifier)

-- `Display for UserMapping`
unfoldable pub display_user_mapping : UserMapping → Text
display_user_mapping m =
    display_user m.user ++ (colon ∷ (as_str m.local_user ++ (colon ∷ m.local_group)))

-- `UserMapping::project`, and the conversion from a user's mapping
unfoldable pub project_mapping : UserMapping → ProjectMapping
project_mapping m = record { project = project_identifier m.user; local_group = m.local_group }
