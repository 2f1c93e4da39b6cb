-- ===== src/Identifier/Names.antt =====
-- greatwestern/src/grammar.rs: project and user identifiers are read back from their printed form.
use openportal.Base.{◌∷◌, ◌++◌, ◌≡◌, refl}
use openportal.Base.Text.{Text, period, split, split-append, split-word}
use openportal.Error.{ok}
use openportal.Identifier.{
  ProjectIdentifier, UserIdentifier, project_of_parts, parse_project, display_project,
  user_of_parts, parse_identifier, display_user, project_identifier,
}
use openportal.Identifier.Checked.{
  IsPart-trim, IsProject, IsUser, project_of_parts-IsProject, user_of_parts-IsUser,
}

pub parse_project-display :
    (p : ProjectIdentifier) → IsProject p → parse_project (display_project p) ≡ ok p
unfolding parse_project display_project project_of_parts
parse_project-display p (a, b) =
    rw
      (
        split-append period p.project p.portal a.no_period,
        split-word period p.portal b.no_period,
        project_of_parts,
        IsPart-trim p.project a,
        IsPart-trim p.portal b,
        a.passed,
        b.passed,
      )
      refl

pub parse_identifier-display :
    (u : UserIdentifier) → IsUser u → parse_identifier (display_user u) ≡ ok u
unfolding parse_identifier display_user user_of_parts
parse_identifier-display u (a, b, c) =
    rw
      (
        split-append period u.username (u.project ++ (period ∷ u.portal)) a.no_period,
        split-append period u.project u.portal b.no_period,
        split-word period u.portal c.no_period,
        user_of_parts,
        IsPart-trim u.username a,
        IsPart-trim u.project b,
        IsPart-trim u.portal c,
        a.passed,
        b.passed,
        c.passed,
      )
      refl

-- The parts of an accepted project identifier are safe names without `.` and `:`, and the identifier is
-- read back from its printed form.
pub parse_project-IsProject :
    (s : Text) {p : ProjectIdentifier}
    → parse_project s ≡ ok p
    → IsProject p × (parse_project (display_project p) ≡ ok p)
parse_project-IsProject s {p} h =
    let checked = project_of_parts-IsProject (split period s) {p = p} (unfold parse_project in h) in
    (checked, parse_project-display p checked)

-- The same of a user identifier; and the project of an accepted user is an accepted project.
pub parse_identifier-IsUser :
    (s : Text) {u : UserIdentifier}
    → parse_identifier s ≡ ok u
    → IsUser u
      × (parse_identifier (display_user u) ≡ ok u)
      × (parse_project (display_project (project_identifier u)) ≡ ok (project_identifier u))
unfolding project_identifier
parse_identifier-IsUser s {u} h =
    let checked = user_of_parts-IsUser (split period s) {u = u} (unfold parse_identifier in h) in
    (
      checked,
      parse_identifier-display u checked,
      parse_project-display (project_identifier u) (checked.1, checked.2),
    )
