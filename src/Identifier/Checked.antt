-- ===== src/Identifier/Checked.antt =====
-- greatwestern/src/grammar.rs: what has been checked of the parts of an identifier.
use openportal.Base.{ℕ, List, [], ◌∷◌, ◌++◌, false, ◌||◌, ◌≡◌, refl, arith}
use openportal.Base.Text.{Text, period, contains, trim, trim-same}
use openportal.Error.{ok, ok_inj, >>=-eq-ok}
use openportal.Validate.{is_bad_char, validate_identifier_component}
use openportal.Validate.Names.{
  IsSafeName, validate_component-IsSafeName, component-free, identifier_component-mapping_target,
}
use openportal.Identifier.{
  colon, ProjectIdentifier, UserIdentifier, project_of_parts, user_of_parts, display_project,
  display_user,
}

-- A component that was accepted: it stands for itself between `.` and `:`.
pub record IsPart (v : Text) : Type 0 where
  pub passed : validate_identifier_component v ≡ ok tt
  pub safe : IsSafeName v
  pub no_period : contains period v ≡ false
  pub no_colon : contains colon v ≡ false

pub IsPart-of : (v : Text) → validate_identifier_component v ≡ ok tt → IsPart v
IsPart-of v h = record {
  passed = h;
  safe = validate_component-IsSafeName v false (unfold validate_identifier_component in h);
  no_period = (identifier_component-mapping_target v h).0;
  no_colon =
      component-free v false colon (unfold is_bad_char in refl)
        (unfold validate_identifier_component in h);
}

pub IsPart-trim : (v : Text) → IsPart v → trim v ≡ v
IsPart-trim v h = trim-same v h.safe.no_space

pub contains-append : (c : ℕ) (a b : Text) → contains c (a ++ b) ≡ (contains c a || contains c b)
unfolding contains
contains-append c [] b = refl
contains-append c (x ∷ a) b = ground (arith, contains-append c a b)

abbrev pub IsProject : ProjectIdentifier → Type 0
IsProject p = IsPart p.project × IsPart p.portal

abbrev pub IsUser : UserIdentifier → Type 0
IsUser u = IsPart u.username × IsPart u.project × IsPart u.portal

pub project_of_parts-IsProject :
    (ws : List Text) {p : ProjectIdentifier} → project_of_parts ws ≡ ok p → IsProject p
unfolding project_of_parts
project_of_parts-IsProject [] h = cc
project_of_parts-IsProject (a ∷ []) h = cc
project_of_parts-IsProject (a ∷ b ∷ []) h =
    let (_, ha, h1) = >>=-eq-ok (validate_identifier_component (trim a)) _ h in
    let (_, hb, h2) = >>=-eq-ok (validate_identifier_component (trim b)) _ h1 in
    rw (← ok_inj h2) (IsPart-of (trim a) ha, IsPart-of (trim b) hb)
project_of_parts-IsProject (a ∷ b ∷ c ∷ ws) h = cc

pub user_of_parts-IsUser :
    (ws : List Text) {u : UserIdentifier} → user_of_parts ws ≡ ok u → IsUser u
unfolding user_of_parts
user_of_parts-IsUser [] h = cc
user_of_parts-IsUser (a ∷ []) h = cc
user_of_parts-IsUser (a ∷ b ∷ []) h = cc
user_of_parts-IsUser (a ∷ b ∷ c ∷ []) h =
    let (_, ha, h1) = >>=-eq-ok (validate_identifier_component (trim a)) _ h in
    let (_, hb, h2) = >>=-eq-ok (validate_identifier_component (trim b)) _ h1 in
    let (_, hc, h3) = >>=-eq-ok (validate_identifier_component (trim c)) _ h2 in
    rw (← ok_inj h3) (IsPart-of (trim a) ha, IsPart-of (trim b) hb, IsPart-of (trim c) hc)
user_of_parts-IsUser (a ∷ b ∷ c ∷ d ∷ ws) h = cc

-- Neither form holds a `:`.
pub display_project-no_colon :
    (p : ProjectIdentifier) → IsProject p → contains colon (display_project p) ≡ false
unfolding display_project contains
display_project-no_colon p (a, b) =
    rw (contains-append colon p.project (period ∷ p.portal), a.no_colon) b.no_colon

pub display_user-no_colon :
    (u : UserIdentifier) → IsUser u → contains colon (display_user u) ≡ false
unfolding display_user contains
display_user-no_colon u (a, b, c) =
    rw
      (
        contains-append colon u.username (period ∷ (u.project ++ (period ∷ u.portal))),
        a.no_colon,
        contains-append colon u.project (period ∷ u.portal),
        b.no_colon,
      )
      c.no_colon
