-- ===== src/Identifier/Mappings.antt =====
-- greatwestern/src/grammar.rs: mappings are read back from their printed form, and hold safe local names.
use openportal.Base.{ℕ, List, [], ◌∷◌, ◌++◌, true, false, any, nat_beq, ◌≡◌, refl, ◌∙◌}
use openportal.Base.Text.{Text, contains, split, split-append, split-word, trim, trim-same}
use openportal.Error.{ok, ok_inj, >>=-eq-ok}
use openportal.Validate.{
  LocalUser, unix, email, as_str, parse_user, is_bad_char, validate_component,
  validate_mapping_target,
}
use openportal.Validate.Names.{IsSafeTarget, validate_mapping_target-IsSafeTarget, component-free}
use openportal.Validate.Emails.{validate_email-no_colon}
use openportal.Validate.Users.{
  WasChecked, parse_user-WasChecked, parse_user-as_str, checked-unspaced,
}
use openportal.Identifier.{
  colon, ProjectIdentifier, UserIdentifier, ProjectMapping, UserMapping, parse_project,
  display_project, parse_identifier, display_user, map_project, mapping_of_parts,
  parse_project_mapping, display_project_mapping, map_user, user_mapping_of_parts,
  parse_user_mapping, display_user_mapping, project_identifier, project_mapping,
}
use openportal.Identifier.Checked.{
  IsProject, IsUser, display_project-no_colon, display_user-no_colon,
}
use openportal.Identifier.Names.{
  parse_project-IsProject, parse_identifier-IsUser, parse_project-display, parse_identifier-display,
}

-- A local name that was accepted.
pub record IsTarget (v : Text) : Type 0 where
  pub passed : validate_mapping_target v ≡ ok tt
  pub safe : IsSafeTarget v
  pub no_colon : contains colon v ≡ false

IsTarget-of : (v : Text) → validate_mapping_target v ≡ ok tt → IsTarget v
unfolding validate_mapping_target
IsTarget-of v h =
    let (_, named, _) = >>=-eq-ok (validate_component v true) _ h in
    record {
      passed = h;
      safe = validate_mapping_target-IsSafeTarget v h;
      no_colon = component-free v true colon (unfold is_bad_char in refl) named;
    }

abbrev pub IsMapping : ProjectMapping → Type 0
IsMapping m = IsProject m.project × IsTarget m.local_group

map_project-IsTarget :
    (p : ProjectIdentifier) (w : Text) {m : ProjectMapping}
    → map_project p w ≡ ok m
    → (m.project ≡ p) × IsTarget m.local_group
unfolding map_project
map_project-IsTarget p w h =
    let (_, a, b) = >>=-eq-ok (validate_mapping_target (trim w)) _ h in
    rw (← ok_inj b) (refl, IsTarget-of (trim w) a)

mapping_of_parts-IsMapping :
    (ws : List Text) {m : ProjectMapping} → mapping_of_parts ws ≡ ok m → IsMapping m
unfolding mapping_of_parts
mapping_of_parts-IsMapping [] h = cc
mapping_of_parts-IsMapping (a ∷ []) h = cc
mapping_of_parts-IsMapping (a ∷ b ∷ []) h =
    let (p, ha, hb) = >>=-eq-ok (parse_project a) _ h in
    let (same, target) = map_project-IsTarget p (trim b) hb in
    (rw same (parse_project-IsProject a ha).0, target)
mapping_of_parts-IsMapping (a ∷ b ∷ c ∷ ws) h = cc

target-trim : (v : Text) → IsTarget v → trim v ≡ v
target-trim v h = trim-same v h.safe.name.no_space

parse_project_mapping-display :
    (m : ProjectMapping) → IsMapping m → parse_project_mapping (display_project_mapping m) ≡ ok m
unfolding parse_project_mapping display_project_mapping mapping_of_parts map_project
parse_project_mapping-display m (p, t) =
    rw
      (
        split-append colon (display_project m.project) m.local_group
            (display_project-no_colon m.project p),
        split-word colon m.local_group t.no_colon,
        mapping_of_parts,
        parse_project-display m.project p,
        map_project,
        target-trim m.local_group t,
        target-trim m.local_group t,
        t.passed,
      )
      refl

-- An accepted mapping of a project has accepted names on both sides of the `:`, its local group can stand
-- as one component of a path and as an operand of a command, and it is read back from its printed form.
pub parse_project_mapping-IsMapping :
    (s : Text) {m : ProjectMapping}
    → parse_project_mapping s ≡ ok m
    → IsMapping m × (parse_project_mapping (display_project_mapping m) ≡ ok m)
parse_project_mapping-IsMapping s {m} h =
    let checked =
      mapping_of_parts-IsMapping (split colon s) {m = m} (unfold parse_project_mapping in h) in
    (checked, parse_project_mapping-display m checked)

abbrev pub IsUserMapping : UserMapping → Type 0
IsUserMapping m = IsUser m.user × WasChecked m.local_user × IsTarget m.local_group

map_user-IsUserMapping :
    (u : UserIdentifier) (v w : Text) {m : UserMapping}
    → map_user u v w ≡ ok m
    → (m.user ≡ u) × WasChecked m.local_user × IsTarget m.local_group
unfolding map_user
map_user-IsUserMapping u v w h =
    let (l, a, h1) = >>=-eq-ok (parse_user v) _ h in
    let (_, b, h2) = >>=-eq-ok (validate_mapping_target (trim w)) _ h1 in
    rw (← ok_inj h2) (refl, parse_user-WasChecked v l a, IsTarget-of (trim w) b)

user_mapping_of_parts-IsUserMapping :
    (ws : List Text) {m : UserMapping} → user_mapping_of_parts ws ≡ ok m → IsUserMapping m
unfolding user_mapping_of_parts
user_mapping_of_parts-IsUserMapping [] h = cc
user_mapping_of_parts-IsUserMapping (a ∷ []) h = cc
user_mapping_of_parts-IsUserMapping (a ∷ b ∷ []) h = cc
user_mapping_of_parts-IsUserMapping (a ∷ b ∷ c ∷ []) h =
    let (u, ha, hb) = >>=-eq-ok (parse_identifier a) _ h in
    let (same, local, target) = map_user-IsUserMapping u (trim b) (trim c) hb in
    (rw same (parse_identifier-IsUser a ha).0, local, target)
user_mapping_of_parts-IsUserMapping (a ∷ b ∷ c ∷ d ∷ ws) h = cc

contains-any : (c : ℕ) (v : Text) → contains c v ≡ any (λ x. nat_beq x c) v
unfolding contains
contains-any c [] = refl
contains-any c (x ∷ v) = rw (contains-any c v) refl

checked-no_colon : (u : LocalUser) → WasChecked u → contains colon (as_str u) ≡ false
unfolding as_str
checked-no_colon (unix v) h = (IsTarget-of v h.1).no_colon
checked-no_colon (email v) h = contains-any colon v ∙ validate_email-no_colon v h.1

parse_user_mapping-display :
    (m : UserMapping) → IsUserMapping m → parse_user_mapping (display_user_mapping m) ≡ ok m
unfolding parse_user_mapping display_user_mapping user_mapping_of_parts map_user
parse_user_mapping-display m (u, l, t) =
    rw
      (
        split-append colon (display_user m.user) (as_str m.local_user ++ (colon ∷ m.local_group))
            (display_user-no_colon m.user u),
        split-append colon (as_str m.local_user) m.local_group (checked-no_colon m.local_user l),
        split-word colon m.local_group t.no_colon,
        user_mapping_of_parts,
        parse_identifier-display m.user u,
        map_user,
        trim-same (as_str m.local_user) (checked-unspaced m.local_user l),
        parse_user-as_str m.local_user l,
        target-trim m.local_group t,
        target-trim m.local_group t,
        t.passed,
      )
      refl

-- The same of an accepted mapping of a user, whose local user is a checked account name or a checked email
-- address; and the mapping of its project is read back too.
pub parse_user_mapping-IsUserMapping :
    (s : Text) {m : UserMapping}
    → parse_user_mapping s ≡ ok m
    → IsUserMapping m
      × (parse_user_mapping (display_user_mapping m) ≡ ok m)
      × (parse_project_mapping (display_project_mapping (project_mapping m))
          ≡ ok (project_mapping m))
unfolding project_mapping project_identifier
parse_user_mapping-IsUserMapping s {m} h =
    let checked =
      user_mapping_of_parts-IsUserMapping (split colon s) {m = m}
        (unfold parse_user_mapping in h) in
    (
      checked,
      parse_user_mapping-display m checked,
      parse_project_mapping-display (project_mapping m) ((checked.0.1, checked.0.2), checked.2),
    )
