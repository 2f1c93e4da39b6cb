-- ===== src/Job/Commands.antt =====
-- Which commands become jobs.
use openportal.Base.{Bool, true, false, Option, some, ◌==◌, ==_iff, list_eq, nat_eq, ◌≡◌, refl}
use openportal.Base.Text.{Text, split_words, join}
use openportal.Error
use openportal.Error.{Result, ok, err, guard, ◌>>◌, ◌>>=◌, ok_inj, guard-eq-ok, >>=-eq-ok}
use mathlib.Core.Path.{subst}
use openportal.Destination
use openportal.Destination.{Destination}
use openportal.Portal.{PortalIdentifier}
use openportal.Job.{
  Domain, Command, parse_command, check_owner, or_parse_error, first_word, other_words,
}

guard-true : (b : Bool) (e : Error.Error) {u : Unit {0}} → guard b e ≡ ok u → b ≡ true
guard-true true e h = refl
guard-true false e h = cc

owner_first :
    (o : Option PortalIdentifier) (d : Destination) (p : PortalIdentifier) {u : Unit {0}}
    → check_owner o d ≡ ok u
    → o ≡ some p
    → p.portal ≡ Destination.first d
unfolding check_owner
owner_first o d p h e = (==_iff p.portal (Destination.first d)).0 (
    guard-true (p.portal == Destination.first d) Error.parse
      (subst (λ o. check_owner o d ≡ ok _) e h))

module _ (L : Domain) where
  -- With the portal check, a command about a portal is accepted only when that portal is the first
  -- agent of its destination.
  pub parse_command_owner :
      (s : Text) {c : Command L} {p : PortalIdentifier}
      → parse_command L s true ≡ ok c
      → L.owning_portal c.instruction ≡ some p
      → p.portal ≡ Destination.first c.destination
  unfolding parse_command
  parse_command_owner s {p = p} h o =
      let (d, _, f) =
        >>=-eq-ok (or_parse_error (Destination.parse (first_word (split_words s)))) _ h in
      let (i, _, g) =
        >>=-eq-ok (or_parse_error (L.parse_instruction (join b' ' (other_words (split_words s))))) _
          f in
      let (u, k, e) = >>=-eq-ok (check_owner (L.owning_portal i) d) _ g in
      subst
        (λ c. L.owning_portal c.instruction ≡ some p → p.portal ≡ Destination.first c.destination)
        (ok_inj e) (owner_first (L.owning_portal i) d p k) o
