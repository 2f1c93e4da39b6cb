-- ===== src/Peer.antt =====
-- templemeads/src/agent.rs, `Peer`: an agent's name and the zone in which it is connected.
use openportal.Base.{
  List, [], ◌∷◌, ◌++◌, Bool, true, false, not, ◌&&◌, ◌||◌, Eq, ◌==◌, ==_iff, nat_eq, list_eq, any,
  if◌then◌else◌, ◌≡◌, ◌↔◌, refl, arith,
}
use openportal.Base.Text.{
  Text, at_sign, contains, split, split-append, split-word, trim, trim-same, is_whitespace,
}
use openportal.Error
use openportal.Error.{Result, ok, err}
use openportal.Validate.{is_empty}
mod Tests

pub record Peer : Type 0 where
  pub name : Text
  pub zone : Text

-- The two pieces of `name@zone`.
unfoldable pub of_parts : List Text → Result Peer
of_parts (a ∷ b ∷ []) =
    if is_empty (trim a) || is_empty (trim b)
    then err Error.invalid_peer
    else ok (record { name = trim a; zone = trim b })
of_parts _ = err Error.invalid_peer

-- `Peer::parse`
unfoldable pub parse : Text → Result Peer
unfolding of_parts
parse s = of_parts (split at_sign s)

-- `Display for Peer`
unfoldable pub display : Peer → Text
display p = p.name ++ (at_sign ∷ p.zone)

unfoldable pub peer_beq : Peer → Peer → Bool
peer_beq p q = p.name == q.name && p.zone == q.zone

pub peer_beq_iff : (p q : Peer) → (peer_beq p q ≡ true) ↔ (p ≡ q)
unfolding peer_beq
peer_beq_iff p q = ground (arith, ==_iff p.name q.name, ==_iff p.zone q.zone)

instance abbrev pub peer_eq : Eq Peer
peer_eq = record { beq = peer_beq; beq_iff = peer_beq_iff }

-- A name or a zone without `@` and white space.
abbrev pub IsPlain : Text → Type 0
IsPlain w = (is_empty w ≡ false) × (contains at_sign w ≡ false) × (any is_whitespace w ≡ false)

-- A peer with a plain name and zone is read back from its printed form.
pub peer-parse-display : (p : Peer) → IsPlain p.name → IsPlain p.zone → parse (display p) ≡ ok p
unfolding parse display
peer-parse-display p n z =
    rw
      (
        split-append at_sign p.name p.zone n.1,
        split-word at_sign p.zone z.1,
        trim-same p.name n.2,
        trim-same p.zone z.2,
        n.0,
        z.0,
      )
      refl
