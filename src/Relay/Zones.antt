-- ===== src/Relay/Zones.antt =====
-- paddington/src/relay.rs: what the tables of the proxy hold, said of the configuration: the zones of its
-- clients, and the pairs of its policy.
use openportal.Base.{
  List, [], ◌∷◌, Bool, true, false, Option, none, some, ◌==◌, nat_eq, list_eq, ==_iff, ◌&&◌, ◌||◌,
  &&-eq-true, All, any, Bool-cases, inl, inr, ◌⊎◌, ◌≡◌, ◌≢◌, refl, sym, ◌∙◌, if◌then◌else◌, is_some,
}
use openportal.Base.Assoc.{lookup, insert, lookup-insert}
use openportal.Base.Text.{Text}
use mathlib.Core.Path.{subst}
use mathlib.Core.Option.{some_inj}
use openportal.Relay.Errors.{Error, pass, fail, fail_is_not_pass, pass_inj}
use openportal.Relay.Proxy.{PeerEntry, add_zones, RelayPolicy, permits}

-- A client of that name and zone is configured.
abbrev pub HasClient : List PeerEntry → Text → Text → Type 0
HasClient [] name zone = ⊥
HasClient (c ∷ clients) name zone = (c.name ≡ name) × (c.zone ≡ zone) ⊎ HasClient clients name zone

-- The configured zone of the client, or, when no client has that name, the other zone.
abbrev pub IsZoneOf : List PeerEntry → Text → Text → Text → Type 0
IsZoneOf clients name other zone =
    HasClient clients name zone ⊎ All (λ c. c.name ≢ name) clients × (zone ≡ other)

-- The policy has the pair, in one direction or the other.
abbrev pub HasPair : List (Text × Text) → Text → Text → Type 0
HasPair [] from to = ⊥
HasPair ((a, b) ∷ pairs) from to =
    ((a ≡ from) × (b ≡ to) ⊎ (a ≡ to) × (b ≡ from)) ⊎ HasPair pairs from to

any-HasPair :
    (pairs : List (Text × Text)) (from to : Text)
    → any (λ pair. pair.0 == from && pair.1 == to || (pair.0 == to && pair.1 == from)) pairs ≡ true
    → HasPair pairs from to
any-HasPair [] from to h = cc
any-HasPair ((a, b) ∷ pairs) from to h =
    here (Bool-cases (a == from && b == to)) (Bool-cases (a == to && b == from)) h
      (any-HasPair pairs from to)
  where
    both : (x y z w : Text) → (x == y && z == w) ≡ true → (x ≡ y) × (z ≡ w)
    both x y z w e =
        let (p, q) = &&-eq-true (x == y) (z == w) e in ((==_iff x y).0 p, (==_iff z w).0 q)

    here :
        ((a == from && b == to) ≡ true) ⊎ ((a == from && b == to) ≡ false)
        → ((a == to && b == from) ≡ true) ⊎ ((a == to && b == from) ≡ false)
        → any
            (λ pair. pair.0 == from && pair.1 == to || (pair.0 == to && pair.1 == from))
            ((a, b) ∷ pairs)
          ≡ true
        → (any (λ pair. pair.0 == from && pair.1 == to || (pair.0 == to && pair.1 == from)) pairs
              ≡ true
            → HasPair pairs from to)
        → HasPair ((a, b) ∷ pairs) from to
    here (inl e) f h rest = inl (inl (both a from b to e))
    here (inr e) (inl f) h rest = inl (inr (both a to b from f))
    here (inr e) (inr f) h rest = inr (rest (rw (e, f) at h))

pub permits-HasPair :
    (policy : RelayPolicy) (from to : Text)
    → permits policy from to ≡ true
    → HasPair policy.pairs from to
unfolding permits
permits-HasPair policy from to h = any-HasPair policy.pairs from to h

-- The zone that a name has in the end is that of a client, or was there before.
abbrev pub Filed : List PeerEntry → List (Text × Text) → List (Text × Text) → Text → Type 0
Filed clients zones out name =
    ((zone : Text) × (lookup name out ≡ some zone)
      × (HasClient clients name zone ⊎ (lookup name zones ≡ some zone)))
    ⊎ (lookup name out ≡ none) × All (λ c. c.name ≢ name) clients × (lookup name zones ≡ none)

Filed-cons :
    (c : PeerEntry) (clients : List PeerEntry) (zones out : List (Text × Text)) (name : Text)
    → Filed clients (insert c.name c.zone zones) out name
    → Filed (c ∷ clients) zones out name
Filed-cons c clients zones out name =
    step (Bool-cases (c.name == name)) (lookup-insert c.name name c.zone zones)
  where
    none_is_not_some : {z : Text} → some z ≡ none → ⊥
    none_is_not_some h = cc

    step :
        ((c.name == name) ≡ true) ⊎ ((c.name == name) ≡ false)
        → lookup name (insert c.name c.zone zones)
          ≡ (if c.name == name then some c.zone else lookup name zones)
        → Filed clients (insert c.name c.zone zones) out name
        → Filed (c ∷ clients) zones out name
    step e found (inl (zone, l, inl has)) = inl (zone, l, inl (inr has))
    step (inl e) found (inl (zone, l, inr old)) =
        inl (zone, l, inl (inl ((==_iff c.name name).0 e, some_inj.0 (sym (rw e at found) ∙ old))))
    step (inr e) found (inl (zone, l, inr old)) = inl (zone, l, inr (sym (rw e at found) ∙ old))
    step (inl e) found (inr (l, others, old)) =
        absurd (none_is_not_some (sym (rw e at found) ∙ old))
    step (inr e) found (inr (l, others, old)) =
        inr (l, (λ q. clash e ((==_iff c.name name).1 q), others), sym (rw e at found) ∙ old)
      where
        clash : {b : Bool} → b ≡ false → b ≡ true → ⊥
        clash p q = cc

pub add_zones-Filed :
    (clients : List PeerEntry) (zones out : List (Text × Text)) (name : Text)
    → add_zones clients zones ≡ pass out
    → Filed clients zones out name
unfolding add_zones
add_zones-Filed [] zones out name h =
    subst (λ out. Filed [] zones out name) (pass_inj h) (step (lookup name zones) refl)
  where
    step : (o : Option Text) → lookup name zones ≡ o → Filed [] zones zones name
    step none e = inr (e, tt, e)
    step (some z) e = inl (z, e, inr e)
add_zones-Filed (c ∷ clients) zones out name h = Filed-cons c clients zones out name (
    add_zones-Filed clients (insert c.name c.zone zones) out name
      (step (is_some (lookup c.name zones)) h))
  where
    step :
        (b : Bool)
        → (if b then fail Error.invalid_peer else add_zones clients (insert c.name c.zone zones))
          ≡ pass out
        → add_zones clients (insert c.name c.zone zones) ≡ pass out
    step true h = absurd (fail_is_not_pass h)
    step false h = h
