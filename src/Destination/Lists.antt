-- ===== src/Destination/Lists.antt =====
-- `Destinations`: a list of destinations without repetitions, its text form, and its changes.
use openportal.Base.{
  List, [], ◌∷◌, ◌++◌, Bool, true, false, ◌==◌, if◌then◌else◌, any, ◌≡◌, refl, arith, ==_iff,
  Bool-cases, inl, inr,
}
use openportal.Destination.{Destination, destination_eq}

pub record Destinations : Type 0 where
  pub destinations : List Destination

abbrev pub holds : List Destination → Destination → Bool
holds ds d = any (λ x. x == d) ds

-- The loop of `Destinations::new`: `unique` is the vector being built.
unfoldable pub new_from : List Destination → List Destination → List Destination
new_from unique [] = unique
new_from unique (d ∷ ds) = new_from (if holds unique d then unique else unique ++ (d ∷ [])) ds

unfoldable pub new : List Destination → Destinations
unfolding new_from
new ds = record { destinations = new_from [] ds }

-- The loop of `add`: the test is against the old list, the push is onto the new one.
unfoldable pub add_from : List Destination → List Destination → List Destination → List Destination
add_from old acc [] = acc
add_from old acc (d ∷ ds) = add_from old (if holds old d then acc else acc ++ (d ∷ [])) ds

unfoldable pub add : Destinations → Destinations → Destinations
unfolding add_from
add self other = record {
  destinations = add_from self.destinations self.destinations other.destinations;
}

-- `position` and `Vec::remove`: the first occurrence goes.
unfoldable pub remove_first : Destination → List Destination → List Destination
remove_first d [] = []
remove_first d (x ∷ xs) = let rest = x ∷ remove_first d xs in if x == d then xs else rest

unfoldable pub remove_from : List Destination → List Destination → List Destination
unfolding remove_first
remove_from acc [] = acc
remove_from acc (d ∷ ds) = remove_from (remove_first d acc) ds

unfoldable pub remove : Destinations → Destinations → Destinations
unfolding remove_from
remove self other = record { destinations = remove_from self.destinations other.destinations }

abbrev pub Distinct : List Destination → Type 0
Distinct [] = Unit
Distinct (x ∷ xs) = (holds xs x ≡ false) × Distinct xs

holds-append :
    (xs ys : List Destination) (d : Destination)
    → holds (xs ++ ys) d ≡ (if holds xs d then true else holds ys d)
holds-append [] ys d = refl
holds-append (x ∷ xs) ys d = ground (arith, holds-append xs ys d)

beq_comm : (a b : Destination) → (a == b) ≡ (b == a)
beq_comm a b = ground (arith, ==_iff a b, ==_iff b a)

Distinct-snoc :
    (xs : List Destination) (d : Destination)
    → Distinct xs
    → holds xs d ≡ false
    → Distinct (xs ++ (d ∷ []))
Distinct-snoc [] d u h = (refl, tt)
Distinct-snoc (x ∷ xs) d u h = (
  ground (arith, holds-append xs (d ∷ []) x, beq_comm x d),
  Distinct-snoc xs d u.1 (ground arith),
)

new_from-Distinct : (acc ds : List Destination) → Distinct acc → Distinct (new_from acc ds)
unfolding new_from
new_from-Distinct acc [] u = u
new_from-Distinct acc (d ∷ ds) u = elim (Bool-cases (holds acc d)) [
  | inl e ↦ rw e (new_from-Distinct acc ds u)
  | inr e ↦ rw e (new_from-Distinct (acc ++ (d ∷ [])) ds (Distinct-snoc acc d u e))
]

new_from-holds :
    (acc ds : List Destination) (x : Destination)
    → holds (new_from acc ds) x ≡ (if holds acc x then true else holds ds x)
unfolding new_from
new_from-holds acc [] x = ground arith
new_from-holds acc (d ∷ ds) x = elim (Bool-cases (holds acc d)) [
  | inl e ↦ rw e (ground (arith, new_from-holds acc ds x, ==_iff d x))
  | inr e ↦
      rw e (ground (arith, new_from-holds (acc ++ (d ∷ [])) ds x, holds-append acc (d ∷ []) x))
]

-- `Destinations::new` keeps exactly the destinations that it is given, each of them once.
pub new-Distinct :
    (ds : List Destination)
    → Distinct (new ds).destinations
      × ((x : Destination) → holds (new ds).destinations x ≡ holds ds x)
unfolding new
new-Distinct ds = (new_from-Distinct [] ds tt, λ x. new_from-holds [] ds x)

remove_first-holds :
    (d x : Destination) (xs : List Destination)
    → Distinct xs
    → holds (remove_first d xs) x ≡ (if d == x then false else holds xs x)
unfolding remove_first
remove_first-holds d x [] u = ground arith
remove_first-holds d x (y ∷ xs) u =
    ground (arith, remove_first-holds d x xs u.1, ==_iff y d, ==_iff y x, ==_iff d x)

holds-remove_first-false :
    (d x : Destination) (xs : List Destination)
    → holds xs x ≡ false
    → holds (remove_first d xs) x ≡ false
unfolding remove_first
holds-remove_first-false d x [] h = refl
holds-remove_first-false d x (y ∷ xs) h = ground (arith, holds-remove_first-false d x xs)

remove_first-Distinct :
    (d : Destination) (xs : List Destination) → Distinct xs → Distinct (remove_first d xs)
unfolding remove_first
remove_first-Distinct d [] u = tt
remove_first-Distinct d (y ∷ xs) u = elim (Bool-cases (y == d)) [
  | inl e ↦ rw e u.1
  | inr e ↦ rw e (holds-remove_first-false d y xs u.0, remove_first-Distinct d xs u.1)
]

remove_from_lem :
    (acc ds : List Destination)
    → Distinct acc
    → Distinct (remove_from acc ds)
      × ((x : Destination)
          → holds (remove_from acc ds) x ≡ (if holds ds x then false else holds acc x))
unfolding remove_from
remove_from_lem acc [] u = (u, λ x. refl)
remove_from_lem acc (d ∷ ds) u =
    let (u', ih) = remove_from_lem (remove_first d acc) ds (remove_first-Distinct d acc u) in
    (u', λ x. ground (arith, ih x, remove_first-holds d x acc u))

-- From a list without repetitions `remove` takes away exactly the destinations of the other list,
-- and leaves no repetition.
pub remove-holds :
    (self other : Destinations)
    → Distinct self.destinations
    → Distinct (remove self other).destinations
      × ((x : Destination)
          → holds (remove self other).destinations x
            ≡ (if holds other.destinations x then false else holds self.destinations x))
unfolding remove
remove-holds self other u = remove_from_lem self.destinations other.destinations u
