-- ===== src/Base/Assoc.antt =====
-- A `HashMap` as an association list. The order of the list stands for the iteration order, of which
-- nothing is assumed: the theorems hold for every list.
use openportal.Base.Tests.{if◌then◌else◌, is_some, Bool-cases, OnSome, if_elim}
use openportal.Base.Equality.{Eq, ◌==◌, ==_iff}
use openportal.Base.Lists.{length, any, All}
use mathlib.Core.List.{List, [], ◌∷◌}
use mathlib.Core.Bool.{Bool, true, false}
use mathlib.Core.Option.{Option, none, some, some_inj}
use mathlib.Core.Path.{◌≡◌, refl, subst, ap₂}
use mathlib.Core.Logic.{◌⊎◌, inl, inr}
use Prim.Native.Nat.{suc, ◌≤◌}
use native.Mathlib.Omega.{arith}

module _ {ℓ κ} {K : Type ℓ} {V : Type κ} ⦃e : Eq K⦄ where
  -- `get`
  unfoldable pub lookup : K → List (K × V) → Option V
  lookup key [] = none
  lookup key ((other, value) ∷ rest) = if other == key then some value else lookup key rest

  -- `insert`, and the write through `get_mut`: an entry is replaced where it stands.
  unfoldable pub insert : K → V → List (K × V) → List (K × V)
  insert key value [] = (key, value) ∷ []
  insert key value ((other, old) ∷ rest) =
      let later = (other, old) ∷ insert key value rest in
      if other == key then (key, value) ∷ rest else later

  -- `remove`
  unfoldable pub remove : K → List (K × V) → List (K × V)
  remove k [] = []
  remove k ((j, w) ∷ m) = let rest = remove k m in if j == k then rest else (j, w) ∷ rest

  pub lookup-insert :
      (key other : K) (value : V) (entries : List (K × V))
      → lookup other (insert key value entries)
        ≡ (if key == other then some value else lookup other entries)
  unfolding lookup insert
  lookup-insert key other value [] = refl
  lookup-insert key other value ((i, w) ∷ rest) =
      ground
        (arith, ==_iff key other, ==_iff i key, ==_iff i other, lookup-insert key other value rest)

  pub lookup-remove :
      (k j : K) (m : List (K × V)) → lookup j (remove k m) ≡ (if k == j then none else lookup j m)
  unfolding lookup remove
  lookup-remove k j [] = ground arith
  lookup-remove k j ((i, w) ∷ m) =
      ground (arith, ==_iff k j, ==_iff i k, ==_iff i j, lookup-remove k j m)

  pub length-remove-le : (k : K) (m : List (K × V)) → length (remove k m) ≤ length m
  unfolding remove
  length-remove-le k [] = omega arith
  length-remove-le k ((i, w) ∷ m) = ground (arith, length-remove-le k m)

  -- A new key makes the map one longer, a known key does not.
  pub length-insert :
      (k : K) (v : V) (m : List (K × V))
      → length (insert k v m) ≡ (if is_some (lookup k m) then length m else suc (length m))
  unfolding lookup insert
  length-insert k v [] = refl
  length-insert k v ((i, w) ∷ m) = ground (arith, length-insert k v m)

  pub insert-All {μ} :
      (P : K × V → Type μ) (k : K) (v : V) (m : List (K × V))
      → P (k, v)
      → All P m
      → All P (insert k v m)
  unfolding insert
  insert-All P k v [] h a = (h, tt)
  insert-All P k v ((j, w) ∷ m) h a = elim (Bool-cases (j == k)) [
    | inl q ↦ rw q (h, a.1)
    | inr q ↦ rw q (a.0, insert-All P k v m h a.1)
  ]

  pub remove-All {μ} :
      (P : K × V → Type μ) (k : K) (m : List (K × V)) → All P m → All P (remove k m)
  unfolding remove
  remove-All P k [] a = a
  remove-All P k ((j, w) ∷ m) a = elim (Bool-cases (j == k)) [
    | inl q ↦ rw q (remove-All P k m a.1)
    | inr q ↦ rw q (a.0, remove-All P k m a.1)
  ]

  -- `contains_key`
  unfoldable pub has_key : K → List (K × V) → Bool
  has_key k m = any (λ e. e.0 == k) m

  pub has_key-lookup : (k : K) (m : List (K × V)) → has_key k m ≡ is_some (lookup k m)
  unfolding has_key lookup
  has_key-lookup k [] = refl
  has_key-lookup k ((i, w) ∷ m) = ground (arith, has_key-lookup k m)

  -- What holds of every entry holds of the one that is found.
  pub lookup-All {μ} :
      (P : K × V → Type μ) (k : K) (m : List (K × V)) {v : V}
      → All P m
      → lookup k m ≡ some v
      → P (k, v)
  unfolding lookup
  lookup-All P k [] a h = cc
  lookup-All P k ((j, w) ∷ m) {v = v} a h = step (Bool-cases (j == k)) (lookup-All P k m a.1)
    where
      chosen : (b : Bool) → (j == k) ≡ b → (if b then some w else lookup k m) ≡ some v
      chosen b e = subst (λ b. (if b then some w else lookup k m) ≡ some v) e h

      step : ((j == k) ≡ true) ⊎ ((j == k) ≡ false) → (lookup k m ≡ some v → P (k, v)) → P (k, v)
      step (inl y) r =
          subst P (ap₂ (λ a b. (a, b)) ((==_iff j k).0 y) (some_inj.0 (chosen true y))) a.0
      step (inr n) r = r (chosen false n)

  -- The other entries are left.
  pub remove-others {μ} :
      (P : K × V → Type μ) (k : K) (m : List (K × V))
      → All P m
      → All (λ e. P e × ((e.0 == k) ≡ false)) (remove k m)
  unfolding remove
  remove-others P k [] a = tt
  remove-others P k ((j, w) ∷ m) a = elim (Bool-cases (j == k)) [
    | inl q ↦ rw q (remove-others P k m a.1)
    | inr q ↦ rw q ((a.0, q), remove-others P k m a.1)
  ]

  -- What holds of the entry of a key, if there is one, after another entry is written or removed.
  pub OnSome-insert :
      (P : V → Type 0) (k j : K) (v : V) (m : List (K × V))
      → (k ≡ j → P v)
      → OnSome P (lookup j m)
      → OnSome P (lookup j (insert k v m))
  OnSome-insert P k j v m new old = rw (lookup-insert k j v m) (step (Bool-cases (k == j)))
    where
      step :
          ((k == j) ≡ true) ⊎ ((k == j) ≡ false) → OnSome P (if k == j then some v else lookup j m)
      step (inl e) = rw e (new ((==_iff k j).0 e))
      step (inr e) = rw e old

  pub OnSome-remove :
      (P : V → Type 0) (k j : K) (m : List (K × V))
      → OnSome P (lookup j m)
      → OnSome P (lookup j (remove k m))
  OnSome-remove P k j m old = rw (lookup-remove k j m) (if_elim (OnSome P) (k == j) tt old)
