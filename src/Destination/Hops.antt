-- ===== src/Destination/Hops.antt =====
-- `position` against the neighbours of an agent in its path: the check that ties a job's claimed
-- route to the peer that delivered it.
use openportal.Base.{
  ℕ, zero, suc, ◌+◌, ◌<◌, List, [], ◌∷◌, Bool, true, false, none, some, ◌==◌, nat_eq, list_eq,
  option_eq, ==_iff, ==_refl, if◌then◌else◌, length, get_elem?, any, nat_beq, is_some, Bool-cases,
  Option-cases, inl, inr, ◌≡◌, refl, arith, sym, ◌∙◌, ◌≢◌, ◌⊎◌,
}
use openportal.Base.Text.{Text}
use openportal.Destination.{
  Destination, Position, upstream, downstream, destination, error, index_of, place, position, next,
  previous,
}

abbrev pub is_in : Text → List Text → Bool
is_in a l = any (λ c. c == a) l

-- No agent stands twice on the path.
abbrev pub Distinct : List Text → Type 0
Distinct [] = Unit
Distinct (x ∷ xs) = (is_in x xs ≡ false) × Distinct xs

pub index_of-get :
    (a : Text) (l : List Text) (i : ℕ) → index_of a l ≡ some i → get_elem? l i ≡ some a
unfolding index_of
index_of-get a [] i h = cc
index_of-get a (c ∷ l) zero h = ground (arith, ==_iff c a)
index_of-get a (c ∷ l) (suc i) h = elim (Option-cases (index_of a l)) [
  | inl e ↦ absurd (ground arith)
  | inr (j, e) ↦ let k : j ≡ i = ground arith in index_of-get a l i (ground arith)
]

pub index_of-lt : (a : Text) (l : List Text) (i : ℕ) → index_of a l ≡ some i → i < length l
unfolding index_of
index_of-lt a [] i h = absurd (ground arith)
index_of-lt a (c ∷ l) zero h = omega arith
index_of-lt a (c ∷ l) (suc i) h = elim (Option-cases (index_of a l)) [
  | inl e ↦ absurd (ground arith)
  | inr (j, e) ↦ let k : i < length l = index_of-lt a l i (ground arith) in omega arith
]

pub is_in-index_of : (a : Text) (l : List Text) → is_in a l ≡ is_some (index_of a l)
unfolding index_of
is_in-index_of a [] = refl
is_in-index_of a (c ∷ l) = ground (arith, is_in-index_of a l)

is_in_of_get : (a : Text) (l : List Text) (i : ℕ) → get_elem? l i ≡ some a → is_in a l ≡ true
is_in_of_get a [] i h = cc
is_in_of_get a (c ∷ l) zero h = ground (arith, ==_iff c a)
is_in_of_get a (c ∷ l) (suc i) h = ground (arith, is_in_of_get a l i h)

-- On a path with no agent twice the index of an agent is the only place where it stands.
pub index_of_unique :
    (a : Text) (l : List Text) (i : ℕ) → Distinct l → get_elem? l i ≡ some a → index_of a l ≡ some i
unfolding index_of
index_of_unique a [] i d h = cc
index_of_unique a (c ∷ l) zero d h = ground (arith, ==_iff c a)
index_of_unique a (c ∷ l) (suc i) d h =
    ground (arith, ==_iff c a, is_in_of_get a l i h, index_of_unique a l i d.1 h)

get_iff_lt : (l : List Text) (i : ℕ) → is_some (get_elem? l i) ≡ true → i < length l
get_iff_lt [] i h = cc
get_iff_lt (c ∷ l) zero h = omega arith
get_iff_lt (c ∷ l) (suc i) h = let k = get_iff_lt l i h in omega arith

is_some-get : (l : List Text) (i : ℕ) → i < length l → is_some (get_elem? l i) ≡ true
is_some-get [] i h = elim h [ ]
is_some-get (c ∷ l) zero h = refl
is_some-get (c ∷ l) (suc i) h = is_some-get l i (omega arith)

get-beq-index :
    (a : Text) (l : List Text) (i k : ℕ)
    → Distinct l
    → index_of a l ≡ some i
    → (get_elem? l k == some a) ≡ nat_beq k i
get-beq-index a l i k d h = elim (Bool-cases (nat_beq k i)) [
  | inl e ↦
      let same : k ≡ i = ground arith in
      rw same (ground (arith, index_of-get a l i h, ==_refl (some a)))
  | inr e ↦ elim (Bool-cases (get_elem? l k == some a)) [
    | inl f ↦
        absurd (ground (arith, index_of_unique a l k d ((==_iff (get_elem? l k) (some a)).0 f)))
    | inr f ↦ rw (e, f)
  ]
]

-- What `position` is meant to tell, by the neighbours of an agent: the job comes from the agent
-- before us (and we are the last or not), or from the agent after us, or from neither.
pub hop_spec : Destination → Text → Text → Position
hop_spec d agent previous =
    if next d previous == some agent
    then (if is_some (next d agent) then downstream else destination)
    else if next d agent == some previous
    then upstream
    else error

is_some-index :
    (a : Text) (l : List Text) (i : ℕ) → (get_elem? l i ≡ some a) → is_some (index_of a l) ≡ true
is_some-index a l i h = sym (is_in-index_of a l) ∙ is_in_of_get a l i h

get-beq_absent :
    (a : Text) (l : List Text) (k : ℕ) → index_of a l ≡ none → (get_elem? l k == some a) ≡ false
get-beq_absent a l k h = elim (Bool-cases (get_elem? l k == some a)) [
  | inl f ↦ absurd (ground (arith, is_some-index a l k ((==_iff (get_elem? l k) (some a)).0 f)))
  | inr f ↦ f
]

is_some-get_lt :
    (l : List Text) (i : ℕ)
    → i < length l
    → is_some (get_elem? l (i + 1)) ≡ (if nat_beq (i + 1) (length l) then false else true)
is_some-get_lt l i h = elim (Bool-cases (is_some (get_elem? l (i + 1)))) [
  | inl e ↦ ground (arith, get_iff_lt l (i + 1) e)
  | inr e ↦ ground (arith, is_some-get l (i + 1))
]

place-neighbours :
    (a p : Text) (l : List Text) (i j : ℕ)
    → Distinct l
    → index_of a l ≡ some i
    → index_of p l ≡ some j
    → place (length l) i j ≡ (
        if get_elem? l (j + 1) == some a
        then (if is_some (get_elem? l (i + 1)) then downstream else destination)
        else if get_elem? l (i + 1) == some p
        then upstream
        else error)
unfolding place
place-neighbours a p l i j d ha hp =
    rw
      (
        get-beq-index a l i (j + 1) d ha,
        get-beq-index p l j (i + 1) d hp,
        is_some-get_lt l i (index_of-lt a l i ha),
      )
      (ground arith)

-- On a path that names no agent twice, `position` answers exactly by the neighbours: `downstream`
-- or `destination` when the sender is the agent before us, as there is an agent after us or not,
-- `upstream` when the sender is the agent after us, and `error` for every other sender.
pub position-hop_spec :
    (d : Destination) (agent sender : Text)
    → Distinct d.agents
    → position d agent sender ≡ hop_spec d agent sender
unfolding position hop_spec next
position-hop_spec d agent sender u = elim (Option-cases (index_of sender d.agents)) [
  | inl q ↦ elim (Option-cases (index_of agent d.agents)) [
    | inl h ↦ ground (arith, is_in-index_of sender d.agents)
    | inr (i, h) ↦
        ground (arith, is_in-index_of sender d.agents, get-beq_absent sender d.agents (i + 1) q)
  ]
  | inr (j, q) ↦ elim (Option-cases (index_of agent d.agents)) [
    | inl h ↦
        ground (arith, is_in-index_of sender d.agents, get-beq_absent agent d.agents (j + 1) h)
    | inr (i, h) ↦
        ground
          (arith, is_in-index_of sender d.agents, place-neighbours agent sender d.agents i j u h q)
  ]
]

place_downstream : (n i j : ℕ) → place n i j ≢ error → place n i j ≢ upstream → i ≡ j + 1
unfolding place
place_downstream n i j h k = ground arith

place_upstream : (n i j : ℕ) → place n i j ≡ upstream → j ≡ i + 1
unfolding place
place_upstream n i j h = ground arith

-- On every path, also one that repeats an agent: a job that `position` accepts was delivered by the
-- agent that stands directly before us on the path, or, travelling back up, directly after us.
pub position_adjacent :
    (d : Destination) (agent sender : Text)
    → position d agent sender ≢ error
    → (position d agent sender ≡ upstream)
        × (next d agent ≡ some sender)
        × (previous d sender ≡ some agent)
      ⊎ (position d agent sender ≢ upstream)
        × (next d sender ≡ some agent)
        × (previous d agent ≡ some sender)
unfolding position next previous
position_adjacent d agent sender h = elim (Option-cases (index_of sender d.agents)) [
  | inl q ↦ absurd (ground (arith, is_in-index_of sender d.agents))
  | inr (j, q) ↦ elim (Option-cases (index_of agent d.agents)) [
    | inl e ↦ absurd (ground arith)
    | inr (i, e) ↦ ground (
      arith,
      index_of-get sender d.agents j q,
      index_of-get agent d.agents i e,
      place_downstream (length d.agents) i j,
      place_upstream (length d.agents) i j,
    )
  ]
]
