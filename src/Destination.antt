-- ===== src/Destination.antt =====
-- templemeads/src/destination.rs: a destination is the path of agents that a job travels, written
-- `a.b.c`. The children prove what parsing and `position` guarantee.
use openportal.Base.{
  ℕ, zero, suc, ◌+◌, ◌-◌, List, [], ◌∷◌, ◌++◌, Bool, true, false, not, Option, none, some, Eq, ◌==◌,
  list_eq, nat_eq, if◌then◌else◌, length, get_elem?, filter, any, nat_beq, leb, ◌≡◌, ◌↔◌, arith,
  ==_iff,
}
use openportal.Base.Text.{
  Text, period, comma, is_whitespace, split, join, trim, strip_prefix, strip_suffix,
}
use openportal.Error
use openportal.Error.{Result, ok, err, ◌>>=◌, ◌>>◌, guard}
use mathlib.Core.List.{reverse}
use mathlib.Core.Option
pub mod Parse
pub mod Hops
pub mod Lists
mod Tests

pub record Destination : Type 0 where
  pub agents : List Text

pub data Position : Type 0 where
  upstream downstream destination error : Position

abbrev pub is_empty {ℓ} : {A : Type ℓ} → List A → Bool
is_empty [] = true
is_empty (x ∷ xs) = false

unfoldable pub has_whitespace : Text → Bool
has_whitespace agent = any is_whitespace agent

abbrev pub nonempty_pieces : Text → List Text
nonempty_pieces s = filter (λ w. not (is_empty w)) (split period s)

-- `Destination::parse`
unfoldable pub parse : Text → Result Destination
parse s =
    let agents = nonempty_pieces s in
    if any has_whitespace agents
    then err Error.parse
    else if leb (length agents) 1
    then err Error.parse
    else ok (record { agents = agents })

-- `Display for Destination`
unfoldable pub display : Destination → Text
display d = join period d.agents

-- `iter().position(|c| c == agent)`
unfoldable pub index_of : Text → List Text → Option ℕ
index_of agent [] = none
index_of agent (c ∷ cs) =
    let rest = Option.map suc (index_of agent cs) in if c == agent then some 0 else rest

-- The two `let`s and the `match` of `position_internal`, on the indices and the path's length.
unfoldable pub place : ℕ → ℕ → ℕ → Position
place len agent_index previous_index =
    if nat_beq (previous_index + 1) agent_index
    then (if nat_beq (agent_index + 1) len then destination else downstream)
    else if nat_beq (agent_index + 1) previous_index
    then upstream
    else error

unfoldable pub position_internal : Destination → Text → Text → Position
unfolding place
position_internal d agent previous = elim (index_of agent d.agents) [
  | none ↦ error
  | some i ↦ elim (index_of previous d.agents) [
    | none ↦ error
    | some j ↦ place (length d.agents) i j
  ]
]

unfoldable pub position : Destination → Text → Text → Position
unfolding position_internal
position d agent previous =
    if any (λ c. c == previous) d.agents then position_internal d agent previous else error

abbrev pub checked_sub : ℕ → ℕ → Option ℕ
checked_sub i k = if leb k i then some (i - k) else none

unfoldable pub next : Destination → Text → Option Text
next d agent = elim (index_of agent d.agents) [ none ↦ none | some i ↦ get_elem? d.agents (i + 1) ]

unfoldable pub previous : Destination → Text → Option Text
previous d agent = elim (index_of agent d.agents) [
  | none ↦ none
  | some i ↦ elim (checked_sub i 1) [ none ↦ none | some j ↦ get_elem? d.agents j ]
]

abbrev pub unwrap_or_empty : Option Text → Text
unwrap_or_empty none = []
unwrap_or_empty (some w) = w

unfoldable pub first : Destination → Text
first d = unwrap_or_empty (get_elem? d.agents 0)

unfoldable pub second : Destination → Text
second d = unwrap_or_empty (get_elem? d.agents 1)

abbrev pub last_elem : List Text → Option Text
last_elem [] = none
last_elem (x ∷ []) = some x
last_elem (x ∷ y ∷ xs) = last_elem (y ∷ xs)

unfoldable pub last : Destination → Text
last d = unwrap_or_empty (last_elem d.agents)

unfoldable pub reverse_path : Destination → Destination
reverse_path d = record { agents = reverse d.agents }

unfoldable pub destination_beq : Destination → Destination → Bool
destination_beq a b = a.agents == b.agents

pub destination_beq_iff : (a b : Destination) → (destination_beq a b ≡ true) ↔ (a ≡ b)
unfolding destination_beq
destination_beq_iff a b = ground (arith, ==_iff a.agents b.agents)

instance abbrev pub destination_eq : Eq Destination
destination_eq = record { beq = destination_beq; beq_iff = destination_beq_iff }
