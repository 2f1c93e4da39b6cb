-- ===== src/Base/Text/Defs.antt =====
-- The operations of `str` and `char` that the program calls, on code points.
use Prim.Native.Char.{code}
use Prim.Native.String.{String}
use mathlib.Core.List.{List, [], ◌∷◌, ◌++◌, reverse}
use mathlib.Core.Bool.{Bool, false, ◌&&◌, ◌||◌}
use mathlib.Core.Option.{Option, none, some}
use Prim.Native.Nat.{ℕ}
use openportal.Base.Tests.{nat_beq, leb, if◌then◌else◌}

abbrev pub Text : Type 0
Text = List ℕ

abbrev pub text : String → Text
text String.[] = []
text (String.◌∷◌ c s) = code c ∷ text s

abbrev pub period : ℕ
period = b'.'

abbrev pub comma : ℕ
comma = b','

abbrev pub dash : ℕ
dash = b'-'

abbrev pub at_sign : ℕ
at_sign = b'@'

-- `char::is_whitespace`: the code points with the Unicode property White_Space.
unfoldable pub is_whitespace : ℕ → Bool
is_whitespace c =
    (leb 0x9 c && leb c 0xd)
    || nat_beq c 0x20
    || nat_beq c 0x85
    || nat_beq c 0xa0
    || nat_beq c 0x1680
    || (leb 0x2000 c && leb c 0x200a)
    || nat_beq c 0x2028
    || nat_beq c 0x2029
    || nat_beq c 0x202f
    || nat_beq c 0x205f
    || nat_beq c 0x3000

-- `s.contains(c)` for a character.
unfoldable pub contains : ℕ → Text → Bool
contains c [] = false
contains c (x ∷ s) = nat_beq x c || contains c s

abbrev pub push_head : ℕ → List Text → List Text
push_head c [] = (c ∷ []) ∷ []
push_head c (w ∷ ws) = (c ∷ w) ∷ ws

-- `s.split(sep)`: always at least one piece, pieces may be empty.
unfoldable pub split : ℕ → Text → List Text
split sep [] = [] ∷ []
split sep (c ∷ s) = let rest = split sep s in if nat_beq c sep then [] ∷ rest else push_head c rest

-- `words.join(sep)` for a separator of one character.
unfoldable pub join : ℕ → List Text → Text
join sep [] = []
join sep (w ∷ []) = w
join sep (w ∷ v ∷ ws) = w ++ (sep ∷ join sep (v ∷ ws))

unfoldable pub trim_start : Text → Text
trim_start [] = []
trim_start (c ∷ s) = let rest = trim_start s in if is_whitespace c then rest else c ∷ s

-- `s.trim()`
unfoldable pub trim : Text → Text
trim s = reverse (trim_start (reverse (trim_start s)))

unfoldable pub starts_with : ℕ → Text → Bool
starts_with c [] = false
starts_with c (x ∷ s) = nat_beq x c

unfoldable pub ends_with : ℕ → Text → Bool
ends_with c [] = false
ends_with c (x ∷ []) = nat_beq x c
ends_with c (x ∷ y ∷ s) = ends_with c (y ∷ s)

unfoldable pub strip_prefix : ℕ → Text → Option Text
strip_prefix c [] = none
strip_prefix c (x ∷ s) = if nat_beq x c then some s else none

unfoldable pub strip_suffix : ℕ → Text → Option Text
unfolding strip_prefix
strip_suffix c s = elim (strip_prefix c (reverse s)) [ none ↦ none | some r ↦ some (reverse r) ]

abbrev flush : Text → List Text → List Text
flush [] ws = ws
flush (c ∷ w) ws = (c ∷ w) ∷ ws

-- The word that a text begins with and the words after it, for `split_whitespace`.
abbrev words_step : ℕ → Text × List Text → Text × List Text
words_step c (w, ws) = if is_whitespace c then ([], flush w ws) else (c ∷ w, ws)

words_from : Text → Text × List Text
words_from [] = ([], [])
words_from (c ∷ s) = words_step c (words_from s)

-- `s.split_whitespace()`
unfoldable pub split_words : Text → List Text
unfolding words_from
split_words s = let (w, ws) = words_from s in flush w ws
