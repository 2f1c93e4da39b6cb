-- ===== src/Destination/Parse.antt =====
-- Parsing a destination: what an accepted path looks like, and that printing it loses nothing.
use openportal.Base.{
  ◌≤◌, List, [], ◌∷◌, true, false, not, inl, inr, length, any, All, All-and, All-map, All-filter,
  All-filter_of, filter_of_All, All-of_any, any_of_All, Bool-cases, eq_false_of_not, ◌≡◌, refl,
  arith,
}
use openportal.Base.Text.{Text, period, contains, split, join, split-join, split-All}
use openportal.Error.{ok}
use openportal.Destination.{Destination, is_empty, has_whitespace, nonempty_pieces, parse, display}

-- An agent name that parsing keeps: not empty, and with no separator and no white space in it.
abbrev pub IsAgentName : Text → Type 0
IsAgentName w = (is_empty w ≡ false) × (contains period w ≡ false) × (has_whitespace w ≡ false)

pub record IsPath (d : Destination) : Type 0 where
  pub two_agents : 2 ≤ length d.agents
  pub names : All IsAgentName d.agents

nonempty_pieces-names :
    (s : Text)
    → any has_whitespace (nonempty_pieces s) ≡ false
    → All IsAgentName (nonempty_pieces s)
nonempty_pieces-names s h =
    let ps = nonempty_pieces s in
    let nonempty : All (λ w. is_empty w ≡ false) ps =
      All-map (λ w. not (is_empty w) ≡ true) (λ w. is_empty w ≡ false) ps
        (λ w e. eq_false_of_not _ e) (All-filter (λ w. not (is_empty w)) (split period s)) in
    let unsplit : All (λ w. contains period w ≡ false) ps =
      All-filter_of (λ w. contains period w ≡ false) _ (split period s) (split-All period s) in
    let unspaced : All (λ w. has_whitespace w ≡ false) ps = All-of_any has_whitespace ps h in
    All-map (λ w. (is_empty w ≡ false) × ((contains period w ≡ false) × (has_whitespace w ≡ false)))
      IsAgentName ps (λ w e. (e.0, e.1.0, e.1.1))
      (All-and _ _ ps nonempty (All-and _ _ ps unsplit unspaced))

pub parse-IsPath : (s : Text) {d : Destination} → parse s ≡ ok d → IsPath d
unfolding parse
parse-IsPath s {d} h = elim (Bool-cases (any has_whitespace (nonempty_pieces s))) [
  | inl bad ↦ absurd (ground arith)
  | inr fine ↦
      let e : d.agents ≡ nonempty_pieces s = ground arith in
      record { two_agents = ground arith; names = rw e (nonempty_pieces-names s fine) }
]

pub nonempty_pieces-display : (d : Destination) → IsPath d → nonempty_pieces (display d) ≡ d.agents
unfolding display join
nonempty_pieces-display d h = go d.agents h.two_agents h.names
  where
    go :
        (ws : List Text)
        → 2 ≤ length ws
        → All IsAgentName ws
        → nonempty_pieces (join period ws) ≡ ws
    go [] n k = absurd (omega arith)
    go (w ∷ ws) n k = rw (split-join period w ws (All-map IsAgentName _ (w ∷ ws) (λ v e. e.1) k)) (
        filter_of_All _ (w ∷ ws)
          (All-map IsAgentName (λ v. not (is_empty v) ≡ true) (w ∷ ws) (λ v e. rw e.0 refl) k))

-- A path with well formed names is read back from its printed form.
pub parse-display : (d : Destination) → IsPath d → parse (display d) ≡ ok d
unfolding parse
parse-display d h =
    let unspaced : any has_whitespace d.agents ≡ false =
      any_of_All has_whitespace d.agents (All-map IsAgentName _ d.agents (λ v e. e.2) h.names) in
    rw (nonempty_pieces-display d h) (ground (arith, h.two_agents))

-- When `parse` accepts a text, the path has at least two agents, whose names are not empty and
-- hold no `.` and no white space, and parsing its printed form gives the same path again.
pub parse-display-parse :
    (s : Text) {d : Destination} → parse s ≡ ok d → IsPath d × (parse (display d) ≡ ok d)
parse-display-parse s {d} h = (parse-IsPath s h, parse-display d (parse-IsPath s h))
