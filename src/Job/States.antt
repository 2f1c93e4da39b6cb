-- ===== src/Job/States.antt =====
-- templemeads/src/job.rs, `Status`: the states of a job and their names.
use openportal.Base.{
  Bool, true, false, Eq, ◌==◌, ==_iff, nat_eq, list_eq, if◌then◌else◌, Bool-cases, inl, inr, ◌≡◌,
  ◌↔◌, refl,
}
use openportal.Base.Text.{Text, text}
use mathlib.Core.Path.{subst, sym, ◌∙◌}
use openportal.Error
use openportal.Error.{Result, ok, err, ok_inj}

pub data Status : Type 0 where
  created pending running complete error duplicate : Status

-- `Display for Status`
unfoldable pub display : Status → Text
display created = text "created"
display pending = text "pending"
display running = text "running"
display complete = text "complete"
display error = text "error"
display duplicate = text "duplicate"

-- `FromStr for Status`
unfoldable pub parse : Text → Result Status
parse s =
    if s == text "created"
    then ok created
    else if s == text "pending"
    then ok pending
    else if s == text "running"
    then ok running
    else if s == text "complete"
    then ok complete
    else if s == text "error"
    then ok error
    else if s == text "duplicate"
    then ok duplicate
    else err Error.parse

-- `==` of statuses
unfoldable pub status_beq : Status → Status → Bool
status_beq created created = true
status_beq pending pending = true
status_beq running running = true
status_beq complete complete = true
status_beq error error = true
status_beq duplicate duplicate = true
status_beq _ _ = false

parse-display : (s : Status) → parse (display s) ≡ ok s
unfolding parse display
parse-display created = refl
parse-display pending = refl
parse-display running = refl
parse-display complete = refl
parse-display error = refl
parse-display duplicate = refl

-- One arm of the match: it is taken, or the rest decides.
parse_arm :
    (s v : Status) (t name : Text) (rest : Result Status)
    → display v ≡ name
    → (rest ≡ ok s → display s ≡ t)
    → (if t == name then ok v else rest) ≡ ok s
    → display s ≡ t
parse_arm s v t name rest e k h = elim (Bool-cases (t == name)) [
  | inl y ↦ taken y
  | inr n ↦ k (subst (λ b. (if b then ok v else rest) ≡ ok s) n h)
]
  where
    taken : (t == name) ≡ true → display s ≡ t
    taken y =
        subst (λ u. display u ≡ t) (ok_inj (subst (λ b. (if b then ok v else rest) ≡ ok s) y h))
          (e ∙ sym ((==_iff t name).0 y))

display-parse : (s : Status) (t : Text) → parse t ≡ ok s → display s ≡ t
unfolding parse display
display-parse s t h =
    parse_arm s created t _ _ refl
      (parse_arm s pending t _ _ refl (
        parse_arm s running t _ _ refl (
          parse_arm s complete t _ _ refl
            (parse_arm s error t _ _ refl (parse_arm s duplicate t _ _ refl λ e. cc)))))
      h

-- The names of the states and nothing else are read, each as its state.
pub status-parse-display : (s : Status) (t : Text) → (parse t ≡ ok s) ↔ (display s ≡ t)
status-parse-display s t = (display-parse s t, λ e. subst (λ u. parse u ≡ ok s) e (parse-display s))

status_beq_refl : (s : Status) → status_beq s s ≡ true
unfolding status_beq
status_beq_refl created = refl
status_beq_refl pending = refl
status_beq_refl running = refl
status_beq_refl complete = refl
status_beq_refl error = refl
status_beq_refl duplicate = refl

status_beq_sound : (s t : Status) → status_beq s t ≡ true → s ≡ t
unfolding status_beq
status_beq_sound created created h = refl
status_beq_sound pending pending h = refl
status_beq_sound running running h = refl
status_beq_sound complete complete h = refl
status_beq_sound error error h = refl
status_beq_sound duplicate duplicate h = refl
status_beq_sound _ _ h = cc

pub status_beq_iff : (s t : Status) → (status_beq s t ≡ true) ↔ (s ≡ t)
status_beq_iff s t =
    (status_beq_sound s t, λ e. subst (λ u. status_beq s u ≡ true) e (status_beq_refl s))

instance abbrev pub status_eq : Eq Status
status_eq = record { beq = status_beq; beq_iff = status_beq_iff }
