-- ===== src/Validate/Names.antt =====
-- Identifier components and mapping targets: what an accepted name cannot hold.
use openportal.Base.{
  ℕ, ◌≤◌, [], ◌∷◌, Bool, true, false, not, ◌||◌, any, leb, length, All, All-of_all, eq_false_of_not,
  ◌≡◌, refl, arith,
}
use openportal.Base.Text.{
  Text, text, period, dash, contains, starts_with, ends_with, is_whitespace, contains_of_any,
  any_weaken,
}
use openportal.Error.{ok, guard-eq-ok, >>=-eq-ok}
use openportal.Validate.{
  byte_len, is_empty, is_bad_char, validate_component, validate_identifier_component, contains_pair,
  validate_mapping_target,
}

-- Characters that mean something to a shell, a path, a URL, a `key=value` list or an instruction.
abbrev pub hazardous : Text
hazardous = text "/\\ ,=%?#@:;&|<>*$!'\"`()[]{}~^+"

abbrev pub IsUnspaced : Text → Type 0
IsUnspaced v = any is_whitespace v ≡ false

pub record IsSafeName (v : Text) : Type 0 where
  pub nonempty : 1 ≤ length v
  pub short : length v ≤ 64
  pub not_option : starts_with dash v ≡ false
  pub no_space : IsUnspaced v
  pub no_hazard : All (λ c. contains c v ≡ false) hazardous

-- A safe name that may be used as one component of a path: neither `.` nor `..`, and no `..` in it.
pub record IsSafeTarget (v : Text) : Type 0 where
  pub name : IsSafeName v
  pub not_dot : starts_with period v ≡ false
  pub not_dot_end : ends_with period v ≡ false
  pub no_parent : contains_pair period v ≡ false

pub length-byte_len : (v : Text) → length v ≤ byte_len v
unfolding byte_len
length-byte_len [] = omega arith
length-byte_len (c ∷ v) = ground (arith, length-byte_len v)

-- The allowed characters lie between `-` and `z`.
bad_range : (p : Bool) (c : ℕ) → is_bad_char p c ≡ false → (45 ≤ c) × (c ≤ 122)
unfolding is_bad_char
bad_range p c h = ground arith

pub unspaced_range : (c : ℕ) → 33 ≤ c → c ≤ 132 → is_whitespace c ≡ false
unfolding is_whitespace
unspaced_range c h k = ground arith

unspaced_of_bad : (p : Bool) (c : ℕ) → is_bad_char p c ≡ false → is_whitespace c ≡ false
unspaced_of_bad p c h =
    let (low, high) = bad_range p c h in unspaced_range c (omega arith) (omega arith)

hazards_bad : (p : Bool) → All (λ c. is_bad_char p c ≡ true) hazardous
unfolding is_bad_char
hazards_bad true = All-of_all (is_bad_char true) hazardous refl
hazards_bad false = All-of_all (is_bad_char false) hazardous refl

no_hazards :
    (bad : ℕ → Bool) (v cs : Text)
    → any bad v ≡ false
    → All (λ c. bad c ≡ true) cs
    → All (λ c. contains c v ≡ false) cs
no_hazards bad v [] h b = tt
no_hazards bad v (c ∷ cs) h b = (contains_of_any bad c v b.0 h, no_hazards bad v cs h b.1)

pub nonempty_length : (v : Text) → not (is_empty v) ≡ true → 1 ≤ length v
nonempty_length [] h = cc
nonempty_length (c ∷ v) h = omega arith

pub validate_component-IsSafeName :
    (v : Text) (p : Bool) → validate_component v p ≡ ok tt → IsSafeName v
unfolding validate_component
validate_component-IsSafeName v p h =
    let (a, h1) = guard-eq-ok (not (is_empty v)) _ _ h in
    let (b, h2) = guard-eq-ok (leb (byte_len v) 64) _ _ h1 in
    let (c, h3) = guard-eq-ok (not (starts_with dash v)) _ _ h2 in
    let clean : any (is_bad_char p) v ≡ false = ground arith in
    record {
      nonempty = nonempty_length v a;
      short = ground (arith, length-byte_len v);
      not_option = eq_false_of_not (starts_with dash v) c;
      no_space = any_weaken (is_bad_char p) is_whitespace v (unspaced_of_bad p) clean;
      no_hazard = no_hazards (is_bad_char p) v hazardous clean (hazards_bad p);
    }

-- A text that `validate_mapping_target` accepts can stand as a command operand, a `key=value` part
-- and a path component: 1 to 64 characters, no leading `-`, no white space and none of the hazardous
-- characters, no `.` at either end and no `..` in it.
pub validate_mapping_target-IsSafeTarget :
    (v : Text) → validate_mapping_target v ≡ ok tt → IsSafeTarget v
unfolding validate_mapping_target
validate_mapping_target-IsSafeTarget v h =
    let (_, a, h1) = >>=-eq-ok (validate_component v true) _ h in
    let (b, h2) = guard-eq-ok (not (starts_with period v || ends_with period v)) _ _ h1 in
    record {
      name = validate_component-IsSafeName v true a;
      not_dot = ground arith;
      not_dot_end = ground arith;
      no_parent = ground arith;
    }

no_pair : (c : ℕ) (v : Text) → contains c v ≡ false → contains_pair c v ≡ false
unfolding contains_pair contains
no_pair c [] h = refl
no_pair c (x ∷ []) h = refl
no_pair c (x ∷ y ∷ v) h = ground (arith, no_pair c (y ∷ v))

no_end : (c : ℕ) (v : Text) → contains c v ≡ false → ends_with c v ≡ false
unfolding ends_with contains
no_end c [] h = refl
no_end c (x ∷ []) h = ground arith
no_end c (x ∷ y ∷ v) h = no_end c (y ∷ v) (ground arith)

no_start : (c : ℕ) (v : Text) → contains c v ≡ false → starts_with c v ≡ false
unfolding starts_with contains
no_start c [] h = refl
no_start c (x ∷ v) h = ground arith

weaker_char : (c : ℕ) → is_bad_char false c ≡ false → is_bad_char true c ≡ false
unfolding is_bad_char
weaker_char c h = ground arith

-- An identifier component (a portal, project or user name) has no `.` and is always accepted as a
-- mapping target too.
pub identifier_component-mapping_target :
    (v : Text)
    → validate_identifier_component v ≡ ok tt
    → (contains period v ≡ false) × (validate_mapping_target v ≡ ok tt)
unfolding validate_identifier_component validate_component validate_mapping_target
identifier_component-mapping_target v h =
    let (a, h1) = guard-eq-ok (not (is_empty v)) _ _ h in
    let (b, h2) = guard-eq-ok (leb (byte_len v) 64) _ _ h1 in
    let (c, h3) = guard-eq-ok (not (starts_with dash v)) _ _ h2 in
    let clean : any (is_bad_char false) v ≡ false = ground arith in
    let undotted =
      contains_of_any (is_bad_char false) period v (unfold is_bad_char in refl) clean in
    let clean' = any_weaken (is_bad_char false) (is_bad_char true) v weaker_char clean in
    (
      undotted,
      rw
          (
            a,
            b,
            c,
            clean',
            no_start period v undotted,
            no_end period v undotted,
            no_pair period v undotted,
          )
          refl,
    )

-- A character that is not allowed in a component does not stand in one that was accepted.
pub component-free :
    (v : Text) (p : Bool) (c : ℕ)
    → is_bad_char p c ≡ true
    → validate_component v p ≡ ok tt
    → contains c v ≡ false
unfolding validate_component
component-free v p c bad h =
    let (a, h1) = guard-eq-ok (not (is_empty v)) _ _ h in
    let (b, h2) = guard-eq-ok (leb (byte_len v) 64) _ _ h1 in
    let (d, h3) = guard-eq-ok (not (starts_with dash v)) _ _ h2 in
    let clean : any (is_bad_char p) v ≡ false = ground arith in
    contains_of_any (is_bad_char p) c v bad clean
