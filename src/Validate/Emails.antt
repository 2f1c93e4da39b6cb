-- ===== src/Validate/Emails.antt =====
-- Email addresses: the one `@`, and the bounds and the alphabet of the two halves.
use openportal.Base.{
  ℕ, ◌≤◌, List, [], ◌∷◌, ◌++◌, Bool, true, false, not, ◌||◌, none, some, any, nat_beq, leb, length,
  All, Bool-cases, eq_false_of_not, All-map, any_of_All, inl, inr, ◌≡◌, ◌⊎◌, refl, arith, ap, ◌∙◌,
}
use openportal.Base.Text.{
  Text, at_sign, period, dash, contains, is_whitespace, split, any_weaken, any-split, starts_with,
  ends_with,
}
use openportal.Error.{ok, guard-eq-ok, >>=-eq-ok}
use openportal.Validate.{
  byte_len, is_empty, is_bad_local_char, is_bad_label_char, contains_pair, split_once, split_email,
  validate_email, validate_email_local_part, validate_email_domain, validate_label, validate_labels,
}
use openportal.Validate.Names.{length-byte_len, nonempty_length, unspaced_range}

pub record IsLabel (w : Text) : Type 0 where
  pub nonempty : 1 ≤ length w
  pub short : length w ≤ 63
  pub no_dash_start : starts_with dash w ≡ false
  pub no_dash_end : ends_with dash w ≡ false
  pub alphabet : any is_bad_label_char w ≡ false

-- The two halves of an accepted address.
pub record IsAddress (value local_part domain : Text) : Type 0 where
  pub halves : value ≡ local_part ++ (at_sign ∷ domain)
  pub no_at_local : contains at_sign local_part ≡ false
  pub no_at_domain : contains at_sign domain ≡ false
  pub local_nonempty : 1 ≤ length local_part
  pub local_short : length local_part ≤ 64
  pub local_option : starts_with dash local_part ≡ false
  pub local_parent : contains_pair period local_part ≡ false
  pub two_labels : 2 ≤ length (split period domain)
  pub labels : All IsLabel (split period domain)
  pub short : length value ≤ 254
  pub no_space : any is_whitespace value ≡ false

abbrev Halves : ℕ → Text → Type 0
Halves c s =
    (split_once c s ≡ none)
    ⊎ ((a : Text) × (b : Text) × (split_once c s ≡ some (a, b))
        × (s ≡ a ++ (c ∷ b))
        × (contains c a ≡ false))

split_once-Halves : (c : ℕ) (s : Text) → Halves c s
unfolding split_once contains
split_once-Halves c [] = inl refl
split_once-Halves c (x ∷ s) = step (Bool-cases (nat_beq x c)) (split_once-Halves c s)
  where
    step : (nat_beq x c ≡ true) ⊎ (nat_beq x c ≡ false) → Halves c s → Halves c (x ∷ s)
    step (inl e) _ =
        let same : x ≡ c = ground arith in inr ([], s, rw e refl, ap (λ y. y ∷ s) same, refl)
    step (inr e) (inl none') = inl (rw (e, none') refl)
    step (inr e) (inr (a, b, found, halves, clean)) =
        inr (x ∷ a, b, rw (e, found) refl, ap (◌∷◌ x) halves, rw (e, clean) refl)

any-append : (p : ℕ → Bool) (a b : Text) → any p (a ++ b) ≡ (any p a || any p b)
any-append p [] b = refl
any-append p (x ∷ a) b = ground (arith, any-append p a b)

unspaced_local : (c : ℕ) → is_bad_local_char c ≡ false → is_whitespace c ≡ false
unspaced_local c h =
    let r : (43 ≤ c) × (c ≤ 122) = unfold is_bad_local_char in ground arith in
    unspaced_range c (omega (arith, r.0)) (omega (arith, r.1))

unspaced_label : (c : ℕ) → is_bad_label_char c ≡ false → is_whitespace c ≡ false
unspaced_label c h =
    let r : (45 ≤ c) × (c ≤ 122) = unfold is_bad_label_char in ground arith in
    unspaced_range c (omega (arith, r.0)) (omega (arith, r.1))

validate_label-IsLabel : (w : Text) → validate_label w ≡ ok tt → IsLabel w
unfolding validate_label
validate_label-IsLabel w h =
    let (a, h1) = guard-eq-ok (not (is_empty w)) _ _ h in
    let (b, h2) = guard-eq-ok (leb (byte_len w) 63) _ _ h1 in
    let (c, h3) = guard-eq-ok (not (starts_with dash w || ends_with dash w)) _ _ h2 in
    record {
      nonempty = nonempty_length w a;
      short = ground (arith, length-byte_len w);
      no_dash_start = ground arith;
      no_dash_end = ground arith;
      alphabet = ground arith;
    }

validate_labels-All : (ws : List Text) → validate_labels ws ≡ ok tt → All IsLabel ws
unfolding validate_labels
validate_labels-All [] h = tt
validate_labels-All (w ∷ ws) h =
    let (_, a, b) = >>=-eq-ok (validate_label w) _ h in
    (validate_label-IsLabel w a, validate_labels-All ws b)

IsLabel-unspaced : (ws : List Text) → All IsLabel ws → any (any is_whitespace) ws ≡ false
IsLabel-unspaced ws h = any_of_All (any is_whitespace) ws (
    All-map IsLabel (λ w. any is_whitespace w ≡ false) ws
      (λ w l. any_weaken is_bad_label_char is_whitespace w unspaced_label l.alphabet) h)

IsAddress-of_halves :
    (value a b : Text)
    → value ≡ a ++ (at_sign ∷ b)
    → contains at_sign a ≡ false
    → contains at_sign b ≡ false
    → leb (byte_len value) 254 ≡ true
    → validate_email_local_part a ≡ ok tt
    → validate_email_domain b ≡ ok tt
    → IsAddress value a b
unfolding validate_email_local_part validate_email_domain
IsAddress-of_halves value a b halves clean_a clean_b short ha hb =
    let (a1, ha1) = guard-eq-ok (not (is_empty a)) _ _ ha in
    let (a2, ha2) = guard-eq-ok (leb (byte_len a) 64) _ _ ha1 in
    let (a3, ha3) = guard-eq-ok (not (starts_with dash a)) _ _ ha2 in
    let (a4, ha4) = guard-eq-ok (not (any is_bad_local_char a)) _ _ ha3 in
    let (a5, ha5) = guard-eq-ok (not (starts_with period a || ends_with period a)) _ _ ha4 in
    let (b1, hb1) = guard-eq-ok (not (is_empty b)) _ _ hb in
    let (b2, hb2) = guard-eq-ok (leb 2 (length (split period b))) _ _ hb1 in
    let labels = validate_labels-All (split period b) hb2 in
    let clear_a : any is_whitespace a ≡ false =
      any_weaken is_bad_local_char is_whitespace a unspaced_local (eq_false_of_not _ a4) in
    let clear_b : any is_whitespace b ≡ false =
      any-split is_whitespace period b (unspaced_range period (omega arith) (omega arith))
      ∙ IsLabel-unspaced (split period b) labels in
    let clear_at : is_whitespace at_sign ≡ false =
      unspaced_range at_sign (omega arith) (omega arith) in
    record {
      halves = halves;
      no_at_local = clean_a;
      no_at_domain = clean_b;
      local_nonempty = nonempty_length a a1;
      local_short = ground (arith, length-byte_len a);
      local_option = eq_false_of_not _ a3;
      local_parent = ground arith;
      two_labels = ground arith;
      labels = labels;
      short = ground (arith, length-byte_len value);
      no_space = rw (halves, any-append is_whitespace a (at_sign ∷ b), clear_a, clear_at) clear_b;
    }

-- An accepted email address has exactly one `@`; before it stand 1 to 64 characters, the first not a
-- `-` and no `..` among them; after it stand at least two labels of 1 to 63 letters, digits and `-`
-- that neither begin nor end with `-`; it has at most 254 characters and no white space.
pub validate_email-IsAddress :
    (value : Text)
    → validate_email value ≡ ok tt
    → (local_part : Text) × (domain : Text) × IsAddress value local_part domain
unfolding validate_email
validate_email-IsAddress value h =
    let (e1, h1) = guard-eq-ok (not (is_empty value)) _ _ h in
    let (e2, h2) = guard-eq-ok (leb (byte_len value) 254) _ _ h1 in
    let ((a, b), found, h3) = >>=-eq-ok (split_email value) _ h2 in
    let (e3, h4) = guard-eq-ok (not (contains at_sign b)) _ _ h3 in
    let (_, ha, hb) = >>=-eq-ok (validate_email_local_part a) _ h4 in
    step a b e2 found (eq_false_of_not _ e3) ha hb (split_once-Halves at_sign value)
  where
    step :
        (a b : Text)
        → leb (byte_len value) 254 ≡ true
        → split_email value ≡ ok (a, b)
        → contains at_sign b ≡ false
        → validate_email_local_part a ≡ ok tt
        → validate_email_domain b ≡ ok tt
        → Halves at_sign value
        → (local_part : Text) × (domain : Text) × IsAddress value local_part domain
    step a b short found clean ha hb (inl none') = absurd (ground arith)
    step a b short found clean ha hb (inr (c, d, found', halves, clean')) =
        let ca : c ≡ a = ground arith in
        let db : d ≡ b = ground arith in
        (
          a,
          b,
          IsAddress-of_halves value a b (rw (ca, db) at halves) (rw ca at clean') clean short ha hb,
        )

no_colon_local : (c : ℕ) → is_bad_local_char c ≡ false → nat_beq c b':' ≡ false
unfolding is_bad_local_char
no_colon_local c h = ground arith

no_colon_label : (c : ℕ) → is_bad_label_char c ≡ false → nat_beq c b':' ≡ false
unfolding is_bad_label_char
no_colon_label c h = ground arith

-- An accepted address holds no `:`.
pub validate_email-no_colon :
    (value : Text) → validate_email value ≡ ok tt → any (λ c. nat_beq c b':') value ≡ false
unfolding validate_email validate_email_local_part validate_email_domain
validate_email-no_colon value h =
    let (e1, h1) = guard-eq-ok (not (is_empty value)) _ _ h in
    let (e2, h2) = guard-eq-ok (leb (byte_len value) 254) _ _ h1 in
    let ((a, b), found, h3) = >>=-eq-ok (split_email value) _ h2 in
    let (e3, h4) = guard-eq-ok (not (contains at_sign b)) _ _ h3 in
    let (_, ha, hb) = >>=-eq-ok (validate_email_local_part a) _ h4 in
    let (a1, ha1) = guard-eq-ok (not (is_empty a)) _ _ ha in
    let (a2, ha2) = guard-eq-ok (leb (byte_len a) 64) _ _ ha1 in
    let (a3, ha3) = guard-eq-ok (not (starts_with dash a)) _ _ ha2 in
    let (a4, ha4) = guard-eq-ok (not (any is_bad_local_char a)) _ _ ha3 in
    let (b1, hb1) = guard-eq-ok (not (is_empty b)) _ _ hb in
    let (b2, hb2) = guard-eq-ok (leb 2 (length (split period b))) _ _ hb1 in
    let clear_a =
      any_weaken is_bad_local_char (λ c. nat_beq c b':') a no_colon_local (eq_false_of_not _ a4) in
    let clear_b : any (λ c. nat_beq c b':') b ≡ false =
      any-split (λ c. nat_beq c b':') period b refl
      ∙ any_of_All (any (λ c. nat_beq c b':')) (split period b) (
          All-map IsLabel (λ w. any (λ c. nat_beq c b':') w ≡ false) (split period b)
            (λ w l. any_weaken is_bad_label_char (λ c. nat_beq c b':') w no_colon_label l.alphabet)
            (validate_labels-All (split period b) hb2)) in
    step a b found clear_a clear_b (split_once-Halves at_sign value)
  where
    step :
        (a b : Text)
        → split_email value ≡ ok (a, b)
        → any (λ c. nat_beq c b':') a ≡ false
        → any (λ c. nat_beq c b':') b ≡ false
        → Halves at_sign value
        → any (λ c. nat_beq c b':') value ≡ false
    step a b found ca cb (inl none') = absurd (ground arith)
    step a b found ca cb (inr (c, d, found', halves, clean')) =
        let same : c ≡ a = ground arith in
        let same' : d ≡ b = ground arith in
        rw (halves, any-append (λ c. nat_beq c b':') c (at_sign ∷ d), same, same', ca) cb
