-- ===== src/Error.antt =====
-- templemeads/src/error.rs: the error values, without their message texts, and the results of
-- fallible functions.
use openportal.Base.{Bool, true, false, ◌≡◌, refl}
use openportal.Base.Text.{Text}

-- The variants of `Error`. A message is kept only where the program passes a job's own text on
-- (`Run`).
pub data Error : Type 0 where
  addr_parse any io paddington serde_json url_parse bug call config_exists delivery incompatible
        incomplete_code invalid_board invalid_config invalid_instruction invalid_peer invalid_state
        duplicate failed expired locked login misconfigured missing_agent missing_project
        missing_user no_portal invalid_portal not_found parse peer_edit state not_ready timeout
        unknown unknown_instruction unmanaged_user unmanaged_group unavailable :
      Error
  run : Text → Error

pub data Result {ℓ} (A : Type ℓ) : Type ℓ where
  ok : A → Result A
  err : Error → Result A

infixl 5 ◌>>=◌ ◌>>◌
-- `?`, with the rest of the function
abbrev pub ◌>>=◌ {ℓ κ} : {A : Type ℓ} {B : Type κ} → Result A → (A → Result B) → Result B
err fault >>= next = err fault
ok value >>= next = next value

abbrev pub ◌>>◌ {ℓ} : {B : Type ℓ} → Result (Unit {0}) → Result B → Result B
first >> next = first >>= λ done. next

-- An early `return Err(e)` unless the test holds.
abbrev pub guard : Bool → Error → Result (Unit {0})
guard true e = ok tt
guard false e = err e

abbrev pub is_ok {ℓ} : {A : Type ℓ} → Result A → Bool
is_ok (ok a) = true
is_ok (err e) = false

-- `match m { Ok(j) => j, Err(_) => d }`
abbrev pub ok_or {ℓ} : {A : Type ℓ} → Result A → A → A
ok_or (ok a) d = a
ok_or (err e) d = d

pub ok_inj {ℓ} : {A : Type ℓ} {a b : A} → ok a ≡ ok b → a ≡ b
ok_inj h = cc

pub >>=-eq-ok {ℓ κ} :
    {A : Type ℓ} {B : Type κ} (r : Result A) (next : A → Result B) {y : B}
    → (r >>= next) ≡ ok y
    → (value : A) × (r ≡ ok value) × (next value ≡ ok y)
>>=-eq-ok (err fault) next e = cc
>>=-eq-ok (ok value) next e = (value, refl, e)

-- What a passed guard says, and what follows it.
pub guard-eq-ok {ℓ} :
    {B : Type ℓ} (b : Bool) (e : Error) (m : Result B) {x : B}
    → (guard b e >> m) ≡ ok x
    → (b ≡ true) × (m ≡ ok x)
guard-eq-ok true e m h = (refl, h)
guard-eq-ok false e m h = cc
