-- ===== src/Relay/Errors.antt =====
-- paddington/src/error.rs: the errors of the connection layer, without their message texts.
use openportal.Base.{Bool, true, false, Option, none, some, ◌≡◌, ap}

pub data Error : Type 0 where
  io any tungstenite tokio_task busy_line derived invalid_peer server_is_secondary
        client_is_secondary peer_is_secondary not_exists null parse peer poison send
        too_many_standby_connections unknown_peer unnamed_connection incompatible unavailable :
      Error

pub data Result {ℓ} (A : Type ℓ) : Type ℓ where
  fail : Error → Result A
  pass : A → Result A

-- `?`, with the rest of the function
infixl 5 ◌>>=◌
abbrev pub ◌>>=◌ {ℓ κ} : {A : Type ℓ} {B : Type κ} → Result A → (A → Result B) → Result B
fail e >>= rest = fail e
pass a >>= rest = rest a

abbrev pub require : Bool → Error → Result (Unit {0})
require false e = fail e
require true e = pass tt

-- `ok_or_else`
abbrev pub require_some {ℓ} : {A : Type ℓ} → Option A → Error → Result A
require_some none e = fail e
require_some (some a) e = pass a

pub fail_is_not_pass {ℓ} : {A : Type ℓ} {e : Error} {a : A} → fail e ≡ pass a → ⊥
fail_is_not_pass h = cc

pub pass_inj {ℓ} : {A : Type ℓ} {a b : A} → pass a ≡ pass b → a ≡ b
pass_inj {a = a} h = ap (λ r. elim r [ pass x ↦ x | fail e ↦ a ]) h

-- `is_ok`
abbrev pub is_pass {ℓ} : {A : Type ℓ} → Result A → Bool
is_pass (pass a) = true
is_pass (fail e) = false
