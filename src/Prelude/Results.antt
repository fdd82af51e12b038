-- ===== src/Prelude/Results.antt =====
-- Fallible code: a function that may raise returns a `Result`.
use Prim.Native.String.{String}
use mathlib.Core.Path.{◌≡◌, refl}

-- The exceptions of the modelled code, each with the text that decides how it is shown.
pub data Error : Type 0 where
  -- modbus_helpers.MeltemModbusError
  modbus_error : Error
  -- modbus_helpers.MeltemConnectionError
  connection_error : Error
  -- homeassistant HomeAssistantError, with its translation key
  home_assistant_error : String → Error
  -- homeassistant ServiceValidationError, with its translation key
  service_validation_error : String → Error

pub data Result {ℓ} (A : Type ℓ) : Type ℓ where
  ok : A → Result A
  raise : Error → Result A

infixl 5 ◌>>=◌
abbrev pub ◌>>=◌ {ℓ κ} : {A : Type ℓ} {B : Type κ} → Result A → (A → Result B) → Result B
ok a >>= f = f a
raise e >>= f = raise e

pub ok-injective {ℓ} : {A : Type ℓ} (a b : A) → ok a ≡ ok b → a ≡ b
ok-injective a b h = cc

raise-ne-ok {ℓ} : {A : Type ℓ} (e : Error) (a : A) → ¬ (raise e ≡ ok a)
raise-ne-ok e a h = cc

-- A check that passed, before a check that passed.
pub bind_ok {ℓ} : (a b : Result (Unit {ℓ})) → (a >>= λ _. b) ≡ ok tt → (a ≡ ok tt) × (b ≡ ok tt)
bind_ok (ok tt) b h = (refl, h)
bind_ok (raise e) b h = absurd (raise-ne-ok e tt h)
