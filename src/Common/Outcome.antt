-- ===== src/Common/Outcome.antt =====
-- How a script's step ends: with a value, by `sys.exit` with a message, or by an exception.
use etheorem.Common.{◌≡◌, refl, Option, none, some, Text}

pub data Outcome {ℓ} (A : Type ℓ) : Type ℓ where
  passed : A → Outcome A
  exits : Text → Outcome A
  raised : Outcome A

infixl 5 ◌>>=◌ ◌>>◌
abbrev pub ◌>>=◌ {ℓ κ} : {A : Type ℓ} {B : Type κ} → Outcome A → (A → Outcome B) → Outcome B
passed a >>= f = f a
exits message >>= f = exits message
raised >>= f = raised

abbrev pub ◌>>◌ {ℓ} : {B : Type ℓ} → Outcome (Unit {0}) → Outcome B → Outcome B
m >> k = m >>= λ _. k

abbrev pub of_option {ℓ} : {A : Type ℓ} → Option A → Outcome A
of_option none = raised
of_option (some a) = passed a

-- Inversion of a bind that passes.
pub >>=-eq-passed {ℓ κ} :
    {A : Type ℓ} {B : Type κ} (m : Outcome A) (f : A → Outcome B) {b : B}
    → (m >>= f) ≡ passed b
    → (a : A) × (m ≡ passed a) × (f a ≡ passed b)
>>=-eq-passed (passed a) f h = (a, refl, h)
>>=-eq-passed (exits message) f h = cc
>>=-eq-passed raised f h = cc
