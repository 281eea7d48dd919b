-- ===== src/Prelude/Outcomes.antt =====
-- How a C++ call ends: with a value, with an exception, or with a failed assertion or an access that
-- the language leaves undefined, which ends the process or worse.
use mathlib.Core.Path.{◌≡◌}
use Prim.Native.String.{String}

pub data Outcome {ℓ} (A : Type ℓ) : Type ℓ where
  done : A → Outcome A
  throws : String → Outcome A
  faults : Outcome A

pub done-injective {ℓ} : {A : Type ℓ} {a b : A} → done a ≡ done b → a ≡ b
done-injective e = cc

infixl 5 ◌>>=◌
abbrev pub ◌>>=◌ {ℓ κ} : {A : Type ℓ} {B : Type κ} → Outcome A → (A → Outcome B) → Outcome B
done a >>= f = f a
throws e >>= f = throws e
faults >>= f = faults
