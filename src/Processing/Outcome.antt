-- ===== src/Processing/Outcome.antt =====
-- How a Python call ends: it returns, or it raises an exception. A loop with fuel has a third end.
pub mod Replies
use modern_data_platform.Prelude.{String}

-- An `Exception`: `type(exc).__name__` and `str(exc)`.
pub record Exn : Type 0 where
  pub type_name : String
  pub message : String

-- What code outside the framework does when it is called: it returns or it raises.
pub data Reply {ℓ} (A : Type ℓ) : Type ℓ where
  answer : A → Reply A
  failure : Exn → Reply A

pub data Outcome {ℓ} (A : Type ℓ) : Type ℓ where
  returned : A → Outcome A
  raised : Exn → Outcome A
  out_of_fuel : Outcome A

abbrev pub outcome {ℓ} : {A : Type ℓ} → Reply A → Outcome A
outcome (answer a) = returned a
outcome (failure e) = raised e

abbrev pub value_error : String → Exn
value_error m = record { type_name = "ValueError"; message = m }

abbrev pub runtime_error : String → Exn
runtime_error m = record { type_name = "RuntimeError"; message = m }

infixl 5 ◌>>=◌ ◌>>◌
abbrev pub ◌>>=◌ {ℓ κ} : {A : Type ℓ} {B : Type κ} → Outcome A → (A → Outcome B) → Outcome B
returned a >>= f = f a
raised e >>= f = raised e
out_of_fuel >>= f = out_of_fuel

abbrev pub ◌>>◌ {ℓ} : {B : Type ℓ} → Outcome (Unit {0}) → Outcome B → Outcome B
m >> k = m >>= λ _. k

-- A call that returns or raises, in its own time.
abbrev pub Ends {ℓ} : {A : Type ℓ} → Outcome A → Type 0
Ends (returned _) = Unit
Ends (raised _) = Unit
Ends out_of_fuel = ⊥
