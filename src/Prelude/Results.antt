-- ===== src/Prelude/Results.antt =====
-- What a C++ function returns or throws. Exceptions are values; the text is the argument of the throw.
use smart_sensor_network.Prelude.Lists.{Bytes}

pub data Exception : Type 0 where
  runtime_error invalid_argument out_of_range : Bytes → Exception

pub data Result {ℓ} (A : Type ℓ) : Type ℓ where
  ok : A → Result A
  throw : Exception → Result A

infixl 5 ◌>>=◌
abbrev pub ◌>>=◌ {ℓ κ} : {A : Type ℓ} {B : Type κ} → Result A → (A → Result B) → Result B
ok a >>= f = f a
throw e >>= f = throw e
