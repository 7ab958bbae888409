-- ===== src/Base/Outcome.antt =====
-- How a run of C++ code ends.
use mathlib.Core.Path.{◌≡◌, refl}
use mathlib.Core.Logic.{◌⊎◌, inl, inr}

-- `terminated`: `throw;` with no exception at hand calls `std::terminate`.
-- `blocked`: the code waits for an event that is not in its input.
-- `out_of_fuel`: a loop has used up the rounds that the model grants it.
-- `undefined`: undefined behaviour, such as a read through a null pointer.
-- `threw`: an exception leaves the function.
pub data Stop : Type 0 where
  terminated blocked out_of_fuel undefined threw : Stop

pub data Run {ℓ} (A : Type ℓ) : Type ℓ where
  ok : A → Run A
  stop : Stop → Run A

-- The run ends normally, in a value that is `Good`.
abbrev pub Returns {ℓ κ} : {Value : Type ℓ} → Run Value → (Value → Type κ) → Type (ℓ ⊔ κ)
Returns {Value} run Good = (v : Value) × (run ≡ ok v) × Good v

infixl 5 ◌>>=◌ ◌>>◌
abbrev pub ◌>>=◌ {ℓ κ} : {From : Type ℓ} {To : Type κ} → Run From → (From → Run To) → Run To
ok v >>= next = next v
stop s >>= next = stop s

abbrev pub ◌>>◌ {ℓ} : {To : Type ℓ} → Run (Unit {0}) → Run To → Run To
m >> rest = m >>= λ _. rest

pub Run-cases {ℓ} : {A : Type ℓ} (m : Run A) → ((a : A) × (m ≡ ok a)) ⊎ ((s : Stop) × (m ≡ stop s))
Run-cases (ok a) = inl (a, refl)
Run-cases (stop s) = inr (s, refl)
