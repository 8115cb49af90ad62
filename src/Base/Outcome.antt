-- ===== src/Base/Outcome.antt =====
-- The outcome of a Go call: a value, a returned `error`, or a panic. `out_of_fuel` is not an outcome
-- of the program: the model of a loop gives it if the fuel that it was handed does not suffice.

use mathlib.Core.Bool.{Bool, true, false}

-- The errors that the program returns. Two values stand for the same error if the source builds
-- them by the same call of `errors.New` or `fmt.Errorf`.
pub data Error : Type 0 where
  out_of_range invalid_local_id invalid_block io_error key_exists key_not_found : Error

pub data Result {ℓ} (A : Type ℓ) : Type ℓ where
  ok : A → Result A
  err : Error → Result A
  panic out_of_fuel : Result A

-- What comes after the first outcome that is no value is not run.
infixl 5 ◌>>=◌
abbrev pub ◌>>=◌ {ℓ κ} : {X : Type ℓ} {Y : Type κ} → Result X → (X → Result Y) → Result Y
out_of_fuel >>= next = out_of_fuel
panic >>= next = panic
ok value >>= next = next value
err e >>= next = err e

-- `if !b { return err }`
abbrev pub guard : Bool → Error → Result (Unit {0})
guard false e = err e
guard true e = ok tt

infixl 5 ◌>>◌
abbrev pub ◌>>◌ {ℓ} : {Y : Type ℓ} → Result (Unit {0}) → Result Y → Result Y
first >> second = first >>= λ _. second

-- A run-time check of Go, such as the bounds of a slice: a panic where it fails.
abbrev pub assert : Bool → Result (Unit {0})
assert true = ok tt
assert false = panic

-- `panic(err)` on an error that the caller does not hand on.
abbrev pub must {ℓ} : {A : Type ℓ} → Result A → Result A
must (ok a) = ok a
must (err e) = panic
must panic = panic
must out_of_fuel = out_of_fuel
