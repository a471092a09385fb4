-- ===== src/Prelude/Result.antt =====
-- include/duckpass/exceptions.h: the exceptions that the program throws, as the failures of a
-- computation. `std::runtime_error` and `std::invalid_argument` are constructors of the same type.
use mathlib.Core.Path.{◌≡◌, refl}
use mathlib.Core.Logic.{◌⊎◌, inl, inr}
use mathlib.Core.List.{◌++◌}
use mathlib.Core.Option.{Option, none, some}
use mathlib.Core.Bool.{Bool, true, false}
use duckpass.Prelude.Text.{Bytes, text}

pub data Error : Type 0 where
  runtime_error : Bytes → Error
  invalid_argument : Bytes → Error
  wrong_password_error : Error
  vault_corrupted_error : Bytes → Error
  vault_io_error : Bytes → Error
  crypto_error : Bytes → Error

-- `e.what()`
unfoldable pub what : Error → Bytes
what (runtime_error message) = message
what (invalid_argument message) = message
what wrong_password_error = text "Invalid master password."
what (vault_corrupted_error detail) =
    text "Vault data is corrupted or has an invalid structure. " ++ detail
what (vault_io_error path) = text "Failed to read or write vault file: " ++ path
what (crypto_error message) = text "Crypto Operation Failed: " ++ message

pub data Result {ℓ} (A : Type ℓ) : Type ℓ where
  ok : A → Result A
  err : Error → Result A

-- `if (test) throw e;`
abbrev pub throw_if : Bool → Error → Result (Unit {0})
throw_if true thrown = err thrown
throw_if false thrown = ok tt

-- A call that fails with no value to return is reported as `thrown`.
abbrev pub or_throw {ℓ} : {X : Type ℓ} → Option X → Error → Result X
or_throw none thrown = err thrown
or_throw (some x) thrown = ok x

infixl 5 ◌>>=◌ ◌>>◌
-- What follows a statement runs if the statement has not thrown.
abbrev pub ◌>>=◌ {ℓ κ} : {X : Type ℓ} {Y : Type κ} → Result X → (X → Result Y) → Result Y
ok x >>= rest = rest x
err thrown >>= rest = err thrown

abbrev pub ◌>>◌ {ℓ} : {Y : Type ℓ} → Result (Unit {0}) → Result Y → Result Y
statement >> rest = statement >>= λ _. rest

pub bind-eq-ok {ℓ κ} :
    {X : Type ℓ} {Y : Type κ} (statement : Result X) (rest : X → Result Y) {y : Y}
    → (statement >>= rest) ≡ ok y
    → (x : X) × (statement ≡ ok x) × (rest x ≡ ok y)
bind-eq-ok (err thrown) rest h = cc
bind-eq-ok (ok x) rest h = (x, refl, h)

-- A computation that succeeds has passed its checks.
pub throw_if-eq-ok {ℓ} :
    {A : Type ℓ} (b : Bool) (e : Error) (f : Unit {0} → Result A) {a : A}
    → (throw_if b e >>= f) ≡ ok a
    → (b ≡ false) × (f tt ≡ ok a)
throw_if-eq-ok true e f h = cc
throw_if-eq-ok false e f h = (refl, h)

pub Result-cases {ℓ} :
    {A : Type ℓ} (r : Result A) → ((a : A) × (r ≡ ok a)) ⊎ ((e : Error) × (r ≡ err e))
Result-cases (ok a) = inl (a, refl)
Result-cases (err e) = inr (e, refl)
