-- ===== src/Text/Decimal.antt =====
-- `std::to_string` of an unsigned number.
pub mod Laws
use duckpass.Prelude.{
  ℕ, zero, suc, ◌+◌, ◌/◌, ◌%◌, ◌≤◌, ◌<◌, List, [], ◌∷◌, ◌++◌, ◌≡◌, refl, Bytes, length,
  length-append, ltb, if◌then◌else◌, arith,
}

-- The digits of `n` in front of `digits`; `fuel` bounds how many there are.
unfoldable pub digits_loop : ℕ → ℕ → Bytes → Bytes
digits_loop zero n digits = digits
digits_loop (suc fuel) n digits =
    let shown = (48 + n % 10) ∷ digits in
    let more = digits_loop fuel (n / 10) shown in if ltb n 10 then shown else more

-- Twenty digits hold every 64-bit number.
unfoldable pub to_string : ℕ → Bytes
unfolding digits_loop
to_string n = digits_loop 20 n []
