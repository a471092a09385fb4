-- ===== src/Crypto/Password.antt =====
-- `generate_password` of src/crypto.cpp: rejection sampling over the bytes of `RAND_bytes`.
pub mod Laws
use duckpass.Crypto.{Draw, generate_random_bytes}
use duckpass.Prelude.{
  ℕ, zero, suc, ◌+◌, ◌-◌, ◌*◌, ◌/◌, ◌%◌, max, ◌==◌, Bool, List, [], ◌∷◌, ◌++◌, Option, none, some,
  Bytes, text, length, get_or, ltb, if◌then◌else◌,
}
use duckpass.Prelude.Result.{Result, ok, err, invalid_argument, ◌>>=◌, ◌>>◌, throw_if}

abbrev pub chars : Bytes
unfolding text
chars =
    text
      "abcdefghijklmnopqrstuvwxyzABCDEFGHIJKLMNOPQRSTUVWXYZ0123456789!@#$%^&*()-_=+[]{}|;:',.<>?/"

-- `chars.length()`
abbrev pub charset_len : ℕ
charset_len = 90

-- The largest multiple of the number of characters that is at most 256.
abbrev pub max_usable : ℕ
max_usable = 256 / charset_len * charset_len

unfoldable pub pick : ℕ → ℕ
unfolding text
pick b = get_or chars (b % charset_len) 0

-- The loop over one batch, which stops when the password is complete.
unfoldable pub take_batch : Bytes → ℕ → Bytes → Bytes
take_batch password target [] = password
take_batch password target (b ∷ batch) =
    let longer = password ++ pick b ∷ [] in
    let more = take_batch longer target batch in
    let next = take_batch password target batch in
    if ltb b max_usable then (if length longer == target then longer else more) else next

-- `std::max(needed * 2, 16)`
abbrev pub batch_size : Bytes → ℕ → ℕ
batch_size password target = max ((target - length password) * 2) 16

-- The outer loop; `none` means that the fuel ran out. `rand i n` is what call `i` of `RAND_bytes`, for
-- `n` bytes, gives.
unfoldable pub generate_loop : (ℕ → ℕ → Draw) → ℕ → ℕ → Bytes → ℕ → Option (Result Bytes)
generate_loop rand zero i password target = none
generate_loop rand (suc fuel) i password target =
    if ltb (length password) target
    then elim (generate_random_bytes (rand i (batch_size password target))) [
      | err e ↦ some (err e)
      | ok batch ↦ generate_loop rand fuel (i + 1) (take_batch password target batch) target
    ]
    else some (ok password)

-- A length that is not positive is refused; a length is 0 here for every such `int`.
unfoldable pub generate_password : (ℕ → ℕ → Draw) → ℕ → ℕ → Option (Result Bytes)
generate_password rand fuel target =
    if target == 0
    then some (err (invalid_argument (text "Password length must be positive.")))
    else generate_loop rand fuel 0 [] target
