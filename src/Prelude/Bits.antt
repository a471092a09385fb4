-- ===== src/Prelude/Bits.antt =====
-- `|` of words whose fields do not overlap is a sum.
use Prim.Native.Nat.{
  ℕ, zero, suc, ◌+◌, ◌*◌, ◌/◌, ◌%◌, ◌^◌, ◌≤◌, ◌<◌, max, bit_or, digits, bit_or-bitwise,
}
use mathlib.Core.Path.{◌≡◌, refl, ap}
use native.Mathlib.Omega.{arith}
use native.Mathlib.Nat.{pow-suc}

abbrev or_digits : ℕ → ℕ → ℕ → ℕ
or_digits fuel x y = digits (λ d. d) max fuel x y

-- Any two amounts of fuel that are enough give the same.
enough : (x y f g : ℕ) → x ≤ f → x ≤ g → or_digits f x y ≡ or_digits g x y
enough zero y zero zero hf hg = refl
enough zero y zero (suc g) hf hg = refl
enough zero y (suc f) zero hf hg = refl
enough zero y (suc f) (suc g) hf hg = refl
enough (suc x) y zero g hf hg = absurd (omega arith)
enough (suc x) y (suc f) zero hf hg = absurd (omega arith)
enough (suc x) y (suc f) (suc g) hf hg =
    let halves = enough (suc x / 2) (y / 2) f g (omega arith) (omega arith) in omega arith

zero-bit_or : (y : ℕ) → bit_or 0 y ≡ y
zero-bit_or y = bit_or-bitwise 0 y

-- The lowest digit, and those above it.
bit_or_step : (x y : ℕ) → bit_or x y ≡ max (x % 2) (y % 2) + 2 * bit_or (x / 2) (y / 2)
bit_or_step zero y = omega (arith, zero-bit_or (y / 2), zero-bit_or y)
bit_or_step (suc x) y =
    let half = bit_or-bitwise (suc x / 2) (y / 2) in
    let whole = bit_or-bitwise (suc x) y in
    let fuel = enough (suc x / 2) (y / 2) x (suc x / 2) (omega arith) (omega arith) in omega arith

bit_or-zero_below : (bound x : ℕ) → x ≤ bound → bit_or x 0 ≡ x
bit_or-zero_below bound zero below = refl
bit_or-zero_below zero (suc x) below = absurd (omega arith)
bit_or-zero_below (suc bound) (suc x) below =
    let half = bit_or-zero_below bound (suc x / 2) (omega arith) in
    omega (arith, bit_or_step (suc x) 0)

bit_or-zero : (x : ℕ) → bit_or x 0 ≡ x
bit_or-zero x = bit_or-zero_below x x (omega arith)

double : (k b : ℕ) → b * 2 ^ suc k ≡ b * 2 ^ k * 2
double k b = rw pow-suc (omega arith)

low_half : (x y : ℕ) → bit_or (x / 2) (y * 2 / 2) ≡ bit_or (x / 2) y
low_half x y = ap (bit_or (x / 2)) (omega arith)

-- A word below `2 ^ k` and a field that starts at bit `k`.
pub bit_or-disjoint : (k x b : ℕ) → x < 2 ^ k → bit_or x (b * 2 ^ k) ≡ x + b * 2 ^ k
bit_or-disjoint zero zero b h = omega (arith, zero-bit_or (b * 1))
bit_or-disjoint zero (suc x) b h = absurd (omega arith)
bit_or-disjoint (suc k) x b h = rw (double k b) (
    omega (
      arith,
      double k 1,
      bit_or_step x (b * 2 ^ k * 2),
      low_half x (b * 2 ^ k),
      bit_or-disjoint k (x / 2) b (omega (arith, pow-suc 2 k)),
    ))

high_half : (x y : ℕ) → bit_or (y * 2 / 2) (x / 2) ≡ bit_or y (x / 2)
high_half x y = ap (λ z. bit_or z (x / 2)) (omega arith)

-- The same with the field on the left.
pub bit_or-shifted : (k b x : ℕ) → x < 2 ^ k → bit_or (b * 2 ^ k) x ≡ b * 2 ^ k + x
bit_or-shifted zero b zero h = omega (arith, bit_or-zero (b * 1))
bit_or-shifted zero b (suc x) h = absurd (omega arith)
bit_or-shifted (suc k) b x h = rw (double k b) (
    omega (
      arith,
      double k 1,
      bit_or_step (b * 2 ^ k * 2) x,
      high_half x (b * 2 ^ k),
      bit_or-shifted k b (x / 2) (omega (arith, pow-suc 2 k)),
    ))
