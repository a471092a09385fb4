-- ===== src/Entropy.antt =====
-- src/entropy_evaluator.cpp, include/duckpass/entropy_evaluator.h and src/entropy_worker_main.cpp: the
-- estimate of a password's strength, which a worker process makes. Entropy.Worker is the worker,
-- Entropy.Evaluate the parent.
pub mod Worker
pub mod Evaluate
pub mod Talk
use duckpass.Prelude.{ℕ, ◌*◌, ◌%◌, ◌^◌, Bool, true, false, ltb, if◌then◌else◌}

-- A `double` is its 64 bits, an `int32_t` its 32 bits.
pub record EntropyScore : Type 0 where
  pub score : ℕ
  pub entropy_bits : ℕ
  pub crack_time_seconds : ℕ
  pub is_weak : Bool

-- The bits of `value < limit`, for a limit that is positive: nothing is less if it is no number, a
-- negative number is, and the bits of the others are in the order of the numbers.
unfoldable pub double_less : ℕ → ℕ → Bool
double_less value limit =
    if ltb (2047 * 2 ^ 52) (value % 2 ^ 63)
    then false
    else (if ltb value (2 ^ 63) then ltb value limit else true)
