-- ===== src/Prelude/Text.antt =====
-- Byte strings: `std::string`, `SecureString`, `SecureBytes` and byte vectors are lists of numbers.
use Prim.Native.Nat.{ℕ, ◌<◌}
use Prim.Native.Char.{code}
use Prim.Native.String.{String}
use mathlib.Core.Path.{◌≡◌, refl, ap₂}
use mathlib.Core.Logic.{◌↔◌}
use mathlib.Core.Bool.{Bool, true, false, ◌&&◌}
use mathlib.Core.List.{List, [], ◌∷◌}
use native.Mathlib.Omega.{arith}
use duckpass.Prelude.Tests.{if◌then◌else◌, ◌==◌, ==_iff, &&_iff}

abbrev pub Bytes : Type 0
Bytes = List ℕ

-- The bytes of an ASCII literal.
unfoldable pub text : String → Bytes
text String.[] = []
text (String.◌∷◌ c s) = code c ∷ text s

abbrev pub is_empty : Bytes → Bool
is_empty [] = true
is_empty (_ ∷ _) = false

-- `==` of two strings.
unfoldable pub bytes_eq : Bytes → Bytes → Bool
bytes_eq [] [] = true
bytes_eq [] (_ ∷ _) = false
bytes_eq (_ ∷ _) [] = false
bytes_eq (x ∷ xs) (y ∷ ys) = x == y && bytes_eq xs ys

pub bytes_eq→eq : (a b : Bytes) → bytes_eq a b ≡ true → a ≡ b
unfolding bytes_eq
bytes_eq→eq [] [] h = refl
bytes_eq→eq [] (_ ∷ _) h = cc
bytes_eq→eq (_ ∷ _) [] h = cc
bytes_eq→eq (x ∷ xs) (y ∷ ys) h =
    let both = (&&_iff (x == y) (bytes_eq xs ys)).0 h in
    ap₂ ◌∷◌ ((==_iff x y).0 both.0) (bytes_eq→eq xs ys both.1)

pub bytes_eq_refl : (a : Bytes) → bytes_eq a a ≡ true
unfolding bytes_eq
bytes_eq_refl [] = refl
bytes_eq_refl (x ∷ xs) = (&&_iff _ _).1 ((==_iff x x).1 refl, bytes_eq_refl xs)

pub bytes_eq_iff : (a b : Bytes) → (bytes_eq a b ≡ true) ↔ (a ≡ b)
bytes_eq_iff a b = (bytes_eq→eq a b, λ e. rw e (bytes_eq_refl b))

abbrev pub IsByte : ℕ → Type 0
IsByte b = b < 256

pub bytes_eq_comm : (a b : Bytes) → bytes_eq a b ≡ bytes_eq b a
bytes_eq_comm a b = ground (arith, bytes_eq_iff a b, bytes_eq_iff b a)

-- The bytes before the first that passes the test, and the rest from it on: `find_first_of` or `find`,
-- and `substr`.
unfoldable pub break_at : (ℕ → Bool) → Bytes → Bytes × Bytes
break_at stop [] = ([], [])
break_at stop (c ∷ cs) =
    let more = break_at stop cs in if stop c then ([], c ∷ cs) else (c ∷ more.0, more.1)
