-- ===== src/Text/CString.antt =====
-- A string as a C function reads it, `c_str`: up to the first NUL.
use duckpass.Prelude.{ℕ, ◌==◌, false, [], ◌∷◌, ◌≡◌, refl, ap, Bytes, if◌then◌else◌, All}

unfoldable pub c_str : Bytes → Bytes
c_str [] = []
c_str (c ∷ cs) = if c == 0 then [] else c ∷ c_str cs

abbrev pub IsNonzero : ℕ → Type 0
IsNonzero c = (c == 0) ≡ false

-- A string with no NUL is read whole.
pub c_str-All : (s : Bytes) → All IsNonzero s → c_str s ≡ s
unfolding c_str
c_str-All [] a = refl
c_str-All (c ∷ s) a = rw a.0 (ap (◌∷◌ c) (c_str-All s a.1))
