-- ===== src/Secure/Buffer/Laws.antt =====
-- A `SecureString` is the list of its characters.
use duckpass.Prelude.{
  ℕ, ◌≤◌, ◌==◌, ==_iff, true, false, [], ◌∷◌, ◌++◌, ◌≡◌, refl, sym, ap, ◌∙◌, ◌⊎◌, Option, none,
  some, Bytes, bytes_eq, bytes_eq_iff, length, length-append, take, drop, take-append, ltb, leb,
  if◌then◌else◌, arith, Bool-cases, inl, inr,
}
use duckpass.Secure.Buffer.{
  Buffer, drop_last, terminate, size, contents, Range, foreign, own, CPointer, null, foreign_at,
  own_at, read_range, clear, push_back, pop_back, assign, append, assign_pointer, append_pointer,
  append_other, erase, equals,
}
use duckpass.Text.CString.{c_str}

pub drop_last-terminate : (s : Bytes) → drop_last (terminate s) ≡ s
unfolding drop_last
drop_last-terminate [] = refl
drop_last-terminate (c ∷ []) = refl
drop_last-terminate (c ∷ d ∷ s) = ap (◌∷◌ c) (drop_last-terminate (d ∷ s))

size-terminate : (s : Bytes) → size (terminate s) ≡ length s
unfolding size
size-terminate [] = refl
size-terminate (c ∷ s) = omega (arith, length-append s (0 ∷ []))

pub contents-terminate : (s : Bytes) → contents (terminate s) ≡ s
unfolding contents
contents-terminate s = rw (size-terminate s) (take-append s (0 ∷ []))

-- A buffer with its NUL, or one that was moved from, which stands for no characters.
abbrev pub Represents : Buffer → Bytes → Type 0
Represents buffer s = (buffer ≡ terminate s) ⊎ ((buffer ≡ []) × (s ≡ []))

pub contents-Represents : (buffer : Buffer) (s : Bytes) → Represents buffer s → contents buffer ≡ s
contents-Represents buffer s (inl e) = rw e (contents-terminate s)
contents-Represents buffer s (inr (e, z)) = rw (e, z) (unfold contents in unfold size in refl)

pub drop_last-Represents :
    (buffer : Buffer) (s : Bytes) → Represents buffer s → drop_last buffer ≡ s
drop_last-Represents buffer s (inl e) = rw e (drop_last-terminate s)
drop_last-Represents buffer s (inr (e, z)) = rw (e, z) (unfold drop_last in refl)

pub size-Represents : (buffer : Buffer) (s : Bytes) → Represents buffer s → size buffer ≡ length s
size-Represents buffer s (inl e) = rw e (size-terminate s)
size-Represents buffer s (inr (e, z)) = rw (e, z) (unfold size in refl)

take-contents : (buffer : Buffer) (s : Bytes) → Represents buffer s → take (length s) buffer ≡ s
take-contents buffer s (inl e) = rw e (take-append s (0 ∷ []))
take-contents buffer s (inr (e, z)) = rw (e, z) refl

-- Two strings are equal exactly if their characters are.
pub equals-Represents :
    (a b : Buffer) (s t : Bytes) → Represents a s → Represents b t → equals a b ≡ bytes_eq s t
unfolding equals
equals-Represents a b s t ra rb = elim (Bool-cases (length s == length t)) [
  | inl same ↦
      let n : length t ≡ length s = sym ((==_iff (length s) (length t)).0 same) in
      rw (size-Represents a s ra, size-Represents b t rb, same, take-contents a s ra)
        (ap (bytes_eq s) (ap (λ (k : ℕ). take k b) (sym n) ∙ take-contents b t rb))
  | inr differ ↦
      rw (size-Represents a s ra, size-Represents b t rb, differ)
        (other differ (Bool-cases (bytes_eq s t)))
]
  where
    other :
        (length s == length t) ≡ false
        → (bytes_eq s t ≡ true) ⊎ (bytes_eq s t ≡ false)
        → false ≡ bytes_eq s t
    other differ (inr h) = sym h
    other differ (inl h) =
        let also = (==_iff (length s) (length t)).1 (ap length ((bytes_eq_iff s t).0 h)) in cc

-- The operations that change a string.
pub data Op : Type 0 where
  clears : Op
  pushes : ℕ → Op
  pops : Op
  assigns : Range → Op
  appends : Range → Op
  assigns_pointer : CPointer → Op
  appends_pointer : CPointer → Op
  appends_string : Option Bytes → Op
  erases : Option ℕ → Option ℕ → Op

unfoldable pub apply : Op → Buffer → Buffer
unfolding clear push_back pop_back assign append assign_pointer append_pointer append_other erase
apply clears buffer = clear buffer
apply (pushes c) buffer = push_back c buffer
apply pops buffer = pop_back buffer
apply (assigns range) buffer = assign range buffer
apply (appends range) buffer = append range buffer
apply (assigns_pointer pointer) buffer = assign_pointer pointer buffer
apply (appends_pointer pointer) buffer = append_pointer pointer buffer
apply (appends_string none) buffer = append_other none buffer
apply (appends_string (some s)) buffer = append_other (some (terminate s)) buffer
apply (erases first last) buffer = erase first last buffer

-- What they do to a list of characters.
unfoldable pub on_list : Op → Bytes → Bytes
unfolding drop_last
on_list clears s = []
on_list (pushes c) s = s ++ c ∷ []
on_list pops s = drop_last s
on_list (assigns range) s = read_range s range
on_list (appends range) s = s ++ read_range s range
on_list (assigns_pointer null) s = []
on_list (assigns_pointer (foreign_at t)) s = c_str t
on_list (assigns_pointer (own_at place)) s = c_str (drop place s)
on_list (appends_pointer null) s = s
on_list (appends_pointer (foreign_at t)) s = s ++ c_str t
on_list (appends_pointer (own_at place)) s = s ++ c_str (drop place s)
on_list (appends_string none) s = s ++ s
on_list (appends_string (some t)) s = s ++ t
on_list (erases none last) s = s
on_list (erases (some first) none) s = s
on_list (erases (some first) (some last)) s =
    if leb last first then s else if ltb (length s) last then s else take first s ++ drop last s

-- A range or a pointer into the string lies in it.
abbrev pub InRange : Range → Bytes → Type 0
InRange (foreign bytes) s = Unit {0}
InRange (own first last) s = (first ≤ last) × (last ≤ length s)

abbrev pub IsAt : CPointer → Bytes → Type 0
IsAt null s = Unit {0}
IsAt (foreign_at t) s = Unit {0}
IsAt (own_at place) s = place ≤ length s

abbrev pub IsLegal : Op → Bytes → Type 0
IsLegal (assigns range) s = InRange range s
IsLegal (appends range) s = InRange range s
IsLegal (assigns_pointer pointer) s = IsAt pointer s
IsLegal (appends_pointer pointer) s = IsAt pointer s
IsLegal _ s = Unit {0}
