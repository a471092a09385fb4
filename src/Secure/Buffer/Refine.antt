-- ===== src/Secure/Buffer/Refine.antt =====
-- Every operation of a `SecureString` is the operation on the list of its characters, also where it reads from
-- the string itself.
use duckpass.Prelude.{
  ℕ, ◌-◌, ◌≤◌, ◌<◌, ◌==◌, true, false, List, [], ◌∷◌, ◌++◌, ◌≡◌, refl, sym, ap, none, some, Bytes,
  length, length-drop, take, drop, take_first, drop_first, ltb, leb, if◌then◌else◌, arith,
  Bool-cases, inl, inr, append_assoc,
}
use duckpass.Secure.Buffer.{
  Buffer, drop_last, terminate, Range, foreign, own, null, foreign_at, own_at, read_range,
  from_range, from_c_str, clear, push_back, pop_back, assign, append, assign_pointer,
  append_pointer, append_other, lacks_end, erase, contents,
}
use duckpass.Secure.Buffer.Laws.{
  Represents, contents-Represents, contents-terminate, drop_last-Represents, size-Represents, Op,
  clears, pushes, pops, assigns, appends, assigns_pointer, appends_pointer, appends_string, erases,
  apply, on_list, InRange, IsLegal,
}
use duckpass.Text.CString.{c_str}

read_range-Represents :
    (buffer : Buffer) (s : Bytes) (range : Range)
    → Represents buffer s
    → InRange range s
    → read_range buffer range ≡ read_range s range
read_range-Represents buffer s (foreign bytes) r i = refl
read_range-Represents buffer s (own first last) (inr (e, z)) i = rw (e, z) refl
read_range-Represents buffer s (own first last) (inl e) i =
    rw (e, drop_first first s (0 ∷ []) (omega (arith, i.0, i.1)))
      (take_first (last - first) (drop first s) (0 ∷ [])
        (omega (arith, length-drop first s, i.0, i.1)))

c_str-end : (s : Bytes) → c_str (terminate s) ≡ c_str s
unfolding c_str
c_str-end [] = refl
c_str-end (c ∷ s) = elim (Bool-cases (c == 0)) [
  | inl end ↦ rw end refl
  | inr more ↦ rw more (ap (◌∷◌ c) (c_str-end s))
]

c_str-Represents :
    (buffer : Buffer) (s : Bytes) (place : ℕ)
    → Represents buffer s
    → place ≤ length s
    → c_str (drop place buffer) ≡ c_str (drop place s)
c_str-Represents buffer s place (inr (e, z)) h = rw (e, z) refl
c_str-Represents buffer s place (inl e) h =
    rw (e, drop_first place s (0 ∷ []) h) (c_str-end (drop place s))

assign-Represents :
    (range : Range) (buffer : Buffer) (s : Bytes)
    → Represents buffer s
    → InRange range s
    → Represents (assign range buffer) (read_range s range)
unfolding assign from_range
assign-Represents (foreign bytes) buffer s r i = inl refl
assign-Represents (own first last) buffer s r i = elim (Bool-cases (first == last)) [
  | inr differ ↦
      rw differ (inl (ap terminate (read_range-Represents buffer s (own first last) r i)))
  | inl same ↦
      let nothing : last - first ≡ 0 = ground (arith, same) in rw (same, nothing) (inl refl)
]

append-Represents :
    (range : Range) (buffer : Buffer) (s : Bytes)
    → Represents buffer s
    → InRange range s
    → Represents (append range buffer) (s ++ read_range s range)
unfolding append
append-Represents (foreign bytes) buffer s r i = rw (drop_last-Represents buffer s r) (inl refl)
append-Represents (own first last) buffer s r i = elim (Bool-cases (first == last)) [
  | inr differ ↦
      rw
        (
          differ,
          drop_last-Represents buffer s r,
          read_range-Represents buffer s (own first last) r i,
        )
        (inl refl)
  | inl same ↦
      let nothing : last - first ≡ 0 = ground (arith, same) in
      rw (same, nothing, drop_last-Represents buffer s r) (inl refl)
]

lacks_end-terminate : (s t : Bytes) → lacks_end (s ++ terminate t) ≡ false
unfolding lacks_end
lacks_end-terminate [] [] = refl
lacks_end-terminate [] (c ∷ []) = refl
lacks_end-terminate [] (c ∷ d ∷ t) = lacks_end-terminate [] (d ∷ t)
lacks_end-terminate (c ∷ []) [] = refl
lacks_end-terminate (c ∷ []) (d ∷ t) = lacks_end-terminate [] (d ∷ t)
lacks_end-terminate (c ∷ d ∷ s) t = lacks_end-terminate (d ∷ s) t

erase-Represents :
    (first last : ℕ) (buffer : Buffer) (s : Bytes)
    → Represents buffer s
    → Represents (erase (some first) (some last) buffer) (
        if leb last first
        then s
        else if ltb (length s) last
        then s
        else take first s ++ drop last s)
unfolding erase
erase-Represents first last buffer s r = elim (Bool-cases (leb last first)) [
  | inl backward ↦ rw backward r
  | inr forward ↦ elim (Bool-cases (ltb (length s) last)) [
    | inl outside ↦ rw (forward, size-Represents buffer s r, outside) r
    | inr inside ↦
        rw (forward, size-Represents buffer s r, inside)
          (erased r (ground (arith, forward)) (ground (arith, inside)))
  ]
]
  where
    erased :
        Represents buffer s
        → first < last
        → last ≤ length s
        → Represents
            (if lacks_end (take first buffer ++ drop last buffer)
              then terminate (take first buffer ++ drop last buffer)
              else take first buffer ++ drop last buffer)
            (take first s ++ drop last s)
    erased (inr (e, z)) lt le = absurd (omega (arith, ap length z))
    erased (inl e) lt le =
        rw
          (
            e,
            take_first first s (0 ∷ []) (omega (arith, lt, le)),
            drop_first last s (0 ∷ []) le,
            lacks_end-terminate (take first s) (drop last s),
          )
          (inl (sym (append_assoc (take first s) (drop last s) (0 ∷ []))))

pop_back-Represents :
    (buffer : Buffer) (s : Bytes) → Represents buffer s → Represents (pop_back buffer) (drop_last s)
unfolding pop_back
pop_back-Represents buffer s r = elim (Bool-cases (length s == 0)) [
  | inl empty ↦ rw (size-Represents buffer s r, empty) (still s r empty)
  | inr filled ↦ rw (size-Represents buffer s r, filled, drop_last-Represents buffer s r) (inl refl)
]
  where
    still :
        (s : Bytes) → Represents buffer s → (length s == 0) ≡ true → Represents buffer (drop_last s)
    still [] r h = unfold drop_last in r
    still (c ∷ s) r h = absurd (ground (arith, h))

apply-Represents :
    (op : Op) (buffer : Buffer) (s : Bytes)
    → Represents buffer s
    → IsLegal op s
    → Represents (apply op buffer) (on_list op s)
unfolding apply on_list
apply-Represents clears buffer s r l = unfold clear in inl refl
apply-Represents (pushes c) buffer s r l =
    unfold push_back in
    rw (drop_last-Represents buffer s r) (inl (sym (append_assoc s (c ∷ []) (0 ∷ []))))
apply-Represents pops buffer s r l = pop_back-Represents buffer s r
apply-Represents (assigns range) buffer s r l = assign-Represents range buffer s r l
apply-Represents (appends range) buffer s r l = append-Represents range buffer s r l
apply-Represents (assigns_pointer null) buffer s r l = unfold assign_pointer in inl refl
apply-Represents (assigns_pointer (foreign_at t)) buffer s r l = unfold assign_pointer in inl refl
apply-Represents (assigns_pointer (own_at place)) buffer s r l =
    unfold assign_pointer in
    unfold from_c_str in rw (c_str-Represents buffer s place r l) (inl refl)
apply-Represents (appends_pointer null) buffer s r l = unfold append_pointer in r
apply-Represents (appends_pointer (foreign_at t)) buffer s r l =
    unfold append_pointer in append-Represents (foreign (c_str t)) buffer s r tt
apply-Represents (appends_pointer (own_at place)) buffer s r l =
    unfold append_pointer in
    rw (c_str-Represents buffer s place r l)
      (append-Represents (foreign (c_str (drop place s))) buffer s r tt)
apply-Represents (appends_string none) buffer s r l =
    unfold append_other in
    rw (drop_last-Represents buffer s r, contents-Represents buffer s r) (inl refl)
apply-Represents (appends_string (some t)) buffer s r l =
    unfold append_other in rw (drop_last-Represents buffer s r, contents-terminate t) (inl refl)
apply-Represents (erases none last) buffer s r l = unfold erase in r
apply-Represents (erases (some first) none) buffer s r l = unfold erase in r
apply-Represents (erases (some first) (some last)) buffer s r l =
    erase-Represents first last buffer s r

unfoldable pub apply_all : List Op → Buffer → Buffer
apply_all [] buffer = buffer
apply_all (op ∷ ops) buffer = apply_all ops (apply op buffer)

unfoldable pub on_list_all : List Op → Bytes → Bytes
on_list_all [] s = s
on_list_all (op ∷ ops) s = on_list_all ops (on_list op s)

-- Each operation is legal where it is done.
unfoldable pub AllLegal : List Op → Bytes → Type 0
unfolding on_list
AllLegal [] s = Unit {0}
AllLegal (op ∷ ops) s = IsLegal op s × AllLegal ops (on_list op s)

-- Operations in a row, on a string that holds some characters and ends with a NUL, or was moved from and
-- holds none, leave a string of that kind with the characters that the operations give on lists: also where
-- they read from the string that they change, as long as the ranges and places that they are given lie in it.
pub apply_all-Represents :
    (ops : List Op) (buffer : Buffer) (s : Bytes)
    → Represents buffer s
    → AllLegal ops s
    → Represents (apply_all ops buffer) (on_list_all ops s)
      × (contents (apply_all ops buffer) ≡ on_list_all ops s)
unfolding apply_all on_list_all AllLegal
apply_all-Represents [] buffer s r l = (r, contents-Represents buffer s r)
apply_all-Represents (op ∷ ops) buffer s r l =
    apply_all-Represents ops (apply op buffer) (on_list op s) (apply-Represents op buffer s r l.0)
      l.1
