-- ===== src/Secure/Buffer.antt =====
-- `SecureString` of include/duckpass/secure_allocator.h: a vector of characters that ends with a NUL, or is
-- empty after a move. The size and the place of memory are not modelled.
pub mod Laws
pub mod Refine
use duckpass.Prelude.{
  ℕ, zero, suc, ◌-◌, ◌==◌, Bool, true, false, not, ◌&&◌, List, [], ◌∷◌, ◌++◌, Option, none, some,
  Bytes, bytes_eq, length, take, drop, replicate, is_empty, ltb, leb, if◌then◌else◌,
}
use duckpass.Text.CString.{c_str}

-- The vector `m_buffer`.
abbrev pub Buffer : Type 0
Buffer = Bytes

-- `m_buffer.pop_back()`
unfoldable pub drop_last : Buffer → Buffer
drop_last [] = []
drop_last (c ∷ []) = []
drop_last (c ∷ d ∷ buffer) = c ∷ drop_last (d ∷ buffer)

-- `m_buffer.push_back('\0')`
abbrev pub terminate : Buffer → Buffer
terminate buffer = buffer ++ 0 ∷ []

unfoldable pub size : Buffer → ℕ
size buffer = if is_empty buffer then 0 else length buffer - 1

-- What `data()` and `size()` give.
unfoldable pub contents : Buffer → Bytes
unfolding size
contents buffer = take (size buffer) buffer

-- Characters to copy from: elsewhere in memory, or between two places of the string itself.
pub data Range : Type 0 where
  foreign : Bytes → Range
  own : ℕ → ℕ → Range

-- A pointer to characters that end with a NUL: null, elsewhere, or at a place of the string itself.
pub data CPointer : Type 0 where
  null : CPointer
  foreign_at : Bytes → CPointer
  own_at : ℕ → CPointer

-- What the memory holds there now.
abbrev pub read_range : Buffer → Range → Bytes
read_range buffer (foreign bytes) = bytes
read_range buffer (own first last) = take (last - first) (drop first buffer)

-- The tests on the pointers; no character is looked at if the range is empty.
abbrev pub range_aliases : Range → Bool
range_aliases (foreign bytes) = false
range_aliases (own first last) = not (first == last)

-- `OPENSSL_cleanse` of the buffer.
unfoldable pub cleanse : Buffer → Buffer
cleanse buffer = replicate (length buffer) 0

unfoldable pub from_range : Bytes → Buffer
from_range bytes = terminate bytes

unfoldable pub from_c_str : Bytes → Buffer
from_c_str s = terminate (c_str s)

unfoldable pub clear : Buffer → Buffer
clear buffer = terminate []

unfoldable pub push_back : ℕ → Buffer → Buffer
unfolding drop_last
push_back c buffer = drop_last buffer ++ c ∷ 0 ∷ []

unfoldable pub pop_back : Buffer → Buffer
unfolding size drop_last
pop_back buffer = if size buffer == 0 then buffer else terminate (drop_last (drop_last buffer))

-- `assign` of a range. A range of the string itself is copied first; otherwise the buffer is cleansed
-- before the range is read.
unfoldable pub assign : Range → Buffer → Buffer
unfolding cleanse from_range
assign range buffer =
    if range_aliases range
    then from_range (read_range buffer range)
    else terminate (read_range (cleanse buffer) range)

-- `append` of a range; one of the string itself is copied first, and then lies elsewhere.
unfoldable pub append : Range → Buffer → Buffer
unfolding drop_last
append range buffer =
    if range_aliases range
    then terminate (drop_last buffer ++ read_range buffer range)
    else terminate (drop_last buffer ++ read_range (drop_last buffer) range)

-- `operator=` of a pointer.
unfoldable pub assign_pointer : CPointer → Buffer → Buffer
unfolding from_c_str
assign_pointer null buffer = terminate []
assign_pointer (foreign_at s) buffer = terminate (c_str s)
assign_pointer (own_at place) buffer = from_c_str (drop place buffer)

-- `append` of a pointer.
unfoldable pub append_pointer : CPointer → Buffer → Buffer
unfolding drop_last
append_pointer null buffer = buffer
append_pointer (foreign_at s) buffer = append (foreign (c_str s)) buffer
append_pointer (own_at place) buffer = append (foreign (c_str (drop place buffer))) buffer

-- `operator+=` of a string, which may be the string itself.
unfoldable pub append_other : Option Buffer → Buffer → Buffer
unfolding drop_last contents
append_other none buffer = terminate (drop_last buffer ++ contents buffer)
append_other (some other) buffer = terminate (drop_last buffer ++ contents other)

-- `m_buffer.empty() || m_buffer.back() != '\0'`
unfoldable pub lacks_end : Buffer → Bool
lacks_end [] = true
lacks_end (c ∷ []) = not (c == 0)
lacks_end (c ∷ d ∷ buffer) = lacks_end (d ∷ buffer)

-- `erase` of what lies between two places; `none` is a null pointer.
unfoldable pub erase : Option ℕ → Option ℕ → Buffer → Buffer
unfolding size lacks_end
erase none last buffer = buffer
erase (some first) none buffer = buffer
erase (some first) (some last) buffer =
    let kept = take first buffer ++ drop last buffer in
    if leb last first
    then buffer
    else if ltb (size buffer) last
    then buffer
    else if lacks_end kept
    then terminate kept
    else kept

-- `operator==`
unfoldable pub equals : Buffer → Buffer → Bool
unfolding size bytes_eq
equals a b = if size a == size b then bytes_eq (take (size a) a) (take (size a) b) else false

-- `operator=` of another string, by copy and by move; the other is left as the second component.
unfoldable pub copy_assign : Buffer → Buffer → Buffer × Buffer
copy_assign buffer other = (other, other)

unfoldable pub move_assign : Buffer → Buffer → Buffer × Buffer
move_assign buffer other = (other, [])
