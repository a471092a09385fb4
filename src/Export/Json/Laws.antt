-- ===== src/Export/Json/Laws.antt =====
-- A reader of JSON strings reads what was written.
use duckpass.Export.Json.{hex_digit, escape, escape_all, write_json_string}
use duckpass.Prelude.{
  ℕ, zero, suc, ◌+◌, ◌-◌, ◌*◌, ◌/◌, ◌%◌, ◌<◌, ◌==◌, [], ◌∷◌, ◌++◌, ◌≡◌, refl, ap, ◌∙◌, Option, none,
  some, Bytes, ltb, ltb→lt, if◌then◌else◌, Bool-cases, inl, inr, append_assoc, arith,
}

-- A character before what a reader gives.
abbrev pub before : ℕ → Option (Bytes × Bytes) → Option (Bytes × Bytes)
before c none = none
before c (some (str, rest)) = some (c ∷ str, rest)

-- Where a reader stands: between characters, after a backslash, or in a `\u` escape, with the digits that
-- are to come after this one and the value of those before it.
pub data Mode : Type 0 where
  plain : Mode
  escaped : Mode
  hex : ℕ → ℕ → Mode

-- The value of a hexadecimal digit, in lower case.
unfoldable pub hex_value : ℕ → ℕ
hex_value d = if ltb d 58 then d - 48 else d - 87

-- What a short escape stands for.
unfoldable pub short_escape : ℕ → ℕ
short_escape c =
    if c == b'b'
    then 8
    else if c == b'f'
    then 12
    else if c == b'n'
    then 10
    else if c == b'r'
    then 13
    else if c == b't'
    then 9
    else c

-- A JSON string after its opening quote, and what follows it; a bare control character is an error.
unfoldable pub read_chars : Mode → Bytes → Option (Bytes × Bytes)
read_chars mode [] = none
read_chars plain (c ∷ rest) =
    let after_backslash = read_chars escaped rest in
    let next = before c (read_chars plain rest) in
    if c == b'"'
    then some ([], rest)
    else if c == b'\\'
    then after_backslash
    else if ltb c 32
    then none
    else next
read_chars escaped (c ∷ rest) =
    let unicode = read_chars (hex 3 0) rest in
    let short = before (short_escape c) (read_chars plain rest) in
    if c == b'u' then unicode else short
read_chars (hex zero acc) (d ∷ rest) = before (acc * 16 + hex_value d) (read_chars plain rest)
read_chars (hex (suc k) acc) (d ∷ rest) = read_chars (hex k (acc * 16 + hex_value d)) rest

hex_value-hex_digit : (d : ℕ) → d < 16 → hex_value (hex_digit d) ≡ d
unfolding hex_value hex_digit
hex_value-hex_digit d h = ground arith

-- The digits of an escape `\u00..` spell the character.
escaped_value : ℕ → ℕ
escaped_value c =
    ((((0 * 16 + hex_value b'0') * 16 + hex_value b'0') * 16 + hex_value (hex_digit (c / 16 % 16)))
      * 16)
    + hex_value (hex_digit (c % 16))

escaped_value_lem : (c : ℕ) → c < 32 → escaped_value c ≡ c
unfolding escaped_value hex_value
escaped_value_lem c h =
    let zero_digit = hex_value-hex_digit 0 (omega arith) in
    let high = hex_value-hex_digit (c / 16 % 16) (omega arith) in
    let low = hex_value-hex_digit (c % 16) (omega arith) in rw (high, low, zero_value) (omega arith)
  where
    zero_value : hex_value b'0' ≡ 0
    zero_value = refl

read_chars-escape :
    (c : ℕ) (rest : Bytes) → read_chars plain (escape c ++ rest) ≡ before c (read_chars plain rest)
unfolding read_chars escape short_escape escaped_value
read_chars-escape c rest = elim (Bool-cases (ltb c 32)) [
  | inr printed ↦ ground arith
  | inl control ↦
      let value = escaped_value_lem c (ltb→lt c 32 control) in
      ground (arith, ap (λ (n : ℕ). before n (read_chars plain rest)) value)
]

read_chars-escape_all :
    (str rest : Bytes) → read_chars plain (escape_all str ++ b'"' ∷ rest) ≡ some (str, rest)
unfolding escape_all read_chars
read_chars-escape_all [] rest = refl
read_chars-escape_all (c ∷ str) rest =
    ap (read_chars plain) (append_assoc (escape c) (escape_all str) _)
    ∙ (read_chars-escape c _ ∙ ap (before c) (read_chars-escape_all str rest))

-- A JSON string, with its opening quote.
unfoldable pub read_json_string : Bytes → Option (Bytes × Bytes)
read_json_string [] = none
read_json_string (c ∷ rest) = if c == b'"' then read_chars plain rest else none

-- Whatever its bytes are, a string is read back as it was written, and what follows it is left.
pub read_json_string-write_json_string :
    (str rest : Bytes) → read_json_string (write_json_string str ++ rest) ≡ some (str, rest)
unfolding read_json_string write_json_string
read_json_string-write_json_string str rest =
    ap (read_chars plain) (append_assoc (escape_all str) _ rest) ∙ read_chars-escape_all str rest
