-- ===== src/Export/Json.antt =====
-- `write_json_string` and `write_json` of src/export_command.cpp.
pub mod Laws
use duckpass.Prelude.{
  ℕ, ◌+◌, ◌/◌, ◌%◌, ◌==◌, Bool, List, [], ◌∷◌, ◌++◌, Bytes, text, ltb, is_empty, if◌then◌else◌,
}
use duckpass.Vault.Entries.{VaultEntry, Vault}

-- A digit of `%04x`.
unfoldable pub hex_digit : ℕ → ℕ
hex_digit d = if ltb d 10 then b'0' + d else 87 + d

-- The `switch` for one character; `b`, `f`, `n`, `r` and `t` are the short escapes.
unfoldable pub escape : ℕ → Bytes
escape c =
    if c == b'"'
    then b'\\' ∷ b'"' ∷ []
    else if c == b'\\'
    then b'\\' ∷ b'\\' ∷ []
    else if c == 8
    then b'\\' ∷ b'b' ∷ []
    else if c == 12
    then b'\\' ∷ b'f' ∷ []
    else if c == 10
    then b'\\' ∷ b'n' ∷ []
    else if c == 13
    then b'\\' ∷ b'r' ∷ []
    else if c == 9
    then b'\\' ∷ b't' ∷ []
    else if ltb c 32
    then b'\\' ∷ b'u' ∷ b'0' ∷ b'0' ∷ hex_digit (c / 16 % 16) ∷ hex_digit (c % 16) ∷ []
    else c ∷ []

unfoldable pub escape_all : Bytes → Bytes
escape_all [] = []
escape_all (c ∷ str) = escape c ++ escape_all str

unfoldable pub write_json_string : Bytes → Bytes
write_json_string str = b'"' ∷ escape_all str ++ b'"' ∷ []

-- A line `"name": "value"`.
unfoldable pub write_member : Bytes → Bytes → Bytes
write_member name value = text "    \"" ++ (name ++ (text "\": " ++ write_json_string value))

unfoldable pub write_object : VaultEntry → Bytes
write_object e =
    text "  {\n"
    ++ (write_member (text "service") e.service
        ++ (text ",\n"
            ++ (write_member (text "username") e.username
                ++ (text ",\n"
                    ++ (write_member (text "password") e.password
                        ++ (text ",\n"
                            ++ (write_member (text "totp_secret") e.totp_secret
                                ++ text "\n  }")))))))

-- The loop; there is no comma after the last entry.
unfoldable pub write_objects : Vault → Bytes
write_objects [] = []
write_objects (e ∷ []) = write_object e ++ text "\n"
write_objects (e ∷ f ∷ entries) = write_object e ++ (text ",\n" ++ write_objects (f ∷ entries))

unfoldable pub write_json : Vault → Bytes
write_json entries = text "[\n" ++ (write_objects entries ++ text "]")
