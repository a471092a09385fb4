-- ===== src/Export/Csv.antt =====
-- `write_csv_field` and `write_csv` of src/export_command.cpp.
pub mod Laws
use duckpass.Prelude.{ℕ, ◌==◌, Bool, ◌||◌, List, [], ◌∷◌, ◌++◌, Bytes, text, if◌then◌else◌}
use duckpass.Vault.Entries.{VaultEntry, Vault}

-- The characters with which a formula starts.
unfoldable pub starts_formula : ℕ → Bool
starts_formula c = c == b'=' || c == b'+' || c == b'-' || c == b'@' || c == b'\t' || c == b'\r'

-- What is written before the characters of the field.
unfoldable pub shield : Bytes → Bytes
shield [] = []
shield (first ∷ field) = if starts_formula first then b'\'' ∷ [] else []

-- The loop over the characters.
unfoldable pub double_quotes : Bytes → Bytes
double_quotes [] = []
double_quotes (c ∷ field) =
    let rest = double_quotes field in if c == b'"' then b'"' ∷ b'"' ∷ rest else c ∷ rest

unfoldable pub write_csv_field : Bytes → Bytes
write_csv_field field = b'"' ∷ shield field ++ (double_quotes field ++ b'"' ∷ [])

unfoldable pub write_row : VaultEntry → Bytes
write_row e =
    write_csv_field e.service
    ++ (b',' ∷ write_csv_field e.username
        ++ (b',' ∷ write_csv_field e.password
            ++ (b',' ∷ write_csv_field e.totp_secret ++ b'\n' ∷ [])))

unfoldable pub write_rows : Vault → Bytes
write_rows [] = []
write_rows (e ∷ entries) = write_row e ++ write_rows entries

unfoldable pub write_csv : Vault → Bytes
write_csv entries = text "service,username,password,totp_secret" ++ (b'\n' ∷ write_rows entries)
