-- ===== src/Tests/Export.antt =====
-- src/export_command.cpp at concrete inputs.
use duckpass.Export.Csv.Laws.{IsFormula, IsShielded, read_csv_field, read_csv_field-write_csv_field}
use duckpass.Export.Csv.{write_csv_field}
use duckpass.Export.Json.Laws.{read_json_string, read_json_string-write_json_string}
use duckpass.Export.Json.{write_json_string}
use duckpass.Prelude.{[], ◌∷◌, ◌++◌, ◌≡◌, refl, some, Bytes}

-- A formula with a quote.
abbrev formula : Bytes
formula = b'=' ∷ b'"' ∷ b'A' ∷ []

read_csv_field-write_csv_field_example :
    (s : Bytes) × (read_csv_field (write_csv_field formula ++ b',' ∷ []) ≡ some (s, b',' ∷ []))
    × IsShielded formula s
    × ¬◌ (IsFormula s)
read_csv_field-write_csv_field_example = read_csv_field-write_csv_field formula (b',' ∷ []) refl

-- A quote, a tab and a control character.
abbrev special : Bytes
special = b'"' ∷ b'\t' ∷ 31 ∷ []

read_json_string-write_json_string_example :
    read_json_string (write_json_string special ++ b',' ∷ []) ≡ some (special, b',' ∷ [])
read_json_string-write_json_string_example = read_json_string-write_json_string special (b',' ∷ [])
