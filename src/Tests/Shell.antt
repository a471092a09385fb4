-- ===== src/Tests/Shell.antt =====
-- src/shell_command.cpp at concrete inputs.
use duckpass.Prelude.{◌≡◌, ◌⊎◌, ◌++◌, false, refl, true, List, [], ◌∷◌, Bytes, text}
use duckpass.Prelude.Result.{ok}
use duckpass.Shell.Session.{Session, Outside, run_command}
use duckpass.Shell.Password.{Keeps, run_command-Keeps}
use duckpass.Tests.Service.{env, service, storage}
use duckpass.Tests.Toy.{toy}
use duckpass.Shell.{read_command}
use duckpass.Shell.Command.{get, delete, otp, edit, list, rekey}
use duckpass.Shell.Laws.{typed, read_command-service}

-- Two spaces before, a tab between, `a b`, and a line break after.
abbrev a_b : Bytes
a_b = 97 ∷ 32 ∷ 98 ∷ []

read_command-service_example :
    (read_command (typed (32 ∷ 32 ∷ []) (text "delete ") (9 ∷ []) a_b (10 ∷ [])) ≡ delete a_b)
    × (read_command (typed (32 ∷ 32 ∷ []) (text "otp ") (9 ∷ []) a_b (10 ∷ [])) ≡ otp a_b)
    × (read_command (typed (32 ∷ 32 ∷ []) (text "edit ") (9 ∷ []) a_b (10 ∷ [])) ≡ edit a_b)
    × (read_command (typed (32 ∷ 32 ∷ []) (text "update ") (9 ∷ []) a_b (10 ∷ [])) ≡ edit a_b)
    × (read_command (typed (32 ∷ 32 ∷ []) (text "get --show ") (9 ∷ []) a_b (10 ∷ []))
        ≡ get true a_b)
    × ((read_command (typed (32 ∷ 32 ∷ []) (text "get ") (9 ∷ []) a_b (10 ∷ [])) ≡ get false a_b)
        ⊎ ((r : Bytes) × (a_b ≡ text "--show " ++ r)))
    × (read_command (typed (32 ∷ 32 ∷ []) (text "list ") (9 ∷ []) a_b (10 ∷ [])) ≡ list a_b)
read_command-service_example =
    read_command-service (32 ∷ 32 ∷ []) (9 ∷ []) a_b (10 ∷ []) (refl, (refl, tt)) (refl, tt)
      (refl, tt) (refl, refl)

-- A rekey whose new password was typed twice.
abbrev session : Session
session = record { vault_service = service; storage = storage; services = []; locks = 0 }

abbrev outside : Outside
outside = record { env = env; is_agent_available = true; generated = ok [] }

abbrev three_lines : List Bytes
three_lines = [] ∷ (6 ∷ []) ∷ (6 ∷ []) ∷ []

run_command-Keeps_example :
    Keeps true rekey three_lines session (run_command toy outside rekey three_lines session)
run_command-Keeps_example = run_command-Keeps toy outside rekey three_lines session
