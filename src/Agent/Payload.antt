-- ===== src/Agent/Payload.antt =====
-- Payloads that the agent writes and the client parses.
use duckpass.Agent.Commands.{Reply, message, serve, entry_reply}
use duckpass.Agent.State.{AgentServer}
use duckpass.Ipc.Client.{EntryData, received, parse_entry, answered}
use duckpass.Ipc.Opcode.{
  CommandOpcode, ping_command, status_command, unlock_command, lock_command, get_entry_command,
  add_entry_command, delete_entry_command, list_entries_command, get_totp_command, stop_command,
  command_of, opcode,
}
use duckpass.Ipc.Packet.{max_payload}
use duckpass.Ipc.Wire.RoundTrip.{extract_string-append_string, length-append_string}
use duckpass.Ipc.Wire.{append_string, extract_string}
use duckpass.Prelude.{
  ℕ, ◌+◌, ◌^◌, ◌≤◌, ◌<◌, true, [], ◌++◌, ◌≡◌, refl, sym, ap, subst, ◌∙◌, Option, none, some, Bytes,
  text, length, append_assoc, append-nil, arith,
}
use duckpass.Service.State.{VaultService}
use duckpass.Storage.Disk.{Storage}
use duckpass.Vault.Entries.{VaultEntry}

pub command_of-opcode : (command : CommandOpcode) → command_of (opcode command) ≡ some command
unfolding command_of opcode
command_of-opcode ping_command = refl
command_of-opcode status_command = refl
command_of-opcode unlock_command = refl
command_of-opcode lock_command = refl
command_of-opcode get_entry_command = refl
command_of-opcode add_entry_command = refl
command_of-opcode delete_entry_command = refl
command_of-opcode list_entries_command = refl
command_of-opcode get_totp_command = refl
command_of-opcode stop_command = refl

pub append_string-buffer : (buf str : Bytes) → append_string buf str ≡ buf ++ append_string [] str
unfolding append_string
append_string-buffer buf str = append_assoc buf _ str

-- The four strings of an entry, read from a payload that has them one after the other.
pub parse_entry-append_string :
    (s u p t : Bytes)
    → length (append_string (append_string (append_string (append_string [] s) u) p) t)
      ≤ max_payload
    → parse_entry (append_string (append_string (append_string (append_string [] s) u) p) t)
      ≡ record { service = s; username = u; password = p; totp_secret = t }
unfolding parse_entry
parse_entry-append_string s u p t small = rw (first, second, third, fourth) refl
  where
    S : Bytes
    S = append_string [] s

    U : Bytes
    U = append_string S u

    P : Bytes
    P = append_string U p

    T : Bytes
    T = append_string P t

    size : length T ≡ length s + length u + length p + length t + 16
    size =
        rw
          (
            length-append_string P t,
            length-append_string U p,
            length-append_string S u,
            length-append_string [] s,
          )
          (omega arith)

    later : Bytes
    later = append_string [] p ++ append_string [] t

    from_u : T ≡ U ++ later
    from_u =
        append_string-buffer P t
        ∙ (ap (λ (x : Bytes). x ++ append_string [] t) (append_string-buffer U p)
            ∙ append_assoc U _ _)

    from_s : T ≡ S ++ (append_string [] u ++ later)
    from_s =
        from_u ∙ (ap (λ (x : Bytes). x ++ later) (append_string-buffer S u) ∙ append_assoc S _ _)

    first : extract_string T 0 [] ≡ record { found = true; offset = length S; out_str = s }
    first =
        subst
          (λ (x : Bytes).
            extract_string x 0 [] ≡ record { found = true; offset = length S; out_str = s })
          (sym from_s)
          (extract_string-append_string [] s (append_string [] u ++ later) [] (omega (arith, size)))

    second :
        extract_string T (length S) [] ≡ record { found = true; offset = length U; out_str = u }
    second =
        subst
          (λ (x : Bytes).
            extract_string x (length S) []
            ≡ record { found = true; offset = length U; out_str = u })
          (sym from_u) (extract_string-append_string S u later [] (omega (arith, size)))

    third : extract_string T (length U) [] ≡ record { found = true; offset = length P; out_str = p }
    third =
        subst
          (λ (x : Bytes).
            extract_string x (length U) []
            ≡ record { found = true; offset = length P; out_str = p })
          (sym (append_string-buffer P t))
          (extract_string-append_string U p (append_string [] t) [] (omega (arith, size)))

    fourth :
        extract_string T (length P) [] ≡ record { found = true; offset = length T; out_str = t }
    fourth =
        subst
          (λ (x : Bytes).
            extract_string x (length P) []
            ≡ record { found = true; offset = length T; out_str = t })
          (append-nil T) (extract_string-append_string P t [] [] (omega (arith, size)))

-- What a client should get for an entry that the vault has or has not.
abbrev pub entry_data : Option VaultEntry → Bytes → Option EntryData × Bytes
entry_data none out_error = (none, text "Entry not found.")
entry_data (some e) out_error = (
  some (record {
    service = e.service;
    username = e.username;
    password = e.password;
    totp_secret = e.totp_secret;
  }),
  out_error,
)

pub extract_whole :
    (str out_str : Bytes)
    → length str < 2 ^ 32
    → extract_string (append_string [] str) 0 out_str
      ≡ record { found = true; offset = length (append_string [] str); out_str = str }
extract_whole str out_str fits =
    subst
      (λ (x : Bytes).
        extract_string x 0 out_str
        ≡ record { found = true; offset = length (append_string [] str); out_str = str })
      (append-nil _) (extract_string-append_string [] str [] out_str fits)

pub understood :
    (out_error : Bytes) (o : Option VaultEntry)
    → length (entry_reply o).1 ≤ max_payload
    → answered parse_entry
        (text "Failed to send get request.")
        out_error
        (received (entry_reply o).0 (entry_reply o).1)
      ≡ entry_data o out_error
unfolding answered entry_reply message text
understood out_error none small =
    rw (extract_whole (text "Entry not found.") out_error (omega arith)) refl
understood out_error (some e) small =
    rw (parse_entry-append_string e.service e.username e.password e.totp_secret small) refl

pub serve_reply :
    (clock : ℕ) (a : AgentServer) (storage : Storage)
    (f : VaultService → Reply × VaultService × Storage) (s : VaultService)
    → a.vault_service ≡ some s
    → (serve clock a storage f).0 ≡ (f s).0
unfolding serve
serve_reply clock a storage f s h = rw (h, serve) refl
