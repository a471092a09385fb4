-- ===== src/Agent/Commands.antt =====
-- `handle_client` of src/agent_server.cpp: the answer to each command.
pub mod Locked
pub mod Held
use duckpass.Agent.State.{AgentServer, Call, elapsed, lock, unlock}
use duckpass.Crypto.{CryptoHandler}
use duckpass.Ipc.Opcode.{
  CommandOpcode, ping_command, status_command, unlock_command, lock_command, get_entry_command,
  add_entry_command, delete_entry_command, list_entries_command, get_totp_command, stop_command,
  command_of, pong, ok_status, locked_status, error_status, not_found_status,
}
use duckpass.Ipc.Packet.{Transfer, Incoming, read_packet, write_packet}
use duckpass.Ipc.Wire.{htonl_bytes, append_string, Extracted, extract_string}
use duckpass.Prelude.Result.{Result, ok, err, what}
use duckpass.Prelude.{
  ℕ, zero, suc, ◌-◌, ◌%◌, ◌^◌, ◌==◌, Bool, true, false, ◌&&◌, List, [], ◌∷◌, ◌++◌, Option, none,
  some, Bytes, text, length, ltb, if◌then◌else◌,
}
use duckpass.Service.Entries
use duckpass.Service.Entries.{get_totp_code}
use duckpass.Service.Search.{MatchResult, list_entries}
use duckpass.Service.State.{VaultService, Outcome}
use duckpass.Storage.Disk.{Storage}
use duckpass.Vault.Entries.{VaultEntry, Vault, get_entry}

-- The opcode and the payload of the response.
abbrev pub Reply : Type 0
Reply = ℕ × Bytes

abbrev pub Answer : Type 0
Answer = Reply × AgentServer × Storage

unfoldable pub message : ℕ → Bytes → Reply
message code str = (code, append_string [] str)

-- `STATUS`: the seconds that are left, and the number of entries.
unfoldable pub remaining_time : ℕ → AgentServer → ℕ
remaining_time clock a =
    if ltb 0 a.idle_timeout_seconds && ltb (elapsed clock a.last_activity) a.idle_timeout_seconds
    then (a.idle_timeout_seconds - elapsed clock a.last_activity) % 2 ^ 32
    else 0

unfoldable pub status_reply : ℕ → AgentServer → Reply
status_reply clock a = elim a.vault_service [
  | none ↦ (ok_status, 0 ∷ htonl_bytes 0 ++ htonl_bytes 0)
  | some s ↦
      (ok_status, 1 ∷ htonl_bytes (remaining_time clock a) ++ htonl_bytes (length s.vault % 2 ^ 32))
]

-- The part of a command under the mutex: `locked`, or the time of the activity and the command itself.
unfoldable pub serve :
    ℕ → AgentServer → Storage → (VaultService → Reply × VaultService × Storage) → Answer
serve clock a storage command = elim a.vault_service [
  | none ↦ (message locked_status (text "Vault is locked in agent."), a, storage)
  | some s ↦
      let (reply, s', storage') = command s in
      (reply, record a { vault_service = some s'; last_activity = clock }, storage')
]

unfoldable pub entry_reply : Option VaultEntry → Reply
entry_reply none = message not_found_status (text "Entry not found.")
entry_reply (some e) =
    let credentials =
      append_string (append_string (append_string [] e.service) e.username) e.password in
    (ok_status, append_string credentials e.totp_secret)

-- The response to a change that returned or threw.
unfoldable pub outcome_reply : Outcome → Reply × VaultService × Storage
outcome_reply (ok _, s, storage) = ((ok_status, []), s, storage)
outcome_reply (err e, s, storage) = (message error_status (what e), s, storage)

unfoldable pub append_listed : Bytes → List VaultEntry → Bytes
append_listed resp [] = resp
append_listed resp (e ∷ entries) =
    append_listed (append_string (append_string resp e.service) e.username) entries

unfoldable pub list_reply : List VaultEntry → Reply
list_reply entries = (ok_status, append_listed (htonl_bytes (length entries % 2 ^ 32)) entries)

unfoldable pub totp_reply : Result (Bytes × ℕ) → Reply
totp_reply (ok (code, remaining)) =
    (ok_status, append_string [] code ++ htonl_bytes (remaining % 2 ^ 32))
totp_reply (err e) = message error_status (what e)

module _ (c : CryptoHandler) (hmac_sha1 : Bytes → Bytes → Option Bytes)
    (sort : List MatchResult → List MatchResult) where
  -- `UNLOCK`
  unfoldable pub handle_unlock : Call → Bytes → AgentServer → Storage → Answer
  handle_unlock call payload a storage =
      let pwd = extract_string payload 0 [] in
      let (error, a') = unlock c call pwd.out_str a storage.disk in
      if pwd.found
      then elim error [
        | none ↦ ((ok_status, []), a', storage)
        | some e ↦ (message error_status e, a', storage)
      ]
      else (message error_status (text "Invalid unlock payload."), a, storage)

  -- `GET_ENTRY`
  unfoldable pub handle_get : Call → Bytes → AgentServer → Storage → Answer
  handle_get call payload a storage =
      let service = extract_string payload 0 [] in
      if service.found
      then serve call.clock a storage
          (λ s. (entry_reply (get_entry service.out_str s.vault), s, storage))
      else (message error_status (text "Malformed get payload."), a, storage)

  -- `ADD_ENTRY`
  unfoldable pub handle_add : Call → Bytes → AgentServer → Storage → Answer
  handle_add call payload a storage =
      let s = extract_string payload 0 [] in
      let u = extract_string payload s.offset [] in
      let p = extract_string payload u.offset [] in
      let t = extract_string payload p.offset [] in
      if s.found && u.found && p.found && t.found
      then serve call.clock a storage (λ v.
        outcome_reply
          (Entries.add_entry c call.env s.out_str u.out_str p.out_str t.out_str v storage))
      else (message error_status (text "Malformed add payload."), a, storage)

  -- `DELETE_ENTRY`
  unfoldable pub handle_delete : Call → Bytes → AgentServer → Storage → Answer
  handle_delete call payload a storage =
      let s = extract_string payload 0 [] in
      if s.found
      then serve call.clock a storage
          (λ v. outcome_reply (Entries.delete_entry c call.env s.out_str v storage))
      else (message error_status (text "Malformed delete payload."), a, storage)

  -- `LIST_ENTRIES`: a query that cannot be extracted is the empty one.
  unfoldable pub handle_list : Call → Bytes → AgentServer → Storage → Answer
  handle_list call payload a storage =
      let query = extract_string payload 0 [] in
      serve call.clock a storage
        (λ s. (list_reply (list_entries sort query.out_str s.vault), s, storage))

  -- `GET_TOTP`
  unfoldable pub handle_totp : Call → Bytes → AgentServer → Storage → Answer
  handle_totp call payload a storage =
      let service = extract_string payload 0 [] in
      if service.found
      then serve call.clock a storage (λ s.
        (totp_reply (get_totp_code hmac_sha1 call.env.now service.out_str s.vault), s, storage))
      else (message error_status (text "Malformed TOTP payload."), a, storage)

  -- The `switch`.
  unfoldable pub handle_command :
      Call → Option CommandOpcode → Bytes → AgentServer → Storage → Answer
  handle_command call (some ping_command) payload a storage = ((pong, []), a, storage)
  handle_command call (some status_command) payload a storage =
      (status_reply call.clock a, a, storage)
  handle_command call (some unlock_command) payload a storage = handle_unlock call payload a storage
  handle_command call (some lock_command) payload a storage = ((ok_status, []), lock a, storage)
  handle_command call (some get_entry_command) payload a storage = handle_get call payload a storage
  handle_command call (some add_entry_command) payload a storage = handle_add call payload a storage
  handle_command call (some delete_entry_command) payload a storage =
      handle_delete call payload a storage
  handle_command call (some list_entries_command) payload a storage =
      handle_list call payload a storage
  handle_command call (some get_totp_command) payload a storage = handle_totp call payload a storage
  handle_command call (some stop_command) payload a storage =
      ((ok_status, []), record a { running = false }, storage)
  handle_command call none payload a storage =
      (message error_status (text "Unknown command opcode."), a, storage)

  -- A client whose packet cannot be read gets no response.
  unfoldable pub handle_client :
      Call → Incoming → List Transfer → AgentServer → Storage → Bytes × AgentServer × Storage
  handle_client call incoming writes a storage = elim (read_packet incoming) [
    | none ↦ ([], a, storage)
    | some (code, payload, _) ↦
        let ((status, resp), a', storage') =
          handle_command call (command_of code) payload a storage in
        ((write_packet writes status resp).0, a', storage')
  ]
