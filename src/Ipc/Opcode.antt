-- ===== src/Ipc/Opcode.antt =====
-- `CommandOpcode` and `ResponseStatus` of include/duckpass/ipc.h.
use duckpass.Prelude.{ℕ, ◌==◌, Option, none, some, if◌then◌else◌}

pub data CommandOpcode : Type 0 where
  ping_command : CommandOpcode
  status_command : CommandOpcode
  unlock_command : CommandOpcode
  lock_command : CommandOpcode
  get_entry_command : CommandOpcode
  add_entry_command : CommandOpcode
  delete_entry_command : CommandOpcode
  list_entries_command : CommandOpcode
  get_totp_command : CommandOpcode
  stop_command : CommandOpcode

unfoldable pub opcode : CommandOpcode → ℕ
opcode ping_command = 1
opcode status_command = 2
opcode unlock_command = 3
opcode lock_command = 4
opcode get_entry_command = 5
opcode add_entry_command = 6
opcode delete_entry_command = 7
opcode list_entries_command = 8
opcode get_totp_command = 9
opcode stop_command = 10

-- `static_cast<CommandOpcode>(opcode)`; `none` is the `default` of the `switch`.
unfoldable pub command_of : ℕ → Option CommandOpcode
command_of n =
    if n == 1
    then some ping_command
    else if n == 2
    then some status_command
    else if n == 3
    then some unlock_command
    else if n == 4
    then some lock_command
    else if n == 5
    then some get_entry_command
    else if n == 6
    then some add_entry_command
    else if n == 7
    then some delete_entry_command
    else if n == 8
    then some list_entries_command
    else if n == 9
    then some get_totp_command
    else if n == 10
    then some stop_command
    else none

-- The answer to a ping, which is no `ResponseStatus`.
abbrev pub pong : ℕ
pong = 129

abbrev pub ok_status : ℕ
ok_status = 0

abbrev pub locked_status : ℕ
locked_status = 1

abbrev pub error_status : ℕ
error_status = 2

abbrev pub not_found_status : ℕ
not_found_status = 3
