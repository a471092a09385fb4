-- ===== src/Tests/Agent.antt =====
-- src/agent_server.cpp at concrete inputs.
use duckpass.Agent.Commands.Held.{Holds}
use duckpass.Agent.Commands.Locked.{Alike, handle_command_locked, check_idle_timeout_lem}
use duckpass.Agent.Commands.{handle_command, handle_client, handle_unlock, entry_reply}
use duckpass.Agent.Payload.{entry_data}
use duckpass.Agent.Run.Invariant.{UnlockedBy, run_unlocked}
use duckpass.Agent.Run.{
  Client, accepted, poll_timeout, Round, Startup, round, serve_client, run, run_loop,
}
use duckpass.Agent.Served.{Works, peer, get_entry_lem}
use duckpass.Agent.State.{AgentServer, Call, elapsed, check_idle_timeout, not_watched, unlock}
use duckpass.Ipc.Client
use duckpass.Ipc.Client.{Connection, connect_socket, verify_peer_credentials}
use duckpass.Ipc.Opcode.{command_of, unlock_command, get_entry_command}
use duckpass.Ipc.Packet.{moved, interrupted, max_payload, read_packet, read_all, read_loop}
use duckpass.Ipc.Wire.{append_string, extract_string, htonl_bytes, ntohl_bytes}
use duckpass.Prelude.{
  ◌*◌, ◌^◌, ◌≤◌, ◌≡◌, ◌≢◌, refl, true, false, List, [], ◌∷◌, none, some, Bytes, bytes_eq, length,
  Any, arith,
}
use duckpass.Prelude.Result.{ok}
use duckpass.Service.Search.{MatchResult}
use duckpass.Service.State.{open_service, load_vault}
use duckpass.Storage.Read as File
use duckpass.Storage.Read.{read_file, read_opened, read_rest}
use duckpass.Vault.Entries.{add_entry, place, stamp}
use duckpass.Vault.File.{
  load_blob, has_magic, is_supported, exceeds_limits, read_kdf_params, header_aad, make_header,
}
use duckpass.Vault.Serial.{
  deserialize, read_entries, read_entry, read_last_updated, read_totp_secret, serialize,
  write_entries, write_entry,
}
use duckpass.Vault.Wire.{
  read_uint32, read_uint64, read_string, write_uint32, write_uint64, write_string,
}
use duckpass.Crypto.Gcm.{add_aad, decrypt_data}
use duckpass.Crypto.Handler.{handler}
use duckpass.Storage.Disk.{exists}
use duckpass.Tests.Service.{env, service, disk, storage}
use duckpass.Tests.Storage.{vault_path}
use duckpass.Tests.Totp.{toy_hmac}
use duckpass.Tests.Toy.{toy}
use duckpass.Tests.Vault.{mail, two_entries, password, blob}
use duckpass.Vault.Entries

abbrev same_order : List MatchResult → List MatchResult
same_order matches = matches

abbrev call : Call
call = record { env = env; clock = 5 * 10 ^ 9; vault_path = ok vault_path }

abbrev later_call : Call
later_call = record call { clock = 2000 * 10 ^ 9 }

abbrev locked_agent : AgentServer
locked_agent = record {
  idle_timeout_seconds = 900;
  running = true;
  vault_service = none;
  last_activity = 0;
}

abbrev unlocked_agent : AgentServer
unlocked_agent = record locked_agent { vault_service = some service }

abbrev get_mail : Bytes
unfolding append_string htonl_bytes
get_mail = append_string [] mail.service

no_unlock : some get_entry_command ≢ some unlock_command
no_unlock h = cc

handle_command_locked_example :
    Alike storage
      (record storage { history = disk ∷ [] })
      (handle_command toy toy_hmac same_order call
        (some get_entry_command)
        get_mail
        locked_agent
        storage)
      (handle_command toy toy_hmac same_order later_call
        (some get_entry_command)
        get_mail
        (record locked_agent { last_activity = 7 })
        (record storage { history = disk ∷ [] }))
handle_command_locked_example =
    handle_command_locked toy toy_hmac same_order locked_agent
      (record locked_agent { last_activity = 7 }) call later_call (some get_entry_command) get_mail
      storage (record storage { history = disk ∷ [] }) refl refl no_unlock

late : 900 ≤ elapsed (1000 * 10 ^ 9) 0
unfolding elapsed
late = omega arith

check_idle_timeout_lem_example :
    Alike storage storage
      (handle_command toy toy_hmac same_order later_call
        (some get_entry_command)
        get_mail
        (check_idle_timeout (1000 * 10 ^ 9) unlocked_agent)
        storage)
      (handle_command toy toy_hmac same_order call
        (some get_entry_command)
        get_mail
        locked_agent
        storage)
check_idle_timeout_lem_example =
    check_idle_timeout_lem toy toy_hmac same_order (1000 * 10 ^ 9) unlocked_agent locked_agent
      later_call call (some get_entry_command) get_mail storage storage (omega arith) late refl
      no_unlock

abbrev connection : Connection
connection = record {
  socket_exists = true;
  socket_fails = false;
  connect_fails = false;
  peer = some 1000;
  uid = 1000;
  writes = moved 2 ∷ [];
  reads = interrupted ∷ [];
}

works : Works connection (moved 1 ∷ []) []
unfolding connect_socket verify_peer_credentials
works = record {
  connects = refl;
  client_writes = (omega arith, tt);
  client_reads = (tt, tt);
  agent_reads = (omega arith, tt);
  agent_writes = tt;
}

reply_small : length (entry_reply (Entries.get_entry mail.service service.vault)).1 ≤ max_payload
unfolding entry_reply append_string htonl_bytes Entries.get_entry bytes_eq
reply_small = omega arith

get_entry_lem_example :
    Client.get_entry connection
      (peer toy toy_hmac same_order call (moved 1 ∷ []) [] unlocked_agent storage)
      mail.service
      []
    ≡ entry_data (Entries.get_entry mail.service service.vault) []
get_entry_lem_example =
    get_entry_lem toy toy_hmac same_order connection (moved 1 ∷ []) [] call mail.service []
      unlocked_agent storage service works refl (omega arith) reply_small

-- An `UNLOCK` packet with the password.
abbrev client : Client
client = record {
  peer = some 1000;
  call = call;
  incoming = record { stream = 0 ∷ 0 ∷ 0 ∷ 5 ∷ 3 ∷ 0 ∷ 0 ∷ 0 ∷ 1 ∷ 3 ∷ []; calls = moved 2 ∷ [] };
  writes = [];
}

abbrev rounds : List Round
rounds =
    record { g_stop_requested = false; now = 0; polled = poll_timeout }
    ∷ record { g_stop_requested = false; now = 5; polled = accepted client }
    ∷ []

abbrev startup : Startup
startup = record {
  agent_available = false;
  socket_fails = false;
  bind_fails = false;
  listen_fails = false;
}

opened : Holds password (run toy toy_hmac same_order 1000 startup rounds locked_agent storage).agent
unfolding run run_loop round check_idle_timeout not_watched serve_client verify_peer_credentials
    handle_client read_packet read_all read_loop ntohl_bytes handle_command command_of handle_unlock
    extract_string unlock bytes_eq exists open_service load_vault read_file read_opened
    File.read_all read_rest load_blob has_magic is_supported exceeds_limits read_kdf_params
    header_aad make_header handler decrypt_data add_aad deserialize read_entries read_entry
    read_last_updated read_totp_secret read_uint32 read_uint64 read_string add_entry place stamp
    blob serialize write_entries write_entry write_uint32 write_uint64 write_string
opened = (record service { vault = two_entries; deleted_services = [] }, refl, refl)

run_unlocked_example : Any (UnlockedBy 1000 password) rounds
run_unlocked_example =
    run_unlocked password toy toy_hmac same_order 1000 startup rounds locked_agent storage refl
      opened
