-- ===== src/Ipc/Client.antt =====
-- `IpcClient` of src/ipc.cpp. The error text is a reference argument: it is passed in and out.
use duckpass.Ipc.Opcode.{
  CommandOpcode, ping_command, status_command, unlock_command, lock_command, get_entry_command,
  add_entry_command, delete_entry_command, list_entries_command, get_totp_command, stop_command,
  opcode, pong, ok_status,
}
use duckpass.Ipc.Packet.{Transfer, read_packet, write_packet}
use duckpass.Ipc.Wire.{ntohl_bytes, append_string, extract_string}
use duckpass.Prelude.{
  ℕ, zero, suc, ◌+◌, ◌==◌, Bool, true, false, not, ◌&&◌, List, [], ◌∷◌, Option, none, some, Bytes,
  text, get_or, length, drop, ltb, leb, if◌then◌else◌,
}

pub record AgentStatus : Type 0 where
  pub is_unlocked : Bool
  pub timeout_remaining_seconds : ℕ
  pub total_entries : ℕ

pub record EntryData : Type 0 where
  pub service : Bytes
  pub username : Bytes
  pub password : Bytes
  pub totp_secret : Bytes

pub record TotpResult : Type 0 where
  pub code : Bytes
  pub remaining_seconds : ℕ

-- What the system answers to one request: `peer` is the user at the other end, if `getsockopt` answers,
-- and `uid` the client's own. A timeout is a failed call.
pub record Connection : Type 0 where
  pub socket_exists : Bool
  pub socket_fails : Bool
  pub connect_fails : Bool
  pub peer : Option ℕ
  pub uid : ℕ
  pub writes : List Transfer
  pub reads : List Transfer

-- The peer's user, if `getsockopt` answers, and one's own.
unfoldable pub verify_peer_credentials : Option ℕ → ℕ → Bool
verify_peer_credentials none uid = false
verify_peer_credentials (some peer) uid = peer == uid

-- Whether a connected descriptor is returned, and not -1.
unfoldable pub connect_socket : Connection → Bool
connect_socket n =
    n.socket_exists
    && not n.socket_fails
    && not n.connect_fails
    && verify_peer_credentials n.peer n.uid

-- How a request ends: the three early returns, or the opcode and the payload of the response.
pub data Response : Type 0 where
  not_connected : Response
  not_sent : Response
  not_received : Response
  received : ℕ → Bytes → Response

-- `agent` gives what the other end sends in response to the bytes that it gets.
abbrev pub Peer : Type 0
Peer = Bytes → Bytes

unfoldable pub receive : List Transfer → Bytes → Response
receive reads stream = elim (read_packet (record { stream = stream; calls = reads })) [
  | none ↦ not_received
  | some (code, payload, _) ↦ received code payload
]

-- The part that the operations share: connect, send, receive, close.
unfoldable pub request : Connection → Peer → CommandOpcode → Bytes → Response
request n agent command payload =
    let (sent, good) = write_packet n.writes (opcode command) payload in
    if not (connect_socket n)
    then not_connected
    else if not good
    then not_sent
    else receive n.reads (agent sent)

unfoldable pub ping : Connection → Peer → Bool
ping n agent = elim (request n agent ping_command []) [
  | received code payload ↦ code == pong
  | not_connected ↦ false
  | not_sent ↦ false
  | not_received ↦ false
]

unfoldable pub parse_status : Bytes → Option AgentStatus
parse_status payload =
    if ltb (length payload) 9
    then none
    else some (record {
      is_unlocked = not (get_or payload 0 0 == 0);
      timeout_remaining_seconds = ntohl_bytes (drop 1 payload);
      total_entries = ntohl_bytes (drop 5 payload);
    })

-- The opcode of the response is not looked at.
unfoldable pub get_status : Connection → Peer → Option AgentStatus
get_status n agent = elim (request n agent status_command []) [
  | received code payload ↦ parse_status payload
  | not_connected ↦ none
  | not_sent ↦ none
  | not_received ↦ none
]

-- What `unlock`, `add_entry` and `delete_entry` make of a response. A text that cannot be extracted leaves
-- `out_error` as it was.
unfoldable pub done : Bytes → Bytes → Bytes → Bytes → Response → Bool × Bytes
done unconnected unsent unanswered out_error not_connected = (false, unconnected)
done unconnected unsent unanswered out_error not_sent = (false, unsent)
done unconnected unsent unanswered out_error not_received = (false, unanswered)
done unconnected unsent unanswered out_error (received code payload) =
    if code == ok_status
    then (true, out_error)
    else (false, (extract_string payload 0 out_error).out_str)

unfoldable pub unlock : Connection → Peer → Bytes → Bytes → Bool × Bytes
unlock n agent master_password out_error =
    done (text "Could not connect to duckpass-agent.") (text "Failed to send unlock command.")
      (text "Agent closed connection.") out_error
      (request n agent unlock_command (append_string [] master_password))

unfoldable pub lock : Connection → Peer → Bool
lock n agent = elim (request n agent lock_command []) [
  | received code payload ↦ code == ok_status
  | not_connected ↦ false
  | not_sent ↦ false
  | not_received ↦ false
]

-- What is sent, and the answer, which only says whether there was a connection.
unfoldable pub stop_agent : Connection → Bytes × Bool
stop_agent n =
    if connect_socket n
    then ((write_packet n.writes (opcode stop_command) []).0, true)
    else ([], false)

-- What the answers of the four extractions are is not looked at.
unfoldable pub parse_entry : Bytes → EntryData
parse_entry payload =
    let service = extract_string payload 0 [] in
    let username = extract_string payload service.offset [] in
    let password = extract_string payload username.offset [] in
    let totp_secret = extract_string payload password.offset [] in
    record {
      service = service.out_str;
      username = username.out_str;
      password = password.out_str;
      totp_secret = totp_secret.out_str;
    }

unfoldable pub parse_totp : Bytes → TotpResult
parse_totp payload =
    let code = extract_string payload 0 [] in
    record {
      code = code.out_str;
      remaining_seconds =
          (if leb (code.offset + 4) (length payload)
            then ntohl_bytes (drop code.offset payload)
            else 0);
    }

-- What `get_entry` and `get_totp` make of a response.
unfoldable pub answered {ℓ} :
    {A : Type ℓ} → (Bytes → A) → Bytes → Bytes → Response → Option A × Bytes
answered parse unsent out_error not_connected = (none, text "Agent not running.")
answered parse unsent out_error not_sent = (none, unsent)
answered parse unsent out_error not_received = (none, text "Agent disconnected.")
answered parse unsent out_error (received code payload) =
    if code == ok_status
    then (some (parse payload), out_error)
    else (none, (extract_string payload 0 out_error).out_str)

unfoldable pub get_entry : Connection → Peer → Bytes → Bytes → Option EntryData × Bytes
get_entry n agent service out_error =
    answered parse_entry (text "Failed to send get request.") out_error
      (request n agent get_entry_command (append_string [] service))

unfoldable pub get_totp : Connection → Peer → Bytes → Bytes → Option TotpResult × Bytes
get_totp n agent service out_error =
    answered parse_totp (text "Failed to send TOTP request.") out_error
      (request n agent get_totp_command (append_string [] service))

unfoldable pub entry_payload : EntryData → Bytes
entry_payload e =
    append_string (append_string (append_string (append_string [] e.service) e.username) e.password)
      e.totp_secret

unfoldable pub add_entry : Connection → Peer → EntryData → Bytes → Bool × Bytes
add_entry n agent entry out_error =
    done (text "Agent not running.") (text "Failed to send add request.")
      (text "Agent disconnected.") out_error
      (request n agent add_entry_command (entry_payload entry))

unfoldable pub delete_entry : Connection → Peer → Bytes → Bytes → Bool × Bytes
delete_entry n agent service out_error =
    done (text "Agent not running.") (text "Failed to send delete request.")
      (text "Agent disconnected.") out_error
      (request n agent delete_entry_command (append_string [] service))

-- The loop over `count`, which a string that cannot be extracted breaks off.
unfoldable pub list_loop : ℕ → Bytes → ℕ → List (Bytes × Bytes)
list_loop zero payload offset = []
list_loop (suc count) payload offset =
    let svc = extract_string payload offset [] in
    let usr = extract_string payload svc.offset [] in
    let rest = list_loop count payload usr.offset in
    if svc.found && usr.found then (svc.out_str, usr.out_str) ∷ rest else []

unfoldable pub parse_list : Bytes → List (Bytes × Bytes)
parse_list payload =
    if ltb (length payload) 4 then [] else list_loop (ntohl_bytes payload) payload 4

unfoldable pub list_entries : Connection → Peer → Bytes → List (Bytes × Bytes)
list_entries n agent query = elim (request n agent list_entries_command (append_string [] query)) [
  | received code payload ↦ if code == ok_status then parse_list payload else []
  | not_connected ↦ []
  | not_sent ↦ []
  | not_received ↦ []
]
