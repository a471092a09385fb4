-- ===== src/Agent/Served.antt =====
-- A client that asks the agent for an entry gets what the vault has.
use duckpass.Agent.Commands.{Reply, entry_reply, handle_get, handle_command, handle_client}
use duckpass.Agent.Payload.{command_of-opcode, entry_data, extract_whole, understood, serve_reply}
use duckpass.Agent.State.{AgentServer, Call}
use duckpass.Crypto.{CryptoHandler}
use duckpass.Ipc.Client.{
  Connection, connect_socket, Peer, received, receive, request, parse_entry, answered, get_entry,
}
use duckpass.Ipc.Opcode.{CommandOpcode, get_entry_command, opcode}
use duckpass.Ipc.Packet.Laws.{read_packet-serialize_packet}
use duckpass.Ipc.Packet.Transfers.{Moves, write_all_complete}
use duckpass.Ipc.Packet.{Transfer, max_payload, serialize_packet, read_packet, write_packet}
use duckpass.Ipc.Wire.RoundTrip.{length-append_string}
use duckpass.Ipc.Wire.{append_string}
use duckpass.Prelude.{
  ℕ, ◌+◌, ◌^◌, ◌≤◌, ◌<◌, Bool, true, List, [], ◌≡◌, refl, sym, ap, subst, ◌∙◌, Option, some, Bytes,
  text, length, All, append-nil, arith,
}
use duckpass.Service.Search.{MatchResult}
use duckpass.Service.State.{VaultService}
use duckpass.Storage.Disk.{Storage}
use duckpass.Vault.Entries
use duckpass.Vault.Entries.{VaultEntry}

-- A connection on which nothing fails, at either end.
pub record Works (n : Connection) (reads writes : List Transfer) : Type 0 where
  pub connects : connect_socket n ≡ true
  pub client_writes : All Moves n.writes
  pub client_reads : All Moves n.reads
  pub agent_reads : All Moves reads
  pub agent_writes : All Moves writes

read_whole :
    (code : ℕ) (payload : Bytes) (calls : List Transfer)
    → length payload ≤ max_payload
    → All Moves calls
    → (later : List Transfer) × (read_packet
          (record { stream = serialize_packet code payload; calls = calls })
        ≡ some (code, payload, record { stream = []; calls = later }))
read_whole code payload calls small p =
    let (l, got, _) = read_packet-serialize_packet code payload [] calls small p in
    (
      l,
      subst
          (λ (x : Bytes).
            read_packet (record { stream = x; calls = calls })
            ≡ some (code, payload, record { stream = []; calls = l }))
          (append-nil _) got,
    )

receive_lem :
    (code : ℕ) (payload : Bytes) (calls : List Transfer)
    → length payload ≤ max_payload
    → All Moves calls
    → receive calls (serialize_packet code payload) ≡ received code payload
unfolding receive
receive_lem code payload calls small p =
    let (l, got) = read_whole code payload calls small p in rw (got, receive) refl

module _ (c : CryptoHandler) (hmac_sha1 : Bytes → Bytes → Option Bytes)
    (sort : List MatchResult → List MatchResult) where
  -- The agent at the other end, in the state `a`.
  abbrev pub peer : Call → List Transfer → List Transfer → AgentServer → Storage → Peer
  peer call reads writes a storage sent =
      (handle_client c hmac_sha1 sort call (record { stream = sent; calls = reads }) writes a
        storage).0

  abbrev pub reply_to : Call → CommandOpcode → Bytes → AgentServer → Storage → Reply
  reply_to call command payload a storage =
      (handle_command c hmac_sha1 sort call (some command) payload a storage).0

  peer_lem :
      (reads writes : List Transfer) (call : Call) (command : CommandOpcode) (payload : Bytes)
      (a : AgentServer) (storage : Storage)
      → All Moves reads
      → All Moves writes
      → length payload ≤ max_payload
      → let r = reply_to call command payload a storage in
        (handle_client c hmac_sha1 sort call
          (record { stream = serialize_packet (opcode command) payload; calls = reads })
          writes
          a
          storage).0
        ≡ serialize_packet r.0 r.1
  unfolding handle_client write_packet
  peer_lem reads writes call command payload a storage p q small =
      let (l, got) = read_whole (opcode command) payload reads small p in
      rw (got, command_of-opcode command, handle_client)
        (ap (λ (o : Bytes × Bool). o.0) (write_all_complete writes _ q))

  -- The response to a request whose packets are within the limit is that of `handle_command`.
  pub request_lem :
      (n : Connection) (reads writes : List Transfer) (call : Call) (command : CommandOpcode)
      (payload : Bytes) (a : AgentServer) (storage : Storage)
      → Works n reads writes
      → length payload ≤ max_payload
      → let r = reply_to call command payload a storage in
        length r.1 ≤ max_payload
        → request n (peer call reads writes a storage) command payload ≡ received r.0 r.1
  unfolding request write_packet
  request_lem n reads writes call command payload a storage w small answer_small =
      let r = reply_to call command payload a storage in
      rw
        (
          w.connects,
          write_all_complete n.writes (serialize_packet (opcode command) payload) w.client_writes,
        )
        (ap (receive n.reads) (
            peer_lem reads writes call command payload a storage w.agent_reads w.agent_writes small)
          ∙ receive_lem r.0 r.1 n.reads answer_small w.client_reads)

  get_reply :
      (call : Call) (service : Bytes) (a : AgentServer) (storage : Storage) (s : VaultService)
      → a.vault_service ≡ some s
      → length service < 2 ^ 32
      → (handle_get c hmac_sha1 sort call (append_string [] service) a storage).0
        ≡ entry_reply (Entries.get_entry service s.vault)
  unfolding handle_get
  get_reply call service a storage s unlocked fits =
      rw (extract_whole service [] fits) (serve_reply call.clock a storage _ s unlocked)

  -- On a connection on which nothing fails, with an unlocked agent at the other end and packets within the
  -- limit, `get_entry` of the client gives the four fields of the entry that the agent's vault has under the
  -- service, and "Entry not found." if it has none.
  pub get_entry_lem :
      (n : Connection) (reads writes : List Transfer) (call : Call) (service out_error : Bytes)
      (a : AgentServer) (storage : Storage) (s : VaultService)
      → Works n reads writes
      → a.vault_service ≡ some s
      → length service + 4 ≤ max_payload
      → length (entry_reply (Entries.get_entry service s.vault)).1 ≤ max_payload
      → get_entry n (peer call reads writes a storage) service out_error
        ≡ entry_data (Entries.get_entry service s.vault) out_error
  unfolding get_entry handle_command
  get_entry_lem n reads writes call service out_error a storage s w unlocked small answer_small =
      let payload = append_string [] service in
      let short : length service < 2 ^ 32 = omega arith in
      let reply : reply_to call get_entry_command payload a storage
          ≡ entry_reply (Entries.get_entry service s.vault) =
        get_reply call service a storage s unlocked short in
      let got =
        request_lem n reads writes call get_entry_command payload a storage w
          (omega (arith, length-append_string [] service))
          (subst (λ (r : Reply). length r.1 ≤ max_payload) (sym reply) answer_small) in
      ap (answered parse_entry (text "Failed to send get request.") out_error)
        (got ∙ ap (λ (r : Reply). received r.0 r.1) reply)
      ∙ understood out_error (Entries.get_entry service s.vault) answer_small
