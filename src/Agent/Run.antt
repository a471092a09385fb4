-- ===== src/Agent/Run.antt =====
-- `run` of src/agent_server.cpp: one round of the loop after the other, and what comes before and after it.
pub mod Invariant
use duckpass.Agent.Commands.{handle_client}
use duckpass.Agent.State.{AgentServer, Call, check_idle_timeout, stop}
use duckpass.Crypto.{CryptoHandler}
use duckpass.Ipc.Client.{verify_peer_credentials}
use duckpass.Ipc.Packet.{Transfer, Incoming}
use duckpass.Prelude.{
  ℕ, ◌==◌, Bool, true, false, not, ◌&&◌, ◌||◌, List, [], ◌∷◌, Option, none, some, Bytes,
  if◌then◌else◌,
}
use duckpass.Service.Search.{MatchResult}
use duckpass.Storage.Disk.{Storage}

-- A connection that `accept` gave.
pub record Client : Type 0 where
  pub peer : Option ℕ
  pub call : Call
  pub incoming : Incoming
  pub writes : List Transfer

-- How `poll` ends, and `accept` after it.
pub data Polled : Type 0 where
  poll_interrupted : Polled
  poll_failed : Polled
  poll_timeout : Polled
  -- `revents` without POLLIN
  no_input : Polled
  accept_failed : Polled
  accepted : Client → Polled

-- One round: whether a signal has asked to stop before it, the steady clock at its start, and its event.
pub record Round : Type 0 where
  pub g_stop_requested : Bool
  pub now : ℕ
  pub polled : Polled

-- What the rounds have sent, the agent and the storage. The exit code is there once `run` has returned.
pub record Ran : Type 0 where
  pub sent : List Bytes
  pub agent : AgentServer
  pub storage : Storage
  pub exit : Option ℕ

-- What happens before the loop: `is_agent_available`, `socket`, `bind` and `listen`.
pub record Startup : Type 0 where
  pub agent_available : Bool
  pub socket_fails : Bool
  pub bind_fails : Bool
  pub listen_fails : Bool

-- After the loop.
unfoldable pub finish : AgentServer → Storage → Ran
finish a storage = record { sent = []; agent = stop a; storage = storage; exit = some 0 }

module _ (c : CryptoHandler) (hmac_sha1 : Bytes → Bytes → Option Bytes)
    (sort : List MatchResult → List MatchResult) (uid : ℕ) where
  -- The connection is closed with no response if the peer is another user.
  unfoldable pub serve_client : Client → AgentServer → Storage → Bytes × AgentServer × Storage
  serve_client client a storage =
      if verify_peer_credentials client.peer uid
      then handle_client c hmac_sha1 sort client.call client.incoming client.writes a storage
      else ([], a, storage)

  -- The event of a round, after `check_idle_timeout`; `none` leaves the loop.
  unfoldable pub round : Polled → AgentServer → Storage → Option (Bytes × AgentServer × Storage)
  round poll_interrupted a storage = some ([], a, storage)
  round poll_failed a storage = none
  round poll_timeout a storage = some ([], a, storage)
  round no_input a storage = some ([], a, storage)
  round accept_failed a storage = some ([], a, storage)
  round (accepted client) a storage = some (serve_client client a storage)

  -- The loop is still running when the listed rounds are over.
  unfoldable pub run_loop : List Round → AgentServer → Storage → Ran
  run_loop [] a storage = record { sent = []; agent = a; storage = storage; exit = none }
  run_loop (r ∷ rounds) a storage =
      if a.running && not r.g_stop_requested
      then elim (round r.polled (check_idle_timeout r.now a) storage) [
        | none ↦ finish (check_idle_timeout r.now a) storage
        | some (sent, a', storage') ↦
            let rest = run_loop rounds a' storage' in
            record {
              sent = sent ∷ rest.sent;
              agent = rest.agent;
              storage = rest.storage;
              exit = rest.exit;
            }
      ]
      else finish a storage

  unfoldable pub run : Startup → List Round → AgentServer → Storage → Ran
  run startup rounds a storage =
      if startup.agent_available || startup.socket_fails || startup.bind_fails
        || startup.listen_fails
      then record { sent = []; agent = a; storage = storage; exit = some 1 }
      else run_loop rounds (record a { running = true }) storage
