-- ===== src/Agent/Run/Invariant.antt =====
-- Only an `UNLOCK` of the user who runs the agent unlocks it.
use duckpass.Agent.Commands.{handle_client}
use duckpass.Agent.Commands.Held.{Holds, Unlocks, Holds-check_idle_timeout, Holds-handle_command}
use duckpass.Agent.Run.{
  Client, Polled, poll_interrupted, poll_failed, poll_timeout, no_input, accept_failed, accepted,
  Round, Startup, finish, serve_client, round, run_loop, run,
}
use duckpass.Agent.State.{AgentServer, lock, stop, check_idle_timeout}
use duckpass.Crypto.{CryptoHandler}
use duckpass.Ipc.Opcode.{command_of}
use duckpass.Ipc.Client.{verify_peer_credentials}
use duckpass.Ipc.Packet.{Incoming, read_packet}
use duckpass.Prelude.{
  ℕ, true, not, ◌&&◌, ◌||◌, List, [], ◌∷◌, ◌≡◌, refl, sym, subst, ◌⊎◌, inl, inr, Option, none, some,
  Bytes, Bool-cases, Option-cases, Any,
}
use duckpass.Service.Search.{MatchResult}
use duckpass.Storage.Disk.{Storage}

-- In this round, a client of user `uid` sent the master password in an `UNLOCK` packet.
abbrev pub UnlockedBy : ℕ → Bytes → Round → Type 0
UnlockedBy uid p r =
    (client : Client) × (payload : Bytes) × (rest : Incoming) × (n : ℕ) × (r.polled
      ≡ accepted client)
    × (verify_peer_credentials client.peer uid ≡ true)
    × (read_packet client.incoming ≡ some (n, payload, rest))
    × Unlocks p (command_of n) payload

same_result : (o o' : Bytes × AgentServer × Storage) → some o ≡ some o' → o ≡ o'
same_result o o' h = cc

module _ (p : Bytes) where
  same_agent :
      (a : AgentServer) (storage : Storage) (o : Bytes × AgentServer × Storage)
      → some ([], a, storage) ≡ some o
      → Holds p o.1
      → Holds p a
  same_agent a storage o e =
      subst (λ (x : Bytes × AgentServer × Storage). Holds p x.1) (sym (same_result _ o e))

  Holds-stop : (a : AgentServer) → Holds p (stop a) → ⊥
  unfolding stop lock
  Holds-stop a (t, e, q) = cc

module _ (p : Bytes) (c : CryptoHandler) (hmac_sha1 : Bytes → Bytes → Option Bytes)
    (sort : List MatchResult → List MatchResult) where
  module _ (uid : ℕ) where
    Holds-handle_client :
        (client : Client) (a : AgentServer) (storage : Storage) (r : Round)
        → r.polled ≡ accepted client
        → verify_peer_credentials client.peer uid ≡ true
        → Holds p
            (handle_client c hmac_sha1 sort client.call client.incoming client.writes a storage).1
        → Holds p a ⊎ UnlockedBy uid p r
    unfolding handle_client
    Holds-handle_client client a storage r event same h =
        elim (Option-cases (read_packet client.incoming)) [
          | inl broken ↦ inl (rw (broken, handle_client) at h)
          | inr ((n, payload, rest), got) ↦
              elim (Holds-handle_command p c hmac_sha1 sort client.call (command_of n) payload a
                storage (rw (got, handle_client) at h)) [
                  | inl held ↦ inl held
                  | inr unlocks ↦ inr (client, payload, rest, n, event, same, got, unlocks)
                ]
        ]

    Holds-round :
        (r : Round) (polled : Polled) (a : AgentServer) (storage : Storage)
        (o : Bytes × AgentServer × Storage)
        → r.polled ≡ polled
        → round c hmac_sha1 sort uid polled a storage ≡ some o
        → Holds p o.1
        → Holds p a ⊎ UnlockedBy uid p r
    unfolding round serve_client
    Holds-round r poll_interrupted a storage o event e h = inl (same_agent p a storage o e h)
    Holds-round r poll_failed a storage o event e h = absurd cc
    Holds-round r poll_timeout a storage o event e h = inl (same_agent p a storage o e h)
    Holds-round r no_input a storage o event e h = inl (same_agent p a storage o e h)
    Holds-round r accept_failed a storage o event e h = inl (same_agent p a storage o e h)
    Holds-round r (accepted client) a storage o event e h =
        elim (Bool-cases (verify_peer_credentials client.peer uid)) [
          | inr other ↦ inl (same_agent p a storage o (rw other at e) h)
          | inl same ↦ Holds-handle_client client a storage r event same (
              subst (λ (x : Bytes × AgentServer × Storage). Holds p x.1)
                (sym (same_result _ o (rw same at e))) h)
        ]

    Holds-run_loop :
        (rounds : List Round) (a : AgentServer) (storage : Storage)
        → Holds p (run_loop c hmac_sha1 sort uid rounds a storage).agent
        → Holds p a ⊎ Any (UnlockedBy uid p) rounds
    unfolding run_loop finish stop
    Holds-run_loop [] a storage h = inl h
    Holds-run_loop (r ∷ rounds) a storage h =
        elim (Bool-cases (a.running && not r.g_stop_requested)) [
          | inr stopping ↦ absurd (Holds-stop p a (rw (stopping, run_loop) at h))
          | inl going ↦
              let checked = check_idle_timeout r.now a in
              elim (Option-cases (round c hmac_sha1 sort uid r.polled checked storage)) [
                | inl left ↦ absurd (Holds-stop p checked (rw (going, left, run_loop) at h))
                | inr ((sent, a', storage'), stepped) ↦
                    elim (Holds-run_loop rounds a' storage' (rw (going, stepped, run_loop) at h)) [
                      | inr later ↦ inr (inr later)
                      | inl held ↦
                          elim (Holds-round r r.polled checked storage (sent, a', storage') refl
                            stepped held) [
                              | inl before ↦ inl (Holds-check_idle_timeout p r.now a before)
                              | inr now ↦ inr (inl now)
                            ]
                    ]
              ]
        ]

    -- If an agent that started locked is unlocked after any rounds of its loop, with whatever events, then in
    -- one of the rounds a client that is the same user sent an `UNLOCK` packet with just the master
    -- password that the agent holds.
    pub run_unlocked :
        (startup : Startup) (rounds : List Round) (a : AgentServer) (storage : Storage)
        → a.vault_service ≡ none
        → Holds p (run c hmac_sha1 sort uid startup rounds a storage).agent
        → Any (UnlockedBy uid p) rounds
    unfolding run
    run_unlocked startup rounds a storage locked h =
        elim (Bool-cases (
          startup.agent_available || startup.socket_fails || startup.bind_fails
          || startup.listen_fails)) [
            | inl failed ↦ absurd (never (rw (failed, run) at h))
            | inr started ↦
                elim (Holds-run_loop rounds (record a { running = true }) storage
                  (rw (started, run) at h)) [ inl held ↦ absurd (never held) | inr by ↦ by ]
          ]
      where
        never : Holds p a → ⊥
        never (t, e, q) = cc
