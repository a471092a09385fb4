-- ===== src/Agent/Commands/Locked.antt =====
-- What a locked agent answers does not depend on the vault, on the disk or on the clock.
use duckpass.Agent.Commands.{
  Answer, status_reply, serve, handle_get, handle_add, handle_delete, handle_list, handle_totp,
  handle_command,
}
use duckpass.Agent.State.{AgentServer, Call, elapsed, lock, not_watched, check_idle_timeout}
use duckpass.Crypto.{CryptoHandler}
use duckpass.Ipc.Opcode.{
  CommandOpcode, ping_command, status_command, unlock_command, lock_command, get_entry_command,
  add_entry_command, delete_entry_command, list_entries_command, get_totp_command, stop_command,
  ok_status,
}
use duckpass.Ipc.Wire.{htonl_bytes}
use duckpass.Prelude.{
  ℕ, ◌≤◌, ◌<◌, ◌==◌, Bool, true, false, List, ◌∷◌, ◌++◌, ◌≡◌, ◌≢◌, refl, sym, ◌∙◌, Option, none,
  some, Bytes, le→leb, if◌then◌else◌, arith, Option-cases, inl, inr,
}
use duckpass.Service.Search.{MatchResult}
use duckpass.Service.State.{VaultService}
use duckpass.Storage.Disk.{Storage}

-- Two answers of locked agents are alike: the same response, and nothing is unlocked or stored.
abbrev pub Alike : Storage → Storage → Answer → Answer → Type 0
Alike storage storage' o o' =
    (o.0 ≡ o'.0)
    × (o.1.vault_service ≡ none)
    × (o'.1.vault_service ≡ none)
    × (o.2 ≡ storage)
    × (o'.2 ≡ storage')

module _ (a b : AgentServer) (ha : a.vault_service ≡ none) (hb : b.vault_service ≡ none)
    (storage storage' : Storage) where
  serve-Alike :
      (clock clock' : ℕ) (f g : VaultService → (ℕ × Bytes) × VaultService × Storage)
      → Alike storage storage' (serve clock a storage f) (serve clock' b storage' g)
  unfolding serve
  serve-Alike clock clock' f g = rw (ha, hb, serve) (refl, ha, hb, refl, refl)

  same-Alike : (r : ℕ × Bytes) → Alike storage storage' (r, a, storage) (r, b, storage')
  same-Alike r = (refl, ha, hb, refl, refl)

  checked-Alike :
      (good : Bool) (r : ℕ × Bytes) (o o' : Answer)
      → Alike storage storage' o o'
      → Alike storage storage'
          (if good then o else (r, a, storage))
          (if good then o' else (r, b, storage'))
  checked-Alike true r o o' h = h
  checked-Alike false r o o' h = same-Alike r

status_locked :
    (clock : ℕ) (a : AgentServer)
    → a.vault_service ≡ none
    → status_reply clock a ≡ (ok_status, 0 ∷ htonl_bytes 0 ++ htonl_bytes 0)
unfolding status_reply
status_locked clock a h = rw (h, status_reply) refl

expired :
    (now : ℕ) (a : AgentServer)
    → 0 < a.idle_timeout_seconds
    → a.idle_timeout_seconds ≤ elapsed now a.last_activity
    → (check_idle_timeout now a).vault_service ≡ none
unfolding check_idle_timeout not_watched lock
expired now a on late = elim (Option-cases a.vault_service) [
  | inl locked ↦ rw (locked, check_idle_timeout, not_watched) refl
  | inr (s, unlocked) ↦
      rw
        (
          unlocked,
          nonzero a.idle_timeout_seconds on,
          le→leb _ _ late,
          check_idle_timeout,
          not_watched,
        )
        refl
]
  where
    nonzero : (n : ℕ) → 0 < n → (n == 0) ≡ false
    nonzero n h = ground arith

module _ (c : CryptoHandler) (hmac_sha1 : Bytes → Bytes → Option Bytes)
    (sort : List MatchResult → List MatchResult) where
  -- Two locked agents, whatever vault they held, whatever is on their disks and whatever their clocks say,
  -- answer every command but `UNLOCK` with the same response, stay locked and store nothing.
  pub handle_command_locked :
      (a b : AgentServer) (call call' : Call) (command : Option CommandOpcode) (payload : Bytes)
      (storage storage' : Storage)
      → a.vault_service ≡ none
      → b.vault_service ≡ none
      → command ≢ some unlock_command
      → Alike storage storage'
          (handle_command c hmac_sha1 sort call command payload a storage)
          (handle_command c hmac_sha1 sort call' command payload b storage')
  unfolding handle_command handle_get handle_add handle_delete handle_list handle_totp status_reply
      lock
  handle_command_locked a b call call' none payload storage storage' ha hb h =
      same-Alike a b ha hb storage storage' _
  handle_command_locked a b call call' (some ping_command) payload storage storage' ha hb h =
      same-Alike a b ha hb storage storage' _
  handle_command_locked a b call call' (some status_command) payload storage storage' ha hb h =
      (status_locked _ a ha ∙ sym (status_locked _ b hb), ha, hb, refl, refl)
  handle_command_locked a b call call' (some unlock_command) payload storage storage' ha hb h =
      absurd (h refl)
  handle_command_locked a b call call' (some lock_command) payload storage storage' ha hb h =
      (refl, refl, refl, refl, refl)
  handle_command_locked a b call call' (some get_entry_command) payload storage storage' ha hb h =
      checked-Alike a b ha hb storage storage' _ _ _ _
        (serve-Alike a b ha hb storage storage' _ _ _ _)
  handle_command_locked a b call call' (some add_entry_command) payload storage storage' ha hb h =
      checked-Alike a b ha hb storage storage' _ _ _ _
        (serve-Alike a b ha hb storage storage' _ _ _ _)
  handle_command_locked a b call call' (some delete_entry_command) payload storage storage' ha hb
        h =
      checked-Alike a b ha hb storage storage' _ _ _ _
        (serve-Alike a b ha hb storage storage' _ _ _ _)
  handle_command_locked a b call call' (some list_entries_command) payload storage storage' ha hb
        h =
      serve-Alike a b ha hb storage storage' _ _ _ _
  handle_command_locked a b call call' (some get_totp_command) payload storage storage' ha hb h =
      checked-Alike a b ha hb storage storage' _ _ _ _
        (serve-Alike a b ha hb storage storage' _ _ _ _)
  handle_command_locked a b call call' (some stop_command) payload storage storage' ha hb h =
      (refl, ha, hb, refl, refl)

  -- Once the idle timeout has passed since the last activity, the check at the start of a round leaves an
  -- agent that answers every command but `UNLOCK` as one that was never unlocked, stays locked and stores
  -- nothing.
  pub check_idle_timeout_lem :
      (now : ℕ) (a b : AgentServer) (call call' : Call) (command : Option CommandOpcode)
      (payload : Bytes) (storage storage' : Storage)
      → 0 < a.idle_timeout_seconds
      → a.idle_timeout_seconds ≤ elapsed now a.last_activity
      → b.vault_service ≡ none
      → command ≢ some unlock_command
      → Alike storage storage'
          (handle_command c hmac_sha1 sort call command payload (check_idle_timeout now a) storage)
          (handle_command c hmac_sha1 sort call' command payload b storage')
  check_idle_timeout_lem now a b call call' command payload storage storage' on late never h =
      handle_command_locked (check_idle_timeout now a) b call call' command payload storage storage'
        (expired now a on late) never h
