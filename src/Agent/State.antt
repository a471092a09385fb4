-- ===== src/Agent/State.antt =====
-- The fields of `AgentServer`, and `lock`, `unlock`, `stop` and `check_idle_timeout` of
-- src/agent_server.cpp.
use duckpass.Crypto.{CryptoHandler}
use duckpass.Prelude.Result.{Result, ok, err, what}
use duckpass.Prelude.{
  ℕ, ◌-◌, ◌/◌, ◌^◌, ◌==◌, Bool, true, false, Option, none, some, Bytes, text, is_some, leb,
  if◌then◌else◌,
}
use duckpass.Service.State.{VaultService, Env, open_service}
use duckpass.Storage.Disk.{Disk, exists}

-- Without the socket, its path and the mutex. Times are in nanoseconds.
pub record AgentServer : Type 0 where
  pub idle_timeout_seconds : ℕ
  pub running : Bool
  pub vault_service : Option VaultService
  pub last_activity : ℕ

-- What one command gets from outside: what the vault operations need, the steady clock, and what
-- `config_handler` gives as the path of the vault.
pub record Call : Type 0 where
  pub env : Env
  pub clock : ℕ
  pub vault_path : Result Bytes

-- Whole seconds between two readings of the steady clock.
unfoldable pub elapsed : ℕ → ℕ → ℕ
elapsed now last_activity = (now - last_activity) / 10 ^ 9

unfoldable pub is_unlocked : AgentServer → Bool
is_unlocked a = is_some a.vault_service

unfoldable pub lock : AgentServer → AgentServer
lock a = record a { vault_service = none }

unfoldable pub stop : AgentServer → AgentServer
unfolding lock
stop a = lock (record a { running = false })

-- `!vault_service_ || idle_timeout_seconds_ == 0`
unfoldable pub not_watched : AgentServer → Bool
not_watched a = elim a.vault_service [ none ↦ true | some s ↦ a.idle_timeout_seconds == 0 ]

unfoldable pub check_idle_timeout : ℕ → AgentServer → AgentServer
check_idle_timeout now a =
    if not_watched a
    then a
    else if leb a.idle_timeout_seconds (elapsed now a.last_activity)
    then lock a
    else a

module _ (c : CryptoHandler) where
  -- The error is `none` where the function returns true.
  unfoldable pub unlock : Call → Bytes → AgentServer → Disk → Option Bytes × AgentServer
  unlock call master_password a disk = elim call.vault_path [
    | err e ↦ (some (what e), a)
    | ok path ↦
        if exists disk path
        then elim (open_service c call.env disk path master_password) [
          | err e ↦ (some (what e), a)
          | ok service ↦
              (none, record a { vault_service = some service; last_activity = call.clock })
        ]
        else (some (text "Vault has not been initialized. Run 'duckpass init'."), a)
  ]
