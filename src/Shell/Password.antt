-- ===== src/Shell/Password.antt =====
-- Which master password a command of src/shell_command.cpp leaves in the session.
use duckpass.Crypto.{CryptoHandler}
use duckpass.Prelude.{
  suc, Bool, false, List, [], ◌∷◌, ◌≡◌, refl, ◌∙◌, ◌⊎◌, inl, inr, Option, none, some, Bytes,
  bytes_eq, bytes_eq→eq, is_empty, is_some, Bool-cases, if◌then◌else◌,
}
use duckpass.Prelude.Result.{Result, ok, err}
use duckpass.Service.Entries.Password.{
  add_entry-master_password, update_entry-master_password, delete_entry-master_password,
}
use duckpass.Service.Rekey.Password.{Switches, rekey-Switches}
use duckpass.Service.State.{Outcome}
use duckpass.Shell.Command.{
  blank, exit, clear, help, list, get, delete, add, otp, generate, edit, rekey, audit, unknown,
}
use duckpass.Shell.Session.Next.{prompts, exits, throws, waits}
use duckpass.Shell.Session.{
  Session, Outside, Next, refresh_services, sync_agent, refreshed, synced, read_service,
  read_username, read_new_password, new_password_of, run_delete, add_typed, add_named, add_service,
  add_to, run_add, edit_typed, edit_found, run_edit, run_rekey, run_command,
}
use duckpass.Shell.{Command}
use duckpass.Vault.Entries

abbrev master_password : Session → Bytes
master_password s = s.vault_service.master_password

-- The new password was typed twice after a first line, it is not empty, and an agent that was available was
-- told to lock.
abbrev pub IsConfirmed : Bool → List Bytes → Session → Session → Type 0
IsConfirmed available lines s s' =
    (current : Bytes) × (new : Bytes) × (rest : List Bytes) × (lines ≡ current ∷ new ∷ new ∷ rest)
    × (is_empty new ≡ false)
    × (s'.vault_service.master_password ≡ new)
    × (s'.locks ≡ (if available then suc s.locks else s.locks))

-- What may become of the master password in a command.
abbrev pub Keeps : Bool → Command → List Bytes → Session → Next → Type 0
Keeps available command lines s (prompts s') =
    (s'.vault_service.master_password ≡ s.vault_service.master_password)
    ⊎ ((command ≡ rekey) × IsConfirmed available lines s s')
Keeps available command lines s (exits s') = s' ≡ s
Keeps available command lines s (throws e s') = s' ≡ s
Keeps available command lines s waits = Unit {0}

sync_agent-master_password :
    (outside : Outside) (s : Session) → master_password (sync_agent outside s) ≡ master_password s
unfolding sync_agent
sync_agent-master_password outside s = elim (Bool-cases outside.is_agent_available) [
  | inl available ↦ rw available refl
  | inr away ↦ rw away refl
]

refreshed-master_password :
    (outside : Outside) (s : Session) (o : Outcome)
    → o.1.master_password ≡ master_password s
    → master_password (refreshed outside s o) ≡ master_password s
unfolding refreshed refresh_services
refreshed-master_password outside s (ok _, vault_service, storage) h =
    sync_agent-master_password outside _ ∙ h
refreshed-master_password outside s (err e, vault_service, storage) h = h

synced-master_password :
    (outside : Outside) (s : Session) (o : Outcome)
    → o.1.master_password ≡ master_password s
    → master_password (synced outside s o) ≡ master_password s
unfolding synced
synced-master_password outside s (ok _, vault_service, storage) h =
    sync_agent-master_password outside _ ∙ h
synced-master_password outside s (err e, vault_service, storage) h = h

module _ (c : CryptoHandler) (outside : Outside) where
  abbrev Kept : Command → List Bytes → Session → Next → Type 0
  Kept = Keeps outside.is_agent_available

  run_delete-Kept :
      (service : Bytes) (s : Session)
      → master_password (run_delete c outside service s) ≡ master_password s
  unfolding run_delete
  run_delete-Kept service s =
      refreshed-master_password outside s _
        (delete_entry-master_password c outside.env service s.vault_service s.storage)

  add_named-Kept :
      (lines : List Bytes) (service username : Bytes) (r : Option (Bytes × List Bytes))
      (s : Session)
      → Kept add lines s (add_named c outside service username r s)
  unfolding add_named add_typed
  add_named-Kept lines service username none s = tt
  add_named-Kept lines service username (some (password, [])) s = tt
  add_named-Kept lines service username (some (password, line ∷ _)) s = inl (
      refreshed-master_password outside s _ (
        add_entry-master_password c outside.env service username password _ s.vault_service
          s.storage))

  add_to-Kept :
      (lines : List Bytes) (r : Option (Bytes × List Bytes)) (s : Session)
      → Kept add lines s (add_to c outside r s)
  unfolding add_to add_service
  add_to-Kept lines none s = tt
  add_to-Kept lines (some (service, more)) s = named (read_username more)
    where
      named :
          (r : Option (Bytes × List Bytes)) → Kept add lines s (add_service c outside service r s)
      named none = tt
      named (some (username, rest)) =
          add_named-Kept lines service username (read_new_password rest) s

  edit_typed-Kept :
      (lines : List Bytes) (service new_user : Bytes) (r : Result (Option Bytes)) (new_totp : Bytes)
      (s : Session)
      → Kept (edit service) lines s (edit_typed c outside service new_user r new_totp s)
  unfolding edit_typed
  edit_typed-Kept lines service new_user (err e) new_totp s = refl
  edit_typed-Kept lines service new_user (ok new_pass) new_totp s = inl (
      synced-master_password outside s _
        (update_entry-master_password c outside.env service _ new_pass _ s.vault_service s.storage))

  edit_found-Kept :
      (service : Bytes) (lines : List Bytes) (s : Session)
      → Kept (edit service) lines s (edit_found c outside service lines s)
  unfolding edit_found
  edit_found-Kept service [] s = tt
  edit_found-Kept service (_ ∷ []) s = tt
  edit_found-Kept service (_ ∷ _ ∷ []) s = tt
  edit_found-Kept service (new_user ∷ new_pass ∷ new_totp ∷ rest) s =
      edit_typed-Kept _ service new_user (new_password_of outside.generated new_pass) new_totp s

  run_edit-Kept :
      (service : Bytes) (lines : List Bytes) (s : Session)
      → Kept (edit service) lines s (run_edit c outside service lines s)
  unfolding run_edit
  run_edit-Kept service lines s =
      elim (Bool-cases (is_some (Entries.get_entry service s.vault_service.vault))) [
        | inl found ↦ rw found (edit_found-Kept service lines s)
        | inr missing ↦ rw missing (inl refl)
      ]

  switched-Kept :
      (current new : Bytes) (rest : List Bytes) (s : Session) (o : Outcome)
      → is_empty new ≡ false
      → Switches s.vault_service new o
      → Kept rekey (current ∷ new ∷ new ∷ rest) s (prompts (synced outside s o))
  unfolding synced sync_agent
  switched-Kept current new rest s o given (Switches.threw s' storage h) = inl h
  switched-Kept current new rest s o given (Switches.returned s' storage h) =
      inr (refl, (current, new, rest, refl, given, locked.0, locked.1))
    where
      locked :
          (master_password (sync_agent outside (record s { vault_service = s'; storage = storage }))
            ≡ new)
          × ((sync_agent outside (record s { vault_service = s'; storage = storage })).locks
              ≡ (if outside.is_agent_available then suc s.locks else s.locks))
      locked = elim (Bool-cases outside.is_agent_available) [
        | inl available ↦ rw available (h, refl)
        | inr away ↦ rw away (h, refl)
      ]

  run_rekey-Kept :
      (lines : List Bytes) (s : Session) → Kept rekey lines s (run_rekey c outside lines s)
  unfolding run_rekey
  run_rekey-Kept [] s = tt
  run_rekey-Kept (_ ∷ []) s = tt
  run_rekey-Kept (_ ∷ _ ∷ []) s = tt
  run_rekey-Kept (current ∷ new ∷ again ∷ rest) s = elim (Bool-cases (bytes_eq new again)) [
    | inr differ ↦ rw differ (inl refl)
    | inl same ↦ elim (Bool-cases (is_empty new)) [
      | inl empty ↦ rw (same, empty) (inl refl)
      | inr given ↦
          rw (same, given, ← bytes_eq→eq new again same)
            (switched-Kept current new rest s _ given
              (rekey-Switches c outside.env s.vault_service new s.storage))
    ]
  ]

  -- A command that brings the prompt back leaves the master password of the session as it was, whether or not
  -- it succeeded, except a rekey for which the new password was typed twice and is not empty; an available
  -- agent has then been told to lock. An exit or an exception leaves the whole session as it was.
  pub run_command-Keeps :
      (command : Command) (lines : List Bytes) (s : Session)
      → Keeps outside.is_agent_available command lines s (run_command c outside command lines s)
  unfolding run_command run_add
  run_command-Keeps exit lines s = refl
  run_command-Keeps (delete service) lines s = inl (run_delete-Kept service s)
  run_command-Keeps add lines s = add_to-Kept lines (read_service s.vault_service.vault lines) s
  run_command-Keeps (edit service) lines s = run_edit-Kept service lines s
  run_command-Keeps rekey lines s = run_rekey-Kept lines s
  run_command-Keeps blank lines s = inl refl
  run_command-Keeps clear lines s = inl refl
  run_command-Keeps help lines s = inl refl
  run_command-Keeps (list query) lines s = inl refl
  run_command-Keeps (get show service) lines s = inl refl
  run_command-Keeps (otp service) lines s = inl refl
  run_command-Keeps (generate size) lines s = inl refl
  run_command-Keeps (audit check_online) lines s = inl refl
  run_command-Keeps (unknown input) lines s = inl refl
