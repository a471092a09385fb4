-- ===== src/Service/Entries/Update.antt =====
-- What an `update_entry` that returned has made of the entry.
use duckpass.Crypto.{CryptoHandler}
use duckpass.Prelude.{
  ℕ, [], ◌∷◌, ◌≡◌, ◌≢◌, refl, sym, ap, subst, ◌∙◌, inl, inr, Option, none, some, Bytes, bytes_eq,
  bytes_eq→eq, is_empty, Bool-cases,
}
use duckpass.Prelude.Result.{ok, err, Error, or_throw, bind-eq-ok, Result-cases}
use duckpass.Service.Entries.Checks.{
  IsSecret, is_empty-false, false-is_empty, check_secret-IsSecret, IsSecret-check_secret,
}
use duckpass.Service.Save.{save}
use duckpass.Service.Entries.Store.{IsLatest, store_lem}
use duckpass.Service.Entries.{check_secret, set_field, set_secret, updated, store, update_entry}
use duckpass.Service.State.{VaultService, Env}
use duckpass.Storage.Disk.{Disk, Storage}
use duckpass.Vault.Entries
use duckpass.Vault.Entries.{VaultEntry, Vault}

-- The new value if one is given.
abbrev pub value_or : Option Bytes → Bytes → Bytes
value_or none old = old
value_or (some new) old = new

-- The entry after an update at the time `now`.
abbrev pub changed : ℕ → VaultEntry → Option Bytes → Option Bytes → Option Bytes → VaultEntry
changed now old username password totp_secret = record {
  service = old.service;
  username = value_or username old.username;
  password = value_or password old.password;
  totp_secret = value_or totp_secret old.totp_secret;
  last_updated = now;
}

get_entry-service :
    (k : Bytes) (v : Vault) (e : VaultEntry) → Entries.get_entry k v ≡ some e → e.service ≡ k
unfolding Entries.get_entry
get_entry-service k [] e h = cc
get_entry-service k (x ∷ v) e h = elim (Bool-cases (bytes_eq x.service k)) [
  | inr other ↦ get_entry-service k v e (rw other at h)
  | inl same ↦
      ap (λ (y : VaultEntry). y.service) (sym (the_same x e (rw same at h))) ∙ bytes_eq→eq _ _ same
]
  where
    the_same : (x e : VaultEntry) → some x ≡ some e → x ≡ e
    the_same x e h = cc

-- A value that an entry can take: none, or one that is not empty.
abbrev pub IsGiven : Option Bytes → Type 0
IsGiven none = Unit {0}
IsGiven (some new) = new ≢ []

abbrev pub IsSecretGiven : Option Bytes → Type 0
IsSecretGiven none = Unit {0}
IsSecretGiven (some new) = IsSecret new

-- The service has an entry, and each given value is one that it can take.
abbrev pub IsUpdatable : Vault → Bytes → Option Bytes → Option Bytes → Option Bytes → Type 0
IsUpdatable vault service username password totp_secret =
    (Entries.get_entry service vault ≢ none)
    × IsGiven username
    × IsGiven password
    × IsSecretGiven totp_secret

set_field-value_or :
    (new : Option Bytes) (old x : Bytes) (e : Error)
    → set_field new old e ≡ ok x
    → (x ≡ value_or new old) × IsGiven new
unfolding set_field
set_field-value_or none old x e h = (cc, tt)
set_field-value_or (some new) old x e h = elim (Bool-cases (is_empty new)) [
  | inl empty ↦ absurd (cc (rw empty at h))
  | inr given ↦ (cc (rw given at h), is_empty-false new given)
]

value_or-set_field :
    (new : Option Bytes) (old : Bytes) (e : Error)
    → IsGiven new
    → set_field new old e ≡ ok (value_or new old)
unfolding set_field
value_or-set_field none old e h = refl
value_or-set_field (some new) old e h = rw (false-is_empty new h) refl

set_secret-value_or :
    (new : Option Bytes) (old x : Bytes)
    → set_secret new old ≡ ok x
    → (x ≡ value_or new old) × IsSecretGiven new
unfolding set_secret
set_secret-value_or none old x h = (cc, tt)
set_secret-value_or (some new) old x h =
    let (u, checked, e) = bind-eq-ok (check_secret new) _ h in
    (cc, check_secret-IsSecret new u checked)

value_or-set_secret :
    (new : Option Bytes) (old : Bytes)
    → IsSecretGiven new
    → set_secret new old ≡ ok (value_or new old)
unfolding set_secret
value_or-set_secret none old h = refl
value_or-set_secret (some new) old h = rw (IsSecret-check_secret new h) refl

found_entry :
    (o : Option VaultEntry) (e : Error) (x : VaultEntry) → or_throw o e ≡ ok x → o ≡ some x
found_entry none e x h = cc
found_entry (some y) e x h = cc

same_entry : (x y : VaultEntry) → ok x ≡ ok y → x ≡ y
same_entry x y h = cc

updated_lem :
    (now : ℕ) (v : Vault) (service : Bytes) (u p t : Option Bytes) (entry : VaultEntry)
    → updated now v service u p t ≡ ok entry
    → IsUpdatable v service u p t
      × (old : VaultEntry) × (Entries.get_entry service v ≡ some old)
      × (entry ≡ changed now old u p t)
unfolding updated
updated_lem now v service u p t entry h =
    let (old, found, h₁) = bind-eq-ok (or_throw (Entries.get_entry service v) _) _ h in
    let (username, e₁, h₂) = bind-eq-ok (set_field u old.username _) _ h₁ in
    let (password, e₂, h₃) = bind-eq-ok (set_field p old.password _) _ h₂ in
    let (totp_secret, e₃, h₄) = bind-eq-ok (set_secret t old.totp_secret) _ h₃ in
    let held = found_entry _ _ old found in
    let name = set_field-value_or u old.username username _ e₁ in
    let pass = set_field-value_or p old.password password _ e₂ in
    let secret = set_secret-value_or t old.totp_secret totp_secret e₃ in
    (
      ((λ missing. absurd cc), name.1, pass.1, secret.1),
      old,
      held,
      sym (same_entry _ entry h₄) ∙ (rw (name.0, pass.0, secret.0) refl),
    )

IsUpdatable-updated :
    (now : ℕ) (v : Vault) (service : Bytes) (u p t : Option Bytes) (old : VaultEntry)
    → IsUpdatable v service u p t
    → Entries.get_entry service v ≡ some old
    → updated now v service u p t ≡ ok (changed now old u p t)
unfolding updated
IsUpdatable-updated now v service u p t old (known, name, pass, secret) found =
    rw
      (
        found,
        value_or-set_field u old.username _ name,
        value_or-set_field p old.password _ pass,
        value_or-set_secret t old.totp_secret secret,
      )
      refl

module _ (c : CryptoHandler) where
  -- An update is possible if the service has an entry in memory, a new user name or password is not empty,
  -- and a new TOTP secret is empty or base 32. An `update_entry` that returned was possible, and the vault
  -- then has under the service the old entry with the given values in place of its own and the time of the
  -- call, or the one that the vault file had there, if that has a later time. One that is not possible
  -- throws, and leaves the service and the disk as they were. One that is possible saves the vault in memory
  -- with the changed entry in it.
  pub update_entry_lem :
      (env : Env) (service : Bytes) (u p t : Option Bytes) (s : VaultService) (disk : Disk)
      → let storage : Storage = record { disk = disk; history = [] } in
        let o = update_entry c env service u p t s storage in
        (o.0 ≡ ok tt
          → IsUpdatable s.vault service u p t
            × ((old : VaultEntry) × (f : VaultEntry) × (Entries.get_entry service s.vault
                  ≡ some old)
                × (Entries.get_entry service o.1.vault ≡ some f)
                × IsLatest c env disk s service (changed env.now old u p t) f))
        × (¬◌ (IsUpdatable s.vault service u p t) → (e : Error) × (o ≡ (err e, s, storage)))
        × ((old : VaultEntry)
            → Entries.get_entry service s.vault ≡ some old
            → IsUpdatable s.vault service u p t
            → o
              ≡ save c env
                  (record s {
                    vault = Entries.add_entry env.now (changed env.now old u p t) s.vault;
                  })
                  storage)
  unfolding update_entry
  update_entry_lem env service u p t s disk =
      elim (Result-cases (updated env.now s.vault service u p t)) [
        | inr (e, failed) ↦
            rw (failed, update_entry)
              (
                (λ h. cc),
                (λ h. (e, refl)),
                (λ old found h.
                    let passed = IsUpdatable-updated env.now s.vault service u p t old h found in
                    absurd cc),
              )
        | inl (entry, passed) ↦
            let (fine, old, found, made) = updated_lem env.now s.vault service u p t entry passed in
            rw (passed, update_entry)
              (
                (λ h.
                    let (f, held, which) = stored entry old found made h in
                    (fine, (old, f, found, held, which))),
                (λ h. absurd (h fine)),
                (λ old' found' h. same_store entry old' (passed_as entry old' found' h passed)),
              )
      ]
    where
      passed_as :
          (entry old : VaultEntry)
          → Entries.get_entry service s.vault ≡ some old
          → IsUpdatable s.vault service u p t
          → updated env.now s.vault service u p t ≡ ok entry
          → entry ≡ changed env.now old u p t
      passed_as entry old found h passed =
          same_entry entry _
            (sym passed ∙ IsUpdatable-updated env.now s.vault service u p t old h found)

      same_store :
          (entry old : VaultEntry)
          → entry ≡ changed env.now old u p t
          → store c env entry s (record { disk = disk; history = [] })
            ≡ save c env
                (record s { vault = Entries.add_entry env.now (changed env.now old u p t) s.vault })
                (record { disk = disk; history = [] })
      same_store entry old made = rw made (unfold store in refl)

      stored :
          (entry old : VaultEntry)
          → Entries.get_entry service s.vault ≡ some old
          → entry ≡ changed env.now old u p t
          → let o = store c env entry s (record { disk = disk; history = [] }) in
            o.0 ≡ ok tt
            → (f : VaultEntry) × (Entries.get_entry service o.1.vault ≡ some f)
              × IsLatest c env disk s service (changed env.now old u p t) f
      stored entry old found made h =
          let key : entry.service ≡ service =
            ap (λ (x : VaultEntry). x.service) made ∙ get_entry-service service s.vault old found in
          let stamped : entry.last_updated ≡ env.now =
            ap (λ (x : VaultEntry). x.last_updated) made in
          let (f, held, which) = store_lem c env entry s disk stamped h in
          (
            f,
            ap
                  (λ (k : Bytes).
                    Entries.get_entry k
                      (store c env entry s (record { disk = disk; history = [] })).1.vault)
                  (sym key)
                ∙ held,
            subst (λ (x : VaultEntry). IsLatest c env disk s service x f) made
                (subst (λ (k : Bytes). IsLatest c env disk s k entry f) key which),
          )
