-- ===== src/Vault/Entries.antt =====
-- `VaultEntry` and the entry operations of `Vault` (include/duckpass/vault.h, src/vault.cpp). A field
-- stands for the text that `unprotect()` gives, which is what was protected.
pub mod Laws
use duckpass.Prelude.{
  ℕ, ◌==◌, Bool, true, false, not, List, [], ◌∷◌, ◌≡◌, Option, none, some, Bytes, bytes_eq, length,
  keep, ltb, if◌then◌else◌,
}

pub record VaultEntry : Type 0 where
  pub service : Bytes
  pub username : Bytes
  pub password : Bytes
  pub totp_secret : Bytes
  pub last_updated : ℕ

-- The vector `entries` of a `Vault`.
abbrev pub Vault : Type 0
Vault = List VaultEntry

-- `find_if` on the service, then `*it = entry` or `push_back`.
unfoldable pub place : VaultEntry → Vault → Vault
place entry [] = entry ∷ []
place entry (e ∷ entries) =
    if bytes_eq e.service entry.service then entry ∷ entries else e ∷ place entry entries

-- An entry with no time of its own gets `std::time(nullptr)`.
unfoldable pub stamp : ℕ → VaultEntry → VaultEntry
stamp now entry = if entry.last_updated == 0 then record entry { last_updated = now } else entry

unfoldable pub add_entry : ℕ → VaultEntry → Vault → Vault
add_entry now entry entries = place (stamp now entry) entries

-- What `remove_if` leaves.
unfoldable pub without : Bytes → Vault → Vault
without service = keep (λ e. not (bytes_eq e.service service))

-- The answer says whether anything was erased.
unfoldable pub remove_entry : Bytes → Vault → Bool × Vault
unfolding without
remove_entry service entries =
    let kept = without service entries in
    if ltb (length kept) (length entries) then (true, kept) else (false, entries)

unfoldable pub get_entry : Bytes → Vault → Option VaultEntry
get_entry service [] = none
get_entry service (e ∷ entries) =
    if bytes_eq e.service service then some e else get_entry service entries

-- No two entries have the same service.
abbrev pub Absent : Bytes → Vault → Type 0
Absent service [] = Unit {0}
Absent service (e ∷ entries) = (bytes_eq e.service service ≡ false) × Absent service entries

abbrev pub IsDistinct : Vault → Type 0
IsDistinct [] = Unit {0}
IsDistinct (e ∷ entries) = Absent e.service entries × IsDistinct entries
