-- ===== src/Vault/Serial.antt =====
-- `Vault::serialize` and `Vault::deserialize` of src/vault.cpp. One reading of the clock, `now`, serves
-- all the `add_entry` calls of a load.
pub mod RoundTrip
pub mod Sound
use duckpass.Prelude.{
  ℕ, zero, suc, ◌%◌, ◌^◌, ◌&&◌, List, [], ◌∷◌, Bytes, is_empty, length, ltb, leb, if◌then◌else◌,
}
use duckpass.Prelude.Result.{Result, ok, err, ◌>>=◌}
use duckpass.Vault.Entries.{VaultEntry, Vault, add_entry}
use duckpass.Vault.Wire.{
  write_uint32, write_uint64, write_string, read_uint32, read_uint64, read_string,
}

-- The body of the loop over the entries.
unfoldable pub write_entry : Bytes → VaultEntry → Bytes
write_entry buffer e =
    let credentials =
      write_string (write_string (write_string buffer e.service) e.username) e.password in
    write_string (write_uint64 credentials e.last_updated) e.totp_secret

unfoldable pub write_entries : Bytes → Vault → Bytes
write_entries buffer [] = buffer
write_entries buffer (e ∷ entries) = write_entries (write_entry buffer e) entries

unfoldable pub serialize : Vault → Bytes
serialize entries = write_entries (write_uint32 [] (length entries % 2 ^ 32)) entries

-- An older format has no `last_updated`.
unfoldable pub read_last_updated : Bytes → Result (ℕ × Bytes)
read_last_updated bytes = if leb 8 (length bytes) then read_uint64 bytes else ok (0, bytes)

-- Only version 3 has a `totp_secret`; what is left unset is the empty string.
unfoldable pub read_totp_secret : ℕ → Bytes → Result (Bytes × Bytes)
read_totp_secret version bytes =
    if leb 3 version && leb 4 (length bytes) then read_string bytes else ok ([], bytes)

unfoldable pub read_entry : ℕ → Bytes → Result (VaultEntry × Bytes)
read_entry version bytes = do
  (service, bytes₁) ← read_string bytes
  (username, bytes₂) ← read_string bytes₁
  (password, bytes₃) ← read_string bytes₂
  (last_updated, bytes₄) ← read_last_updated bytes₃
  (totp_secret, bytes₅) ← read_totp_secret version bytes₄
  let entry : VaultEntry = record {
    service = service;
    username = username;
    password = password;
    totp_secret = totp_secret;
    last_updated = last_updated;
  }
  ok (entry, bytes₅)

unfoldable pub read_entries : ℕ → ℕ → ℕ → Bytes → Vault → Result Vault
read_entries zero now version bytes vault = ok vault
read_entries (suc n) now version bytes vault = do
  (entry, rest) ← read_entry version bytes
  read_entries n now version rest (add_entry now entry vault)

unfoldable pub deserialize : ℕ → Bytes → ℕ → Result Vault
deserialize now [] version = ok []
deserialize now (b ∷ bytes) version = do
  (num_entries, rest) ← read_uint32 (b ∷ bytes)
  read_entries num_entries now version rest []
