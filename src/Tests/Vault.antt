-- ===== src/Tests/Vault.antt =====
-- src/vault.cpp at concrete inputs.
use duckpass.Crypto.Gcm.{encrypt_data, add_aad}
use duckpass.Crypto.Handler.{handler}
use duckpass.Prelude.{
  ℕ, ◌≡◌, refl, ap, [], ◌∷◌, ◌++◌, some, Bytes, length, replicate, text, bytes_eq, All, arith,
}
use duckpass.Prelude.Result.{ok}
use duckpass.Tests.Toy.{toy, toy-IsAead}
use duckpass.Vault.Entries.{VaultEntry, Vault, add_entry, stamp, place, IsDistinct}
use duckpass.Vault.File.RoundTrip.{load_blob-serialize_and_encrypt_vault}
use duckpass.Vault.File.{load_blob, serialize_and_encrypt_vault, make_header}
use duckpass.Vault.Serial.RoundTrip.{Fits, deserialize-serialize}
use duckpass.Vault.Serial.Sound.{deserialize-IsDistinct}
use duckpass.Vault.Serial.{
  serialize, write_entries, write_entry, deserialize, read_entries, read_entry, read_last_updated,
  read_totp_secret,
}
use duckpass.Vault.Wire.{
  write_uint32, write_uint64, write_string, read_uint32, read_uint64, read_string,
}

abbrev pub mail : VaultEntry
mail = record {
  service = 1 ∷ [];
  username = 2 ∷ [];
  password = 3 ∷ 4 ∷ [];
  totp_secret = [];
  last_updated = 77;
}

abbrev pub bank : VaultEntry
bank = record mail { service = 5 ∷ []; totp_secret = 6 ∷ [] }

abbrev pub two_entries : Vault
two_entries = mail ∷ bank ∷ []

pub two_entries-Fits : All Fits two_entries
two_entries-Fits = omega arith

pub two_entries-IsDistinct : IsDistinct two_entries
unfolding bytes_eq
two_entries-IsDistinct = ((refl, tt), (tt, tt))

deserialize-serialize_example : deserialize 9 (serialize two_entries) 3 ≡ ok two_entries
deserialize-serialize_example =
    deserialize-serialize 9 two_entries (omega arith) two_entries-Fits two_entries-IsDistinct

repeated_loads : deserialize 9 (serialize (mail ∷ mail ∷ [])) 3 ≡ ok (mail ∷ [])
unfolding serialize write_entries write_entry write_uint32 write_uint64 write_string deserialize
    read_entries read_entry read_last_updated read_totp_secret read_uint32 read_uint64 read_string
    add_entry place stamp bytes_eq
repeated_loads = refl

deserialize-IsDistinct_example : IsDistinct (mail ∷ [])
deserialize-IsDistinct_example =
    deserialize-IsDistinct 9 (serialize (mail ∷ mail ∷ [])) 3 (mail ∷ []) repeated_loads

abbrev pub salt : Bytes
salt = replicate 16 8

abbrev pub nonce : Bytes
nonce = replicate 12 5

abbrev pub password : Bytes
password = 3 ∷ []

unfoldable pub blob : Bytes
unfolding make_header write_uint32 serialize write_entries write_entry write_uint64 write_string
blob =
    make_header (record { time_cost = 2; memory_cost = 65536; parallelism = 1 }) salt nonce
    ++ (serialize two_entries ++ replicate 16 78)

pub drawn_size :
    (drawn : Bytes) (n : ℕ) → length drawn ≡ n → (s : Bytes) → some drawn ≡ some s → length s ≡ n
drawn_size drawn n h s e = let same : drawn ≡ s = cc in omega (arith, ap (λ x. length x) same)

blob_saved : serialize_and_encrypt_vault toy (some salt) (some nonce) two_entries password ≡ ok blob
unfolding blob serialize_and_encrypt_vault handler encrypt_data add_aad make_header write_uint32
    serialize write_entries write_entry write_uint64 write_string text
blob_saved = refl

load_blob-serialize_and_encrypt_vault_example : load_blob toy 9 blob password ≡ ok two_entries
load_blob-serialize_and_encrypt_vault_example =
    load_blob-serialize_and_encrypt_vault toy toy-IsAead (some salt) (some nonce) two_entries
      password blob 9 (λ s e. drawn_size salt 16 refl s e) (λ s e. drawn_size nonce 12 refl s e)
      (omega arith) two_entries-Fits two_entries-IsDistinct blob_saved
