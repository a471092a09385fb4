-- ===== src/Vault/File.antt =====
-- `load_vault` and `serialize_and_encrypt_vault` of src/vault.cpp, without the file access: the blob is
-- what `read_file` returned, or what `write_file_atomic` is given.
pub mod RoundTrip
pub mod Guards
use duckpass.Crypto.{
  KdfParams, default_kdf_params, salt_bytes, iv_bytes, tag_bytes, Draw, generate_random_bytes,
  CryptoHandler,
}
use duckpass.Prelude.{
  ℕ, ◌+◌, ◌*◌, ◌==◌, Bool, true, false, not, ◌&&◌, ◌||◌, List, [], ◌∷◌, ◌++◌, Bytes, text, length,
  take, drop, ltb, leb, if◌then◌else◌,
}
use duckpass.Prelude.Result.{Result, ok, err, vault_corrupted_error, throw_if, ◌>>=◌, ◌>>◌}
use duckpass.Text.Decimal.{to_string}
use duckpass.Vault.Entries.{Vault}
use duckpass.Vault.Serial.{serialize, deserialize}
use duckpass.Vault.Wire.{write_uint32, read_uint32}

-- Magic bytes, version, three KDF parameters, salt and nonce.
abbrev pub header_size : ℕ
header_size = 8 + 3 * 4 + salt_bytes + iv_bytes

unfoldable pub has_magic : Bytes → Bool
has_magic (a ∷ b ∷ c ∷ d ∷ _) = a == b'D' && b == b'U' && c == b'C' && d == b'K'
has_magic _ = false

unfoldable pub is_supported : ℕ → Bool
is_supported version = version == 1 || version == 2 || version == 3

abbrev pub max_memory_cost : ℕ
max_memory_cost = 1024 * 1024

abbrev pub max_time_cost : ℕ
max_time_cost = 100

abbrev pub max_parallelism : ℕ
max_parallelism = 64

unfoldable pub exceeds_limits : KdfParams → Bool
exceeds_limits p =
    ltb max_memory_cost p.memory_cost
    || ltb max_time_cost p.time_cost
    || ltb max_parallelism p.parallelism

unfoldable pub read_kdf_params : Bytes → Result (KdfParams × Bytes)
read_kdf_params bytes = do
  (time_cost, bytes₁) ← read_uint32 bytes
  (memory_cost, bytes₂) ← read_uint32 bytes₁
  (parallelism, bytes₃) ← read_uint32 bytes₂
  let params : KdfParams = record {
    time_cost = time_cost;
    memory_cost = memory_cost;
    parallelism = parallelism;
  }
  ok (params, bytes₃)

-- Versions 2 and 3 authenticate the whole header.
unfoldable pub header_aad : ℕ → Bytes → Bytes
header_aad version blob = if leb 2 version then take header_size blob else []

-- The header of version 3.
unfoldable pub make_header : KdfParams → Bytes → Bytes → Bytes
make_header p salt iv =
    let magic : Bytes = b'D' ∷ b'U' ∷ b'C' ∷ b'K' ∷ [] in
    let costs = write_uint32 (write_uint32 (write_uint32 magic 3) p.time_cost) p.memory_cost in
    (write_uint32 costs p.parallelism ++ salt) ++ iv

module _ (c : CryptoHandler) where
  open c use {derive_key, encrypt_data, decrypt_data}

  -- `load_vault` on the bytes of the file, at time `now`.
  unfoldable pub load_blob : ℕ → Bytes → Bytes → Result Vault
  load_blob now blob master_password = do
    throw_if (ltb (length blob) (header_size + tag_bytes))
        (vault_corrupted_error (text "Vault file is truncated."))
    throw_if (not (has_magic blob))
        (vault_corrupted_error (text "Invalid file format: Not a DuckPass vault."))
    (version, bytes) ← read_uint32 (drop 4 blob)
    throw_if (not (is_supported version))
        (vault_corrupted_error (text "Unsupported vault version: " ++ to_string version))
    let aad : Bytes = header_aad version blob
    (kdf_params, rest) ← read_kdf_params bytes
    throw_if (exceeds_limits kdf_params) (
        vault_corrupted_error (
          text "KDF parameters exceed safe limits. File may have been tampered with to cause DoS."))
    let salt : Bytes = take salt_bytes rest
    let iv : Bytes = take iv_bytes (drop salt_bytes rest)
    let ciphertext : Bytes = drop iv_bytes (drop salt_bytes rest)
    key ← derive_key master_password salt kdf_params
    plaintext ← decrypt_data ciphertext key iv aad
    deserialize now plaintext version

  unfoldable pub serialize_and_encrypt_vault : Draw → Draw → Vault → Bytes → Result Bytes
  serialize_and_encrypt_vault salt_draw iv_draw vault master_password = do
    let plaintext : Bytes = serialize vault
    salt ← generate_random_bytes salt_draw
    iv ← generate_random_bytes iv_draw
    let header : Bytes = make_header default_kdf_params salt iv
    key ← derive_key master_password salt default_kdf_params
    ciphertext ← encrypt_data plaintext key iv header
    ok (header ++ ciphertext)
