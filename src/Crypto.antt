-- ===== src/Crypto.antt =====
-- src/crypto.cpp and include/duckpass/crypto.h. The vault and the protected strings use the operations
-- of `CryptoHandler` and its laws; Crypto.Gcm implements them over OpenSSL's calls.
pub mod Gcm
pub mod Hash
pub mod Handler
pub mod Password
use duckpass.Prelude.{ℕ, ◌+◌, ◌≤◌, ◌≡◌, Option, Bytes, text, length}
use duckpass.Prelude.Result.{Result, ok, err, Error, crypto_error, or_throw}

pub record KdfParams : Type 0 where
  pub time_cost : ℕ
  pub memory_cost : ℕ
  pub parallelism : ℕ

abbrev pub default_kdf_params : KdfParams
default_kdf_params = record { time_cost = 2; memory_cost = 65536; parallelism = 1 }

abbrev pub salt_bytes : ℕ
salt_bytes = 16

abbrev pub key_bytes : ℕ
key_bytes = 32

abbrev pub iv_bytes : ℕ
iv_bytes = 12

abbrev pub tag_bytes : ℕ
tag_bytes = 16

-- What one call of `RAND_bytes` filled the buffer with, or nothing if it failed.
abbrev pub Draw : Type 0
Draw = Option Bytes

abbrev pub generate_random_bytes : Draw → Result Bytes
generate_random_bytes draw = or_throw draw (crypto_error (text "Failed to generate random bytes."))

-- `derive_key_from_password`, `encrypt_data` and `decrypt_data` as their callers see them. The first is
-- Argon2id, which is not part of the program.
pub record CryptoHandler : Type 0 where
  pub derive_key : Bytes → Bytes → KdfParams → Result Bytes
  -- of the plaintext, the key, the nonce and the additional data
  pub encrypt_data : Bytes → Bytes → Bytes → Bytes → Result Bytes
  -- of the blob, the key, the nonce and the additional data
  pub decrypt_data : Bytes → Bytes → Bytes → Bytes → Result Bytes

pub record IsAead (c : CryptoHandler) : Type 0 where
  pub decrypt-encrypt :
      (plaintext key iv aad blob : Bytes)
      → c.encrypt_data plaintext key iv aad ≡ ok blob
      → c.decrypt_data blob key iv aad ≡ ok plaintext
  pub tag_included :
      (plaintext key iv aad blob : Bytes)
      → c.encrypt_data plaintext key iv aad ≡ ok blob
      → tag_bytes ≤ length blob
