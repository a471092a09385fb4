-- ===== src/Vault/File/Guards.antt =====
-- What `load_vault` checks before it derives a key.
use duckpass.Crypto.{KdfParams, salt_bytes, iv_bytes, tag_bytes, CryptoHandler}
use duckpass.Prelude.{
  ℕ, ◌+◌, ◌≤◌, true, false, not, ◌≡◌, ◌⊎◌, Bytes, length, take, drop, ltb, arith,
}
use duckpass.Prelude.Result.{ok, bind-eq-ok, throw_if-eq-ok}
use duckpass.Vault.Entries.{Vault, IsDistinct}
use duckpass.Vault.Serial.Sound.{deserialize-IsDistinct}
use duckpass.Vault.File.{
  header_size, has_magic, is_supported, exceeds_limits, header_aad, max_memory_cost, max_time_cost,
  max_parallelism, read_kdf_params, load_blob,
}
use duckpass.Vault.Wire.{read_uint32}

-- The header of a file that `load_vault` does not refuse before it derives a key.
pub record Accepted (blob : Bytes) : Type 0 where
  pub long_enough : header_size + tag_bytes ≤ length blob
  pub magic : has_magic blob ≡ true
  pub version : ℕ
  pub after_version : Bytes
  pub version_read : read_uint32 (drop 4 blob) ≡ ok (version, after_version)
  pub supported : (version ≡ 1) ⊎ (version ≡ 2) ⊎ (version ≡ 3)
  pub params : KdfParams
  pub after_params : Bytes
  pub params_read : read_kdf_params after_version ≡ ok (params, after_params)
  pub memory_bound : params.memory_cost ≤ max_memory_cost
  pub time_bound : params.time_cost ≤ max_time_cost
  pub parallelism_bound : params.parallelism ≤ max_parallelism

is_supported_cases :
    (version : ℕ)
    → not (is_supported version) ≡ false
    → (version ≡ 1) ⊎ (version ≡ 2) ⊎ (version ≡ 3)
unfolding is_supported
is_supported_cases version h = ground arith

exceeds_limits_bounds :
    (p : KdfParams)
    → exceeds_limits p ≡ false
    → (p.memory_cost ≤ max_memory_cost)
      × (p.time_cost ≤ max_time_cost)
      × (p.parallelism ≤ max_parallelism)
unfolding exceeds_limits
exceeds_limits_bounds p h = ground arith

module _ (c : CryptoHandler) where
  -- A file that loads is at least as long as a header and a tag, begins with the magic bytes, has one of
  -- the versions 1 to 3, and its Argon2 parameters are within the limits.
  pub load_blob-Accepted :
      (now : ℕ) (blob password : Bytes) (v : Vault)
      → load_blob c now blob password ≡ ok v
      → Accepted blob
  unfolding load_blob
  load_blob-Accepted now blob password v h =
      let (long, h₁) = throw_if-eq-ok (ltb (length blob) (header_size + tag_bytes)) _ _ h in
      let (magic, h₂) = throw_if-eq-ok (not (has_magic blob)) _ _ h₁ in
      let (p, read, h₃) = bind-eq-ok (read_uint32 (drop 4 blob)) _ h₂ in
      let (known, h₄) = throw_if-eq-ok (not (is_supported p.0)) _ _ h₃ in
      let (q, params, h₅) = bind-eq-ok (read_kdf_params p.1) _ h₄ in
      let (bounded, _) = throw_if-eq-ok (exceeds_limits q.0) _ _ h₅ in
      let bounds = exceeds_limits_bounds q.0 bounded in
      record {
        long_enough = ground arith;
        magic = ground arith;
        version = p.0;
        after_version = p.1;
        version_read = read;
        supported = is_supported_cases p.0 known;
        params = q.0;
        after_params = q.1;
        params_read = params;
        memory_bound = bounds.0;
        time_bound = bounds.1;
        parallelism_bound = bounds.2;
      }

  -- Whatever the file holds, the vault that it loads has one entry at most for each service.
  pub load_blob-IsDistinct :
      (now : ℕ) (blob password : Bytes) (v : Vault)
      → load_blob c now blob password ≡ ok v
      → IsDistinct v
  unfolding load_blob
  load_blob-IsDistinct now blob password v h =
      let (_, h₁) = throw_if-eq-ok (ltb (length blob) (header_size + tag_bytes)) _ _ h in
      let (_, h₂) = throw_if-eq-ok (not (has_magic blob)) _ _ h₁ in
      let (p, _, h₃) = bind-eq-ok (read_uint32 (drop 4 blob)) _ h₂ in
      let (_, h₄) = throw_if-eq-ok (not (is_supported p.0)) _ _ h₃ in
      let (q, _, h₅) = bind-eq-ok (read_kdf_params p.1) _ h₄ in
      let (_, h₆) = throw_if-eq-ok (exceeds_limits q.0) _ _ h₅ in
      let (key, _, h₇) = bind-eq-ok (c.derive_key password (take salt_bytes q.1) q.0) _ h₆ in
      let (plaintext, _, h₈) =
        bind-eq-ok
          (c.decrypt_data (drop iv_bytes (drop salt_bytes q.1)) key
            (take iv_bytes (drop salt_bytes q.1)) (header_aad p.0 blob))
          _ h₇ in
      deserialize-IsDistinct now plaintext p.0 v h₈
