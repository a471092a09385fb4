-- ===== src/Vault/File/RoundTrip.antt =====
-- A vault file opens with the password that it was saved under, and holds the saved entries.
use duckpass.Crypto.{
  default_kdf_params, salt_bytes, iv_bytes, tag_bytes, Draw, CryptoHandler, IsAead,
}
use duckpass.Prelude.{
  ℕ, ◌+◌, ◌^◌, ◌≤◌, ◌<◌, false, ◌++◌, ◌≡◌, refl, Bytes, length, length-append, take, drop,
  take_exact, drop_exact, ltb, le→ltb, append_assoc, arith, All, none, some,
}
use duckpass.Prelude.Result.{ok, ◌>>=◌, bind-eq-ok}
use duckpass.Vault.Entries.{Vault, IsDistinct}
use duckpass.Vault.File.{
  header_size, has_magic, is_supported, exceeds_limits, read_kdf_params, header_aad, load_blob,
  make_header, serialize_and_encrypt_vault,
}
use duckpass.Vault.Serial.RoundTrip.{Fits, deserialize-serialize}
use duckpass.Vault.Serial.{serialize, deserialize}
use duckpass.Vault.Wire.{write_uint32, read_uint32}

-- What the header holds after its fixed part.
abbrev header_of : Bytes → Bytes → Bytes
header_of = make_header default_kdf_params

length-header_of :
    (salt iv : Bytes)
    → length salt ≡ salt_bytes
    → length iv ≡ iv_bytes
    → length (header_of salt iv) ≡ header_size
unfolding make_header write_uint32
length-header_of salt iv hs hi = omega (arith, length-append salt iv, hs, hi)

-- The additional data are the whole header.
header_aad_lem :
    (salt iv ciphertext : Bytes)
    → length salt ≡ salt_bytes
    → length iv ≡ iv_bytes
    → header_aad 3 (header_of salt iv ++ ciphertext) ≡ header_of salt iv
unfolding header_aad
header_aad_lem salt iv ciphertext hs hi =
    take_exact header_size (header_of salt iv) ciphertext (length-header_of salt iv hs hi)

module _ (c : CryptoHandler) where
  open c use {derive_key, encrypt_data, decrypt_data}

  -- Loading a file with the header of a fresh save gets to the decryption.
  load_blob_header :
      (now : ℕ) (salt iv ciphertext password : Bytes)
      → length salt ≡ salt_bytes
      → length iv ≡ iv_bytes
      → tag_bytes ≤ length ciphertext
      → load_blob c now (header_of salt iv ++ ciphertext) password ≡ (
          derive_key password salt default_kdf_params >>= λ key.
          decrypt_data ciphertext key iv (header_of salt iv) >>= λ plaintext.
          deserialize now plaintext 3)
  unfolding load_blob has_magic is_supported exceeds_limits read_kdf_params read_uint32 make_header
      write_uint32
  load_blob_header now salt iv ciphertext password hs hi hc =
      rw
        (
          long_enough,
          header_aad_lem salt iv ciphertext hs hi,
          salt_cut,
          rest_cut,
          take_exact iv_bytes iv ciphertext hi,
          drop_exact iv_bytes iv ciphertext hi,
        )
        refl
    where
      long_enough : ltb (length (header_of salt iv ++ ciphertext)) (header_size + tag_bytes) ≡ false
      long_enough = le→ltb _ _ (
          omega (
            arith,
            length-append (header_of salt iv) ciphertext,
            length-header_of salt iv hs hi,
            hc,
          ))

      salt_cut : take salt_bytes ((salt ++ iv) ++ ciphertext) ≡ salt
      salt_cut = rw (append_assoc salt iv ciphertext) (take_exact salt_bytes salt _ hs)

      rest_cut : drop salt_bytes ((salt ++ iv) ++ ciphertext) ≡ iv ++ ciphertext
      rest_cut = rw (append_assoc salt iv ciphertext) (drop_exact salt_bytes salt _ hs)

  -- What a successful save went through.
  record Saved (salt_draw iv_draw : Draw) (vault : Vault) (password blob : Bytes) : Type 0 where
    salt : Bytes
    iv : Bytes
    key : Bytes
    ciphertext : Bytes
    salt_drawn : salt_draw ≡ some salt
    iv_drawn : iv_draw ≡ some iv
    key_derived : derive_key password salt default_kdf_params ≡ ok key
    encrypted : encrypt_data (serialize vault) key iv (header_of salt iv) ≡ ok ciphertext
    packed : blob ≡ header_of salt iv ++ ciphertext

  saved :
      (salt_draw iv_draw : Draw) (vault : Vault) (password blob : Bytes)
      → serialize_and_encrypt_vault c salt_draw iv_draw vault password ≡ ok blob
      → Saved salt_draw iv_draw vault password blob
  unfolding serialize_and_encrypt_vault
  saved none iv_draw vault password blob h = cc
  saved (some salt) none vault password blob h = cc
  saved (some salt) (some iv) vault password blob h =
      let (key, derived, h₁) = bind-eq-ok (derive_key password salt default_kdf_params) _ h in
      let (ciphertext, encrypted, h₂) =
        bind-eq-ok (encrypt_data (serialize vault) key iv (header_of salt iv)) _ h₁ in
      record {
        salt = salt;
        iv = iv;
        key = key;
        ciphertext = ciphertext;
        salt_drawn = refl;
        iv_drawn = refl;
        key_derived = derived;
        encrypted = encrypted;
        packed = cc;
      }

  -- With a cipher that decrypts what it encrypts and adds a tag of at least 16 bytes, and for a vault of
  -- fewer than 2^32 entries with distinct services, whose strings are shorter than 2^32
  -- bytes and whose times are set and below 2^64: if saving it under a password gives a blob, with a salt
  -- of 16 bytes and a nonce of 12, then loading the blob with that password gives the vault.
  pub load_blob-serialize_and_encrypt_vault :
      IsAead c
      → (salt_draw iv_draw : Draw) (vault : Vault) (password blob : Bytes) (now : ℕ)
      → ((salt : Bytes) → salt_draw ≡ some salt → length salt ≡ salt_bytes)
      → ((iv : Bytes) → iv_draw ≡ some iv → length iv ≡ iv_bytes)
      → length vault < 2 ^ 32
      → All Fits vault
      → IsDistinct vault
      → serialize_and_encrypt_vault c salt_draw iv_draw vault password ≡ ok blob
      → load_blob c now blob password ≡ ok vault
  load_blob-serialize_and_encrypt_vault laws salt_draw iv_draw vault password blob now hs hi n f d
        h =
      let s = saved salt_draw iv_draw vault password blob h in
      rw
        (
          s.packed,
          load_blob_header now s.salt s.iv s.ciphertext password (hs _ s.salt_drawn)
              (hi _ s.iv_drawn) (laws.tag_included _ _ _ _ _ s.encrypted),
          s.key_derived,
          laws.decrypt-encrypt _ _ _ _ _ s.encrypted,
        )
        (deserialize-serialize now vault n f d)
