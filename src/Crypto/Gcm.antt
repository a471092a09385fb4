-- ===== src/Crypto/Gcm.antt =====
-- `encrypt_data` and `decrypt_data` of src/crypto.cpp over OpenSSL's EVP calls. A call that returns
-- another value than 1 is `none`; one that succeeds returns the changed context.

pub mod RoundTrip
use duckpass.Crypto.{tag_bytes}
use duckpass.Prelude.{
  ℕ, ◌+◌, ◌-◌, ◌^◌, ◌≡◌, List, [], ◌∷◌, ◌++◌, Option, none, some, Bytes, text, length, take, drop,
  ltb, is_empty, ◌≢◌, if◌then◌else◌,
}
use duckpass.Prelude.Result.{
  Result, ok, err, Error, crypto_error, vault_corrupted_error, wrong_password_error, throw_if,
  or_throw, ◌>>=◌, ◌>>◌,
}

-- The calls of OpenSSL, with AES-256-GCM as the cipher.
pub record Evp : Type 1 where
  pub Ctx : Type 0
  pub ctx_new : Option Ctx
  -- EVP_EncryptInit_ex and EVP_DecryptInit_ex, with the key and the nonce
  pub encrypt_init : Ctx → Bytes → Bytes → Option Ctx
  pub decrypt_init : Ctx → Bytes → Bytes → Option Ctx
  -- EVP_EncryptUpdate and EVP_DecryptUpdate with no output: additional data
  pub encrypt_aad : Ctx → Bytes → Option Ctx
  pub decrypt_aad : Ctx → Bytes → Option Ctx
  -- the same with an output
  pub encrypt_update : Ctx → Bytes → Option (Ctx × Bytes)
  pub decrypt_update : Ctx → Bytes → Option (Ctx × Bytes)
  pub encrypt_final : Ctx → Option (Ctx × Bytes)
  pub decrypt_final : Ctx → Option (Ctx × Bytes)
  -- EVP_CIPHER_CTX_ctrl with EVP_CTRL_GCM_GET_TAG and EVP_CTRL_GCM_SET_TAG
  pub get_tag : Ctx → ℕ → Option Bytes
  pub set_tag : Ctx → Bytes → Option Ctx

-- `std::numeric_limits<int>::max()`
abbrev pub int_max : ℕ
int_max = 2 ^ 31 - 1

abbrev crypto {ℓ} : {A : Type ℓ} → Option A → Bytes → Result A
crypto result message = or_throw result (crypto_error message)

-- `if (!aad.empty())`
unfoldable pub add_aad {ℓ} : {C : Type ℓ} → (C → Bytes → Option C) → C → Bytes → Bytes → Result C
add_aad set ctx aad message = if is_empty aad then ok ctx else crypto (set ctx aad) message

module _ (evp : Evp) where
  open evp use {
    Ctx, ctx_new, encrypt_init, decrypt_init, encrypt_aad, decrypt_aad, encrypt_update,
    decrypt_update, encrypt_final, decrypt_final, get_tag, set_tag,
  }

  unfoldable pub encrypt_data : Bytes → Bytes → Bytes → Bytes → Result Bytes
  encrypt_data plaintext key iv aad = do
    throw_if (ltb int_max (length plaintext))
        (crypto_error (text "Vault data size exceeds OpenSSL's encryption limit (2.1GB)."))
    ctx ← crypto ctx_new (text "Failed to create cipher context.")
    ctx₁ ← crypto (encrypt_init ctx key iv) (text "Failed to initialize GCM encryption.")
    ctx₂ ← add_aad encrypt_aad ctx₁ aad (text "Failed to set AAD for GCM encryption.")
    (ctx₃, body) ←
        crypto (encrypt_update ctx₂ plaintext) (text "Failed during GCM encryption update.")
    (ctx₄, end) ← crypto (encrypt_final ctx₃) (text "Failed during GCM encryption finalization.")
    tag ← crypto (get_tag ctx₄ tag_bytes) (text "Failed to get GCM authentication tag.")
    ok ((body ++ end) ++ tag)

  unfoldable pub decrypt_data : Bytes → Bytes → Bytes → Bytes → Result Bytes
  decrypt_data blob key iv aad = do
    throw_if (ltb (length blob) tag_bytes)
        (vault_corrupted_error (text "Encrypted data is too short."))
    let ciphertext : Bytes = take (length blob - tag_bytes) blob
    let tag : Bytes = drop (length blob - tag_bytes) blob
    ctx ← crypto ctx_new (text "Failed to create cipher context.")
    ctx₁ ← crypto (decrypt_init ctx key iv) (text "Failed to initialize GCM decryption.")
    ctx₂ ← crypto (set_tag ctx₁ tag) (text "Failed to set GCM authentication tag.")
    ctx₃ ← add_aad decrypt_aad ctx₂ aad (text "Failed to set AAD for GCM decryption.")
    (ctx₄, body) ←
        crypto (decrypt_update ctx₃ ciphertext)
          (text "Failed during GCM decryption update. Data may be corrupted.")
    (_, end) ← or_throw (decrypt_final ctx₄) wrong_password_error
    ok (body ++ end)

-- What a context was given, in the order that the calls allow.
pub record Session : Type 0 where
  pub key : Bytes
  pub iv : Bytes
  pub aad : Bytes
  -- the ciphertext that was produced or read
  pub ciphertext : Bytes
  pub expected_tag : Bytes

abbrev pub fresh : Bytes → Bytes → Session
fresh key iv = record { key = key; iv = iv; aad = []; ciphertext = []; expected_tag = [] }

-- The documented behaviour of the calls, by what each does to the session that `view` shows. AES-GCM
-- itself is `cipher`, its inverse `decipher`, and `tag_of`; no call fails, but the end of a decryption
-- under another tag.
pub record IsGcm (evp : Evp) : Type 0 where
  pub view : evp.Ctx → Session
  pub cipher : Bytes → Bytes → Bytes → Bytes
  pub decipher : Bytes → Bytes → Bytes → Bytes
  pub tag_of : Session → Bytes
  pub decipher-cipher : (k iv p : Bytes) → decipher k iv (cipher k iv p) ≡ p
  pub tag_size : (s : Session) → length (tag_of s) ≡ tag_bytes
  -- the tag authenticates the key, the nonce, the additional data and the ciphertext
  pub tag_of_session : (s : Session) (t : Bytes) → tag_of (record s { expected_tag = t }) ≡ tag_of s
  pub ctx_new_works : (c : evp.Ctx) × (evp.ctx_new ≡ some c)
  pub encrypt_init_works :
      (c : evp.Ctx) (k iv : Bytes)
      → (d : evp.Ctx) × (evp.encrypt_init c k iv ≡ some d) × (view d ≡ fresh k iv)
  pub decrypt_init_works :
      (c : evp.Ctx) (k iv : Bytes)
      → (d : evp.Ctx) × (evp.decrypt_init c k iv ≡ some d) × (view d ≡ fresh k iv)
  pub encrypt_aad_works :
      (c : evp.Ctx) (a : Bytes)
      → (d : evp.Ctx) × (evp.encrypt_aad c a ≡ some d)
        × (view d ≡ record (view c) { aad = (view c).aad ++ a })
  pub decrypt_aad_works :
      (c : evp.Ctx) (a : Bytes)
      → (d : evp.Ctx) × (evp.decrypt_aad c a ≡ some d)
        × (view d ≡ record (view c) { aad = (view c).aad ++ a })
  pub encrypt_update_works :
      (c : evp.Ctx) (p : Bytes)
      → (d : evp.Ctx) × (evp.encrypt_update c p ≡ some (d, cipher (view c).key (view c).iv p))
        × (view d ≡ record (view c) { ciphertext = cipher (view c).key (view c).iv p })
  pub decrypt_update_works :
      (c : evp.Ctx) (x : Bytes)
      → (d : evp.Ctx) × (evp.decrypt_update c x ≡ some (d, decipher (view c).key (view c).iv x))
        × (view d ≡ record (view c) { ciphertext = x })
  pub encrypt_final_works :
      (c : evp.Ctx) → (d : evp.Ctx) × (evp.encrypt_final c ≡ some (d, [])) × (view d ≡ view c)
  pub get_tag_works : (c : evp.Ctx) → evp.get_tag c tag_bytes ≡ some (tag_of (view c))
  pub set_tag_works :
      (c : evp.Ctx) (t : Bytes)
      → (d : evp.Ctx) × (evp.set_tag c t ≡ some d) × (view d ≡ record (view c) { expected_tag = t })
  pub decrypt_final_accepts :
      (c : evp.Ctx)
      → (view c).expected_tag ≡ tag_of (view c)
      → (d : evp.Ctx) × (evp.decrypt_final c ≡ some (d, []))
  pub decrypt_final_rejects :
      (c : evp.Ctx) → (view c).expected_tag ≢ tag_of (view c) → evp.decrypt_final c ≡ none
