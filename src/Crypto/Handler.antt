-- ===== src/Crypto/Handler.antt =====
-- The operations of src/crypto.cpp over OpenSSL and Argon2id keep the laws that the other parts use.
use duckpass.Crypto.Gcm.RoundTrip.{decrypt_data-encrypt_data, encrypt_data_fits}
use duckpass.Crypto.Gcm.{Evp, IsGcm, encrypt_data, decrypt_data}
use duckpass.Crypto.{KdfParams, CryptoHandler, IsAead}
use duckpass.Prelude.{◌≡◌, ap, subst, Bytes, length, arith}
use duckpass.Prelude.Result.{Result, ok}

-- `argon2id` is `argon2id_hash_raw`; what it reports is the text of its error.
unfoldable pub handler : Evp → (Bytes → Bytes → KdfParams → Result Bytes) → CryptoHandler
handler evp argon2id = record {
  derive_key = argon2id;
  encrypt_data = encrypt_data evp;
  decrypt_data = decrypt_data evp;
}

-- What was encrypted decrypts to itself, and carries a whole tag.
pub handler-IsAead :
    (evp : Evp) (argon2id : Bytes → Bytes → KdfParams → Result Bytes)
    → IsGcm evp
    → IsAead (handler evp argon2id)
unfolding handler
handler-IsAead evp argon2id g = record {
  decrypt-encrypt = λ p k iv aad blob e.
      let (b, made, _, back) =
        decrypt_data-encrypt_data evp g p k iv aad (encrypt_data_fits evp p k iv aad blob e) in
      let same : b ≡ blob = cc in subst (λ x. decrypt_data evp x k iv aad ≡ ok p) same back;
  tag_included = λ p k iv aad blob e.
      let (b, made, size, _) =
        decrypt_data-encrypt_data evp g p k iv aad (encrypt_data_fits evp p k iv aad blob e) in
      let same : b ≡ blob = cc in omega (arith, ap length same);
}
