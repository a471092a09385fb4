-- ===== src/Tests/Toy.antt =====
-- A transparent cipher that behaves as the EVP calls are documented to.
use duckpass.Crypto.Gcm.{Evp, IsGcm, Session, fresh}
use duckpass.Crypto.Handler.{handler, handler-IsAead}
use duckpass.Crypto.{KdfParams, CryptoHandler, IsAead}
use duckpass.Prelude.{
  ◌+◌, ◌%◌, ◌≡◌, ◌≢◌, refl, Bool-cases, inl, inr, [], ◌++◌, none, some, Bytes, length, replicate,
  take, bytes_eq, bytes_eq_iff, if◌then◌else◌,
}
use duckpass.Prelude.Result.{Result, ok}

abbrev toy_tag : Session → Bytes
toy_tag s = replicate 16 ((length s.key + length s.ciphertext) % 256)

abbrev pub toy_evp : Evp
toy_evp = record {
  Ctx = Session;
  ctx_new = some (fresh [] []);
  encrypt_init = λ c k iv. some (fresh k iv);
  decrypt_init = λ c k iv. some (fresh k iv);
  encrypt_aad = λ c a. some (record c { aad = c.aad ++ a });
  decrypt_aad = λ c a. some (record c { aad = c.aad ++ a });
  encrypt_update = λ c p. some (record c { ciphertext = p }, p);
  decrypt_update = λ c x. some (record c { ciphertext = x }, x);
  encrypt_final = λ c. some (c, []);
  decrypt_final = λ c. if bytes_eq c.expected_tag (toy_tag c) then some (c, []) else none;
  get_tag = λ c n. some (take n (toy_tag c));
  set_tag = λ c t. some (record c { expected_tag = t });
}

pub toy_accepts :
    (c : Session)
    → c.expected_tag ≡ toy_tag c
    → (d : Session) × (toy_evp.decrypt_final c ≡ some (d, []))
toy_accepts c h = (c, rw ((bytes_eq_iff _ _).1 h) refl)

pub toy_rejects : (c : Session) → c.expected_tag ≢ toy_tag c → toy_evp.decrypt_final c ≡ none
toy_rejects c h = elim (Bool-cases (bytes_eq c.expected_tag (toy_tag c))) [
  | inl same ↦ absurd (h ((bytes_eq_iff _ _).0 same))
  | inr other ↦ rw other refl
]

abbrev pub toy_gcm : IsGcm toy_evp
toy_gcm = record {
  view = λ c. c;
  cipher = λ k iv p. p;
  decipher = λ k iv x. x;
  tag_of = toy_tag;
  decipher-cipher = λ k iv p. refl;
  tag_size = λ s. refl;
  tag_of_session = λ s t. refl;
  ctx_new_works = (fresh [] [], refl);
  encrypt_init_works = λ c k iv. (fresh k iv, refl, refl);
  decrypt_init_works = λ c k iv. (fresh k iv, refl, refl);
  encrypt_aad_works = λ c a. (record c { aad = c.aad ++ a }, refl, refl);
  decrypt_aad_works = λ c a. (record c { aad = c.aad ++ a }, refl, refl);
  encrypt_update_works = λ c p. (record c { ciphertext = p }, refl, refl);
  decrypt_update_works = λ c x. (record c { ciphertext = x }, refl, refl);
  encrypt_final_works = λ c. (c, refl, refl);
  get_tag_works = λ c. refl;
  set_tag_works = λ c t. (record c { expected_tag = t }, refl, refl);
  decrypt_final_accepts = toy_accepts;
  decrypt_final_rejects = toy_rejects;
}

-- The key is the password and the salt.
abbrev pub toy_kdf : Bytes → Bytes → KdfParams → Result Bytes
toy_kdf password salt params = ok (password ++ salt)

abbrev pub toy : CryptoHandler
toy = handler toy_evp toy_kdf

pub toy-IsAead : IsAead toy
toy-IsAead = handler-IsAead toy_evp toy_kdf toy_gcm
