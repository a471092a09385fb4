-- ===== src/Crypto/Gcm/RoundTrip.antt =====
-- `decrypt_data` undoes `encrypt_data`, and refuses what it did not make.
use duckpass.Crypto.{tag_bytes}
use duckpass.Crypto.Gcm.{Evp, IsGcm, Session, add_aad, encrypt_data, decrypt_data, int_max}
use duckpass.Prelude.{
  ◌+◌, ◌-◌, ◌≤◌, ◌≡◌, ◌≢◌, refl, sym, ap, ◌∙◌, false, [], ◌∷◌, ◌++◌, Option, some, Bytes, text,
  length, take, drop, take_exact, drop_exact, length-append, ltb, le→ltb, append-nil, arith,
  take-append-drop, length-drop, Bool-cases, bytes_eq, bytes_eq→eq, bytes_eq_iff, inl, inr,
}
use duckpass.Prelude.Result.{ok, err, wrong_password_error, or_throw, throw_if-eq-ok, ◌>>=◌}

-- The session of an encryption: the key, the nonce, the additional data and the ciphertext.
abbrev pub session : Bytes → Bytes → Bytes → Bytes → Session
session key iv aad x = record { key = key; iv = iv; aad = aad; ciphertext = x; expected_tag = [] }

module _ (evp : Evp) (g : IsGcm evp) where
  open g use {view, cipher, decipher, tag_of}

  -- Adding the additional data cannot fail, whether there are any or not.
  add_aad_works :
      (set : evp.Ctx → Bytes → Option evp.Ctx) (c : evp.Ctx) (aad message : Bytes)
      → ((a : Bytes)
          → (d : evp.Ctx) × (set c a ≡ some d)
            × (view d ≡ record (view c) { aad = (view c).aad ++ a }))
      → (view c).aad ≡ []
      → (d : evp.Ctx) × (add_aad set c aad message ≡ ok d)
        × (view d ≡ record (view c) { aad = aad })
  unfolding add_aad
  add_aad_works set c [] message works none_yet =
      (c, refl, λ i. record (view c) { aad = none_yet i })
  add_aad_works set c (b ∷ aad) message works none_yet =
      let (d, e, v) = works (b ∷ aad) in
      (d, rw e refl, v ∙ (λ i. record (view c) { aad = none_yet i ++ b ∷ aad }))

  encrypt_data_lem :
      (p k iv aad : Bytes)
      → length p ≤ int_max
      → encrypt_data evp p k iv aad
        ≡ ok (cipher k iv p ++ tag_of (session k iv aad (cipher k iv p)))
  unfolding encrypt_data
  encrypt_data_lem p k iv aad h =
      let (c₀, e₀) = g.ctx_new_works in
      let (c₁, e₁, v₁) = g.encrypt_init_works c₀ k iv in
      let (c₂, e₂, v₂) =
        add_aad_works evp.encrypt_aad c₁ aad (text "Failed to set AAD for GCM encryption.")
          (g.encrypt_aad_works c₁) (ap (λ s. s.aad) v₁) in
      let (c₃, e₃, v₃) = g.encrypt_update_works c₂ p in
      let (c₄, e₄, v₄) = g.encrypt_final_works c₃ in
      simp (le→ltb _ _ h, e₀, e₁, e₂, e₃, e₄, g.get_tag_works c₄, v₄, v₃, v₂, v₁, append-nil)

  -- The blob is cut at the tag.
  blob_cut :
      (x t : Bytes)
      → length t ≡ tag_bytes
      → (take (length (x ++ t) - tag_bytes) (x ++ t) ≡ x)
        × (drop (length (x ++ t) - tag_bytes) (x ++ t) ≡ t)
        × (ltb (length (x ++ t)) tag_bytes ≡ false)
  blob_cut x t h =
      let at_tag : length x ≡ length (x ++ t) - tag_bytes = omega (arith, length-append x t) in
      (
        take_exact _ x t at_tag,
        drop_exact _ x t at_tag,
        le→ltb _ _ (omega (arith, length-append x t)),
      )

  -- The calls before the last one, with the tag check still to come.
  decrypt_data_final :
      (x t k iv aad : Bytes)
      → length t ≡ tag_bytes
      → (c : evp.Ctx) × (decrypt_data evp (x ++ t) k iv aad ≡ (
          or_throw (evp.decrypt_final c) wrong_password_error >>= λ r. ok (decipher k iv x ++ r.1)))
        × (view c ≡ record (session k iv aad x) { expected_tag = t })
  unfolding decrypt_data
  decrypt_data_final x t k iv aad h =
      let (c₀, e₀) = g.ctx_new_works in
      let (c₁, e₁, v₁) = g.decrypt_init_works c₀ k iv in
      let (c₂, e₂, v₂) = g.set_tag_works c₁ t in
      let (c₃, e₃, v₃) =
        add_aad_works evp.decrypt_aad c₂ aad (text "Failed to set AAD for GCM decryption.")
          (g.decrypt_aad_works c₂) (simp (v₂, v₁)) in
      let (c₄, e₄, v₄) = g.decrypt_update_works c₃ x in
      let (cut, tag_cut, enough) = blob_cut x t h in
      (c₄, simp (enough, cut, tag_cut, e₀, e₁, e₂, e₃, e₄, v₃, v₂, v₁), simp (v₄, v₃, v₂, v₁))

  decrypt_data_accepts :
      (x k iv aad : Bytes)
      → decrypt_data evp (x ++ tag_of (session k iv aad x)) k iv aad ≡ ok (decipher k iv x)
  decrypt_data_accepts x k iv aad =
      let s = session k iv aad x in
      let (c, run, v) = decrypt_data_final x (tag_of s) k iv aad (g.tag_size s) in
      let (_, e) = g.decrypt_final_accepts c (simp v (sym (g.tag_of_session s (tag_of s)))) in
      run ∙ simp (e, append-nil)

  decrypt_data_rejects :
      (x t k iv aad : Bytes)
      → length t ≡ tag_bytes
      → t ≢ tag_of (session k iv aad x)
      → decrypt_data evp (x ++ t) k iv aad ≡ err wrong_password_error
  decrypt_data_rejects x t k iv aad h other =
      let s = session k iv aad x in
      let (c, run, v) = decrypt_data_final x t k iv aad h in
      let e = g.decrypt_final_rejects c (λ same.
        let tagged : t ≡ tag_of (record s { expected_tag = t }) = simp v at same in
        other (tagged ∙ g.tag_of_session s t)) in
      run ∙ simp e

  -- Data that do not exceed OpenSSL's limit are encrypted, and decrypt to themselves under the same key,
  -- nonce and additional data.
  pub decrypt_data-encrypt_data :
      (p k iv aad : Bytes)
      → length p ≤ int_max
      → (blob : Bytes) × (encrypt_data evp p k iv aad ≡ ok blob)
        × (length blob ≡ length (cipher k iv p) + tag_bytes)
        × (decrypt_data evp blob k iv aad ≡ ok p)
  decrypt_data-encrypt_data p k iv aad h =
      let x = cipher k iv p in
      let tag = tag_of (session k iv aad x) in
      (
        x ++ tag,
        encrypt_data_lem p k iv aad h,
        omega (arith, length-append x tag, g.tag_size (session k iv aad x)),
        decrypt_data_accepts x k iv aad ∙ ap ok (g.decipher-cipher k iv p),
      )

  not_short :
      (blob k iv aad q : Bytes) → decrypt_data evp blob k iv aad ≡ ok q → tag_bytes ≤ length blob
  unfolding decrypt_data
  not_short blob k iv aad q h =
      let (long, _) = throw_if-eq-ok (ltb (length blob) tag_bytes) _ _ h in ground arith

  -- A blob that decrypts is at least as long as a tag, and its last 16 bytes are the tag of the rest under
  -- the key, the nonce and the additional data; the answer is the rest, deciphered.
  pub decrypt_data_authentic :
      (blob k iv aad q : Bytes)
      → decrypt_data evp blob k iv aad ≡ ok q
      → (x : Bytes) × (blob ≡ x ++ tag_of (session k iv aad x)) × (q ≡ decipher k iv x)
  decrypt_data_authentic blob k iv aad q h =
      let n = length blob - tag_bytes in
      let x = take n blob in
      let t = drop n blob in
      let whole : x ++ t ≡ blob = take-append-drop n blob in
      let enough = not_short blob k iv aad q h in
      let size : length t ≡ tag_bytes = omega (arith, length-drop n blob) in
      elim (Bool-cases (bytes_eq t (tag_of (session k iv aad x)))) [
        | inl same ↦
            let e = bytes_eq→eq _ _ same in
            let run : decrypt_data evp blob k iv aad ≡ ok (decipher k iv x) =
              ap (λ b. decrypt_data evp b k iv aad) (sym whole ∙ ap (◌++◌ x) e)
              ∙ decrypt_data_accepts x k iv aad in
            (x, sym whole ∙ ap (◌++◌ x) e, cc)
        | inr other ↦
            let differs : t ≢ tag_of (session k iv aad x) = λ e. cc ((bytes_eq_iff _ _).1 e) in
            let run : decrypt_data evp blob k iv aad ≡ err wrong_password_error =
              ap (λ b. decrypt_data evp b k iv aad) (sym whole)
              ∙ decrypt_data_rejects x t k iv aad size differs in
            cc
      ]

module _ (evp : Evp) where
  pub encrypt_data_fits :
      (p k iv aad blob : Bytes) → encrypt_data evp p k iv aad ≡ ok blob → length p ≤ int_max
  unfolding encrypt_data
  encrypt_data_fits p k iv aad blob h =
      let (small, _) = throw_if-eq-ok (ltb int_max (length p)) _ _ h in ground arith
