-- ===== src/Totp/Code/Laws.antt =====
-- A code has the digits that were asked for, and spells the truncated HMAC.
use duckpass.Prelude.{
  ℕ, zero, suc, ◌-◌, ◌/◌, ◌%◌, ◌^◌, ◌≤◌, ◌<◌, ◌==◌, false, ◌||◌, ◌++◌, ◌≡◌, refl, subst, ◌∙◌,
  Option, some, Bytes, IsByte, sym, ap, length, length-append, length-replicate, replicate, ltb,
  arith, All, All-append, Bool-cases, Option-cases, inl, inr,
}
use duckpass.Prelude.Result.{ok, bind-eq-ok, throw_if-eq-ok}
use duckpass.Text.Decimal.Laws.{IsDigit, number, to_string_lem, length-to_string}
use duckpass.Text.Decimal.{to_string}
use duckpass.Totp.Base32.{decode_base32}
use duckpass.Totp.Code.Truncation.{big_endian, truncated, time_bytes_lem, binary_code_lem}
use duckpass.Totp.Code.{time_bytes, binary_code, mod_loop, pad, generate_totp}
use native.Mathlib.Nat.{mod-lt}

-- The zeros in front do not change what a text spells, nor that it is one of digits.
zeros-All : (n : ℕ) → All IsDigit (replicate n b'0')
zeros-All zero = tt
zeros-All (suc n) = ((omega arith, omega arith), zeros-All n)

number-zeros : (n : ℕ) (s : Bytes) → number 0 (replicate n b'0' ++ s) ≡ number 0 s
unfolding number
number-zeros zero s = refl
number-zeros (suc n) s = number-zeros n s

pad_lem :
    (digits : ℕ) (s : Bytes)
    → length s ≤ digits
    → All IsDigit s
    → (length (pad digits s) ≡ digits)
      × All IsDigit (pad digits s)
      × (number 0 (pad digits s) ≡ number 0 s)
unfolding pad
pad_lem digits s h a = elim (Bool-cases (ltb (length s) digits)) [
  | inr complete ↦ rw complete (ground arith, a, refl)
  | inl short ↦
      let zeros : Bytes = replicate (digits - length s) b'0' in
      rw short (
        omega (arith, length-append zeros s, length-replicate {A = ℕ} (digits - length s) b'0'),
        All-append IsDigit zeros s (zeros-All _) a,
        number-zeros _ s,
      )
]

mod_loop_lem : (digits : ℕ) → 6 ≤ digits → digits ≤ 8 → mod_loop digits 1 ≡ 10 ^ digits
unfolding mod_loop
mod_loop_lem (suc (suc (suc (suc (suc (suc zero)))))) h k = refl
mod_loop_lem (suc (suc (suc (suc (suc (suc (suc zero))))))) h k = refl
mod_loop_lem (suc (suc (suc (suc (suc (suc (suc (suc zero)))))))) h k = refl
mod_loop_lem digits h k = absurd (omega arith)

pow-bound : (digits : ℕ) → 6 ≤ digits → digits ≤ 8 → (0 < 10 ^ digits) × (10 ^ digits < 2 ^ 64)
pow-bound (suc (suc (suc (suc (suc (suc zero)))))) h k = omega arith
pow-bound (suc (suc (suc (suc (suc (suc (suc zero))))))) h k = omega arith
pow-bound (suc (suc (suc (suc (suc (suc (suc (suc zero)))))))) h k = omega arith
pow-bound digits h k = absurd (omega arith)

digits_range : (digits : ℕ) → (ltb digits 6 || ltb 8 digits) ≡ false → (6 ≤ digits) × (digits ≤ 8)
digits_range digits h = ground arith

positive : (n : ℕ) → (n == 0) ≡ false → 0 < n
positive n h = ground arith

-- The digits of a code, from the number that it shows.
code_lem :
    (digits c : ℕ)
    → 6 ≤ digits
    → digits ≤ 8
    → let code = pad digits (to_string (c % mod_loop digits 1)) in
      (length code ≡ digits) × All IsDigit code × (number 0 code ≡ c % 10 ^ digits)
code_lem digits c h k =
    let m = mod_loop_lem digits h k in
    let (pos, small) = pow-bound digits h k in
    let below : c % 10 ^ digits < 10 ^ digits = mod-lt c pos in
    let (shown, spelled) = to_string_lem (c % 10 ^ digits) (omega arith) in
    let padded =
      pad_lem digits (to_string (c % 10 ^ digits))
        (length-to_string (c % 10 ^ digits) digits below (omega arith)) shown in
    rw m (padded.0, padded.1, padded.2 ∙ spelled)

module _ (hmac_sha1 : Bytes → Bytes → Option Bytes) where
  -- Where HMAC-SHA1 gives twenty bytes, a code that is generated for a time `t` other than 0 has 6 to 8
  -- digits, as many as were asked for. They spell, modulo that power of ten, the number that four bytes of
  -- the HMAC under the decoded secret are, without its highest bit, from the place on that the low four bits
  -- of the last byte give. The message is the number of the time step as eight bytes, the highest first. The
  -- code stays valid for what is left of the time step, at least one second and at most a whole step.
  pub generate_totp_lem :
      ((key message md : Bytes)
        → hmac_sha1 key message ≡ some md
        → (length md ≡ 20) × All IsByte md)
      → (secret : Bytes) (t now step digits : ℕ) (code : Bytes) (remaining : ℕ) → 0 < t
      → generate_totp hmac_sha1 secret t now step digits ≡ ok (code, remaining)
      → (key : Bytes) × (message : Bytes) × (md : Bytes) × (decode_base32 secret ≡ ok key)
        × (length message ≡ 8)
        × (big_endian 0 message ≡ t / step % 2 ^ 64)
        × (hmac_sha1 key message ≡ some md)
        × (6 ≤ digits)
        × (digits ≤ 8)
        × (length code ≡ digits)
        × All IsDigit code
        × (number 0 code ≡ truncated md % 10 ^ digits)
        × (remaining ≡ step - t % step)
        × (1 ≤ remaining)
        × (remaining ≤ step)
  unfolding generate_totp
  generate_totp_lem digest secret t now step digits code remaining set h =
      let (stepped, h₁) = throw_if-eq-ok (step == 0) _ _ h in
      let (ranged, h₂) = throw_if-eq-ok (ltb digits 6 || ltb 8 digits) _ _ h₁ in
      let (key, decoded, h₃) = bind-eq-ok (decode_base32 secret) _ h₂ in
      let given : (t == 0) ≡ false = ground arith in
      elim (Option-cases (hmac_sha1 key (time_bytes (t / step)))) [
        | inl failed ↦ cc (rw (given, failed) at h₃)
        | inr (md, mac) ↦
            let made : ok
                  (pad digits (to_string (binary_code md % mod_loop digits 1)), step - t % step)
                ≡ ok (code, remaining) =
              rw (given, mac) at h₃ in
            let text_made : pad digits (to_string (binary_code md % mod_loop digits 1)) ≡ code =
              cc in
            let time_made : step - t % step ≡ remaining = cc in
            let (low, high) = digits_range digits ranged in
            let shown = code_lem digits (binary_code md) low high in
            let within = mod-lt t (positive step stepped) in
            (
              key,
              time_bytes (t / step),
              md,
              decoded,
              (time_bytes_lem (t / step)).0,
              (time_bytes_lem (t / step)).1,
              mac,
              low,
              high,
              subst (λ c. length c ≡ digits) text_made shown.0,
              subst (All IsDigit) text_made shown.1,
              subst (λ c. number 0 c ≡ binary_code md % 10 ^ digits) text_made shown.2
                  ∙ ap (λ n. n % 10 ^ digits)
                      (binary_code_lem md (digest key _ md mac).0 (digest key _ md mac).1),
              sym time_made,
              omega arith,
              omega arith,
            )
      ]
