-- ===== src/Crypto/Hash.antt =====
-- `compute_hash`, `compute_sha1` and `compute_sha256` of src/crypto.cpp. The hash functions of OpenSSL are
-- a parameter.
use duckpass.Prelude.{
  ℕ, ◌+◌, ◌-◌, ◌*◌, ◌/◌, ◌%◌, ◌<◌, ◌==◌, ==_iff, ◌&&◌, Bool, true, false, [], ◌∷◌, ◌≡◌, refl, ap,
  Bytes, text, length, get_or, leb, if◌then◌else◌, not, arith, All, IsByte, all_below,
  all_below_sound,
}
use duckpass.Prelude.Result.{crypto_error, Result, ok, ◌>>◌, throw_if, throw_if-eq-ok}

-- Whether each EVP call succeeds: `EVP_MD_CTX_new`, `EVP_DigestInit_ex`, `EVP_DigestUpdate` and
-- `EVP_DigestFinal_ex`.
pub record DigestCalls : Type 0 where
  pub created : Bool
  pub initialized : Bool
  pub updated : Bool
  pub finalized : Bool

unfoldable pub hex_chars : Bool → Bytes
unfolding text
hex_chars true = text "0123456789ABCDEF"
hex_chars false = text "0123456789abcdef"

-- The loop over the bytes of the hash.
unfoldable pub hex_loop : Bytes → Bytes → Bytes
hex_loop chars [] = []
hex_loop chars (b ∷ hash) =
    get_or chars (b / 16 % 16) 0 ∷ get_or chars (b % 16) 0 ∷ hex_loop chars hash

unfoldable pub compute_hash : DigestCalls → (Bytes → Bytes) → Bool → Bytes → Result Bytes
unfolding text
compute_hash calls md uppercase input =
    throw_if (not calls.created) (crypto_error (text "Failed to create message digest context."))
    >> (throw_if (not calls.initialized)
          (crypto_error (text "Failed to initialize message digest."))
        >> (throw_if (not calls.updated) (crypto_error (text "Failed to update message digest."))
            >> (throw_if (not calls.finalized)
                  (crypto_error (text "Failed to finalize message digest."))
                >> ok (hex_loop (hex_chars uppercase) (md input)))))

unfoldable pub compute_sha1 : DigestCalls → (Bytes → Bytes) → Bytes → Result Bytes
compute_sha1 calls sha1 input = compute_hash calls sha1 true input

unfoldable pub compute_sha256 : DigestCalls → (Bytes → Bytes) → Bytes → Result Bytes
compute_sha256 calls sha256 input = compute_hash calls sha256 false input

-- The value of a hexadecimal digit of either case.
abbrev pub hex_value : ℕ → ℕ
hex_value c = if leb 97 c then c - 87 else if leb 65 c then c - 55 else c - 48

unfoldable pub read_hex : Bytes → Bytes
read_hex [] = []
read_hex (a ∷ []) = []
read_hex (a ∷ b ∷ rest) = (hex_value a * 16 + hex_value b) ∷ read_hex rest

-- No NUL, no line end and no colon.
abbrev pub IsHex : ℕ → Type 0
IsHex c = (leb 48 c && not (c == 58)) ≡ true

hex_byte : (uppercase : Bool) → ℕ → ℕ
hex_byte uppercase b =
    hex_value (get_or (hex_chars uppercase) (b / 16 % 16) 0) * 16
    + hex_value (get_or (hex_chars uppercase) (b % 16) 0)

hex_byte_lem : (uppercase : Bool) (b : ℕ) → IsByte b → hex_byte uppercase b ≡ b
unfolding hex_byte hex_chars text all_below
hex_byte_lem true b h = (==_iff _ _).0 (all_below_sound 256 (λ x. hex_byte true x == x) b refl h)
hex_byte_lem false b h = (==_iff _ _).0 (all_below_sound 256 (λ x. hex_byte false x == x) b refl h)

hex_char_lem : (uppercase : Bool) (d : ℕ) → d < 16 → IsHex (get_or (hex_chars uppercase) d 0)
unfolding hex_chars text all_below
hex_char_lem true d h =
    all_below_sound 16
      (λ x. leb 48 (get_or (hex_chars true) x 0) && not (get_or (hex_chars true) x 0 == 58)) d refl
      h
hex_char_lem false d h =
    all_below_sound 16
      (λ x. leb 48 (get_or (hex_chars false) x 0) && not (get_or (hex_chars false) x 0 == 58)) d
      refl h

pub read_hex-hex_loop :
    (uppercase : Bool) (hash : Bytes)
    → All IsByte hash
    → read_hex (hex_loop (hex_chars uppercase) hash) ≡ hash
unfolding read_hex hex_loop
read_hex-hex_loop uppercase [] a = refl
read_hex-hex_loop uppercase (b ∷ hash) a =
    rw (read_hex-hex_loop uppercase hash a.1)
      (ap (λ (x : ℕ). x ∷ hash) (unfold hex_byte in hex_byte_lem uppercase b a.0))

pub hex_loop-IsHex :
    (uppercase : Bool) (hash : Bytes) → All IsHex (hex_loop (hex_chars uppercase) hash)
unfolding hex_loop
hex_loop-IsHex uppercase [] = tt
hex_loop-IsHex uppercase (b ∷ hash) = (
  hex_char_lem uppercase (b / 16 % 16) (omega arith),
  (hex_char_lem uppercase (b % 16) (omega arith), hex_loop-IsHex uppercase hash),
)

pub length-hex_loop : (chars hash : Bytes) → length (hex_loop chars hash) ≡ 2 * length hash
unfolding hex_loop
length-hex_loop chars [] = refl
length-hex_loop chars (b ∷ hash) = omega (arith, length-hex_loop chars hash)

pub compute_hash_ok :
    (calls : DigestCalls) (md : Bytes → Bytes) (uppercase : Bool) (input : Bytes) {hash : Bytes}
    → compute_hash calls md uppercase input ≡ ok hash
    → hash ≡ hex_loop (hex_chars uppercase) (md input)
unfolding compute_hash
compute_hash_ok calls md uppercase input h =
    let a = throw_if-eq-ok (not calls.created) _ _ h in
    let b = throw_if-eq-ok (not calls.initialized) _ _ a.1 in
    let c = throw_if-eq-ok (not calls.updated) _ _ b.1 in
    let d = throw_if-eq-ok (not calls.finalized) _ _ c.1 in cc
