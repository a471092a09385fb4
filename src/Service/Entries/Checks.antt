-- ===== src/Service/Entries/Checks.antt =====
-- What the checks of src/vault_service.cpp let through.
use duckpass.Prelude.{
  ◌≡◌, ◌≢◌, refl, ◌⊎◌, inl, inr, [], ◌∷◌, Option, none, some, Bytes, is_empty, is_some, false,
}
use duckpass.Prelude.Result.{ok, bind-eq-ok, throw_if-eq-ok}
use duckpass.Service.Entries.{check_secret, check_new}
use duckpass.Totp.Base32.{decode_base32}
use duckpass.Vault.Entries.{Vault}
use duckpass.Vault.Entries

-- A TOTP secret is empty or base 32.
abbrev pub IsSecret : Bytes → Type 0
IsSecret t = (t ≡ []) ⊎ ((key : Bytes) × (decode_base32 t ≡ ok key))

abbrev pub IsAcceptable : Vault → Bytes → Bytes → Bytes → Bytes → Type 0
IsAcceptable vault service username password totp_secret =
    (service ≢ [])
    × (Entries.get_entry service vault ≡ none)
    × (username ≢ [])
    × (password ≢ [])
    × IsSecret totp_secret

pub is_empty-false : (b : Bytes) → is_empty b ≡ false → b ≢ []
is_empty-false [] h = λ e. cc
is_empty-false (c ∷ cs) h = λ e. cc

pub false-is_empty : (b : Bytes) → b ≢ [] → is_empty b ≡ false
false-is_empty [] h = absurd (h refl)
false-is_empty (c ∷ cs) h = refl

is_some-false : {A : Type 0} (o : Option A) → is_some o ≡ false → o ≡ none
is_some-false none h = refl
is_some-false (some x) h = cc

pub check_secret-IsSecret : (t : Bytes) (x : Unit {0}) → check_secret t ≡ ok x → IsSecret t
unfolding check_secret
check_secret-IsSecret [] x h = inl refl
check_secret-IsSecret (c ∷ cs) x h =
    let (key, decoded, _) = bind-eq-ok (decode_base32 (c ∷ cs)) _ h in inr (key, decoded)

pub IsSecret-check_secret : (t : Bytes) → IsSecret t → check_secret t ≡ ok tt
unfolding check_secret
IsSecret-check_secret [] h = refl
IsSecret-check_secret (c ∷ cs) (inl h) = cc
IsSecret-check_secret (c ∷ cs) (inr (key, h)) = rw h refl

pub check_new-IsAcceptable :
    (vault : Vault) (service username password totp_secret : Bytes) {x : Unit {0}}
    → check_new vault service username password totp_secret ≡ ok x
    → IsAcceptable vault service username password totp_secret
unfolding check_new
check_new-IsAcceptable vault service username password totp_secret {x} h =
    let (named, h₁) = throw_if-eq-ok (is_empty service) _ _ h in
    let (new, h₂) = throw_if-eq-ok (is_some (Entries.get_entry service vault)) _ _ h₁ in
    let (used, h₃) = throw_if-eq-ok (is_empty username) _ _ h₂ in
    let (given, h₄) = throw_if-eq-ok (is_empty password) _ _ h₃ in
    (
      is_empty-false service named,
      is_some-false _ new,
      is_empty-false username used,
      is_empty-false password given,
      check_secret-IsSecret totp_secret x h₄,
    )

pub IsAcceptable-check_new :
    (vault : Vault) (service username password totp_secret : Bytes)
    → IsAcceptable vault service username password totp_secret
    → check_new vault service username password totp_secret ≡ ok tt
unfolding check_new
IsAcceptable-check_new vault service username password totp_secret
      (named, new, used, given, secret) =
    rw
      (
        false-is_empty service named,
        new,
        false-is_empty username used,
        false-is_empty password given,
        IsSecret-check_secret totp_secret secret,
      )
      refl
