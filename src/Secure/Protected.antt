-- ===== src/Secure/Protected.antt =====
-- `ProtectedString` of src/protected_string.cpp and include/duckpass/protected_string.h. The session key and
-- its `once_flag` are a state that the operations pass on.
pub mod Laws
use duckpass.Crypto.{CryptoHandler, Draw, generate_random_bytes}
use duckpass.Prelude.{ℕ, Bool, true, false, List, [], ◌∷◌, Bytes, is_empty, if◌then◌else◌}
use duckpass.Prelude.Result.{Error, Result, ok, err, ◌>>=◌}

-- `g_session_key`, and whether `g_session_key_flag` has been set.
pub record Session : Type 0 where
  pub key : Bytes
  pub initialized : Bool

pub record ProtectedString : Type 0 where
  pub iv : Bytes
  pub ciphertext : Bytes

abbrev pub empty_string : ProtectedString
empty_string = record { iv = []; ciphertext = [] }

abbrev pub with_key : Session → Result Bytes → Result Session
with_key session (ok raw_key) = ok (record { key = raw_key; initialized = true })
with_key session (err e) = err e

-- `call_once` sets the flag only if the function returns.
unfoldable pub ensure_session_key : Draw → Session → Result Session
ensure_session_key draw session =
    if session.initialized then ok session else with_key session (generate_random_bytes draw)

unfoldable pub cleanse_session_key : Session → Session
cleanse_session_key session = record session { key = [] }

-- The constructors, from the nonce on.
unfoldable pub encrypt_string : CryptoHandler → Draw → Bytes → Session → Result ProtectedString
encrypt_string c iv_draw plaintext session =
    if is_empty plaintext
    then ok empty_string
    else generate_random_bytes iv_draw >>= λ iv.
        c.encrypt_data plaintext session.key iv [] >>= λ ciphertext.
        ok (record { iv = iv; ciphertext = ciphertext })

unfoldable pub protect_with :
    CryptoHandler → Draw → Bytes → Session → Result Session → Result ProtectedString × Session
protect_with c iv_draw plaintext session (err e) = (err e, session)
protect_with c iv_draw plaintext session (ok ready) =
    (encrypt_string c iv_draw plaintext ready, ready)

-- The constructors from a text, with what the two draws give; the session also where they throw.
unfoldable pub protect :
    CryptoHandler → Draw → Draw → Bytes → Session → Result ProtectedString × Session
protect c key_draw iv_draw plaintext session =
    protect_with c iv_draw plaintext session (ensure_session_key key_draw session)

unfoldable pub unprotect : CryptoHandler → Session → ProtectedString → Result Bytes
unprotect c session p =
    if is_empty p.ciphertext then ok [] else c.decrypt_data p.ciphertext session.key p.iv []

-- What a program does with the session.
pub data SessionOp : Type 0 where
  -- a string is protected, also the empty one, with the two draws
  protects : Draw → Draw → Bytes → SessionOp
  initializes : Draw → SessionOp
  cleanses : SessionOp

abbrev pub session_or : Session → Result Session → Session
session_or session (ok ready) = ready
session_or session (err e) = session

unfoldable pub session_step : CryptoHandler → SessionOp → Session → Session
session_step c (protects key_draw iv_draw plaintext) session =
    (protect c key_draw iv_draw plaintext session).1
session_step c (initializes draw) session = session_or session (ensure_session_key draw session)
session_step c cleanses session = cleanse_session_key session

unfoldable pub session_run : CryptoHandler → List SessionOp → Session → Session
session_run c [] session = session
session_run c (op ∷ ops) session = session_run c ops (session_step c op session)
