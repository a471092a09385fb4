-- ===== src/Tests/Secure.antt =====
-- src/protected_string.cpp and include/duckpass/secure_allocator.h at concrete inputs.
use duckpass.Crypto.Gcm.{encrypt_data, add_aad}
use duckpass.Crypto.Handler.{handler}
use duckpass.Prelude.Result.{ok}
use duckpass.Prelude.{
  ◌≡◌, refl, true, false, List, [], ◌∷◌, ◌++◌, none, some, Bytes, replicate, text, inl, arith,
}
use duckpass.Secure.Buffer.Laws.{
  Op, pushes, pops, assigns, appends, assigns_pointer, appends_string, erases, Represents, on_list,
}
use duckpass.Secure.Buffer.Refine.{AllLegal, apply_all, on_list_all, apply_all-Represents}
use duckpass.Secure.Buffer.{own, own_at, contents, terminate, drop_last}
use duckpass.Secure.Protected.Laws.{unprotect-protect}
use duckpass.Secure.Protected.{
  Session, ProtectedString, SessionOp, protects, initializes, protect, protect_with, encrypt_string,
  ensure_session_key, unprotect, session_run,
}
use duckpass.Tests.Toy.{toy, toy-IsAead}

abbrev abc : Bytes
abc = 97 ∷ 98 ∷ 99 ∷ []

-- The string is assigned a part of itself, appended to itself, and cut.
abbrev some_ops : List Op
some_ops =
    assigns (own 1 3)
    ∷ appends_string none
    ∷ appends (own 0 1)
    ∷ erases (some 0) (some 2)
    ∷ assigns_pointer (own_at 1)
    ∷ pushes 100
    ∷ pops
    ∷ []

some_ops-AllLegal : AllLegal some_ops abc
unfolding AllLegal on_list drop_last
some_ops-AllLegal = omega arith

apply_all-Represents_example :
    Represents (apply_all some_ops (terminate abc)) (on_list_all some_ops abc)
    × (contents (apply_all some_ops (terminate abc)) ≡ on_list_all some_ops abc)
apply_all-Represents_example =
    apply_all-Represents some_ops (terminate abc) abc (inl refl) some_ops-AllLegal

abbrev first_session : Session
first_session = record { key = []; initialized = false }

abbrev ready_session : Session
ready_session = record { key = 1 ∷ 2 ∷ []; initialized = true }

abbrev sealed_abc : ProtectedString
sealed_abc = record { iv = 5 ∷ []; ciphertext = abc ++ replicate 16 5 }

abc_sealed :
    protect toy (some (1 ∷ 2 ∷ [])) (some (5 ∷ [])) abc first_session
    ≡ (ok sealed_abc, ready_session)
unfolding protect ensure_session_key protect_with encrypt_string handler encrypt_data add_aad text
abc_sealed = refl

abbrev later_ops : List SessionOp
later_ops = protects none none [] ∷ initializes (some (8 ∷ [])) ∷ []

unprotect-protect_example :
    unprotect toy (session_run toy later_ops ready_session) sealed_abc ≡ ok abc
unprotect-protect_example =
    unprotect-protect toy (some (1 ∷ 2 ∷ [])) (some (5 ∷ [])) abc first_session ready_session
      sealed_abc later_ops toy-IsAead abc_sealed (tt, (tt, tt))
