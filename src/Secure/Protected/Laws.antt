-- ===== src/Secure/Protected/Laws.antt =====
-- A protected string is its text for as long as the session key is kept.
use duckpass.Crypto.{CryptoHandler, IsAead, Draw, generate_random_bytes}
use duckpass.Prelude.{
  ◌≤◌, Bool, true, false, List, [], ◌∷◌, ◌≡◌, refl, sym, ap, ◌∙◌, Bytes, length, is_empty, All,
  if◌then◌else◌, arith,
}
use duckpass.Prelude.Result.{Result, ok, err, bind-eq-ok}
use duckpass.Secure.Protected.{
  Session, ProtectedString, empty_string, with_key, ensure_session_key, cleanse_session_key,
  encrypt_string, protect_with, protect, unprotect, SessionOp, protects, initializes, cleanses,
  session_or, session_step, session_run,
}

-- An operation that does not cleanse the key.
abbrev pub Keeps : SessionOp → Type 0
Keeps (protects key_draw iv_draw plaintext) = Unit {0}
Keeps (initializes draw) = Unit {0}
Keeps cleanses = ⊥

ensure_initialized :
    (draw : Draw) (session : Session)
    → session.initialized ≡ true
    → ensure_session_key draw session ≡ ok session
unfolding ensure_session_key
ensure_initialized draw session i = chosen session.initialized _ i
  where
    chosen : (b : Bool) (y : Result Session) → b ≡ true → (if b then ok session else y) ≡ ok session
    chosen true y h = refl
    chosen false y h = cc

-- A session that is ready has a set flag.
ensure-eq-ok :
    (draw : Draw) (session ready : Session)
    → ensure_session_key draw session ≡ ok ready
    → ready.initialized ≡ true
unfolding ensure_session_key
ensure-eq-ok draw session ready h = flagged session.initialized refl (generate_random_bytes draw) h
  where
    flagged :
        (b : Bool)
        → session.initialized ≡ b
        → (drawn : Result Bytes) → (if b then ok session else with_key session drawn) ≡ ok ready
        → ready.initialized ≡ true
    flagged true i drawn h =
        let same : session ≡ ready = cc in ap (λ (s : Session). s.initialized) (sym same) ∙ i
    flagged false i (ok raw_key) h =
        let same : record { key = raw_key; initialized = true } ≡ ready = cc in
        ap (λ (s : Session). s.initialized) (sym same)
    flagged false i (err e) h = cc

session_step_kept :
    (c : CryptoHandler) (op : SessionOp) (session : Session)
    → Keeps op
    → session.initialized ≡ true
    → session_step c op session ≡ session
unfolding session_step protect
session_step_kept c (protects key_draw iv_draw plaintext) session k i =
    ap (λ (r : Result Session). (protect_with c iv_draw plaintext session r).1)
      (ensure_initialized key_draw session i)
    ∙ (unfold protect_with in refl)
session_step_kept c (initializes draw) session k i =
    ap (session_or session) (ensure_initialized draw session i)
session_step_kept c cleanses session k i = absurd k

session_run_kept :
    (c : CryptoHandler) (ops : List SessionOp) (session : Session)
    → All Keeps ops
    → session.initialized ≡ true
    → session_run c ops session ≡ session
unfolding session_run
session_run_kept c [] session k i = refl
session_run_kept c (op ∷ ops) session k i =
    ap (session_run c ops) (session_step_kept c op session k.0 i)
    ∙ session_run_kept c ops session k.1 i

unprotect-encrypt_string :
    (c : CryptoHandler) (iv_draw : Draw) (plaintext : Bytes) (session : Session)
    (p : ProtectedString)
    → IsAead c
    → encrypt_string c iv_draw plaintext session ≡ ok p
    → unprotect c session p ≡ ok plaintext
unfolding encrypt_string unprotect
unprotect-encrypt_string c iv_draw [] session p a h =
    let same : empty_string ≡ p = cc in
    ap
      (λ (q : ProtectedString).
        if is_empty q.ciphertext then ok [] else c.decrypt_data q.ciphertext session.key q.iv [])
      (sym same)
unprotect-encrypt_string c iv_draw (b ∷ plaintext) session p a h =
    let drawn = bind-eq-ok (generate_random_bytes iv_draw) _ h in
    let sealed = bind-eq-ok (c.encrypt_data (b ∷ plaintext) session.key drawn.0 []) _ drawn.2 in
    let same : record { iv = drawn.0; ciphertext = sealed.0 } ≡ p = cc in
    let tagged = a.tag_included (b ∷ plaintext) session.key drawn.0 [] sealed.0 sealed.1 in
    ap
      (λ (q : ProtectedString).
        if is_empty q.ciphertext then ok [] else c.decrypt_data q.ciphertext session.key q.iv [])
      (sym same)
    ∙ opened sealed.0 (omega (arith, tagged))
        (a.decrypt-encrypt (b ∷ plaintext) session.key drawn.0 [] sealed.0 sealed.1)
  where
    opened :
        (blob : Bytes) {text other : Result Bytes}
        → 1 ≤ length blob
        → other ≡ text
        → (if is_empty blob then ok [] else other) ≡ text
    opened [] l e = absurd (omega arith)
    opened (x ∷ blob) l e = e

protect-eq-ok :
    (c : CryptoHandler) (iv_draw : Draw) (plaintext : Bytes) (session after : Session)
    (p : ProtectedString) (ready : Result Session)
    → protect_with c iv_draw plaintext session ready ≡ (ok p, after)
    → (ready ≡ ok after) × (encrypt_string c iv_draw plaintext after ≡ ok p)
unfolding protect_with
protect-eq-ok c iv_draw plaintext session after p (err e) h = cc
protect-eq-ok c iv_draw plaintext session after p (ok s) h =
    let same : s ≡ after = ap (λ (r : Result ProtectedString × Session). r.1) h in
    let made : encrypt_string c iv_draw plaintext s ≡ ok p =
      ap (λ (r : Result ProtectedString × Session). r.0) h in
    (ap (λ (x : Session). ok x) same, ap (encrypt_string c iv_draw plaintext) (sym same) ∙ made)

-- With a cipher whose decryption undoes its encryption, a string that was protected gives its text, whatever
-- strings are protected after it and however often the session key is asked for, until it is cleansed.
pub unprotect-protect :
    (c : CryptoHandler) (key_draw iv_draw : Draw) (plaintext : Bytes) (session after : Session)
    (p : ProtectedString) (ops : List SessionOp)
    → IsAead c
    → protect c key_draw iv_draw plaintext session ≡ (ok p, after)
    → All Keeps ops
    → unprotect c (session_run c ops after) p ≡ ok plaintext
unfolding protect
unprotect-protect c key_draw iv_draw plaintext session after p ops a h k =
    let made = protect-eq-ok c iv_draw plaintext session after p _ h in
    let ready = ensure-eq-ok key_draw session after made.0 in
    ap (λ (s : Session). unprotect c s p) (session_run_kept c ops after k ready)
    ∙ unprotect-encrypt_string c iv_draw plaintext after p a made.1

-- A key that was cleansed is never drawn again.
pub cleansed_for_good :
    (c : CryptoHandler) (ops : List SessionOp) (session : Session)
    → session.initialized ≡ true
    → session.key ≡ []
    → (session_run c ops session).key ≡ []
unfolding session_run
cleansed_for_good c [] session i e = e
cleansed_for_good c (protects key_draw iv_draw plaintext ∷ ops) session i e =
    ap (λ (s : Session). (session_run c ops s).key)
      (session_step_kept c (protects key_draw iv_draw plaintext) session tt i)
    ∙ cleansed_for_good c ops session i e
cleansed_for_good c (initializes draw ∷ ops) session i e =
    ap (λ (s : Session). (session_run c ops s).key)
      (session_step_kept c (initializes draw) session tt i)
    ∙ cleansed_for_good c ops session i e
cleansed_for_good c (cleanses ∷ ops) session i e =
    cleansed_for_good c ops (session_step c cleanses session)
      (unfold session_step in unfold cleanse_session_key in i)
      (unfold session_step in unfold cleanse_session_key in refl)
