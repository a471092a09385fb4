-- ===== src/Crypto/Password/Laws.antt =====
-- A generated password has the length that was asked for and only characters of the set, each of
-- which stands for as many random bytes as any other.
use duckpass.Crypto.Password.{
  chars, charset_len, max_usable, pick, take_batch, batch_size, generate_loop, generate_password,
}
use duckpass.Crypto.{Draw}
use duckpass.Prelude.{
  ℕ, zero, suc, ◌+◌, ◌%◌, ◌≤◌, ◌<◌, ◌==◌, ==_iff, Bool, true, false, ◌&&◌, [], ◌∷◌, ◌++◌, ◌≡◌, refl,
  subst, some, Bytes, text, length, length-append, get_or, any_of, All, All-append, ltb, ltb→lt,
  if◌then◌else◌, arith, Bool-cases, Option-cases, inl, inr, all_below, all_below_sound, count_below,
}
use duckpass.Prelude.Result.{ok}

abbrev pub is_char : ℕ → Bool
is_char c = any_of (λ x. x == c) chars

abbrev pub IsChar : ℕ → Type 0
IsChar c = is_char c ≡ true

chars_table : all_below charset_len (λ i. is_char (get_or chars i 0)) ≡ true
unfolding all_below any_of text
chars_table = refl

pick-IsChar : (b : ℕ) → IsChar (pick b)
unfolding pick
pick-IsChar b =
    all_below_sound charset_len (λ i. is_char (get_or chars i 0)) (b % charset_len) chars_table
      (omega arith)

-- The bytes that stand for a character, below a bound.
preimages_table :
    all_below charset_len
      (λ i. count_below 256 (λ b. ltb b max_usable && pick b == get_or chars i 0) == 2)
    ≡ true
unfolding all_below count_below pick text
preimages_table = refl

-- No character is more likely than another: of the 256 bytes, two are accepted for each character.
pub pick_unbiased :
    (i : ℕ)
    → i < charset_len
    → count_below 256 (λ b. ltb b max_usable && pick b == get_or chars i 0) ≡ 2
pick_unbiased i h = (==_iff _ _).0 (all_below_sound charset_len _ i preimages_table h)

-- One batch keeps the password within the target, and adds characters only.
take_batch_keeps :
    (password : Bytes) (target : ℕ) (batch : Bytes)
    → length password < target
    → All IsChar password
    → (length (take_batch password target batch) ≤ target)
      × All IsChar (take_batch password target batch)
unfolding take_batch
take_batch_keeps password target [] h a = (omega arith, a)
take_batch_keeps password target (b ∷ batch) h a =
    let longer = password ++ pick b ∷ [] in
    let grown : length longer ≡ length password + 1 =
      omega (arith, length-append password (pick b ∷ [])) in
    let chars_only : All IsChar longer =
      All-append IsChar password (pick b ∷ []) a (pick-IsChar b, tt) in
    elim (Bool-cases (ltb b max_usable)) [
      | inr rejected ↦ rw rejected (take_batch_keeps password target batch h a)
      | inl accepted ↦ elim (Bool-cases (length longer == target)) [
        | inl full ↦ rw (accepted, full) (ground arith, chars_only)
        | inr short ↦
            rw (accepted, short) (take_batch_keeps longer target batch (ground arith) chars_only)
      ]
    ]

-- A batch with a byte that is accepted adds a character at least.
take_batch_grows :
    (password : Bytes) (target : ℕ) (batch : Bytes)
    → length password < target
    → length password + (if any_of (λ b. ltb b max_usable) batch then 1 else 0)
      ≤ length (take_batch password target batch)
unfolding take_batch any_of
take_batch_grows password target [] h = omega arith
take_batch_grows password target (b ∷ batch) h =
    let longer = password ++ pick b ∷ [] in
    let grown : length longer ≡ length password + 1 =
      omega (arith, length-append password (pick b ∷ [])) in
    elim (Bool-cases (ltb b max_usable)) [
      | inr rejected ↦ rw rejected (take_batch_grows password target batch h)
      | inl accepted ↦ elim (Bool-cases (length longer == target)) [
        | inl full ↦ rw (accepted, full) (omega arith)
        | inr short ↦
            let rest = take_batch_grows longer target batch (ground arith) in
            rw (accepted, short) (ground arith)
      ]
    ]

abbrev IsPassword : ℕ → Bytes → Type 0
IsPassword target password = (length password ≡ target) × All IsChar password

generate_loop_keeps :
    (rand : ℕ → ℕ → Draw) (fuel i : ℕ) (password : Bytes) (target : ℕ) (p : Bytes)
    → length password ≤ target
    → All IsChar password
    → generate_loop rand fuel i password target ≡ some (ok p)
    → IsPassword target p
unfolding generate_loop
generate_loop_keeps rand zero i password target p n a h = cc
generate_loop_keeps rand (suc fuel) i password target p n a h =
    elim (Bool-cases (ltb (length password) target)) [
      | inr complete ↦
          let e : password ≡ p = cc (rw complete at h) in
          subst (IsPassword target) e (ground arith, a)
      | inl short ↦ elim (Option-cases (rand i (batch_size password target))) [
        | inl failed ↦ cc (rw (short, failed) at h)
        | inr (batch, drawn) ↦
            let kept = take_batch_keeps password target batch (ltb→lt _ _ short) a in
            generate_loop_keeps rand fuel (i + 1) (take_batch password target batch) target p kept.0
              kept.1 (rw (short, drawn) at h)
      ]
    ]

-- A password that is returned has the length that was asked for, and all its characters are of the set.
pub generate_password-IsPassword :
    (rand : ℕ → ℕ → Draw) (fuel target : ℕ) (p : Bytes)
    → generate_password rand fuel target ≡ some (ok p)
    → (length p ≡ target) × All IsChar p
unfolding generate_password
generate_password-IsPassword rand fuel target p h = elim (Bool-cases (target == 0)) [
  | inl none_wanted ↦ cc (rw none_wanted at h)
  | inr wanted ↦ generate_loop_keeps rand fuel 0 [] target p (omega arith) tt (rw wanted at h)
]

-- Every call of `RAND_bytes` succeeds, and gives a byte that is accepted.
abbrev pub Supplies : (ℕ → ℕ → Draw) → Type 0
Supplies rand =
    (i n : ℕ)
    → (batch : Bytes) × (rand i n ≡ some batch) × (any_of (λ b. ltb b max_usable) batch ≡ true)

generate_loop_total :
    (rand : ℕ → ℕ → Draw) (fuel i : ℕ) (password : Bytes) (target : ℕ)
    → Supplies rand
    → length password ≤ target
    → All IsChar password
    → target < length password + fuel
    → (p : Bytes) × (generate_loop rand fuel i password target ≡ some (ok p))
unfolding generate_loop
generate_loop_total rand zero i password target s n a f = absurd (omega arith)
generate_loop_total rand (suc fuel) i password target s n a f =
    elim (Bool-cases (ltb (length password) target)) [
      | inr complete ↦ (password, rw complete refl)
      | inl short ↦
          let (batch, drawn, useful) = s i (batch_size password target) in
          let kept = take_batch_keeps password target batch (ltb→lt _ _ short) a in
          let grown : length password + 1 ≤ length (take_batch password target batch) =
            rw useful at (take_batch_grows password target batch (ltb→lt _ _ short)) in
          let (p, e) =
            generate_loop_total rand fuel (i + 1) (take_batch password target batch) target s kept.0
              kept.1 (omega arith) in
          (p, rw (short, drawn) e)
    ]

generate_password_result :
    (rand : ℕ → ℕ → Draw) (fuel target : ℕ)
    → Supplies rand
    → 0 < target
    → target < fuel
    → (p : Bytes) × (generate_password rand fuel target ≡ some (ok p))
unfolding generate_password
generate_password_result rand fuel target s h f =
    let positive : (target == 0) ≡ false = ground arith in
    rw positive (generate_loop_total rand fuel 0 [] target s (omega arith) tt (omega arith))

-- If each batch of random bytes has one that is accepted, then a password of any positive length is
-- generated within as many rounds as it has characters, and one more.
pub generate_password_total :
    (rand : ℕ → ℕ → Draw) (fuel target : ℕ)
    → Supplies rand
    → 0 < target
    → target < fuel
    → (p : Bytes) × (generate_password rand fuel target ≡ some (ok p))
      × (length p ≡ target)
      × All IsChar p
generate_password_total rand fuel target s h f =
    let (p, e) = generate_password_result rand fuel target s h f in
    let kept = generate_password-IsPassword rand fuel target p e in (p, e, kept.0, kept.1)
