-- ===== src/Ipc/Packet/Transfers.antt =====
-- `write_all` and `read_all` of src/ipc.cpp move what they should, in however many pieces.
use duckpass.Ipc.Packet.{
  Transfer, moved, interrupted, failed, write_all, Incoming, read_loop, read_all,
}
use duckpass.Prelude.{
  ℕ, zero, suc, ◌+◌, ◌-◌, ◌≤◌, ◌<◌, ◌==◌, true, false, List, [], ◌∷◌, ◌++◌, ◌≡◌, refl, sym, ap,
  subst, ◌∙◌, Option, none, some, Bytes, length, length-append, length-take, length-drop, take,
  drop, take-append-drop, min, ltb, le→ltb, append_assoc, append-nil, arith, Bool-cases, inl, inr,
  All, take-append, drop-append, take_exact, drop_exact,
}

-- A call that makes progress or is to be repeated.
abbrev pub Moves : Transfer → Type 0
Moves (moved n) = 0 < n
Moves interrupted = Unit {0}
Moves failed = ⊥

-- What is sent is a first part of the packet, and all of it if `write_all` answers true.
pub write_all_lem :
    (calls : List Transfer) (buffer : Bytes)
    → let (sent, good) = write_all calls buffer in
      (good ≡ true → sent ≡ buffer) × ((rest : Bytes) × (sent ++ rest ≡ buffer))
unfolding write_all
write_all_lem [] buffer = ((λ h. refl), ([], append-nil buffer))
write_all_lem (interrupted ∷ calls) [] = ((λ h. refl), ([], refl))
write_all_lem (interrupted ∷ calls) (b ∷ buffer) = write_all_lem calls (b ∷ buffer)
write_all_lem (failed ∷ calls) [] = ((λ h. refl), ([], refl))
write_all_lem (failed ∷ calls) (b ∷ buffer) = ((λ h. cc), (b ∷ buffer, refl))
write_all_lem (moved n ∷ calls) buffer =
    let (whole, (rest, joined)) = write_all_lem calls (drop n buffer) in
    (
      (λ h. ap (◌++◌ (take n buffer)) (whole h) ∙ take-append-drop n buffer),
      (
        rest,
        append_assoc (take n buffer) _ rest
            ∙ (ap (◌++◌ (take n buffer)) joined ∙ take-append-drop n buffer),
      ),
    )

take-drop_taken : (n : ℕ) (xs : Bytes) → take n xs ++ drop (length (take n xs)) xs ≡ xs
take-drop_taken zero xs = refl
take-drop_taken (suc n) [] = refl
take-drop_taken (suc n) (x ∷ xs) = rw (take-drop_taken n xs) refl

-- What a read has delivered, followed by what it has left, is `whole`; and it has delivered `n` bytes.
abbrev Delivers : Bytes → ℕ → Option (Bytes × Incoming) → Type 0
Delivers whole n none = Unit {0}
Delivers whole n (some (b, i)) = (b ++ i.stream ≡ whole) × (length b ≡ n)

read_loop-Delivers :
    (calls : List Transfer) (missing : ℕ) (stream got : Bytes)
    → Delivers (got ++ stream) (length got + missing) (read_loop calls missing stream got)
unfolding read_loop
read_loop-Delivers [] missing stream got = elim (Bool-cases (ltb (length stream) missing)) [
  | inl short ↦ rw short tt
  | inr enough ↦ rw enough (
    append_assoc got (take missing stream) _ ∙ ap (◌++◌ got) (take-append-drop missing stream),
    length-append got (take missing stream) ∙ rw (length-take missing stream) (ground arith),
  )
]
read_loop-Delivers (call ∷ calls) zero stream got = (refl, omega arith)
read_loop-Delivers (interrupted ∷ calls) (suc missing) stream got =
    read_loop-Delivers calls (suc missing) stream got
read_loop-Delivers (failed ∷ calls) (suc missing) stream got = tt
read_loop-Delivers (moved n ∷ calls) (suc missing) stream got =
    let chunk = take (min n (suc missing)) stream in
    let left = drop (length chunk) stream in
    elim (Bool-cases (length chunk == 0)) [
      | inl empty ↦ rw empty tt
      | inr useful ↦
          let joined : (got ++ chunk) ++ left ≡ got ++ stream =
            append_assoc got chunk left
            ∙ ap (◌++◌ got) (take-drop_taken (min n (suc missing)) stream) in
          let size : length (got ++ chunk) + (suc missing - length chunk)
              ≡ length got + suc missing =
            omega (arith, length-append got chunk, length-take (min n (suc missing)) stream) in
          rw useful (
            subst
              (λ k.
                Delivers (got ++ stream) k
                  (read_loop calls (suc missing - length chunk) left (got ++ chunk)))
              size
              (subst
                (λ w.
                  Delivers w (length (got ++ chunk) + (suc missing - length chunk))
                    (read_loop calls (suc missing - length chunk) left (got ++ chunk)))
                joined (read_loop-Delivers calls (suc missing - length chunk) left (got ++ chunk))))
    ]

-- Calls that all make progress get the bytes that are there, and leave calls that do.
read_loop_complete :
    (calls : List Transfer) (missing : ℕ) (stream got : Bytes)
    → All Moves calls
    → missing ≤ length stream
    → (b : Bytes) × (i : Incoming) × (read_loop calls missing stream got ≡ some (b, i))
      × All Moves i.calls
unfolding read_loop
read_loop_complete [] missing stream got p h = rw (le→ltb _ _ h) (_, _, refl, tt)
read_loop_complete (call ∷ calls) zero stream got p h = (_, _, refl, p)
read_loop_complete (interrupted ∷ calls) (suc missing) stream got p h =
    read_loop_complete calls (suc missing) stream got p.1 h
read_loop_complete (failed ∷ calls) (suc missing) stream got p h = absurd p.0
read_loop_complete (moved n ∷ calls) (suc missing) stream got p h =
    let chunk = take (min n (suc missing)) stream in
    let positive = p.0 in
    let size = length-take (min n (suc missing)) stream in
    let useful : (length chunk == 0) ≡ false = nonzero _ (omega (arith, size)) in
    rw useful (
      read_loop_complete calls (suc missing - length chunk) (drop (length chunk) stream)
        (got ++ chunk) p.1 (omega (arith, length-drop (length chunk) stream, size)))
  where
    nonzero : (n : ℕ) → 0 < n → (n == 0) ≡ false
    nonzero n h = ground arith

split_unique :
    (b s xs rest : Bytes) → b ++ s ≡ xs ++ rest → length b ≡ length xs → (b ≡ xs) × (s ≡ rest)
split_unique b s xs rest e h = (
  sym (take_exact (length xs) b s h) ∙ (ap (take (length xs)) e ∙ take-append xs rest),
  sym (drop_exact (length xs) b s h) ∙ (ap (drop (length xs)) e ∙ drop-append xs rest),
)

-- A read of as many bytes as were sent gives those bytes.
pub read_all_exact :
    (calls : List Transfer) (xs rest : Bytes)
    → All Moves calls
    → (later : List Transfer) × (read_all
          (length xs)
          (record { stream = xs ++ rest; calls = calls })
        ≡ some (xs, record { stream = rest; calls = later }))
      × All Moves later
unfolding read_all
read_all_exact calls xs rest p =
    let (b, i, e, q) =
      read_loop_complete calls (length xs) (xs ++ rest) [] p
        (omega (arith, length-append xs rest)) in
    let delivered =
      subst (Delivers (xs ++ rest) (0 + length xs)) e
        (read_loop-Delivers calls (length xs) (xs ++ rest) []) in
    let (same, left) = split_unique b i.stream xs rest delivered.0 (delivered.1 ∙ omega arith) in
    (
      i.calls,
      e ∙ (rw (same) (ap (λ (r : Bytes). some (xs, record { stream = r; calls = i.calls })) left)),
      q,
    )

pub read_all-Delivers :
    (n : ℕ) (i i' : Incoming) (b : Bytes)
    → read_all n i ≡ some (b, i')
    → (b ++ i'.stream ≡ i.stream) × (length b ≡ n)
unfolding read_all
read_all-Delivers n i i' b e =
    let d = subst (Delivers i.stream (0 + n)) e (read_loop-Delivers i.calls n i.stream []) in
    (d.0, d.1 ∙ omega arith)

-- Calls that all make progress send everything.
pub write_all_complete :
    (calls : List Transfer) (buffer : Bytes)
    → All Moves calls
    → write_all calls buffer ≡ (buffer, true)
unfolding write_all
write_all_complete [] buffer p = refl
write_all_complete (interrupted ∷ calls) [] p = refl
write_all_complete (interrupted ∷ calls) (b ∷ buffer) p = write_all_complete calls (b ∷ buffer) p.1
write_all_complete (failed ∷ calls) buffer p = absurd p.0
write_all_complete (moved n ∷ calls) buffer p =
    rw (write_all_complete calls (drop n buffer) p.1, take-append-drop n buffer) refl
