-- ===== src/Entropy/Worker/Laws.antt =====
-- What the worker answers to a request.
use duckpass.Entropy.{EntropyScore}
use duckpass.Entropy.Evaluate.{write_buf, read_response, flag_of}
use duckpass.Entropy.Worker.{
  WorkerSystem, estimate, wire_buf, respond, with_password, with_len, check_len, worker_main,
  max_len,
}
use duckpass.Ipc.Packet.{Transfer, Incoming, read_all}
use duckpass.Ipc.Packet.Transfers.{Moves, read_all_exact, write_all_complete}
use duckpass.Prelude.{
  ℕ, ◌%◌, ◌^◌, ◌≤◌, ◌<◌, ◌==◌, Bool, true, false, List, [], ◌∷◌, ◌++◌, ◌≡◌, refl, sym, ap, ◌∙◌,
  some, Bytes, length, take-length, All, le→ltb, lt→ltb, if◌then◌else◌, arith, append_assoc,
  append-nil,
}
use duckpass.Prelude.Result.{Result, ok}
use duckpass.Vault.Wire.{write_uint32, write_uint64, read_uint32}
use duckpass.Vault.Wire.RoundTrip.{
  read_uint32-write_uint32, read_uint64-write_uint64, write_uint64-buffer,
}

-- Fields that fit.
abbrev pub IsScore : EntropyScore → Type 0
IsScore s = (s.score < 2 ^ 32) × (s.entropy_bits < 2 ^ 64) × (s.crack_time_seconds < 2 ^ 64)

wire_buf_parts :
    (s : EntropyScore)
    → wire_buf s
      ≡ write_uint32 [] s.score
        ++ (write_uint64 [] s.entropy_bits
            ++ (write_uint64 [] s.crack_time_seconds ++ (if s.is_weak then 1 else 0) ∷ []))
unfolding wire_buf
wire_buf_parts s =
    let flag : Bytes = (if s.is_weak then 1 else 0) ∷ [] in
    let a = write_uint64-buffer (write_uint32 [] s.score) s.entropy_bits in
    let b =
      write_uint64-buffer (write_uint64 (write_uint32 [] s.score) s.entropy_bits)
        s.crack_time_seconds in
    rw (b, a)
      (append_assoc (write_uint32 [] s.score ++ write_uint64 [] s.entropy_bits)
          (write_uint64 [] s.crack_time_seconds) flag
        ∙ append_assoc (write_uint32 [] s.score) (write_uint64 [] s.entropy_bits)
            (write_uint64 [] s.crack_time_seconds ++ flag))

-- The parent reads from a response what the worker wrote into it.
pub read_response-wire_buf : (s : EntropyScore) → IsScore s → read_response (wire_buf s) ≡ ok s
unfolding read_response
read_response-wire_buf s fits =
    rw
      (
        wire_buf_parts s,
        read_uint32-write_uint32 s.score
            (write_uint64 [] s.entropy_bits
              ++ (write_uint64 [] s.crack_time_seconds ++ (if s.is_weak then 1 else 0) ∷ []))
            fits.0,
        read_uint64-write_uint64 s.entropy_bits
            (write_uint64 [] s.crack_time_seconds ++ (if s.is_weak then 1 else 0) ∷ []) fits.1,
        read_uint64-write_uint64 s.crack_time_seconds ((if s.is_weak then 1 else 0) ∷ []) fits.2,
      )
      (ap
        (λ (b : Bool). ok (record {
          score = s.score;
          entropy_bits = s.entropy_bits;
          crack_time_seconds = s.crack_time_seconds;
          is_weak = b;
        }))
        (flag s.is_weak))
  where
    flag : (b : Bool) → flag_of ((if b then 1 else 0) ∷ []) ≡ b
    flag true = refl
    flag false = refl

pub length-wire_buf : (s : EntropyScore) → length (wire_buf s) ≡ 21
unfolding wire_buf write_uint32 write_uint64
length-wire_buf s = refl

pub write_buf_lem :
    (password : Bytes)
    → length password < 2 ^ 32
    → write_buf password ≡ write_uint32 [] (length password) ++ password
unfolding write_buf
write_buf_lem password h =
    let small : length password % 2 ^ 32 ≡ length password = omega arith in
    rw (small, take-length password) refl

if_true : {A : Type 0} (b : Bool) (x y : A) → b ≡ true → (if b then x else y) ≡ x
if_true true x y h = refl
if_true false x y h = cc

-- A number of four bytes, read alone.
read_len : (len : ℕ) → len < 2 ^ 32 → read_uint32 (write_uint32 [] len) ≡ ok (len, [])
read_len len h =
    ap read_uint32 (sym (append-nil (write_uint32 [] len))) ∙ read_uint32-write_uint32 len [] h

worker_main-with_len :
    (sys : WorkerSystem) (input : Incoming)
    → sys.dictionary ≡ true
    → worker_main sys input ≡ with_len sys (read_all 4 input)
unfolding worker_main
worker_main-with_len sys input d = if_true sys.dictionary _ _ d

with_len-some :
    (sys : WorkerSystem) (raw_len : Bytes) (rest : Incoming)
    → with_len sys (some (raw_len, rest)) ≡ check_len sys (read_uint32 raw_len) rest
unfolding with_len
with_len-some sys raw_len rest = refl

-- The length of a request reaches the check.
worker_main-len :
    (sys : WorkerSystem) (calls : List Transfer) (len : ℕ) (rest : Bytes)
    → sys.dictionary ≡ true
    → All Moves calls
    → len < 2 ^ 32
    → (later : List Transfer) × (worker_main sys
          (record { stream = write_uint32 [] len ++ rest; calls = calls })
        ≡ check_len sys (ok (len, [])) (record { stream = rest; calls = later }))
      × All Moves later
worker_main-len sys calls len rest d moves small =
    let four : length (write_uint32 [] len) ≡ 4 = unfold write_uint32 in refl in
    let read = read_all_exact calls (write_uint32 [] len) rest moves in
    (
      read.0,
      worker_main-with_len sys _ d
          ∙ (ap
                (λ (n : ℕ).
                  with_len sys
                    (read_all n (record { stream = write_uint32 [] len ++ rest; calls = calls })))
                (sym four)
              ∙ (ap (with_len sys) read.1
                  ∙ (with_len-some sys (write_uint32 [] len)
                        (record { stream = rest; calls = read.0 })
                      ∙ ap
                          (λ (r : Result (ℕ × Bytes)).
                            check_len sys r (record { stream = rest; calls = read.0 }))
                          (read_len len small)))),
      read.2,
    )

-- A worker that is asked for a password of more than 4096 bytes answers nothing, and its exit code is 3.
pub worker_main-long :
    (sys : WorkerSystem) (calls : List Transfer) (len : ℕ) (rest : Bytes)
    → sys.dictionary ≡ true
    → All Moves calls
    → max_len < len
    → len < 2 ^ 32
    → worker_main sys (record { stream = write_uint32 [] len ++ rest; calls = calls }) ≡ (3, [])
worker_main-long sys calls len rest d moves long small =
    (worker_main-len sys calls len rest d moves small).1
    ∙ (unfold check_len in rw (lt→ltb 4096 len long, nonzero len long) refl)
  where
    nonzero : (len : ℕ) → 4096 < len → (len == 0) ≡ false
    nonzero len h = ground arith

check_len_short :
    (sys : WorkerSystem) (len : ℕ) (rest : Incoming)
    → 0 < len
    → len ≤ max_len
    → check_len sys (ok (len, [])) rest ≡ with_password sys (read_all len rest)
unfolding check_len
check_len_short sys len rest filled short = rw (le→ltb 4096 len short, nonzero len filled) refl
  where
    nonzero : (len : ℕ) → 0 < len → (len == 0) ≡ false
    nonzero len h = ground arith

respond_sent :
    (sys : WorkerSystem) (password : Bytes) (rest : Incoming)
    → All Moves sys.output_calls
    → with_password sys (some (password, rest)) ≡ (0, wire_buf (estimate sys password))
unfolding with_password respond
respond_sent sys password rest sends =
    let sent = write_all_complete sys.output_calls (wire_buf (estimate sys password)) sends in
    ap (λ (s : Bytes × Bool). (if s.1 then 0 else 5, s.0)) sent

-- A worker that is asked for a password of 1 to 4096 bytes answers with its estimate, and its exit code is 0,
-- in however many pieces the bytes move.
pub worker_main-write_buf :
    (sys : WorkerSystem) (calls : List Transfer) (password : Bytes)
    → sys.dictionary ≡ true
    → All Moves calls
    → All Moves sys.output_calls
    → 0 < length password
    → length password ≤ max_len
    → worker_main sys (record { stream = write_buf password; calls = calls })
      ≡ (0, wire_buf (estimate sys password))
worker_main-write_buf sys calls password d moves sends filled short =
    let request = write_buf_lem password (omega arith) in
    let len = worker_main-len sys calls (length password) password d moves (omega arith) in
    let read = read_all_exact len.0 password [] len.2 in
    let nothing = append-nil password in
    ap (λ (b : Bytes). worker_main sys (record { stream = b; calls = calls })) request
    ∙ (len.1
        ∙ (check_len_short sys (length password) _ filled short
            ∙ (ap
                  (λ (b : Bytes).
                    with_password sys
                      (read_all (length password) (record { stream = b; calls = len.0 })))
                  (sym nothing)
                ∙ (ap (with_password sys) read.1 ∙ respond_sent sys password _ sends))))
