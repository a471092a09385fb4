-- ===== src/Entropy/Talk.antt =====
-- The parent and the worker together.
pub mod Long
use duckpass.Entropy.{EntropyScore}
use duckpass.Entropy.Evaluate.{
  Run, Wait, Status, exited, wait_loop, write_buf, accept, await_worker, finished, after_loop,
  parent, evaluate, read_response,
}
use duckpass.Entropy.Evaluate.Loop.{
  Act, LoopEnd, LoopOutcome, left, timed_out, poll_failed, poll_loop, PollRound, poll_interrupted,
  poll_error, poll_timeout, ready, after_round, write_channel, read_channel, Written, Events,
  write_once, WriteAnswer, wrote, write_again, write_error, end_loop,
}
use duckpass.Entropy.Worker.{WorkerSystem, score_of, estimate, wire_buf, worker_main, max_len}
use duckpass.Entropy.Worker.Laws.{
  IsScore, read_response-wire_buf, length-wire_buf, write_buf_lem, worker_main-long,
  worker_main-write_buf,
}
use duckpass.Ipc.Packet.{Transfer, Incoming}
use duckpass.Ipc.Packet.Transfers.{Moves}
use duckpass.Prelude.{
  ℕ, zero, suc, ◌+◌, ◌-◌, ◌^◌, ◌≤◌, ◌<◌, ◌==◌, Bool, true, false, not, ◌&&◌, List, [], ◌∷◌, ◌++◌,
  ◌≡◌, refl, sym, ap, subst, ◌∙◌, Option, none, some, Bytes, text, length, length-append, take,
  drop, take-append-drop, take_exact, is_empty, All, ltb, if◌then◌else◌, arith, append_assoc,
  append-nil, Bool-cases, inl, inr,
}
use duckpass.Prelude.Result.{Result, ok, err, runtime_error}
use duckpass.Text.CString.{c_str}
use duckpass.Vault.Wire.{write_uint32}

-- The state in which the parent leaves its loop.
abbrev pub loop_of : Run → Bytes → LoopEnd
loop_of run password = poll_loop run.rounds (write_buf password) true []

-- What the worker does with what the parent has sent it.
abbrev pub worker_of : WorkerSystem → List Transfer → Run → Bytes → ℕ × Bytes
worker_of sys calls run password =
    worker_main sys (record { stream = (loop_of run password).sent; calls = calls })

-- A run in which the pipes and the process are made, and within the deadline the parent gets all that the
-- worker sends and the worker's exit code.
pub record IsTalk (sys : WorkerSystem) (calls : List Transfer) (run : Run) (password : Bytes)
    : Type 0 where
  pub in_pipe : run.in_pipe ≡ true
  pub out_pipe : run.out_pipe ≡ true
  pub forked : run.forked ≡ true
  pub ended : (loop_of run password).outcome ≡ left
  pub answered : (loop_of run password).received ≡ (worker_of sys calls run password).1
  pub waited : (wait_loop run.waits).1 ≡ some (exited (worker_of sys calls run password).0)

evaluate-parent :
    (run : Run) (password : Bytes)
    → is_empty password ≡ false
    → run.in_pipe ≡ true
    → run.out_pipe ≡ true
    → run.forked ≡ true
    → (evaluate run password).1 ≡ (parent run password).1
unfolding evaluate
evaluate-parent run password filled a b c =
    rw filled (chosen run.in_pipe run.out_pipe run.forked _ _ _ _ a b c)
  where
    chosen :
        (a b c : Bool) (x y z p : List Act × Result EntropyScore)
        → a ≡ true
        → b ≡ true
        → c ≡ true
        → (if not a then x else if not b then y else if not c then z else p).1 ≡ p.1
    chosen true true true x y z p ha hb hc = refl
    chosen true true false x y z p ha hb hc = cc
    chosen true false c x y z p ha hb hc = cc
    chosen false b c x y z p ha hb hc = cc

finished-some :
    (w : List Act × Option Status) (received : Bytes) (status : Status)
    → w.1 ≡ some status
    → (finished w received).1 ≡ accept received status
unfolding finished
finished-some (acts, none) received status h = cc
finished-some (acts, some other) received status h =
    let same : other ≡ status = cc in ap (accept received) same

parent-accept :
    (run : Run) (password : Bytes) (status : Status)
    → (loop_of run password).outcome ≡ left
    → (wait_loop run.waits).1 ≡ some status
    → (parent run password).1 ≡ accept (loop_of run password).received status
unfolding parent
parent-accept run password status e w =
    ap
      (λ (o : LoopOutcome).
        (after_loop run.waits o (loop_of run password).in_open (loop_of run password).received).1)
      e
    ∙ (unfold after_loop in
        unfold await_worker in
        finished-some (wait_loop run.waits) (loop_of run password).received status w)

filled-not_empty : (password : Bytes) → 0 < length password → is_empty password ≡ false
filled-not_empty [] h = absurd (omega arith)
filled-not_empty (c ∷ password) h = refl

-- What a talk gives.
pub evaluate-IsTalk :
    (sys : WorkerSystem) (calls : List Transfer) (run : Run) (password : Bytes)
    → 0 < length password
    → IsTalk sys calls run password
    → (evaluate run password).1
      ≡ accept (worker_of sys calls run password).1 (exited (worker_of sys calls run password).0)
evaluate-IsTalk sys calls run password filled t =
    evaluate-parent run password (filled-not_empty password filled) t.in_pipe t.out_pipe t.forked
    ∙ (parent-accept run password _ t.ended t.waited
        ∙ ap (λ (b : Bytes). accept b (exited (worker_of sys calls run password).0)) t.answered)

-- zxcvbn and `std::pow` give numbers of 64 bits.
abbrev pub GivesDoubles : WorkerSystem → Type 0
GivesDoubles sys =
    ((password : Bytes) → sys.match_password password < 2 ^ 64)
    × ((entropy : ℕ) → sys.crack_time entropy < 2 ^ 64)

estimate-IsScore :
    (sys : WorkerSystem) (password : Bytes) → GivesDoubles sys → IsScore (estimate sys password)
unfolding estimate score_of
estimate-IsScore sys password d =
    let entropy = sys.match_password (c_str password) in (small entropy, d.0 _, d.1 _)
  where
    small : (entropy : ℕ) → score_of entropy < 2 ^ 32
    small entropy = ground arith

accept-wire_buf : (s : EntropyScore) → IsScore s → accept (wire_buf s) (exited 0) ≡ ok s
unfolding accept
accept-wire_buf s fits = rw (length-wire_buf s) (read_response-wire_buf s fits)

-- A password of 1 to 4096 bytes that the parent sends whole to a worker is given the worker's estimate: the
-- score, the bits of entropy, the time to crack it and whether it is weak arrive as they were computed, in
-- however many pieces the bytes move.
pub evaluate-estimate :
    (sys : WorkerSystem) (calls : List Transfer) (run : Run) (password : Bytes)
    → IsTalk sys calls run password
    → (loop_of run password).sent ≡ write_buf password
    → sys.dictionary ≡ true
    → All Moves calls
    → All Moves sys.output_calls
    → GivesDoubles sys
    → 0 < length password
    → length password ≤ max_len
    → (evaluate run password).1 ≡ ok (estimate sys password)
evaluate-estimate sys calls run password t sent d moves sends doubles filled short =
    let worked =
      ap (λ (b : Bytes). worker_main sys (record { stream = b; calls = calls })) sent
      ∙ worker_main-write_buf sys calls password d moves sends filled short in
    evaluate-IsTalk sys calls run password filled t
    ∙ (ap (λ (w : ℕ × Bytes). accept w.1 (exited w.0)) worked
        ∙ accept-wire_buf (estimate sys password) (estimate-IsScore sys password doubles))
