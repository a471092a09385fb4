-- ===== src/Entropy/Evaluate.antt =====
-- `EntropyEvaluator::evaluate`. A run of it is a list of what the system answers; the calls that give up a
-- descriptor or the child are recorded.
pub mod Loop
pub mod Laws
use duckpass.Entropy.{EntropyScore}
use duckpass.Entropy.Evaluate.Loop.{
  Act, closes, kills, reaps, Fd, in_read, in_write, out_read, out_write, PollRound, LoopEnd,
  LoopOutcome, timed_out, poll_failed, left, poll_loop, close_if,
}
use duckpass.Prelude.{
  ℕ, zero, suc, ◌+◌, ◌%◌, ◌^◌, ◌==◌, Bool, true, false, not, ◌&&◌, ◌||◌, List, [], ◌∷◌, ◌++◌,
  Option, none, some, Bytes, text, length, take, is_empty, if◌then◌else◌,
}
use duckpass.Prelude.Result.{Error, Result, ok, err, runtime_error, ◌>>=◌}
use duckpass.Vault.Wire.{write_uint32, read_uint32, read_uint64}

-- What `waitpid` stores.
pub data Status : Type 0 where
  exited : ℕ → Status
  signaled : ℕ → Status

-- An answer of `waitpid` with WNOHANG: the child, not yet (or EINTR), or an error.
pub data Wait : Type 0 where
  ended : Status → Wait
  not_yet : Wait
  wait_failed : Wait

-- What the system answers. When the answers of `poll` or of `waitpid` are used up, the deadline has passed.
pub record Run : Type 0 where
  pub in_pipe : Bool
  pub out_pipe : Bool
  pub forked : Bool
  pub rounds : List PollRound
  pub waits : List Wait

-- `[4 bytes len LE] + [password bytes]`
unfoldable pub write_buf : Bytes → Bytes
write_buf password =
    write_uint32 [] (length password % 2 ^ 32) ++ take (length password % 2 ^ 32) password

-- The loop around `waitpid`, and what it records.
unfoldable pub wait_loop : List Wait → List Act × Option Status
wait_loop [] = ([], none)
wait_loop (ended status ∷ waits) = (reaps ∷ [], some status)
wait_loop (not_yet ∷ waits) = wait_loop waits
wait_loop (wait_failed ∷ waits) = ([], none)

-- `WIFEXITED(status) && WEXITSTATUS(status) == 0`
abbrev pub is_success : Status → Bool
is_success (exited code) = code == 0
is_success (signaled signal) = false

-- `read_buf[20] != 0`
abbrev pub flag_of : Bytes → Bool
flag_of [] = false
flag_of (b ∷ rest) = not (b == 0)

-- The fields of the response; the loops over eight bytes are those of `read_uint64`.
unfoldable pub read_response : Bytes → Result EntropyScore
read_response read_buf = read_uint32 read_buf >>= λ score. read_uint64 score.1 >>= λ entropy.
    read_uint64 entropy.1 >>= λ crack. ok (record {
      score = score.0;
      entropy_bits = entropy.0;
      crack_time_seconds = crack.0;
      is_weak = flag_of crack.1;
    })

-- The check of the response, and what it holds.
unfoldable pub accept : Bytes → Status → Result EntropyScore
unfolding text
accept received status =
    if length received == 21 && is_success status
    then read_response received
    else err (
        runtime_error
          (text "Entropy evaluator worker execution failed or returned invalid response"))

-- After the wait; the pipe for reading is closed as the function is left.
unfoldable pub finished : List Act × Option Status → Bytes → List Act × Result EntropyScore
unfolding text
finished (acts, some status) received = (acts ++ closes out_read ∷ [], accept received status)
finished (acts, none) received = (
  acts ++ kills ∷ reaps ∷ closes out_read ∷ [],
  err (
      runtime_error
        (text "Entropy evaluator worker execution timed out waiting for process termination")),
)

-- From the wait for the child on.
unfoldable pub await_worker : List Wait → Bytes → List Act × Result EntropyScore
unfolding wait_loop
await_worker waits received = finished (wait_loop waits) received

-- An exception of the loop: the destructor of `PipeCloser` closes what is open.
abbrev pub abort : Bool → Bytes → List Act × Result EntropyScore
abort in_open message = (
  kills ∷ reaps ∷ (close_if in_open in_write ++ closes out_read ∷ []),
  err (runtime_error message),
)

-- After the loop over the rounds.
unfoldable pub after_loop : List Wait → LoopOutcome → Bool → Bytes → List Act × Result EntropyScore
unfolding text
after_loop waits timed_out in_open received =
    abort in_open (text "Entropy evaluator worker execution timed out (overall 5s deadline)")
after_loop waits poll_failed in_open received =
    abort in_open (text "poll() failed on entropy worker pipes")
after_loop waits left in_open received =
    let rest = await_worker waits received in (close_if in_open in_write ++ rest.0, rest.1)

-- The parent, from the fork on.
unfoldable pub parent : Run → Bytes → List Act × Result EntropyScore
parent run password =
    let loop = poll_loop run.rounds (write_buf password) true [] in
    let rest = after_loop run.waits loop.outcome loop.in_open loop.received in
    (closes in_read ∷ closes out_write ∷ (loop.acts ++ rest.0), rest.1)

unfoldable pub evaluate : Run → Bytes → List Act × Result EntropyScore
unfolding text
evaluate run password =
    if is_empty password
    then ([], ok (record { score = 0; entropy_bits = 0; crack_time_seconds = 0; is_weak = true }))
    else if not run.in_pipe
    then ([], err (runtime_error (text "Failed to create input pipe for entropy worker")))
    else if not run.out_pipe
    then (
      closes in_read ∷ closes in_write ∷ [],
      err (runtime_error (text "Failed to create output pipe for entropy worker")),
    )
    else if not run.forked
    then (
      closes in_read ∷ closes in_write ∷ closes out_read ∷ closes out_write ∷ [],
      err (runtime_error (text "Failed to fork entropy evaluator worker process")),
    )
    else parent run password
