-- ===== src/Tests/Entropy.antt =====
-- src/entropy_evaluator.cpp and src/entropy_worker_main.cpp at concrete inputs.
use duckpass.Entropy.Evaluate.Laws.{Released, evaluate-Released}
use duckpass.Entropy.Evaluate.Loop.{
  poll_interrupted, ready, poll_loop, write_channel, read_channel, after_round, wrote, write_again,
  got, read_again,
}
use duckpass.Entropy.Evaluate.{Run, ended, not_yet, exited, wait_loop, write_buf, evaluate}
use duckpass.Entropy.Talk.Long.{evaluate_long}
use duckpass.Entropy.Talk.{GivesDoubles, IsTalk, loop_of, evaluate-estimate}
use duckpass.Entropy.Worker.{
  WorkerSystem, ten, estimate, score_of, wire_buf, respond, with_password, with_len, check_len,
  worker_main,
}
use duckpass.Entropy.{double_less}
use duckpass.Ipc.Packet.{read_all, read_loop, write_all}
use duckpass.Prelude.{◌≤◌, ◌≡◌, refl, true, false, [], ◌∷◌, Bytes, text, length, replicate, arith}
use duckpass.Prelude.Result.{ok, err, runtime_error}
use duckpass.Text.CString.{c_str}
use duckpass.Vault.Wire.{read_uint32, write_uint32, write_uint64}

-- A worker that finds ten bits in every password.
abbrev pub ten_bits : WorkerSystem
ten_bits = record {
  dictionary = true;
  match_password = λ password. ten;
  crack_time = λ entropy. 1;
  output_calls = [];
}

abbrev pub ab : Bytes
ab = 97 ∷ 98 ∷ []

abbrev reply : Bytes
reply = 1 ∷ 0 ∷ 0 ∷ 0 ∷ 0 ∷ 0 ∷ 0 ∷ 0 ∷ 0 ∷ 0 ∷ 36 ∷ 64 ∷ 1 ∷ 0 ∷ 0 ∷ 0 ∷ 0 ∷ 0 ∷ 0 ∷ 0 ∷ 1 ∷ []

-- The request goes in two pieces.
abbrev pub short_run : Run
short_run = record {
  in_pipe = true;
  out_pipe = true;
  forked = true;
  rounds =
      ready (record {
        writable = true;
        write_broken = false;
        readable = false;
        write_answer = wrote 3;
        read_answer = read_again;
      })
      ∷ poll_interrupted
      ∷ ready (record {
        writable = true;
        write_broken = false;
        readable = true;
        write_answer = wrote 9;
        read_answer = read_again;
      })
      ∷ ready (record {
        writable = false;
        write_broken = false;
        readable = true;
        write_answer = write_again;
        read_answer = got reply;
      })
      ∷ [];
  waits = not_yet ∷ ended (exited 0) ∷ [];
}

ab_sent : (loop_of short_run ab).sent ≡ write_buf ab
unfolding poll_loop write_channel read_channel after_round write_buf write_uint32
ab_sent = refl

ab-IsTalk : IsTalk ten_bits [] short_run ab
unfolding poll_loop write_channel read_channel after_round write_buf write_uint32 wait_loop
    worker_main with_len check_len with_password respond wire_buf estimate score_of double_less
    c_str read_all read_loop write_all write_uint64 read_uint32
ab-IsTalk = record {
  in_pipe = refl;
  out_pipe = refl;
  forked = refl;
  ended = refl;
  answered = refl;
  waited = refl;
}

ten_bits-GivesDoubles : GivesDoubles ten_bits
ten_bits-GivesDoubles = ((λ password. omega arith), (λ entropy. omega arith))

evaluate-estimate_example : (evaluate short_run ab).1 ≡ ok (estimate ten_bits ab)
evaluate-estimate_example =
    evaluate-estimate ten_bits [] short_run ab ab-IsTalk ab_sent refl tt tt ten_bits-GivesDoubles
      (omega arith) (omega arith)

evaluate-Released_example : Released short_run (evaluate short_run ab).0
evaluate-Released_example = evaluate-Released short_run ab refl

abbrev long_password : Bytes
long_password = replicate 4097 97

-- The parent sends four bytes, and then the worker has ended.
abbrev long_run : Run
long_run = record short_run {
  rounds =
      ready (record {
        writable = true;
        write_broken = false;
        readable = true;
        write_answer = wrote 4;
        read_answer = got [];
      })
      ∷ [];
  waits = ended (exited 3) ∷ [];
}

long-IsTalk : IsTalk ten_bits [] long_run long_password
unfolding poll_loop write_channel read_channel after_round write_buf write_uint32 wait_loop
    worker_main with_len check_len read_all read_loop read_uint32
long-IsTalk = record {
  in_pipe = refl;
  out_pipe = refl;
  forked = refl;
  ended = refl;
  answered = refl;
  waited = refl;
}

four_sent : 4 ≤ length (loop_of long_run long_password).sent
unfolding poll_loop write_channel read_channel after_round write_buf write_uint32
four_sent = omega arith

evaluate_long_example :
    (evaluate long_run long_password).1
    ≡ err (
        runtime_error
          (text "Entropy evaluator worker execution failed or returned invalid response"))
evaluate_long_example =
    evaluate_long ten_bits [] long_run long_password long-IsTalk four_sent refl tt (omega arith)
      (omega arith)
