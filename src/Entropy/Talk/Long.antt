-- ===== src/Entropy/Talk/Long.antt =====
-- A password that the worker refuses for its length.
use duckpass.Entropy.Evaluate.{Run, exited, write_buf, accept, evaluate}
use duckpass.Entropy.Evaluate.Loop.{
  LoopEnd, LoopOutcome, left, timed_out, poll_failed, poll_loop, PollRound, poll_interrupted,
  poll_error, poll_timeout, ready, after_round, write_channel, read_channel, Written, Events,
  write_once, WriteAnswer, wrote, write_again, write_error, end_loop,
}
use duckpass.Entropy.Worker.{WorkerSystem, worker_main, max_len}
use duckpass.Entropy.Worker.Laws.{write_buf_lem, worker_main-long}
use duckpass.Ipc.Packet.{Transfer}
use duckpass.Ipc.Packet.Transfers.{Moves}
use duckpass.Prelude.{
  ℕ, ◌-◌, ◌^◌, ◌≤◌, ◌<◌, Bool, true, false, List, [], ◌∷◌, ◌++◌, ◌≡◌, refl, sym, ap, ◌∙◌, Bytes,
  text, length, take, drop, take-append-drop, take_exact, take_first, All, ltb, if◌then◌else◌,
  arith, append_assoc,
}
use duckpass.Prelude.Result.{err, runtime_error}
use duckpass.Vault.Wire.{write_uint32}
use duckpass.Entropy.Talk.{loop_of, IsTalk, evaluate-IsTalk}

write_once_lem :
    (unsent : Bytes) (answer : WriteAnswer)
    → (write_once unsent answer).now ++ (write_once unsent answer).unsent ≡ unsent
write_once_lem unsent (wrote n) = take-append-drop n unsent
write_once_lem unsent write_again = refl
write_once_lem unsent write_error = refl

write_channel_lem :
    (in_open : Bool) (events : Events) (unsent : Bytes)
    → (write_channel in_open events unsent).now ++ (write_channel in_open events unsent).unsent
      ≡ unsent
unfolding write_channel
write_channel_lem false events unsent = refl
write_channel_lem true events unsent =
    chosen events.writable (if events.write_broken then false else true)
  where
    chosen :
        (b o : Bool)
        → (if b
              then write_once unsent events.write_answer
              else record { now = []; unsent = unsent; open_after = o }).now
            ++ (if b
                then write_once unsent events.write_answer
                else record { now = []; unsent = unsent; open_after = o }).unsent
          ≡ unsent
    chosen true o = write_once_lem unsent events.write_answer
    chosen false o = refl

-- What is sent is a first part of what is to be sent.
abbrev Sends : LoopEnd → Bytes → Type 0
Sends l unsent = (r : Bytes) × (l.sent ++ r ≡ unsent)

after_round-Sends :
    (in_open : Bool) (w : Written) (unsent : Bytes) (rest : LoopEnd)
    → w.now ++ w.unsent ≡ unsent
    → Sends rest w.unsent
    → Sends (after_round in_open w rest) unsent
unfolding after_round
after_round-Sends in_open w unsent rest split (r, e) =
    (r, append_assoc w.now rest.sent r ∙ (ap (◌++◌ w.now) e ∙ split))

end_loop-Sends :
    (o : LoopOutcome) (b : Bool) (received unsent : Bytes) → Sends (end_loop o b received) unsent
end_loop-Sends o b received unsent = (unsent, refl)

if-Sends :
    (b : Bool) (x y : LoopEnd) (unsent : Bytes)
    → Sends x unsent
    → Sends y unsent
    → Sends (if b then x else y) unsent
if-Sends true x y unsent p q = p
if-Sends false x y unsent p q = q

poll_loop-Sends :
    (rounds : List PollRound) (unsent : Bytes) (in_open : Bool) (received : Bytes)
    → Sends (poll_loop rounds unsent in_open received) unsent
unfolding poll_loop
poll_loop-Sends [] unsent in_open received =
    if-Sends (ltb (length received) 21) _ _ unsent
      (end_loop-Sends timed_out in_open received unsent)
      (end_loop-Sends left in_open received unsent)
poll_loop-Sends (poll_interrupted ∷ rounds) unsent in_open received =
    if-Sends (ltb (length received) 21) _ _ unsent (poll_loop-Sends rounds unsent in_open received)
      (end_loop-Sends left in_open received unsent)
poll_loop-Sends (poll_error ∷ rounds) unsent in_open received =
    if-Sends (ltb (length received) 21) _ _ unsent
      (end_loop-Sends poll_failed in_open received unsent)
      (end_loop-Sends left in_open received unsent)
poll_loop-Sends (poll_timeout ∷ rounds) unsent in_open received =
    if-Sends (ltb (length received) 21) _ _ unsent
      (end_loop-Sends timed_out in_open received unsent)
      (end_loop-Sends left in_open received unsent)
poll_loop-Sends (ready events ∷ rounds) unsent in_open received =
    let w = write_channel in_open events unsent in
    let r = read_channel events (21 - length received) in
    if-Sends (ltb (length received) 21) _ _ unsent
      (after_round-Sends in_open w unsent _ (write_channel_lem in_open events unsent) (
        if-Sends r.1 _ _ w.unsent (end_loop-Sends left w.open_after (received ++ r.0) w.unsent)
          (poll_loop-Sends rounds w.unsent w.open_after (received ++ r.0))))
      (end_loop-Sends left in_open received unsent)

starts_with_len :
    (sent r password : Bytes) (len : ℕ)
    → sent ++ r ≡ write_uint32 [] len ++ password
    → 4 ≤ length sent
    → sent ≡ write_uint32 [] len ++ drop 4 sent
starts_with_len sent r password len e h =
    let four : length (write_uint32 [] len) ≡ 4 = unfold write_uint32 in refl in
    sym (take-append-drop 4 sent)
    ∙ ap (λ (b : Bytes). b ++ drop 4 sent)
        (sym (take_first 4 sent r h)
          ∙ (ap (take 4) e ∙ take_exact 4 (write_uint32 [] len) password four))

-- A password of more than 4096 bytes, and fewer than 2 ^ 32, is never given a score: if the parent gets as
-- far as to send the length, and the worker has its dictionary, the evaluation throws.
pub evaluate_long :
    (sys : WorkerSystem) (calls : List Transfer) (run : Run) (password : Bytes)
    → IsTalk sys calls run password
    → 4 ≤ length (loop_of run password).sent
    → sys.dictionary ≡ true
    → All Moves calls
    → max_len < length password
    → length password < 2 ^ 32
    → (evaluate run password).1
      ≡ err (
          runtime_error
            (text "Entropy evaluator worker execution failed or returned invalid response"))
evaluate_long sys calls run password t four d moves long small =
    let sends = poll_loop-Sends run.rounds (write_buf password) true [] in
    let sent = (loop_of run password).sent in
    let begins =
      starts_with_len sent sends.0 password (length password)
        (sends.1 ∙ write_buf_lem password small) four in
    let worked =
      ap (λ (b : Bytes). worker_main sys (record { stream = b; calls = calls })) begins
      ∙ worker_main-long sys calls (length password) (drop 4 sent) d moves long small in
    evaluate-IsTalk sys calls run password (omega arith) t
    ∙ (ap (λ (w : ℕ × Bytes). accept w.1 (exited w.0)) worked ∙ refused)
  where
    refused :
        accept [] (exited 3)
        ≡ err (
            runtime_error
              (text "Entropy evaluator worker execution failed or returned invalid response"))
    refused = unfold accept in refl
