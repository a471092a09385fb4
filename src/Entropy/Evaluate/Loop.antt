-- ===== src/Entropy/Evaluate/Loop.antt =====
-- The loop of `evaluate` over the answers of `poll`, with the two channels.
use duckpass.Prelude.{
  ℕ, zero, suc, ◌-◌, Bool, true, false, List, [], ◌∷◌, ◌++◌, Bytes, length, take, drop, ltb,
  is_empty, if◌then◌else◌,
}

-- The ends of the two pipes, as the parent has them.
pub data Fd : Type 0 where
  in_read : Fd
  in_write : Fd
  out_read : Fd
  out_write : Fd

-- `close`, `kill(pid, SIGKILL)`, and a `waitpid` that gets the child.
pub data Act : Type 0 where
  closes : Fd → Act
  kills : Act
  reaps : Act

-- Answers of `write` and `read` on a descriptor that does not block. EINTR, EAGAIN and EWOULDBLOCK are
-- `again`.
pub data WriteAnswer : Type 0 where
  wrote : ℕ → WriteAnswer
  write_again : WriteAnswer
  write_error : WriteAnswer

pub data ReadAnswer : Type 0 where
  -- at most as many bytes as are asked for; no bytes are the end of the stream
  got : Bytes → ReadAnswer
  read_again : ReadAnswer
  read_error : ReadAnswer

-- The events of a round: POLLOUT, and POLLERR or POLLHUP, of the pipe for writing; any of POLLIN, POLLHUP
-- and POLLERR of the other; and what the calls answer.
pub record Events : Type 0 where
  pub writable : Bool
  pub write_broken : Bool
  pub readable : Bool
  pub write_answer : WriteAnswer
  pub read_answer : ReadAnswer

-- A round before the deadline.
pub data PollRound : Type 0 where
  poll_interrupted : PollRound
  poll_error : PollRound
  poll_timeout : PollRound
  ready : Events → PollRound

pub data LoopOutcome : Type 0 where
  timed_out : LoopOutcome
  poll_failed : LoopOutcome
  -- by its condition or a `break`
  left : LoopOutcome

pub record LoopEnd : Type 0 where
  pub outcome : LoopOutcome
  pub in_open : Bool
  pub sent : Bytes
  pub received : Bytes
  pub acts : List Act

abbrev pub close_if : Bool → Fd → List Act
close_if true fd = closes fd ∷ []
close_if false fd = []

abbrev pub wire_size : ℕ
wire_size = 21

-- What a round does to the pipe for writing: the bytes it sends, those it leaves, whether it leaves it open.
pub record Written : Type 0 where
  pub now : Bytes
  pub unsent : Bytes
  pub open_after : Bool

-- A write of some bytes closes the pipe if they are the last.
abbrev pub keeps_open : ℕ → Bool → Bool
keeps_open zero complete = true
keeps_open (suc n) true = false
keeps_open (suc n) false = true

abbrev pub write_once : Bytes → WriteAnswer → Written
write_once unsent (wrote n) = record {
  now = take n unsent;
  unsent = drop n unsent;
  open_after = keeps_open n (is_empty (drop n unsent));
}
write_once unsent write_again = record { now = []; unsent = unsent; open_after = true }
write_once unsent write_error = record { now = []; unsent = unsent; open_after = false }

-- The check of the write channel.
unfoldable pub write_channel : Bool → Events → Bytes → Written
write_channel false events unsent = record { now = []; unsent = unsent; open_after = false }
write_channel true events unsent =
    if events.writable then write_once unsent events.write_answer else record {
      now = [];
      unsent = unsent;
      open_after = if events.write_broken then false else true;
    }

-- The check of the read channel: what it gets, and whether it leaves the loop.
unfoldable pub read_channel : Events → ℕ → Bytes × Bool
read_channel events missing =
    if events.readable
    then elim events.read_answer [
      | got bytes ↦ (take missing bytes, is_empty (take missing bytes))
      | read_again ↦ ([], false)
      | read_error ↦ ([], true)
    ]
    else ([], false)

-- What was done in a round, before what the later ones do.
unfoldable pub after_round : Bool → Written → LoopEnd → LoopEnd
after_round was_open w rest = record {
  outcome = rest.outcome;
  in_open = rest.in_open;
  sent = w.now ++ rest.sent;
  received = rest.received;
  acts =
      (if was_open then close_if (if w.open_after then false else true) in_write else [])
      ++ rest.acts;
}

abbrev pub end_loop : LoopOutcome → Bool → Bytes → LoopEnd
end_loop outcome in_open received = record {
  outcome = outcome;
  in_open = in_open;
  sent = [];
  received = received;
  acts = [];
}

-- `while (read_offset < 21)`: of the bytes to send, whether the pipe for writing is open, and the bytes read.
unfoldable pub poll_loop : List PollRound → Bytes → Bool → Bytes → LoopEnd
poll_loop [] unsent in_open received =
    if ltb (length received) wire_size
    then end_loop timed_out in_open received
    else end_loop left in_open received
poll_loop (poll_interrupted ∷ rounds) unsent in_open received =
    let more = poll_loop rounds unsent in_open received in
    if ltb (length received) wire_size then more else end_loop left in_open received
poll_loop (poll_error ∷ rounds) unsent in_open received =
    if ltb (length received) wire_size
    then end_loop poll_failed in_open received
    else end_loop left in_open received
poll_loop (poll_timeout ∷ rounds) unsent in_open received =
    if ltb (length received) wire_size
    then end_loop timed_out in_open received
    else end_loop left in_open received
poll_loop (ready events ∷ rounds) unsent in_open received =
    let w = write_channel in_open events unsent in
    let r = read_channel events (wire_size - length received) in
    let more = poll_loop rounds w.unsent w.open_after (received ++ r.0) in
    let leaves = end_loop left w.open_after (received ++ r.0) in
    if ltb (length received) wire_size
    then after_round in_open w (if r.1 then leaves else more)
    else end_loop left in_open received
