-- ===== src/Entropy/Evaluate/Laws.antt =====
-- Every way through `evaluate` gives up what it has taken: the pipes and the child.
use duckpass.Entropy.{EntropyScore}
use duckpass.Entropy.Evaluate.{
  Run, Wait, ended, not_yet, wait_failed, Status, wait_loop, await_worker, finished, after_loop,
  parent, evaluate, write_buf,
}
use duckpass.Entropy.Evaluate.Loop.{
  Act, closes, kills, reaps, in_read, in_write, out_read, out_write, PollRound, poll_interrupted,
  poll_error, poll_timeout, ready, Events, LoopEnd, LoopOutcome, timed_out, poll_failed, left,
  poll_loop, after_round, write_channel, read_channel, Written, close_if,
}
use duckpass.Prelude.{
  ℕ, suc, ◌+◌, ◌-◌, ◌==◌, Bool, true, false, not, ◌&&◌, List, [], ◌∷◌, ◌++◌, ◌≡◌, refl, ap, ◌∙◌,
  Option, none, some, Bytes, length, is_empty, ltb, if◌then◌else◌, arith, Bool-cases, ◌⊎◌, inl, inr,
}
use duckpass.Prelude.Result.{Result}

abbrev pub code : Act → ℕ
code (closes in_read) = 0
code (closes in_write) = 1
code (closes out_read) = 2
code (closes out_write) = 3
code kills = 4
code reaps = 5

-- How often something was done.
unfoldable pub count : Act → List Act → ℕ
count act [] = 0
count act (a ∷ acts) = if code act == code a then suc (count act acts) else count act acts

abbrev pub times : Bool → ℕ
times true = 1
times false = 0

count-append : (act : Act) (xs ys : List Act) → count act (xs ++ ys) ≡ count act xs + count act ys
unfolding count
count-append act [] ys = omega arith
count-append act (a ∷ xs) ys = elim (Bool-cases (code act == code a)) [
  | inl same ↦ rw same (omega (arith, count-append act xs ys))
  | inr other ↦ rw other (count-append act xs ys)
]

stopped :
    (act : Act) (in_open : Bool)
    → count act [] + count act (close_if in_open in_write) ≡ count act (close_if in_open in_write)
unfolding count
stopped act in_open = omega arith

-- What is still owed to the pipe for writing.
abbrev due : Act → Bool → ℕ
due act in_open = count act (close_if in_open in_write)

write_channel-shut :
    (events : Events) (unsent : Bytes) → (write_channel false events unsent).open_after ≡ false
unfolding write_channel
write_channel-shut events unsent = refl

after_round-due :
    (act : Act) (in_open : Bool) (w : Written) (rest : LoopEnd)
    → (in_open ≡ false → w.open_after ≡ false)
    → count act rest.acts + due act rest.in_open ≡ due act w.open_after
    → count act (after_round in_open w rest).acts + due act (after_round in_open w rest).in_open
      ≡ due act in_open
unfolding after_round
after_round-due act false w rest shut ih = ih ∙ ap (due act) (shut refl)
after_round-due act true w rest shut ih = split w.open_after ih
  where
    split :
        (open_after : Bool)
        → count act rest.acts + due act rest.in_open ≡ due act open_after
        → count act (close_if (if open_after then false else true) in_write ++ rest.acts)
            + due act rest.in_open
          ≡ due act true
    split true e = e
    split false e =
        let parts = count-append act (closes in_write ∷ []) rest.acts in
        let nothing : count act [] ≡ 0 = unfold count in refl in omega (arith, e)

-- The loop closes the pipe for writing, or leaves it open, and does nothing else.
poll_loop-due :
    (act : Act) (rounds : List PollRound) (unsent : Bytes) (in_open : Bool) (received : Bytes)
    → count act (poll_loop rounds unsent in_open received).acts
        + due act (poll_loop rounds unsent in_open received).in_open
      ≡ due act in_open
unfolding poll_loop
poll_loop-due act [] unsent in_open received = elim (Bool-cases (ltb (length received) 21)) [
  | inl missing ↦ rw missing (stopped act in_open)
  | inr full ↦ rw full (stopped act in_open)
]
poll_loop-due act (poll_interrupted ∷ rounds) unsent in_open received =
    elim (Bool-cases (ltb (length received) 21)) [
      | inl missing ↦ rw missing (poll_loop-due act rounds unsent in_open received)
      | inr full ↦ rw full (stopped act in_open)
    ]
poll_loop-due act (poll_error ∷ rounds) unsent in_open received =
    elim (Bool-cases (ltb (length received) 21)) [
      | inl missing ↦ rw missing (stopped act in_open)
      | inr full ↦ rw full (stopped act in_open)
    ]
poll_loop-due act (poll_timeout ∷ rounds) unsent in_open received =
    elim (Bool-cases (ltb (length received) 21)) [
      | inl missing ↦ rw missing (stopped act in_open)
      | inr full ↦ rw full (stopped act in_open)
    ]
poll_loop-due act (ready events ∷ rounds) unsent in_open received =
    let w = write_channel in_open events unsent in
    let r = read_channel events (21 - length received) in
    let ih = poll_loop-due act rounds w.unsent w.open_after (received ++ r.0) in
    let shut : in_open ≡ false → w.open_after ≡ false = λ h.
      ap (λ (b : Bool). (write_channel b events unsent).open_after) h
      ∙ write_channel-shut events unsent in
    elim (Bool-cases (ltb (length received) 21)) [
      | inl missing ↦ elim (Bool-cases r.1) [
        | inl leaves ↦
            rw (missing, leaves) (after_round-due act in_open w _ shut (stopped act w.open_after))
        | inr stays ↦ rw (missing, stays) (after_round-due act in_open w _ shut ih)
      ]
      | inr full ↦ rw full (stopped act in_open)
    ]

-- Anything but `kill`, which is only done in an error.
abbrev pub NotKill : Act → Type 0
NotKill act = (code act == 4) ≡ false

-- At the end of `evaluate` the child has been waited for, and the pipe for reading is closed.
abbrev rest_of : List Act
rest_of = reaps ∷ closes out_read ∷ []

count-kills :
    (act : Act) (acts : List Act) → NotKill act → count act (kills ∷ acts) ≡ count act acts
unfolding count
count-kills act acts n = rw n refl

-- What the wait records, with what follows it.
wait_loop-cases :
    (waits : List Wait)
    → ((status : Status) × (wait_loop waits ≡ (reaps ∷ [], some status)))
      ⊎ (wait_loop waits ≡ ([], none))
unfolding wait_loop
wait_loop-cases [] = inr refl
wait_loop-cases (ended status ∷ waits) = inl (status, refl)
wait_loop-cases (not_yet ∷ waits) = wait_loop-cases waits
wait_loop-cases (wait_failed ∷ waits) = inr refl

await_worker-due :
    (act : Act) (waits : List Wait) (received : Bytes)
    → NotKill act
    → count act (await_worker waits received).0 ≡ count act rest_of
unfolding await_worker
await_worker-due act waits received n = elim (wait_loop-cases waits) [
  | inl (status, done) ↦
      ap (λ (w : List Act × Option Status). count act (finished w received).0) done
      ∙ (unfold finished in refl)
  | inr unfinished ↦
      ap (λ (w : List Act × Option Status). count act (finished w received).0) unfinished
      ∙ (unfold finished in count-kills act rest_of n)
]

aborted :
    (act : Act) (in_open : Bool)
    → NotKill act
    → count act (kills ∷ reaps ∷ (close_if in_open in_write ++ closes out_read ∷ []))
      ≡ due act in_open + count act rest_of
aborted act true n = swapped act n
  where
    swapped :
        (act : Act)
        → NotKill act
        → count act (kills ∷ reaps ∷ closes in_write ∷ closes out_read ∷ [])
          ≡ due act true + count act rest_of
    swapped act n =
        let a = count-kills act (reaps ∷ closes in_write ∷ closes out_read ∷ []) n in
        let b = count-append act (reaps ∷ []) (closes in_write ∷ closes out_read ∷ []) in
        let c = count-append act (closes in_write ∷ []) (closes out_read ∷ []) in
        let d = count-append act (reaps ∷ []) (closes out_read ∷ []) in omega (arith, a, b, c, d)
aborted act false n =
    let a = count-kills act rest_of n in
    let b : count act [] ≡ 0 = unfold count in refl in omega (arith, a, b)

after_loop-due :
    (act : Act) (waits : List Wait) (outcome : LoopOutcome) (in_open : Bool) (received : Bytes)
    → NotKill act
    → count act (after_loop waits outcome in_open received).0 ≡ due act in_open + count act rest_of
unfolding after_loop
after_loop-due act waits timed_out in_open received n = aborted act in_open n
after_loop-due act waits poll_failed in_open received n = aborted act in_open n
after_loop-due act waits left in_open received n =
    count-append act (close_if in_open in_write) _
    ∙ ap (λ (k : ℕ). due act in_open + k) (await_worker-due act waits received n)

-- The parent gives up the four ends and the child.
parent-due :
    (act : Act) (run : Run) (password : Bytes)
    → NotKill act
    → count act (parent run password).0
      ≡ count act
          (closes in_read ∷ closes out_write ∷ closes in_write ∷ reaps ∷ closes out_read ∷ [])
unfolding parent
parent-due act run password n =
    let loop = poll_loop run.rounds (write_buf password) true [] in
    let rest = (after_loop run.waits loop.outcome loop.in_open loop.received).0 in
    let first = poll_loop-due act run.rounds (write_buf password) true [] in
    let second = after_loop-due act run.waits loop.outcome loop.in_open loop.received n in
    let joined = count-append act loop.acts rest in
    let whole = count-append act (closes in_write ∷ []) rest_of in
    let first_two = count-append act (closes in_read ∷ closes out_write ∷ []) (loop.acts ++ rest) in
    let other =
      count-append act (closes in_read ∷ closes out_write ∷ []) (closes in_write ∷ rest_of) in
    omega (arith, first, second, joined, whole, first_two, other)

-- What an end or the child is owed: nothing, if there is none.
abbrev pub Released : Run → List Act → Type 0
Released run acts =
    (count (closes in_read) acts ≡ times run.in_pipe)
    × (count (closes in_write) acts ≡ times run.in_pipe)
    × (count (closes out_read) acts ≡ times (run.in_pipe && run.out_pipe))
    × (count (closes out_write) acts ≡ times (run.in_pipe && run.out_pipe))
    × (count reaps acts ≡ times (run.in_pipe && (run.out_pipe && run.forked)))

-- The same of what the calls answer.
abbrev Owed : Bool → Bool → Bool → List Act → Type 0
Owed in_pipe out_pipe forked acts =
    (count (closes in_read) acts ≡ times in_pipe)
    × (count (closes in_write) acts ≡ times in_pipe)
    × (count (closes out_read) acts ≡ times (in_pipe && out_pipe))
    × (count (closes out_write) acts ≡ times (in_pipe && out_pipe))
    × (count reaps acts ≡ times (in_pipe && (out_pipe && forked)))

parent-Owed : (run : Run) (password : Bytes) → Owed true true true (parent run password).0
unfolding count
parent-Owed run password = (
  parent-due (closes in_read) run password refl,
  parent-due (closes in_write) run password refl,
  parent-due (closes out_read) run password refl,
  parent-due (closes out_write) run password refl,
  parent-due reaps run password refl,
)

if-Owed :
    (in_pipe out_pipe forked : Bool) (a b c : Result EntropyScore)
    (p : List Act × Result EntropyScore)
    → Owed true true true p.0
    → Owed in_pipe out_pipe forked
        (if not in_pipe
          then ([], a)
          else if not out_pipe
          then (closes in_read ∷ closes in_write ∷ [], b)
          else if not forked
          then (closes in_read ∷ closes in_write ∷ closes out_read ∷ closes out_write ∷ [], c)
          else p).0
unfolding count
if-Owed false out_pipe forked a b c p h = (refl, refl, refl, refl, refl)
if-Owed true false forked a b c p h = (refl, refl, refl, refl, refl)
if-Owed true true false a b c p h = (refl, refl, refl, refl, refl)
if-Owed true true true a b c p h = h

-- However the calls answer, an evaluation of a password that is not empty closes each end of each pipe that
-- was made exactly once, and waits exactly once for the worker, if there is one, also where it throws.
pub evaluate-Released :
    (run : Run) (password : Bytes)
    → is_empty password ≡ false
    → Released run (evaluate run password).0
unfolding evaluate
evaluate-Released run password filled = rw filled (
    if-Owed run.in_pipe run.out_pipe run.forked _ _ _ (parent run password)
      (parent-Owed run password))
