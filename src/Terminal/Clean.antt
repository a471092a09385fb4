-- ===== src/Terminal/Clean.antt =====
-- A line has no control characters.
use duckpass.Prelude.{
  ℕ, Bool, true, false, List, [], ◌∷◌, ◌++◌, ◌≡◌, sym, subst, Option, none, some, Bytes, keep,
  is_empty, All, All-append, break_at, if◌then◌else◌, ◌==◌, Bool-cases, inl, inr,
}
use duckpass.Secure.Buffer.{drop_last}
use duckpass.Terminal.Laws.{Splits, context_of-Splits}
use duckpass.Terminal.{
  Editor, Completer, Context, is_enter, is_backspace, iscntrl, is_space, no_space,
  completes_services, argument_context, context_of, has_prefix, matches_of, base_of, render, tab,
  backspace, press, input_loop, read_line_interactive,
}

abbrev pub IsPrintable : ℕ → Type 0
IsPrintable c = iscntrl c ≡ false

abbrev pub IsClean : Bytes → Type 0
IsClean = All IsPrintable

-- The words to complete with.
abbrev pub HasCleanWords : Completer → Type 0
HasCleanWords completer = All IsClean completer.commands × All IsClean completer.services

left-IsClean : (xs ys : Bytes) → IsClean (xs ++ ys) → IsClean xs
left-IsClean [] ys a = tt
left-IsClean (x ∷ xs) ys a = (a.0, left-IsClean xs ys a.1)

drop_last-IsClean : (xs : Bytes) → IsClean xs → IsClean (drop_last xs)
unfolding drop_last
drop_last-IsClean [] a = tt
drop_last-IsClean (x ∷ []) a = tt
drop_last-IsClean (x ∷ y ∷ xs) a = (a.0, drop_last-IsClean (y ∷ xs) a.1)

keep-IsClean : (p : Bytes → Bool) (ws : List Bytes) → All IsClean ws → All IsClean (keep p ws)
unfolding keep
keep-IsClean p [] a = tt
keep-IsClean p (w ∷ ws) a = elim (Bool-cases (p w)) [
  | inl kept ↦ rw kept (a.0, keep-IsClean p ws a.1)
  | inr dropped ↦ rw dropped (keep-IsClean p ws a.1)
]

abbrev CleanContext : Option Context → Type 0
CleanContext none = Unit {0}
CleanContext (some context) = All IsClean context.candidates

argument-CleanContext :
    (services : List Bytes) (buffer argument : Bytes)
    → All IsClean services
    → CleanContext (some (argument_context services buffer argument))
unfolding argument_context
argument-CleanContext services buffer [] a = a
argument-CleanContext services buffer (c ∷ argument) a = a

context_of-CleanContext :
    (completer : Completer) (buffer : Bytes)
    → HasCleanWords completer
    → CleanContext (context_of completer buffer)
unfolding context_of
context_of-CleanContext completer buffer w =
    let parts = break_at is_space buffer in
    elim (Bool-cases (is_empty parts.1)) [
      | inl command ↦ rw command w.0
      | inr spaced ↦ elim (Bool-cases (completes_services parts.0)) [
        | inr other ↦ rw (spaced, other) tt
        | inl service ↦
            rw (spaced, service)
              (argument-CleanContext completer.services buffer (break_at no_space parts.1).1 w.1)
      ]
    ]

matches-IsClean :
    (context : Option Context) → CleanContext context → All IsClean (matches_of context)
unfolding matches_of
matches-IsClean none a = tt
matches-IsClean (some context) a = keep-IsClean (has_prefix context.prefix) context.candidates a

base-IsClean :
    (buffer : Bytes) (context : Option Context)
    → Splits buffer context
    → IsClean buffer
    → IsClean (base_of context)
base-IsClean buffer none s a = tt
base-IsClean buffer (some context) s a =
    left-IsClean context.base_input context.prefix (subst IsClean (sym s) a)

render-IsClean :
    (completer : Completer) (base : Bytes) (matches : List Bytes) (e : Editor)
    → IsClean base
    → All IsClean matches
    → IsClean e.buffer
    → IsClean (render completer base matches e).buffer
unfolding render
render-IsClean completer base [] e b m a = a
render-IsClean completer base (w ∷ []) e b m a = All-append IsPrintable base w b m.0
render-IsClean completer base (v ∷ w ∷ ws) e b m a = a

backspace-IsClean : (e : Editor) → IsClean e.buffer → IsClean (backspace e).buffer
unfolding backspace
backspace-IsClean e a = erased (is_empty e.buffer)
  where
    erased :
        (b : Bool)
        → IsClean
            (if b then e else record {
              buffer = drop_last e.buffer;
              output = e.output ++ 8 ∷ 32 ∷ 8 ∷ [];
            }).buffer
    erased true = a
    erased false = drop_last-IsClean e.buffer a

press-IsClean :
    (completer : Completer) (c : ℕ) (e : Editor)
    → HasCleanWords completer
    → IsClean e.buffer
    → IsClean (press completer c e).buffer
unfolding press tab
press-IsClean completer c e w a = elim (Bool-cases (c == 9)) [
  | inl tabbed ↦ rw tabbed (
      render-IsClean completer (base_of (context_of completer e.buffer))
        (matches_of (context_of completer e.buffer)) e
        (base-IsClean e.buffer (context_of completer e.buffer)
          (context_of-Splits completer e.buffer) a)
        (matches-IsClean (context_of completer e.buffer)
          (context_of-CleanContext completer e.buffer w))
        a)
  | inr plain ↦ elim (Bool-cases (is_backspace c)) [
    | inl back ↦ rw (plain, back) (backspace-IsClean e a)
    | inr forward ↦ elim (Bool-cases (iscntrl c)) [
      | inl control ↦ rw (plain, forward, control) a
      | inr printable ↦
          rw (plain, forward, printable)
            (All-append IsPrintable e.buffer (c ∷ []) a (printable, tt))
    ]
  ]
]

input_loop-IsClean :
    (completer : Completer) (input : Bytes) (e : Editor)
    → HasCleanWords completer
    → IsClean e.buffer
    → IsClean (input_loop completer input e).buffer
unfolding input_loop
input_loop-IsClean completer [] e w a = a
input_loop-IsClean completer (c ∷ []) e w a = elim (Bool-cases (is_enter c)) [
  | inl ends ↦ rw (ends, input_loop) a
  | inr more ↦ elim (Bool-cases (c == 27)) [
    | inl escape ↦ rw (more, escape, input_loop) a
    | inr other ↦ rw (more, other, input_loop) (press-IsClean completer c e w a)
  ]
]
input_loop-IsClean completer (c ∷ x ∷ []) e w a = elim (Bool-cases (is_enter c)) [
  | inl ends ↦ rw (ends, input_loop) a
  | inr more ↦ elim (Bool-cases (c == 27)) [
    | inl escape ↦ rw (more, escape, input_loop) a
    | inr other ↦
        rw (more, other, input_loop)
          (input_loop-IsClean completer (x ∷ []) (press completer c e) w
            (press-IsClean completer c e w a))
  ]
]
input_loop-IsClean completer (c ∷ x ∷ y ∷ input) e w a = elim (Bool-cases (is_enter c)) [
  | inl ends ↦ rw (ends, input_loop) a
  | inr more ↦ elim (Bool-cases (c == 27)) [
    | inl escape ↦ rw (more, escape, input_loop) (input_loop-IsClean completer input e w a)
    | inr other ↦
        rw (more, other, input_loop)
          (input_loop-IsClean completer (x ∷ y ∷ input) (press completer c e) w
            (press-IsClean completer c e w a))
  ]
]

-- If no command and no service has a control character, then no line that is read from a terminal has one,
-- whatever keys are pressed.
pub read_line_interactive-IsClean :
    (completer : Completer) (input : Bytes)
    → HasCleanWords completer
    → IsClean (read_line_interactive true completer input).buffer
unfolding read_line_interactive
read_line_interactive-IsClean completer input w =
    input_loop-IsClean completer input (record { buffer = []; output = completer.prompt }) w tt
