-- ===== src/Terminal/Laws.antt =====
-- What the line editor does to a line.
use duckpass.Prelude.{
  ℕ, ◌-◌, Bool, true, &&_iff, List, [], ◌∷◌, ◌++◌, ◌≡◌, refl, subst, sym, ap, ◌∙◌, Option, none,
  some, Bytes, break_at, bytes_eq, bytes_eq→eq, length, length-append, take, drop, take_exact,
  take-append-drop, keep, is_empty, All, leb, arith, Bool-cases, inl, inr, append_assoc, append-nil,
}
use duckpass.Terminal.{
  Editor, Completer, Context, is_space, no_space, completes_services, argument_context, context_of,
  has_prefix, matches_of, base_of, render, tab,
}

break_at-append : (stop : ℕ → Bool) (cs : Bytes) → (break_at stop cs).0 ++ (break_at stop cs).1 ≡ cs
unfolding break_at
break_at-append stop [] = refl
break_at-append stop (c ∷ cs) = elim (Bool-cases (stop c)) [
  | inl here ↦ rw here refl
  | inr later ↦ rw later (ap (◌∷◌ c) (break_at-append stop cs))
]

-- The parts of a context make up the line.
abbrev pub Splits : Bytes → Option Context → Type 0
Splits buffer none = Unit {0}
Splits buffer (some context) = context.base_input ++ context.prefix ≡ buffer

argument_context-Splits :
    (services : List Bytes) (before argument : Bytes)
    → Splits (before ++ argument) (some (argument_context services (before ++ argument) argument))
unfolding argument_context
argument_context-Splits services before [] = append-nil (before ++ [])
argument_context-Splits services before (c ∷ argument) =
    ap (λ (b : Bytes). b ++ c ∷ argument)
      (take_exact (length (before ++ c ∷ argument) - length (c ∷ argument)) before (c ∷ argument)
        (omega (arith, length-append before (c ∷ argument))))

pub context_of-Splits :
    (completer : Completer) (buffer : Bytes) → Splits buffer (context_of completer buffer)
unfolding context_of
context_of-Splits completer buffer =
    let parts = break_at is_space buffer in
    let argument = break_at no_space parts.1 in
    let whole : (parts.0 ++ argument.0) ++ argument.1 ≡ buffer =
      append_assoc parts.0 argument.0 argument.1
      ∙ (ap (◌++◌ parts.0) (break_at-append no_space parts.1) ∙ break_at-append is_space buffer) in
    let split = argument_context-Splits completer.services (parts.0 ++ argument.0) argument.1 in
    elim (Bool-cases (is_empty parts.1)) [
      | inl command ↦ rw command refl
      | inr spaced ↦ elim (Bool-cases (completes_services parts.0)) [
        | inr other ↦ rw (spaced, other) tt
        | inl service ↦
            rw (spaced, service)
              (subst
                (λ (b : Bytes). Splits b (some (argument_context completer.services b argument.1)))
                whole split)
      ]
    ]

keep-All : (p : Bytes → Bool) (xs : List Bytes) → All (λ x. p x ≡ true) (keep p xs)
unfolding keep
keep-All p [] = tt
keep-All p (x ∷ xs) = elim (Bool-cases (p x)) [
  | inl matches ↦ rw matches (matches, keep-All p xs)
  | inr misses ↦ rw misses (keep-All p xs)
]

pub has_prefix_sound :
    (prefix s : Bytes) → has_prefix prefix s ≡ true → prefix ++ drop (length prefix) s ≡ s
unfolding has_prefix
has_prefix_sound prefix s h =
    let both =
      (&&_iff (leb (length prefix) (length s)) (bytes_eq (take (length prefix) s) prefix)).0 h in
    ap (λ (b : Bytes). b ++ drop (length prefix) s) (sym (bytes_eq→eq _ _ both.1))
    ∙ take-append-drop (length prefix) s

-- Every match of a line continues it.
matches-extend :
    (buffer : Bytes) (context : Option Context)
    → Splits buffer context
    → All (λ m. (r : Bytes) × (base_of context ++ m ≡ buffer ++ r)) (matches_of context)
unfolding matches_of
matches-extend buffer none s = tt
matches-extend buffer (some context) s =
    each context.candidates (keep-All (has_prefix context.prefix) context.candidates)
  where
    each :
        (cs : List Bytes)
        → All (λ m. has_prefix context.prefix m ≡ true) (keep (has_prefix context.prefix) cs)
        → All
            (λ m. (r : Bytes) × (context.base_input ++ m ≡ buffer ++ r))
            (keep (has_prefix context.prefix) cs)
    each cs a = mapped (keep (has_prefix context.prefix) cs) a
      where
        mapped :
            (ms : List Bytes)
            → All (λ m. has_prefix context.prefix m ≡ true) ms
            → All (λ m. (r : Bytes) × (context.base_input ++ m ≡ buffer ++ r)) ms
        mapped [] a = tt
        mapped (m ∷ ms) a = (
          (
            drop (length context.prefix) m,
            ap (◌++◌ context.base_input) (sym (has_prefix_sound context.prefix m a.0))
                ∙ (sym (append_assoc context.base_input context.prefix _)
                    ∙ ap (λ (b : Bytes). b ++ drop (length context.prefix) m) s),
          ),
          mapped ms a.1,
        )

-- The completed line, if there is one match.
abbrev pub Completes : List Bytes → Bytes → Bytes → Type 0
Completes (m ∷ []) base buffer = buffer ≡ base ++ m
Completes _ base buffer = Unit {0}

render-extends :
    (completer : Completer) (base : Bytes) (matches : List Bytes) (e : Editor)
    → All (λ m. (r : Bytes) × (base ++ m ≡ e.buffer ++ r)) matches
    → (r : Bytes) × ((render completer base matches e).buffer ≡ e.buffer ++ r)
      × Completes matches base (render completer base matches e).buffer
unfolding render
render-extends completer base [] e a = ([], sym (append-nil e.buffer), tt)
render-extends completer base (m ∷ []) e a = (a.0.0, a.0.1, refl)
render-extends completer base (m ∷ n ∷ ms) e a = ([], sym (append-nil e.buffer), tt)

-- The TAB press keeps what was typed: the line after it is the line before with something added, which is
-- what completes the word to the command or service that starts with it, if there is exactly one.
pub tab-extends :
    (completer : Completer) (e : Editor)
    → (r : Bytes) × ((tab completer e).buffer ≡ e.buffer ++ r)
      × Completes
          (matches_of (context_of completer e.buffer))
          (base_of (context_of completer e.buffer))
          (tab completer e).buffer
unfolding tab
tab-extends completer e =
    render-extends completer (base_of (context_of completer e.buffer))
      (matches_of (context_of completer e.buffer)) e
      (matches-extend e.buffer (context_of completer e.buffer)
        (context_of-Splits completer e.buffer))
