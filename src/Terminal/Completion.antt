-- ===== src/Terminal/Completion.antt =====
-- Which word the TAB key of src/terminal_utils.cpp completes, and to what.
use duckpass.Prelude.{
  ℕ, zero, suc, ◌-◌, ◌==◌, true, false, &&_iff, List, [], ◌∷◌, ◌++◌, ◌≡◌, ◌≢◌, refl, sym, ap, ◌∙◌,
  inl, inr, some, Option, Bytes, break_at, bytes_eq, bytes_eq_refl, text, length, length-append,
  take-append, take_exact, replicate, keep, All, leb, le→leb, arith, Bool-cases, append_assoc,
  append-nil,
}
use duckpass.Terminal.{
  Editor, Completer, Context, is_space, no_space, completes_services, argument_context, context_of,
  has_prefix, matches_of, base_of, render, tab,
}
use duckpass.Terminal.Laws.{has_prefix_sound}

abbrev pub NoSpace : ℕ → Type 0
NoSpace c = c ≢ 32

abbrev pub NoSpaceFirst : Bytes → Type 0
NoSpaceFirst [] = Unit {0}
NoSpaceFirst (c ∷ cs) = NoSpace c

-- A line whose last word `prefix` is completed to one of the candidates, behind the part `base`.
pub data At (completer : Completer) : Bytes → Bytes → Bytes → List Bytes → Type 0 where
  command : (word : Bytes) → All NoSpace word → At completer word [] word completer.commands
  after_get :
      (n : ℕ) (argument : Bytes)
      → NoSpaceFirst argument
      → At completer
          ((text "get" ++ replicate (suc n) 32) ++ argument)
          (text "get" ++ replicate (suc n) 32)
          argument
          completer.services
  after_delete :
      (n : ℕ) (argument : Bytes)
      → NoSpaceFirst argument
      → At completer
          ((text "delete" ++ replicate (suc n) 32) ++ argument)
          (text "delete" ++ replicate (suc n) 32)
          argument
          completer.services

-- None of the words starts with the prefix.
abbrev pub Misses : Bytes → List Bytes → Type 0
Misses prefix words = All (λ w. (r : Bytes) → w ≢ prefix ++ r) words

other_space : (c : ℕ) → NoSpace c → (c == 32) ≡ false
other_space c h = ground arith

break_at-word : (word : Bytes) → All NoSpace word → break_at is_space word ≡ (word, [])
unfolding break_at
break_at-word [] a = refl
break_at-word (c ∷ cs) a = rw (other_space c a.0, break_at-word cs a.1) refl

break_at-first :
    (argument : Bytes) → NoSpaceFirst argument → break_at no_space argument ≡ ([], argument)
unfolding break_at
break_at-first [] a = refl
break_at-first (c ∷ cs) a = rw (other_space c a) refl

break_at-spaces :
    (n : ℕ) (argument : Bytes)
    → NoSpaceFirst argument
    → (break_at no_space (replicate n 32 ++ argument)).1 ≡ argument
unfolding break_at
break_at-spaces zero argument a = rw (break_at-first argument a) refl
break_at-spaces (suc n) argument a = break_at-spaces n argument a

-- What a context must be, and it then is one, up to the empty argument.
abbrev Has : Bytes → Bytes → List Bytes → Option Context → Type 0
Has base prefix candidates o =
    (base_of o ≡ base) × (matches_of o ≡ keep (has_prefix prefix) candidates)

argument_context-Has :
    (services : List Bytes) (base argument : Bytes)
    → Has base argument services (some (argument_context services (base ++ argument) argument))
unfolding argument_context matches_of
argument_context-Has services base [] = (append-nil base, refl)
argument_context-Has services base (c ∷ argument) = (
  take_exact (length (base ++ c ∷ argument) - length (c ∷ argument)) base (c ∷ argument)
      (omega (arith, length-append base (c ∷ argument))),
  refl,
)

context_of-Has :
    (completer : Completer) (buffer base prefix : Bytes) (candidates : List Bytes)
    → At completer buffer base prefix candidates
    → Has base prefix candidates (context_of completer buffer)
unfolding context_of matches_of text break_at completes_services bytes_eq
context_of-Has completer buffer base prefix candidates (At.command word a) =
    rw (break_at-word word a) (refl, refl)
context_of-Has completer buffer base prefix candidates (At.after_get n argument a) =
    rw (break_at-spaces n argument a)
      (argument_context-Has completer.services (text "get" ++ replicate (suc n) 32) argument)
context_of-Has completer buffer base prefix candidates (At.after_delete n argument a) =
    rw (break_at-spaces n argument a)
      (argument_context-Has completer.services (text "delete" ++ replicate (suc n) 32) argument)

has_prefix-append : (prefix r : Bytes) → has_prefix prefix (prefix ++ r) ≡ true
unfolding has_prefix
has_prefix-append prefix r = (&&_iff (leb (length prefix) (length (prefix ++ r))) _).1 (
  le→leb (length prefix) (length (prefix ++ r)) (omega (arith, length-append prefix r)),
  rw (take-append prefix r) (bytes_eq_refl prefix),
)

keep-Misses :
    (prefix : Bytes) (words rest : List Bytes)
    → Misses prefix words
    → keep (has_prefix prefix) (words ++ rest) ≡ keep (has_prefix prefix) rest
unfolding keep
keep-Misses prefix [] rest a = refl
keep-Misses prefix (w ∷ words) rest a = elim (Bool-cases (has_prefix prefix w)) [
  | inl match ↦ absurd (a.0 _ (sym (has_prefix_sound prefix w match)))
  | inr miss ↦ rw miss (keep-Misses prefix words rest a.1)
]

-- The one match.
keep-one :
    (prefix r : Bytes) (before after : List Bytes)
    → Misses prefix before
    → Misses prefix after
    → keep (has_prefix prefix) (before ++ (prefix ++ r) ∷ after) ≡ (prefix ++ r) ∷ []
unfolding keep
keep-one prefix r before after a b =
    keep-Misses prefix before _ a
    ∙ rw (has_prefix-append prefix r) (
        ap (◌∷◌ (prefix ++ r))
          (ap (keep (has_prefix prefix)) (sym (append-nil after)) ∙ keep-Misses prefix after [] b))

At-splits :
    {completer : Completer} {buffer base prefix : Bytes} {candidates : List Bytes}
    → At completer buffer base prefix candidates
    → base ++ prefix ≡ buffer
At-splits (At.command word a) = refl
At-splits (At.after_get n argument a) = refl
At-splits (At.after_delete n argument a) = refl

-- On a line that is one word, the candidates are the commands; on a line of `get` or `delete`, spaces and an
-- argument, they are the services. If exactly one candidate starts with the word or the argument, then the
-- TAB key adds the rest of it to the line.
pub tab-completes :
    (completer : Completer) (e : Editor) (base prefix r : Bytes) (before after : List Bytes)
    → At completer e.buffer base prefix (before ++ (prefix ++ r) ∷ after)
    → Misses prefix before
    → Misses prefix after
    → (tab completer e).buffer ≡ e.buffer ++ r
unfolding tab render
tab-completes completer e base prefix r before after at a b =
    let (based, matched) = context_of-Has completer e.buffer base prefix _ at in
    rw (based, matched, keep-one prefix r before after a b, ← At-splits at)
      (sym (append_assoc base prefix r))
