-- ===== src/Shell/Laws.antt =====
-- The arguments that src/shell_command.cpp cuts out of a line.
use duckpass.Prelude.{
  ◌⊎◌, ◌==◌, &&_iff, ==_iff, suc, arith, Bool, true, false, ◌||◌, Bool-cases, inl, inr, [], ◌∷◌,
  ◌++◌, ◌≡◌, refl, ap, sym, subst, ◌∙◌, Option, none, some, Bytes, text, bytes_eq, length, drop,
  is_empty, if◌then◌else◌,
}
use mathlib.Core.Path.{ap₂}
use duckpass.Shell.Words.{
  IsBegun, IsEnded, IsTrimmed, IsBlank, IsCut, trim_front-blank, trim_front-begun, trim_back-ended,
  IsEnded-append, trim_front-IsTrimmed, drop-IsEnded, trim_back-IsCut,
}
use duckpass.Shell.{
  Command, argument, trim_front, trim_back, starts_with, get_arguments, list_query, edit_prefix,
  is_or_starts, dispatch, read_command,
}
use duckpass.Shell.Command.{
  blank, exit, clear, help, list, get, delete, add, otp, generate, edit, rekey, audit, unknown,
}

-- A line: a word, spaces, a service and spaces around it all.
abbrev pub typed : Bytes → Bytes → Bytes → Bytes → Bytes → Bytes
typed before word between service after = before ++ ((word ++ (between ++ service)) ++ after)

starts_with_sound : (p s : Bytes) → starts_with p s ≡ true → (r : Bytes) × (s ≡ p ++ r)
unfolding starts_with
starts_with_sound [] s h = (s, refl)
starts_with_sound (x ∷ p) [] h = cc
starts_with_sound (x ∷ p) (y ∷ s) h =
    let both = (&&_iff (x == y) (starts_with p s)).0 h in
    let (r, rest) = starts_with_sound p s both.1 in (r, ap₂ ◌∷◌ (sym ((==_iff x y).0 both.0)) rest)

-- The arguments of a `get` are the service, unless they start with the option.
get_arguments_lem :
    (s : Bytes) → (get_arguments s ≡ get false s) ⊎ ((r : Bytes) × (s ≡ text "--show " ++ r))
unfolding get_arguments text
get_arguments_lem s = elim (Bool-cases (starts_with (text "--show ") s)) [
  | inl option ↦ inr (starts_with_sound (text "--show ") s option)
  | inr service ↦ rw service (inl refl)
]

module _ (before between service after : Bytes) (b : IsBlank before) (w : IsBlank between)
    (a : IsBlank after) (t : IsTrimmed service) where
  trimmed :
      (core : Bytes)
      → IsBegun (core ++ after)
      → IsEnded core
      → read_command (before ++ (core ++ after)) ≡ dispatch core
  unfolding read_command
  trimmed core begun ended = ap dispatch (
      ap trim_back
        (trim_front-blank before (core ++ after) b ∙ trim_front-begun (core ++ after) begun)
      ∙ trim_back-ended core after ended a)

  -- A word that starts the line, by what the chain of tests does with it.
  reads :
      (word : Bytes) (command : Bytes → Command)
      → IsBegun ((word ++ (between ++ service)) ++ after)
      → dispatch (word ++ (between ++ service)) ≡ command (trim_front (between ++ service))
      → read_command (typed before word between service after) ≡ command service
  reads word command begun found =
      trimmed (word ++ (between ++ service)) begun
        (IsEnded-append word (between ++ service) (IsEnded-append between service t.1))
      ∙ (found ∙ ap command (trim_front-blank between service w ∙ trim_front-begun service t.0))

  plain :
      {x : Command}
      → (get_arguments service ≡ get false service)
        ⊎ ((r : Bytes) × (service ≡ text "--show " ++ r))
      → x ≡ get_arguments service
      → (x ≡ get false service) ⊎ ((r : Bytes) × (service ≡ text "--show " ++ r))
  plain (inl kept) h = inl (h ∙ kept)
  plain (inr shown) h = inr shown

  -- Each word that takes a service or a query finds its command and hands on the service as it was typed,
  -- without the spaces around it, if the service is not empty and neither begins nor ends with a space. For
  -- `get ` alone that is so unless the service starts with `--show `, which then is an option.
  pub read_command-service :
      (read_command (typed before (text "delete ") between service after) ≡ delete service)
      × (read_command (typed before (text "otp ") between service after) ≡ otp service)
      × (read_command (typed before (text "edit ") between service after) ≡ edit service)
      × (read_command (typed before (text "update ") between service after) ≡ edit service)
      × (read_command (typed before (text "get --show ") between service after) ≡ get true service)
      × ((read_command (typed before (text "get ") between service after) ≡ get false service)
          ⊎ ((r : Bytes) × (service ≡ text "--show " ++ r)))
      × (read_command (typed before (text "list ") between service after) ≡ list service)
  unfolding text dispatch starts_with bytes_eq edit_prefix get_arguments list_query trim_front
  read_command-service = (
    reads (text "delete ") delete refl refl,
    reads (text "otp ") otp refl refl,
    reads (text "edit ") edit refl refl,
    reads (text "update ") edit refl refl,
    reads (text "get --show ") (get true) refl refl,
    plain (get_arguments_lem service) (reads (text "get ") get_arguments refl refl),
    reads (text "list ") list refl refl,
  )

-- The service that a command works on.
abbrev pub service_of : Command → Option Bytes
service_of blank = none
service_of exit = none
service_of clear = none
service_of help = none
service_of (list query) = none
service_of (get show service) = some service
service_of (delete service) = some service
service_of add = none
service_of (otp service) = some service
service_of (generate size) = none
service_of (edit service) = some service
service_of rekey = none
service_of (audit check_online) = none
service_of (unknown input) = none

abbrev pub IsNamed : Option Bytes → Type 0
IsNamed none = Unit {0}
IsNamed (some service) = IsTrimmed service

abbrev IsSound : Command → Type 0
IsSound command = IsNamed (service_of command)

if-IsSound :
    (test : Bool) (x y : Command)
    → (test ≡ true → IsSound x)
    → IsSound y
    → IsSound (if test then x else y)
if-IsSound true x y hx hy = hx refl
if-IsSound false x y hx hy = hy

-- The argument behind a word that ends in a space.
argument-IsTrimmed :
    (q s : Bytes)
    → IsEnded s
    → starts_with (q ++ 32 ∷ []) s ≡ true
    → IsTrimmed (argument (suc (length q)) s)
argument-IsTrimmed q s e h = trim_front-IsTrimmed (drop (suc (length q)) s) (drop-IsEnded q s h e)

get_arguments-IsSound : (s : Bytes) → IsTrimmed s → IsSound (get_arguments s)
unfolding get_arguments text
get_arguments-IsSound s t =
    if-IsSound _ (get true (argument 7 s)) (get false s) (argument-IsTrimmed (text "--show") s t.1)
      t

or-right : (a b : Bool) → a ≡ false → (a || b) ≡ true → b ≡ true
or-right a b is_false h = ground arith

edit-IsSound :
    (s : Bytes)
    → IsEnded s
    → (starts_with (text "edit ") s || starts_with (text "update ") s) ≡ true
    → IsTrimmed (argument (edit_prefix s) s)
unfolding edit_prefix text
edit-IsSound s e h = elim (Bool-cases (starts_with (text "edit ") s)) [
  | inl is_edit ↦ rw is_edit (argument-IsTrimmed (text "edit") s e is_edit)
  | inr no_edit ↦ rw no_edit (argument-IsTrimmed (text "update") s e (or-right _ _ no_edit h))
]

dispatch-IsSound : (s : Bytes) → IsCut s → IsSound (dispatch s)
unfolding dispatch text
dispatch-IsSound s (inl h) = subst (λ (x : Bytes). IsSound (dispatch x)) (sym h) tt
dispatch-IsSound s (inr e) =
    if-IsSound (is_empty s) _ _ (λ _. tt)
      (if-IsSound (bytes_eq s (text "exit")) _ _ (λ _. tt)
        (if-IsSound (bytes_eq s (text "clear")) _ _ (λ _. tt)
          (if-IsSound (bytes_eq s (text "help")) _ _ (λ _. tt)
            (if-IsSound (is_or_starts (text "list") (text "list ") s) _ _ (λ _. tt)
              (if-IsSound (starts_with (text "get ") s) _ _
                (λ h. get_arguments-IsSound _ (argument-IsTrimmed (text "get") s e h))
                (if-IsSound (starts_with (text "delete ") s) _ _
                  (argument-IsTrimmed (text "delete") s e)
                  (if-IsSound (bytes_eq s (text "add")) _ _ (λ _. tt)
                    (if-IsSound (starts_with (text "otp ") s) _ _
                      (argument-IsTrimmed (text "otp") s e)
                      (if-IsSound (is_or_starts (text "generate") (text "generate ") s) _ _
                        (λ _. tt)
                        (if-IsSound (starts_with (text "edit ") s || starts_with (text "update ") s)
                          _ _ (edit-IsSound s e)
                          (if-IsSound (bytes_eq s (text "rekey")) _ _ (λ _. tt)
                            (if-IsSound (is_or_starts (text "audit") (text "audit ") s) _ _
                              (λ _. tt) tt))))))))))))

-- Whatever is typed, the service that a command works on is not empty and neither begins nor ends with a
-- space.
pub read_command-IsNamed : (input : Bytes) → IsNamed (service_of (read_command input))
unfolding read_command
read_command-IsNamed input =
    dispatch-IsSound (trim_back (trim_front input)) (trim_back-IsCut (trim_front input))
