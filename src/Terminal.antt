-- ===== src/Terminal.antt =====
-- `read_line_interactive` and `read_password` of src/terminal_utils.cpp, on the bytes that the terminal gives.
-- A `SecureString` is the list of its characters.
pub mod Laws
pub mod Clean
pub mod Completion
use duckpass.Prelude.{
  ℕ, zero, suc, ◌-◌, ◌==◌, Bool, true, false, not, ◌&&◌, ◌||◌, List, [], ◌∷◌, ◌++◌, Option, none,
  some, Bytes, text, break_at, bytes_eq, length, take, keep, is_empty, ltb, leb, if◌then◌else◌,
}
use duckpass.Secure.Buffer.{drop_last}

-- The line so far, and what was written to the terminal.
pub record Editor : Type 0 where
  pub buffer : Bytes
  pub output : Bytes

-- What the line is read with.
pub record Completer : Type 0 where
  pub prompt : Bytes
  pub commands : List Bytes
  pub services : List Bytes

abbrev pub is_enter : ℕ → Bool
is_enter c = c == 13 || c == 10

abbrev pub is_backspace : ℕ → Bool
is_backspace c = c == 127 || c == 8

-- `std::iscntrl` in the C locale.
abbrev pub iscntrl : ℕ → Bool
iscntrl c = ltb c 32 || c == 127

abbrev pub is_space : ℕ → Bool
is_space c = c == 32

abbrev pub no_space : ℕ → Bool
no_space c = not (c == 32)

-- What is completed: the part of the line that stays, and the prefix of the word.
pub record Context : Type 0 where
  pub base_input : Bytes
  pub prefix : Bytes
  pub candidates : List Bytes

-- `cmd == "get" || cmd == "delete"`
unfoldable pub completes_services : Bytes → Bool
unfolding text bytes_eq
completes_services cmd = bytes_eq cmd (text "get") || bytes_eq cmd (text "delete")

-- The argument starts at the first character after the spaces.
unfoldable pub argument_context : List Bytes → Bytes → Bytes → Context
argument_context services buffer argument =
    if is_empty argument
    then record { base_input = buffer; prefix = []; candidates = services }
    else record {
      base_input = take (length buffer - length argument) buffer;
      prefix = argument;
      candidates = services;
    }

unfoldable pub context_of : Completer → Bytes → Option Context
unfolding break_at
context_of completer buffer =
    let (cmd, rest) = break_at is_space buffer in
    if is_empty rest
    then some (record { base_input = []; prefix = buffer; candidates = completer.commands })
    else if completes_services cmd
    then some (argument_context completer.services buffer (break_at no_space rest).1)
    else none

unfoldable pub has_prefix : Bytes → Bytes → Bool
unfolding bytes_eq
has_prefix prefix s = leb (length prefix) (length s) && bytes_eq (take (length prefix) s) prefix

unfoldable pub matches_of : Option Context → List Bytes
unfolding keep
matches_of none = []
matches_of (some context) = keep (has_prefix context.prefix) context.candidates

abbrev pub base_of : Option Context → Bytes
base_of none = []
base_of (some context) = context.base_input

-- The loop that shows the matches.
unfoldable pub show_matches : List Bytes → Bytes
unfolding text
show_matches [] = []
show_matches (m ∷ matches) = m ++ (text "  " ++ show_matches matches)

-- `Render completion results`
unfoldable pub render : Completer → Bytes → List Bytes → Editor → Editor
unfolding text
render completer base [] e = e
render completer base (m ∷ []) e = record {
  buffer = base ++ m;
  output = e.output ++ (13 ∷ 27 ∷ text "[K" ++ (completer.prompt ++ (base ++ m)));
}
render completer base (m ∷ n ∷ matches) e = record {
  buffer = e.buffer;
  output =
      e.output
      ++ (13 ∷ 10 ∷ show_matches (m ∷ n ∷ matches) ++ (13 ∷ 10 ∷ completer.prompt ++ e.buffer));
}

unfoldable pub tab : Completer → Editor → Editor
tab completer e =
    let context = context_of completer e.buffer in
    render completer (base_of context) (matches_of context) e

unfoldable pub backspace : Editor → Editor
unfolding drop_last
backspace e =
    if is_empty e.buffer
    then e
    else record { buffer = drop_last e.buffer; output = e.output ++ 8 ∷ 32 ∷ 8 ∷ [] }

abbrev pub type_char : ℕ → Editor → Editor
type_char c e = record { buffer = e.buffer ++ c ∷ []; output = e.output ++ c ∷ [] }

-- A key that neither ends the line nor starts an escape sequence.
unfoldable pub press : Completer → ℕ → Editor → Editor
press completer c e =
    if c == 9
    then tab completer e
    else if is_backspace c
    then backspace e
    else if iscntrl c
    then e
    else type_char c e

abbrev pub enter : Editor → Editor
enter e = record { buffer = e.buffer; output = e.output ++ 13 ∷ 10 ∷ [] }

-- The input loop, to the end of the input. An escape character takes the two that follow it away.
unfoldable pub input_loop : Completer → Bytes → Editor → Editor
input_loop completer [] e = e
input_loop completer (c ∷ []) e = elim (is_enter c) [
  | true ↦ enter e
  | false ↦ elim (c == 27) [ true ↦ e | false ↦ press completer c e ]
]
input_loop completer (c ∷ a ∷ []) e = elim (is_enter c) [
  | true ↦ enter e
  | false ↦ elim (c == 27) [
    | true ↦ e
    | false ↦ input_loop completer (a ∷ []) (press completer c e)
  ]
]
input_loop completer (c ∷ a ∷ b ∷ input) e = elim (is_enter c) [
  | true ↦ enter e
  | false ↦ elim (c == 27) [
    | true ↦ input_loop completer input e
    | false ↦ input_loop completer (a ∷ b ∷ input) (press completer c e)
  ]
]

-- Without a terminal, the bytes up to the first line end.
unfoldable pub plain_line : Bytes → Bytes → Bytes
plain_line buffer [] = buffer
plain_line buffer (c ∷ input) =
    let more = plain_line (buffer ++ c ∷ []) input in if is_enter c then buffer else more

unfoldable pub read_line_interactive : Bool → Completer → Bytes → Editor
read_line_interactive is_terminal completer input =
    if is_terminal
    then input_loop completer input (record { buffer = []; output = completer.prompt })
    else record { buffer = plain_line [] input; output = [] }

-- The loop of `read_password` on a terminal.
unfoldable pub password_loop : Bytes → Bytes → Bytes
unfolding drop_last
password_loop password [] = password
password_loop password (c ∷ input) =
    let erased = password_loop (drop_last password) input in
    let typed = password_loop (password ++ c ∷ []) input in
    if is_enter c then password else if is_backspace c then erased else typed

unfoldable pub read_password : Bool → Bytes → Bytes
read_password is_terminal input =
    if is_terminal then password_loop [] input else plain_line [] input
