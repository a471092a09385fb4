-- ===== src/Shell.antt =====
-- How `run_interactive_shell` of src/shell_command.cpp reads a command from the line that was typed.
pub mod Words
pub mod Laws
pub mod Session
pub mod Password
use duckpass.Prelude.{
  ℕ, suc, ◌==◌, Bool, true, false, not, ◌&&◌, ◌||◌, List, [], ◌∷◌, Option, none, some, Bytes, text,
  bytes_eq, drop, is_empty, ltb, leb, if◌then◌else◌,
}

-- `std::isspace` in the C locale.
abbrev pub isspace : ℕ → Bool
isspace c = c == 32 || (leb 9 c && leb c 13)

-- The loop over `front` and `remove_prefix`.
unfoldable pub trim_front : Bytes → Bytes
trim_front [] = []
trim_front (c ∷ cs) = let rest = trim_front cs in if isspace c then rest else c ∷ cs

-- What the loop over `back` and `remove_suffix` leaves: a space goes if nothing stays behind it.
unfoldable pub trim_back : Bytes → Bytes
trim_back [] = []
trim_back (c ∷ cs) = let rest = trim_back cs in if is_empty rest && isspace c then [] else c ∷ rest

-- `std::string_view::starts_with`
unfoldable pub starts_with : Bytes → Bytes → Bool
starts_with [] s = true
starts_with (p ∷ ps) [] = false
starts_with (p ∷ ps) (c ∷ cs) = p == c && starts_with ps cs

-- `find(word) != npos`
unfoldable pub contains : Bytes → Bytes → Bool
contains word [] = is_empty word
contains word (c ∷ cs) = starts_with word (c ∷ cs) || contains word cs

-- What a line asks for, with the arguments that its branch cuts out of the line.
pub data Command : Type 0 where
  blank : Command
  exit : Command
  clear : Command
  help : Command
  list : (query : Bytes) → Command
  get : (show : Bool) → (service : Bytes) → Command
  delete : (service : Bytes) → Command
  add : Command
  otp : (service : Bytes) → Command
  generate : (length : Option Bytes) → Command
  edit : (service : Bytes) → Command
  rekey : Command
  audit : (check_online : Bool) → Command
  unknown : (input : Bytes) → Command

-- `input_view.substr(n)` without the spaces at its front.
abbrev pub argument : ℕ → Bytes → Bytes
argument n input = trim_front (drop n input)

-- The arguments of `get`, which may start with `--show`.
unfoldable pub get_arguments : Bytes → Command
unfolding text
get_arguments args =
    if starts_with (text "--show ") args then get true (argument 7 args) else get false args

unfoldable pub list_query : Bytes → Bytes
unfolding text
list_query input = if starts_with (text "list ") input then argument 5 input else []

-- None is the default length.
unfoldable pub generate_length : Bytes → Option Bytes
unfolding text
generate_length input =
    if starts_with (text "generate ") input then some (argument 9 input) else none

unfoldable pub edit_prefix : Bytes → ℕ
unfolding text
edit_prefix input = if starts_with (text "edit ") input then 5 else 7

abbrev pub is_or_starts : Bytes → Bytes → Bytes → Bool
is_or_starts word prefix input = bytes_eq input word || starts_with prefix input

-- The chain of tests on the trimmed line.
unfoldable pub dispatch : Bytes → Command
unfolding text
dispatch input =
    if is_empty input
    then blank
    else if bytes_eq input (text "exit")
    then exit
    else if bytes_eq input (text "clear")
    then clear
    else if bytes_eq input (text "help")
    then help
    else if is_or_starts (text "list") (text "list ") input
    then list (list_query input)
    else if starts_with (text "get ") input
    then get_arguments (argument 4 input)
    else if starts_with (text "delete ") input
    then delete (argument 7 input)
    else if bytes_eq input (text "add")
    then add
    else if starts_with (text "otp ") input
    then otp (argument 4 input)
    else if is_or_starts (text "generate") (text "generate ") input
    then generate (generate_length input)
    else if starts_with (text "edit ") input || starts_with (text "update ") input
    then edit (argument (edit_prefix input) input)
    else if bytes_eq input (text "rekey")
    then rekey
    else if is_or_starts (text "audit") (text "audit ") input
    then audit (contains (text "--online") input)
    else unknown input

unfoldable pub read_command : Bytes → Command
read_command input = dispatch (trim_back (trim_front input))
