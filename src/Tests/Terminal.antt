-- ===== src/Tests/Terminal.antt =====
-- src/terminal_utils.cpp at concrete inputs.
use duckpass.Prelude.{◌≡◌, [], ◌∷◌, ◌++◌, text, arith}
use duckpass.Terminal.Completion.{At, NoSpace, tab-completes}
use duckpass.Terminal.{Completer, Editor, tab}

-- `get` and `list`; one service `ab`.
abbrev words : Completer
words = record {
  prompt = 62 ∷ [];
  commands = (103 ∷ 101 ∷ 116 ∷ []) ∷ (108 ∷ 105 ∷ 115 ∷ 116 ∷ []) ∷ [];
  services = (97 ∷ 98 ∷ []) ∷ [];
}

abbrev half_typed : Editor
half_typed = record { buffer = 103 ∷ 101 ∷ 116 ∷ 32 ∷ 97 ∷ []; output = [] }

-- `get` and a space, and the first letter of the one service.
tab-completes_example : (tab words half_typed).buffer ≡ half_typed.buffer ++ 98 ∷ []
unfolding text
tab-completes_example =
    tab-completes words half_typed (103 ∷ 101 ∷ 116 ∷ 32 ∷ []) (97 ∷ []) (98 ∷ []) [] []
      (At.after_get 0 (97 ∷ []) other) tt tt
  where
    other : NoSpace 97
    other h = absurd (omega arith)
