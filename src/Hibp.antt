-- ===== src/Hibp.antt =====
-- src/hibp_checker.cpp and include/duckpass/hibp_checker.h: the check of a password's SHA-1 against the
-- range service of leaked passwords. libcurl and the service behind it are a parameter.
pub mod Range
pub mod Loop
pub mod Bounds
use duckpass.Prelude.{
  break_at, ℕ, zero, suc, ◌+◌, ◌-◌, ◌*◌, ◌^◌, ◌==◌, Bool, true, false, ◌&&◌, ◌||◌, List, [], ◌∷◌,
  ◌++◌, Option, none, some, Bytes, text, length, take, drop, is_empty, bytes_eq, ltb, leb,
  if◌then◌else◌,
}
use duckpass.Text.CString.{c_str}
use duckpass.Text.Decimal.{to_string}

-- A `long` that digits are summed up in. There is none after an overflow, whose result the language leaves
-- undefined.
abbrev pub Count : Type 0
Count = Option ℕ

pub record HibpResult : Type 0 where
  pub is_pwned : Bool
  pub breach_count : Count
  pub error_message : Bytes

-- What one `curl_easy_perform` gives: an error with its text, or a response with its code and the bytes
-- that `write_callback` has appended to the buffer.
pub data HttpReply : Type 0 where
  failed : Bytes → HttpReply
  responded : ℕ → Bytes → HttpReply

-- The reply to each attempt at a URL; and whether `curl_easy_init` gives a handle.
pub record Network : Type 0 where
  pub initialized : Bool
  pub perform : ℕ → Bytes → HttpReply

-- What leaves the machine, and the waits between.
pub data Event : Type 0 where
  requested : Bytes → Event
  -- a wait of so many seconds
  slept : ℕ → Event

abbrev pub clean : HibpResult
clean = record { is_pwned = false; breach_count = some 0; error_message = [] }

abbrev pub with_error : Bytes → HibpResult
with_error message = record { is_pwned = false; breach_count = some 0; error_message = message }

-- `c == '\r' || c == '\n'`
abbrev pub is_line_end : ℕ → Bool
is_line_end c = c == 13 || c == 10

abbrev pub is_digit : ℕ → Bool
is_digit c = leb 48 c && leb c 57

-- `while (pos < buffer.size() && (buffer[pos] == '\r' || buffer[pos] == '\n')) pos++;`
unfoldable pub skip_line_ends : Bytes → Bytes
skip_line_ends [] = []
skip_line_ends (c ∷ cs) = let more = skip_line_ends cs in if is_line_end c then more else c ∷ cs

-- The loop over the characters of the count.
unfoldable pub parse_count : ℕ → Bytes → Count
parse_count count [] = some count
parse_count count (c ∷ cs) =
    let grown = count * 10 + (c - 48) in
    let digit = parse_count grown cs in
    let other = parse_count count cs in
    if is_digit c
    then (if ltb grown (2 ^ 63) then digit else none)
    else (if is_line_end c then some count else other)

-- What is before the colon of a line, and the line from there on.
unfoldable pub match_line : Bytes → Bytes → Bytes → Option Count
unfolding bytes_eq parse_count
match_line suffix res_suffix [] = none
match_line suffix res_suffix (colon ∷ count_str) =
    if bytes_eq res_suffix suffix then some (parse_count 0 count_str) else none

-- A line of the response: its count, if it has a colon and the suffix before it.
unfoldable pub parse_line : Bytes → Bytes → Option Count
unfolding break_at
parse_line suffix line =
    let parts = break_at (λ c. c == b':') line in match_line suffix parts.0 parts.1

-- `break` at the first line with a count.
abbrev pub found_or : Option Count → Option HibpResult → Option HibpResult
found_or none next = next
found_or (some count) next =
    some (record { is_pwned = true; breach_count = count; error_message = [] })

-- The loop over the lines, on what is left of the buffer from `pos`; `none` means that the fuel ran out.
unfoldable pub parse_loop : ℕ → Bytes → Bytes → Option HibpResult
unfolding break_at skip_line_ends
parse_loop fuel suffix [] = some clean
parse_loop zero suffix (c ∷ cs) = none
parse_loop (suc fuel) suffix (c ∷ cs) =
    let line = break_at is_line_end (c ∷ cs) in
    let next = parse_loop fuel suffix (skip_line_ends line.1) in
    found_or (parse_line suffix line.0) next

-- A round for each byte is enough.
unfoldable pub parse_response : Bytes → Bytes → Option HibpResult
parse_response suffix response = parse_loop (length response) suffix response

abbrev pub max_retries : ℕ
max_retries = 3

abbrev pub endpoint : Bytes
unfolding text
endpoint = text "https://api.pwnedpasswords.com/range/"

-- The rest of a round, after the reply to its request; `again` is what the next rounds do.
unfoldable pub after_reply :
    Bytes → Bytes → ℕ → List Event × Option HibpResult → HttpReply → List Event × Option HibpResult
unfolding text
after_reply suffix url retry_count again (failed reason) =
    (requested (c_str url) ∷ [], some (with_error (text "CURL request failed: " ++ reason)))
after_reply suffix url retry_count again (responded response_code response) =
    if response_code == 429
    then (if ltb max_retries (retry_count + 1)
        then (
          requested (c_str url) ∷ [],
          some (with_error (text "HIBP Rate Limit Exceeded after retries.")),
        )
        else (requested (c_str url) ∷ slept (2 ^ (retry_count + 1)) ∷ again.0, again.1))
    else (if response_code == 200
        then (requested (c_str url) ∷ [], parse_response suffix response)
        else (
          requested (c_str url) ∷ [],
          some (with_error (text "API returned error code: " ++ to_string response_code)),
        ))

-- `while (retry_count <= max_retries)`. Each request is recorded, and each wait; the outcome is `none` if
-- the fuel ran out.
unfoldable pub request_loop : Network → Bytes → Bytes → ℕ → ℕ → List Event × Option HibpResult
request_loop net suffix url zero retry_count = ([], none)
request_loop net suffix url (suc fuel) retry_count =
    let again = request_loop net suffix url fuel (retry_count + 1) in
    let replied = after_reply suffix url retry_count again (net.perform retry_count (c_str url)) in
    if leb retry_count max_retries then replied else ([], some clean)

unfoldable pub check_password : Network → Bytes → List Event × Option HibpResult
check_password net sha1 =
    if ltb (length sha1) 5
    then ([], some (with_error (text "Invalid SHA-1 hash.")))
    else (if net.initialized
        then request_loop net (drop 5 sha1) (endpoint ++ take 5 sha1) 4 0
        else ([], some (with_error (text "Failed to initialize CURL."))))
