-- ===== src/Ipc/Wire.antt =====
-- src/ipc.cpp: the big-endian strings of a payload. src/agent_server.cpp has the same functions under the
-- names `append_str`, `append_sec_str`, `extract_str` and `extract_sec_str`.
pub mod RoundTrip
use duckpass.Prelude.{
  ℕ, ◌+◌, ◌-◌, ◌*◌, ◌/◌, ◌%◌, ◌^◌, Bool, true, false, List, [], ◌∷◌, ◌++◌, Bytes, length, take,
  drop, ltb, if◌then◌else◌,
}

-- The four bytes of `htonl`.
unfoldable pub htonl_bytes : ℕ → Bytes
htonl_bytes n = n / 2 ^ 24 % 256 ∷ n / 2 ^ 16 % 256 ∷ n / 2 ^ 8 % 256 ∷ n % 256 ∷ []

-- `ntohl` of the first four bytes. The callers have checked that they are there.
unfoldable pub ntohl_bytes : Bytes → ℕ
ntohl_bytes (a ∷ b ∷ c ∷ d ∷ rest) = a * 2 ^ 24 + b * 2 ^ 16 + c * 2 ^ 8 + d
ntohl_bytes _ = 0

unfoldable pub append_string : Bytes → Bytes → Bytes
append_string buf str = (buf ++ htonl_bytes (length str % 2 ^ 32)) ++ str

-- What `extract_string` returns, with its two reference arguments after the call.
pub record Extracted : Type 0 where
  pub found : Bool
  pub offset : ℕ
  pub out_str : Bytes

unfoldable pub extract_string : Bytes → ℕ → Bytes → Extracted
extract_string buf offset out_str =
    let len = ntohl_bytes (drop offset buf) in
    if ltb (length buf) (offset + 4)
    then record { found = false; offset = offset; out_str = out_str }
    else if ltb (length buf - (offset + 4)) len
    then record { found = false; offset = offset + 4; out_str = out_str }
    else record {
      found = true;
      offset = offset + 4 + len;
      out_str = take len (drop (offset + 4) buf);
    }
