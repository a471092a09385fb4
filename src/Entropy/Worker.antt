-- ===== src/Entropy/Worker.antt =====
-- src/entropy_worker_main.cpp. zxcvbn and `std::pow` are parameters. `read_all` and `write_all` are those of
-- src/ipc.cpp again.
pub mod Laws
use duckpass.Entropy.{EntropyScore, double_less}
use duckpass.Ipc.Packet.{Transfer, Incoming, read_all, write_all}
use duckpass.Prelude.{
  ℕ, ◌+◌, ◌*◌, ◌^◌, ◌==◌, Bool, true, false, ◌||◌, List, [], ◌∷◌, ◌++◌, Option, none, some, Bytes,
  ltb, if◌then◌else◌,
}
use duckpass.Prelude.Result.{Result, ok, err}
use duckpass.Text.CString.{c_str}
use duckpass.Vault.Wire.{write_uint32, write_uint64, read_uint32}

pub record WorkerSystem : Type 0 where
  -- what `ZxcvbnInit` answers
  pub dictionary : Bool
  -- `ZxcvbnMatch`, on a string that ends at its first NUL, and `std::pow(2.0, entropy) / 10000.0`
  pub match_password : Bytes → ℕ
  pub crack_time : ℕ → ℕ
  -- the calls of `write` on the standard output
  pub output_calls : List Transfer

-- The constants as they are stored: 10.0 is 1.25 times 2 ^ 3, and so on.
abbrev pub ten : ℕ
ten = 1026 * 2 ^ 52 + 2 ^ 50

abbrev pub twenty : ℕ
twenty = 1027 * 2 ^ 52 + 2 ^ 50

abbrev pub twenty_seven : ℕ
twenty_seven = 1027 * 2 ^ 52 + 11 * 2 ^ 48

abbrev pub thirty_three : ℕ
thirty_three = 1028 * 2 ^ 52 + 2 ^ 47

unfoldable pub score_of : ℕ → ℕ
score_of entropy =
    if double_less entropy ten
    then 0
    else if double_less entropy twenty
    then 1
    else if double_less entropy twenty_seven
    then 2
    else if double_less entropy thirty_three
    then 3
    else 4

-- Steps 5 and 6.
unfoldable pub estimate : WorkerSystem → Bytes → EntropyScore
estimate sys pwd =
    let entropy = sys.match_password (c_str pwd) in
    record {
      score = score_of entropy;
      entropy_bits = entropy;
      crack_time_seconds = sys.crack_time entropy;
      is_weak = ltb (score_of entropy) 3;
    }

-- Step 7: 21 bytes. The two loops are those of `write_uint64`.
unfoldable pub wire_buf : EntropyScore → Bytes
wire_buf s =
    write_uint64 (write_uint64 (write_uint32 [] s.score) s.entropy_bits) s.crack_time_seconds
    ++ (if s.is_weak then 1 else 0) ∷ []

abbrev pub max_len : ℕ
max_len = 4096

-- Step 8; the exit code with what went to the standard output.
unfoldable pub respond : WorkerSystem → Bytes → ℕ × Bytes
respond sys pwd =
    let (sent, written) = write_all sys.output_calls (wire_buf (estimate sys pwd)) in
    (if written then 0 else 5, sent)

-- Step 4.
unfoldable pub with_password : WorkerSystem → Option (Bytes × Incoming) → ℕ × Bytes
with_password sys none = (4, [])
with_password sys (some (pwd, rest)) = respond sys pwd

-- Step 3, from the bytes of the length on; they are a number of this machine, which is little-endian.
unfoldable pub check_len : WorkerSystem → Result (ℕ × Bytes) → Incoming → ℕ × Bytes
check_len sys (err e) rest = (3, [])
check_len sys (ok (len, none_left)) rest =
    if len == 0 || ltb max_len len then (3, []) else with_password sys (read_all len rest)

unfoldable pub with_len : WorkerSystem → Option (Bytes × Incoming) → ℕ × Bytes
with_len sys none = (3, [])
with_len sys (some (raw_len, rest)) = check_len sys (read_uint32 raw_len) rest

-- `main`, on what the standard input delivers.
unfoldable pub worker_main : WorkerSystem → Incoming → ℕ × Bytes
worker_main sys input = if sys.dictionary then with_len sys (read_all 4 input) else (2, [])
