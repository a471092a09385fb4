-- ===== src/Ipc/Packet.antt =====
-- src/ipc.cpp: sending and receiving packets. A packet is a big-endian length, an opcode and the payload.
pub mod Transfers
pub mod Laws
use duckpass.Ipc.Wire.{htonl_bytes, ntohl_bytes}
use duckpass.Prelude.Options.{◌>>=◌}
use duckpass.Prelude.{
  ℕ, zero, suc, ◌+◌, ◌-◌, ◌*◌, ◌%◌, ◌^◌, ◌==◌, Bool, true, false, List, [], ◌∷◌, ◌++◌, Option, none,
  some, Bytes, length, take, drop, min, ltb, if◌then◌else◌,
}

-- An answer of `read` or `write` that is not all that was asked for. After the listed answers a call moves
-- all that is asked for; reading stops where the peer's bytes do.
pub data Transfer : Type 0 where
  -- at most so many bytes; for `read`, 0 is the end of the stream
  moved : ℕ → Transfer
  -- -1 with EINTR
  interrupted : Transfer
  -- -1 with another `errno`, a timeout included
  failed : Transfer

-- What is sent before the function returns, and what it returns.
unfoldable pub write_all : List Transfer → Bytes → Bytes × Bool
write_all [] buffer = (buffer, true)
write_all (interrupted ∷ calls) [] = ([], true)
write_all (interrupted ∷ calls) (b ∷ buffer) = write_all calls (b ∷ buffer)
write_all (failed ∷ calls) [] = ([], true)
write_all (failed ∷ calls) (b ∷ buffer) = ([], false)
write_all (moved n ∷ calls) buffer =
    let rest = write_all calls (drop n buffer) in (take n buffer ++ rest.0, rest.1)

-- The bytes that the peer has sent and the descriptor has not delivered, and the coming answers.
pub record Incoming : Type 0 where
  pub stream : Bytes
  pub calls : List Transfer

-- `got` is the filled part of the buffer, and `length` what is still missing.
unfoldable pub read_loop : List Transfer → ℕ → Bytes → Bytes → Option (Bytes × Incoming)
read_loop [] missing stream got =
    if ltb (length stream) missing
    then none
    else some (got ++ take missing stream, record { stream = drop missing stream; calls = [] })
read_loop (call ∷ calls) zero stream got =
    some (got, record { stream = stream; calls = call ∷ calls })
read_loop (interrupted ∷ calls) (suc missing) stream got = read_loop calls (suc missing) stream got
read_loop (failed ∷ calls) (suc missing) stream got = none
read_loop (moved n ∷ calls) (suc missing) stream got =
    let chunk = take (min n (suc missing)) stream in
    let rest =
      read_loop calls (suc missing - length chunk) (drop (length chunk) stream) (got ++ chunk) in
    if length chunk == 0 then none else rest

unfoldable pub read_all : ℕ → Incoming → Option (Bytes × Incoming)
read_all count i = read_loop i.calls count i.stream []

unfoldable pub serialize_packet : ℕ → Bytes → Bytes
serialize_packet opcode payload = htonl_bytes (length payload % 2 ^ 32) ++ opcode ∷ payload

abbrev pub max_payload : ℕ
max_payload = 2 * 1024 * 1024

abbrev head_or_zero : Bytes → ℕ
head_or_zero [] = 0
head_or_zero (b ∷ bytes) = b

-- The opcode and the payload, or `none` for `false`. A read of no bytes is not done.
unfoldable pub read_packet : Incoming → Option (ℕ × Bytes × Incoming)
read_packet i = do
  (raw_len, i₁) ← read_all 4 i
  let payload_len : ℕ = ntohl_bytes raw_len
  (opcode, i₂) ← (if ltb max_payload payload_len then none else read_all 1 i₁)
  (payload, i₃) ← read_all payload_len i₂
  some (head_or_zero opcode, payload, i₃)

-- Sent bytes, and the answer.
unfoldable pub write_packet : List Transfer → ℕ → Bytes → Bytes × Bool
write_packet calls opcode payload = write_all calls (serialize_packet opcode payload)
