-- ===== src/Tests/Ipc.antt =====
-- src/ipc.cpp at concrete inputs.
use duckpass.Ipc.Packet.Laws.{read_packet-serialize_packet, read_packet_sound}
use duckpass.Ipc.Packet.Transfers.{Moves}
use duckpass.Ipc.Packet.{
  Transfer, moved, interrupted, read_packet, read_all, read_loop, serialize_packet,
}
use duckpass.Ipc.Wire.{ntohl_bytes}
use duckpass.Prelude.{◌≤◌, ◌≡◌, refl, List, [], ◌∷◌, ◌++◌, some, Bytes, length, All, IsByte, arith}
use duckpass.Ipc.Packet.{max_payload}

abbrev hi : Bytes
hi = 104 ∷ 105 ∷ []

abbrev some_calls : List Transfer
some_calls = moved 3 ∷ interrupted ∷ moved 2 ∷ []

some_calls-Moves : All Moves some_calls
some_calls-Moves = (omega arith, (tt, (omega arith, tt)))

read_packet-serialize_packet_example :
    (later : List Transfer) × (read_packet
        (record { stream = serialize_packet 5 hi ++ 9 ∷ []; calls = some_calls })
      ≡ some (5, hi, record { stream = 9 ∷ []; calls = later }))
    × All Moves later
read_packet-serialize_packet_example =
    read_packet-serialize_packet 5 hi (9 ∷ []) some_calls (omega arith) some_calls-Moves

abbrev wire : Bytes
wire = 0 ∷ 0 ∷ 0 ∷ 2 ∷ 5 ∷ 104 ∷ 105 ∷ 9 ∷ []

packet_read :
    read_packet (record { stream = wire; calls = some_calls })
    ≡ some (5, hi, record { stream = 9 ∷ []; calls = [] })
unfolding read_packet read_all read_loop ntohl_bytes
packet_read = refl

wire-IsByte : All IsByte wire
wire-IsByte = omega arith

read_packet_sound_example : (wire ≡ serialize_packet 5 hi ++ 9 ∷ []) × (length hi ≤ max_payload)
read_packet_sound_example =
    read_packet_sound (record { stream = wire; calls = some_calls })
      (record { stream = 9 ∷ []; calls = [] }) 5 hi wire-IsByte packet_read
