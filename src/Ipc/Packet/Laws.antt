-- ===== src/Ipc/Packet/Laws.antt =====
-- A packet is received as it was sent, in however many pieces it travels.
use duckpass.Ipc.Packet.{
  Transfer, Incoming, read_all, serialize_packet, max_payload, head_or_zero, read_packet,
}
use duckpass.Ipc.Packet.Transfers.{Moves, read_all_exact, read_all-Delivers}
use duckpass.Ipc.Wire.RoundTrip.{ntohl_bytes-htonl_bytes}
use duckpass.Ipc.Wire.{htonl_bytes, ntohl_bytes}
use duckpass.Prelude.Options.{bind-eq-some}
use duckpass.Prelude.{
  ℕ, ◌+◌, ◌*◌, ◌/◌, ◌%◌, ◌^◌, ◌≤◌, List, [], ◌∷◌, ◌++◌, ◌≡◌, refl, sym, ap, subst, ◌∙◌, none, some,
  Bytes, length, ltb, le→ltb, if◌then◌else◌, append_assoc, append-nil, arith, Bool-cases, inl, inr,
  All, IsByte,
}

head_of : (b : Bytes) → length b ≡ 1 → b ≡ head_or_zero b ∷ []
head_of [] h = absurd (omega arith)
head_of (x ∷ []) h = refl
head_of (x ∷ y ∷ b) h = absurd (omega arith)

-- A packet whose payload is not above the limit is received as it was sent, and what follows it on the
-- stream is left, in however many pieces and after however many interruptions it arrives.
pub read_packet-serialize_packet :
    (opcode : ℕ) (payload rest : Bytes) (calls : List Transfer)
    → length payload ≤ max_payload
    → All Moves calls
    → (later : List Transfer) × (read_packet
          (record { stream = serialize_packet opcode payload ++ rest; calls = calls })
        ≡ some (opcode, payload, record { stream = rest; calls = later }))
      × All Moves later
unfolding read_packet serialize_packet htonl_bytes
read_packet-serialize_packet opcode payload rest calls small p =
    let len = htonl_bytes (length payload % 2 ^ 32) in
    let whole : (len ++ opcode ∷ payload) ++ rest ≡ len ++ (opcode ∷ []) ++ (payload ++ rest) =
      append_assoc len (opcode ∷ payload) rest in
    let (calls₁, e₁, p₁) = read_all_exact calls len ((opcode ∷ []) ++ (payload ++ rest)) p in
    let (calls₂, e₂, p₂) = read_all_exact calls₁ (opcode ∷ []) (payload ++ rest) p₁ in
    let (calls₃, e₃, p₃) = read_all_exact calls₂ payload rest p₂ in
    let size : ntohl_bytes len ≡ length payload =
      ap ntohl_bytes (sym (append-nil len))
      ∙ (ntohl_bytes-htonl_bytes (length payload % 2 ^ 32) [] (omega arith) ∙ omega arith) in
    (calls₃, rw (whole, e₁, size, le→ltb _ _ small, e₂, e₃) refl, p₃)

htonl_bytes-ntohl_bytes :
    (b : Bytes) → length b ≡ 4 → All IsByte b → htonl_bytes (ntohl_bytes b) ≡ b
unfolding htonl_bytes ntohl_bytes
htonl_bytes-ntohl_bytes (x ∷ y ∷ z ∷ w ∷ []) h (hx, (hy, (hz, (hw, _)))) =
    let ex : (x * 2 ^ 24 + y * 2 ^ 16 + z * 2 ^ 8 + w) / 2 ^ 24 % 256 ≡ x = omega arith in
    let ey : (x * 2 ^ 24 + y * 2 ^ 16 + z * 2 ^ 8 + w) / 2 ^ 16 % 256 ≡ y = omega arith in
    let ez : (x * 2 ^ 24 + y * 2 ^ 16 + z * 2 ^ 8 + w) / 2 ^ 8 % 256 ≡ z = omega arith in
    let ew : (x * 2 ^ 24 + y * 2 ^ 16 + z * 2 ^ 8 + w) % 256 ≡ w = omega arith in
    rw (ex, ey, ez, ew) refl
htonl_bytes-ntohl_bytes [] h p = absurd (omega arith)
htonl_bytes-ntohl_bytes (x ∷ []) h p = absurd (omega arith)
htonl_bytes-ntohl_bytes (x ∷ y ∷ []) h p = absurd (omega arith)
htonl_bytes-ntohl_bytes (x ∷ y ∷ z ∷ []) h p = absurd (omega arith)
htonl_bytes-ntohl_bytes (x ∷ y ∷ z ∷ w ∷ v ∷ b) h p = absurd (omega arith)

All-first : (xs ys : Bytes) → All IsByte (xs ++ ys) → All IsByte xs
All-first [] ys p = tt
All-first (x ∷ xs) ys p = (p.0, All-first xs ys p.1)

-- The length that was read is that of the payload, and within the limit.
checked_length :
    (n : ℕ) (i : Incoming) (r : Bytes × Incoming)
    → (if ltb max_payload n then none else read_all 1 i) ≡ some r
    → (n ≤ max_payload) × (read_all 1 i ≡ some r)
checked_length n i r h = elim (Bool-cases (ltb max_payload n)) [
  | inl large ↦ cc (rw large at h)
  | inr small ↦ (ground arith, rw small at h)
]

same_packet : (p q : ℕ × Bytes × Incoming) → some p ≡ some q → p ≡ q
same_packet p q h = cc

-- A packet that is received is one that stood at the front of the stream, its payload is not above the
-- limit, and what is left of the stream is what followed it.
pub read_packet_sound :
    (i i' : Incoming) (opcode : ℕ) (payload : Bytes)
    → All IsByte i.stream
    → read_packet i ≡ some (opcode, payload, i')
    → (i.stream ≡ serialize_packet opcode payload ++ i'.stream) × (length payload ≤ max_payload)
unfolding read_packet serialize_packet
read_packet_sound i i' opcode payload bytes h =
    let ((raw_len, i₁), e₁, h₁) = bind-eq-some (read_all 4 i) _ h in
    let ((op, i₂), c₂, h₂) =
      bind-eq-some (if ltb max_payload (ntohl_bytes raw_len) then none else read_all 1 i₁) _ h₁ in
    let (small, e₂) = checked_length (ntohl_bytes raw_len) i₁ (op, i₂) c₂ in
    let ((body, i₃), e₃, h₃) = bind-eq-some (read_all (ntohl_bytes raw_len) i₂) _ h₂ in
    let (s₁, n₁) = read_all-Delivers 4 i i₁ raw_len e₁ in
    let (s₂, n₂) = read_all-Delivers 1 i₁ i₂ op e₂ in
    let (s₃, n₃) = read_all-Delivers (ntohl_bytes raw_len) i₂ i₃ body e₃ in
    let same = same_packet (head_or_zero op, body, i₃) (opcode, payload, i') h₃ in
    let same_op = ap (λ (p : ℕ × Bytes × Incoming). p.0) same in
    let same_body = ap (λ (p : ℕ × Bytes × Incoming). p.1) same in
    let same_i = ap (λ (p : ℕ × Bytes × Incoming). p.2) same in
    let raw : htonl_bytes (ntohl_bytes raw_len) ≡ raw_len =
      htonl_bytes-ntohl_bytes raw_len n₁
        (All-first raw_len i₁.stream (subst (All IsByte) (sym s₁) bytes)) in
    let size : length payload ≡ ntohl_bytes raw_len =
      ap (λ (b : Bytes). length b) (sym same_body) ∙ n₃ in
    let wrapped : length payload % 2 ^ 32 ≡ ntohl_bytes raw_len = omega arith in
    let front : raw_len ≡ htonl_bytes (length payload % 2 ^ 32) =
      sym raw ∙ ap htonl_bytes (sym wrapped) in
    let one : op ≡ opcode ∷ [] = head_of op n₂ ∙ ap (λ (o : ℕ). o ∷ []) same_op in
    let tail : i₁.stream ≡ opcode ∷ (payload ++ i'.stream) =
      sym s₂ ∙ (rw (one) (ap (◌∷◌ opcode) (sym s₃ ∙ (rw (same_body, same_i) refl)))) in
    (
      sym s₁
          ∙ (rw (front) (ap (◌++◌ (htonl_bytes (length payload % 2 ^ 32))) tail)
              ∙ sym (
                  append_assoc (htonl_bytes (length payload % 2 ^ 32)) (opcode ∷ payload)
                    i'.stream)),
      omega arith,
    )
