-- ===== src/Vault/Serial/RoundTrip.antt =====
-- `deserialize` gives back what `serialize` wrote.
use duckpass.Prelude.{
  ℕ, ◌%◌, ◌^◌, ◌≤◌, ◌<◌, true, false, [], ◌∷◌, ◌++◌, ◌≡◌, refl, sym, ap, ◌∙◌, ◌≢◌, Bytes, bytes_eq,
  bytes_eq_comm, length, length-append, leb, le→leb, append_assoc, append-nil, arith, All,
}
use duckpass.Prelude.Result.{ok, ◌>>=◌}
use duckpass.Vault.Entries.{VaultEntry, Vault, add_entry, place, stamp, Absent, IsDistinct}
use duckpass.Vault.Serial.{
  write_entry, write_entries, serialize, read_last_updated, read_totp_secret, read_entry,
  read_entries, deserialize,
}
use duckpass.Vault.Wire.RoundTrip.{
  write_uint64-buffer, write_string-buffer, read_uint32-write_uint32, read_uint64-write_uint64,
  read_string-write_string,
}
use duckpass.Vault.Wire.{write_uint32, write_uint64, write_string, read_uint32}

-- The strings have 32-bit lengths and the time is a 64-bit number other than 0.
pub record Fits (e : VaultEntry) : Type 0 where
  pub service_fits : length e.service < 2 ^ 32
  pub username_fits : length e.username < 2 ^ 32
  pub password_fits : length e.password < 2 ^ 32
  pub totp_secret_fits : length e.totp_secret < 2 ^ 32
  pub time_fits : e.last_updated < 2 ^ 64
  pub time_set : e.last_updated ≢ 0

-- What one entry adds to the buffer.
pub entry_bytes : VaultEntry → Bytes
entry_bytes e =
    write_string [] e.service
    ++ (write_string [] e.username
        ++ (write_string [] e.password
            ++ (write_uint64 [] e.last_updated ++ write_string [] e.totp_secret)))

write_entry-buffer :
    (buffer : Bytes) (e : VaultEntry) → write_entry buffer e ≡ buffer ++ entry_bytes e
unfolding write_entry entry_bytes
write_entry-buffer buffer e =
    rw
      (
        write_string-buffer buffer e.service,
        write_string-buffer s₁ e.username,
        write_string-buffer s₂ e.password,
        write_uint64-buffer s₃ e.last_updated,
        write_string-buffer (s₃ ++ write_uint64 [] e.last_updated) e.totp_secret,
      )
      (simp append_assoc)
  where
    s₁ : Bytes
    s₁ = buffer ++ write_string [] e.service

    s₂ : Bytes
    s₂ = s₁ ++ write_string [] e.username

    s₃ : Bytes
    s₃ = s₂ ++ write_string [] e.password

write_entries-buffer :
    (buffer : Bytes) (v : Vault) → write_entries buffer v ≡ buffer ++ write_entries [] v
unfolding write_entries
write_entries-buffer buffer [] = sym (append-nil buffer)
write_entries-buffer buffer (e ∷ v) =
    write_entries-buffer (write_entry buffer e) v
    ∙ rw
        (
          write_entry-buffer buffer e,
          write_entries-buffer (write_entry [] e) v,
          write_entry-buffer [] e,
          append_assoc buffer (entry_bytes e) (write_entries [] v),
        )
        refl

length-write_uint64 : (n : ℕ) → length (write_uint64 [] n) ≡ 8
unfolding write_uint64
length-write_uint64 n = refl

length-write_string : (s : Bytes) → 4 ≤ length (write_string [] s)
unfolding write_string write_uint32
length-write_string s = omega arith

read_last_updated_lem :
    (n : ℕ) (rest : Bytes)
    → n < 2 ^ 64
    → read_last_updated (write_uint64 [] n ++ rest) ≡ ok (n, rest)
unfolding read_last_updated
read_last_updated_lem n rest h = rw enough (read_uint64-write_uint64 n rest h)
  where
    enough : leb 8 (length (write_uint64 [] n ++ rest)) ≡ true
    enough =
        le→leb _ _ (omega (arith, length-append (write_uint64 [] n) rest, length-write_uint64 n))

read_totp_secret_lem :
    (s rest : Bytes)
    → length s < 2 ^ 32
    → read_totp_secret 3 (write_string [] s ++ rest) ≡ ok (s, rest)
unfolding read_totp_secret
read_totp_secret_lem s rest h = rw enough (read_string-write_string s rest h)
  where
    enough : leb 4 (length (write_string [] s ++ rest)) ≡ true
    enough =
        le→leb _ _ (omega (arith, length-append (write_string [] s) rest, length-write_string s))

pub read_entry-entry_bytes :
    (e : VaultEntry) (rest : Bytes) → Fits e → read_entry 3 (entry_bytes e ++ rest) ≡ ok (e, rest)
unfolding read_entry entry_bytes
read_entry-entry_bytes e rest f =
    rw
      (
        append_assoc (write_string [] e.service) _ rest,
        append_assoc (write_string [] e.username) _ rest,
        append_assoc (write_string [] e.password) _ rest,
        append_assoc (write_uint64 [] e.last_updated) _ rest,
        read_string-write_string e.service _ f.service_fits,
        read_string-write_string e.username _ f.username_fits,
        read_string-write_string e.password _ f.password_fits,
        read_last_updated_lem e.last_updated _ f.time_fits,
        read_totp_secret_lem e.totp_secret rest f.totp_secret_fits,
      )
      refl

-- Reading the entries adds them to the vault one by one.
abbrev pub add_all : ℕ → Vault → Vault → Vault
add_all now [] vault = vault
add_all now (e ∷ entries) vault = add_all now entries (add_entry now e vault)

read_entries-write_entries :
    (now : ℕ) (entries vault : Vault)
    → All Fits entries
    → read_entries (length entries) now 3 (write_entries [] entries) vault
      ≡ ok (add_all now entries vault)
unfolding read_entries write_entries
read_entries-write_entries now [] vault f = refl
read_entries-write_entries now (e ∷ entries) vault f =
    rw
      (
        write_entries-buffer (write_entry [] e) entries,
        write_entry-buffer [] e,
        read_entry-entry_bytes e (write_entries [] entries) f.0,
      )
      (read_entries-write_entries now entries (add_entry now e vault) f.1)

deserialize_step :
    (now n : ℕ) (rest : Bytes)
    → deserialize now (write_uint32 [] n ++ rest) 3
      ≡ (read_uint32 (write_uint32 [] n ++ rest) >>= λ p. read_entries p.0 now 3 p.1 [])
unfolding deserialize write_uint32
deserialize_step now n rest = refl

deserialize_count :
    (now n : ℕ) (rest : Bytes)
    → n < 2 ^ 32
    → deserialize now (write_uint32 [] n ++ rest) 3 ≡ read_entries n now 3 rest []
deserialize_count now n rest h =
    rw (deserialize_step now n rest, read_uint32-write_uint32 n rest h) refl

-- Loading what was saved replays `add_entry` on the entries in their order.
pub deserialize-serialize-add_all :
    (now : ℕ) (v : Vault)
    → length v < 2 ^ 32
    → All Fits v
    → deserialize now (serialize v) 3 ≡ ok (add_all now v [])
unfolding serialize
deserialize-serialize-add_all now v h f =
    rw
      (
        fits,
        write_entries-buffer (write_uint32 [] (length v)) v,
        deserialize_count now (length v) (write_entries [] v) h,
      )
      (read_entries-write_entries now v [] f)
  where
    fits : length v % 2 ^ 32 ≡ length v
    fits = omega arith

-- An entry of a new service goes to the end.
place-Absent : (e : VaultEntry) (v : Vault) → Absent e.service v → place e v ≡ v ++ e ∷ []
unfolding place
place-Absent e [] a = refl
place-Absent e (x ∷ v) a = rw (a.0, place-Absent e v a.1) refl

Absent-append :
    (k : Bytes) (v w : Vault) (e : VaultEntry)
    → Absent k (v ++ e ∷ w)
    → bytes_eq e.service k ≡ false
Absent-append k [] w e a = a.0
Absent-append k (x ∷ v) w e a = Absent-append k v w e a.1

prefix-Absent : (v w : Vault) (e : VaultEntry) → IsDistinct (v ++ e ∷ w) → Absent e.service v
prefix-Absent [] w e d = tt
prefix-Absent (x ∷ v) w e d =
    (bytes_eq_comm _ _ ∙ Absent-append x.service v w e d.0, prefix-Absent v w e d.1)

stamp_set : (now : ℕ) (e : VaultEntry) → e.last_updated ≢ 0 → stamp now e ≡ e
unfolding stamp
stamp_set now e h = ground arith

add_all_distinct :
    (now : ℕ) (entries vault : Vault)
    → All Fits entries
    → IsDistinct (vault ++ entries)
    → add_all now entries vault ≡ vault ++ entries
unfolding add_entry
add_all_distinct now [] vault f d = sym (append-nil vault)
add_all_distinct now (e ∷ entries) vault f d =
    rw (stamp_set now e f.0.time_set, place-Absent e vault (prefix-Absent vault entries e d))
      (add_all_distinct now entries (vault ++ e ∷ []) f.1 (rw regroup d) ∙ regroup)
  where
    regroup : (vault ++ e ∷ []) ++ entries ≡ vault ++ e ∷ entries
    regroup = append_assoc vault (e ∷ []) entries

-- A vault of fewer than 2^32 entries with distinct services, whose strings are shorter than 2^32 bytes
-- and whose times are set and below 2^64, is read back from its serialized form as it was.
pub deserialize-serialize :
    (now : ℕ) (v : Vault)
    → length v < 2 ^ 32
    → All Fits v
    → IsDistinct v
    → deserialize now (serialize v) 3 ≡ ok v
deserialize-serialize now v h f d =
    deserialize-serialize-add_all now v h f ∙ ap ok (add_all_distinct now v [] f d)
