-- ===== src/Vault/Entries/Laws.antt =====
-- The entry operations as a finite map from services to entries.
use duckpass.Prelude.{
  ℕ, ◌≤◌, true, false, not, [], ◌∷◌, ◌≡◌, refl, ◌∙◌, none, some, Bytes, bytes_eq, bytes_eq_iff,
  bytes_eq→eq, length, keep, ltb, length-keep-le, if◌then◌else◌, arith, bytes_eq_comm, subst,
  Bool-cases, inl, inr, ltb→lt, is_some, ap, Option-cases,
}
use duckpass.Vault.Entries.{
  VaultEntry, Vault, place, stamp, add_entry, without, remove_entry, get_entry, Absent, IsDistinct,
}

pub get_entry-place :
    (k : Bytes) (entry : VaultEntry) (v : Vault)
    → get_entry k (place entry v) ≡ (if bytes_eq entry.service k then some entry else get_entry k v)
unfolding get_entry place
get_entry-place k entry [] = refl
get_entry-place k entry (e ∷ v) = ground (
  arith,
  bytes_eq_iff e.service entry.service,
  bytes_eq_iff e.service k,
  bytes_eq_iff entry.service k,
  get_entry-place k entry v,
)

-- Adding an entry sets what is looked up under its service, and nothing else.
pub get_entry-add_entry :
    (now : ℕ) (k : Bytes) (entry : VaultEntry) (v : Vault)
    → get_entry k (add_entry now entry v)
      ≡ (if bytes_eq entry.service k then some (stamp now entry) else get_entry k v)
unfolding add_entry stamp
get_entry-add_entry now k entry v = ground (arith, get_entry-place k (stamp now entry) v)

pub get_entry-without :
    (k service : Bytes) (v : Vault)
    → get_entry k (without service v) ≡ (if bytes_eq service k then none else get_entry k v)
unfolding get_entry without keep
get_entry-without k service [] = ground arith
get_entry-without k service (e ∷ v) = ground (
  arith,
  bytes_eq_iff e.service service,
  bytes_eq_iff e.service k,
  bytes_eq_iff service k,
  get_entry-without k service v,
)

Absent-place :
    (k : Bytes) (entry : VaultEntry) (v : Vault)
    → bytes_eq entry.service k ≡ false
    → Absent k v
    → Absent k (place entry v)
unfolding place
Absent-place k entry [] h a = (h, tt)
Absent-place k entry (e ∷ v) h a = ground (arith, Absent-place k entry v h)

pub place-IsDistinct : (entry : VaultEntry) (v : Vault) → IsDistinct v → IsDistinct (place entry v)
unfolding place
place-IsDistinct entry [] d = (tt, tt)
place-IsDistinct entry (e ∷ v) d = elim (Bool-cases (bytes_eq e.service entry.service)) [
  | inl same ↦ rw same (subst (λ k. Absent k v) (bytes_eq→eq _ _ same) d.0, d.1)
  | inr other ↦
      rw other (
        Absent-place e.service entry v (bytes_eq_comm _ _ ∙ other) d.0,
        place-IsDistinct entry v d.1,
      )
]

-- Adding an entry keeps the services distinct.
pub add_entry-IsDistinct :
    (now : ℕ) (entry : VaultEntry) (v : Vault) → IsDistinct v → IsDistinct (add_entry now entry v)
unfolding add_entry
add_entry-IsDistinct now entry v d = place-IsDistinct (stamp now entry) v d

Absent-without : (k service : Bytes) (v : Vault) → Absent k v → Absent k (without service v)
unfolding without keep
Absent-without k service [] a = tt
Absent-without k service (e ∷ v) a = ground (arith, Absent-without k service v a.1)

pub without-IsDistinct :
    (service : Bytes) (v : Vault) → IsDistinct v → IsDistinct (without service v)
unfolding without keep
without-IsDistinct service [] d = tt
without-IsDistinct service (e ∷ v) d =
    ground (arith, Absent-without e.service service v d.0, without-IsDistinct service v d.1)

-- A vault in which a service is absent is left as it is.
pub get_entry-Absent : (k : Bytes) (v : Vault) → Absent k v → get_entry k v ≡ none
unfolding get_entry
get_entry-Absent k [] a = refl
get_entry-Absent k (e ∷ v) a = ground (arith, get_entry-Absent k v a.1)

keep_all : (service : Bytes) (v : Vault) → length v ≤ length (without service v) → Absent service v
unfolding without keep
keep_all service [] h = tt
keep_all service (e ∷ v) h =
    let bound = length-keep-le (λ (x : VaultEntry). not (bytes_eq x.service service)) v in
    elim (Bool-cases (bytes_eq e.service service)) [
      | inl same ↦ absurd (let h' = rw same at h in omega arith)
      | inr other ↦ let h' = rw other at h in (other, keep_all service v (omega arith))
    ]

none-Absent : (service : Bytes) (v : Vault) → get_entry service v ≡ none → Absent service v
unfolding get_entry
none-Absent service [] h = tt
none-Absent service (e ∷ v) h = elim (Bool-cases (bytes_eq e.service service)) [
  | inl same ↦ cc (rw same at h)
  | inr other ↦ (other, none-Absent service v (rw other at h))
]

pub without-Absent : (service : Bytes) (v : Vault) → Absent service v → without service v ≡ v
unfolding without keep
without-Absent service [] a = refl
without-Absent service (e ∷ v) a = rw (a.0, without-Absent service v a.1) refl

-- Removing a service answers whether the vault had it, and leaves the other services as they were and
-- no entry under this one.
pub remove_entry_lem :
    (service k : Bytes) (v : Vault)
    → ((remove_entry service v).0 ≡ is_some (get_entry service v))
      × (get_entry k (remove_entry service v).1
          ≡ (if bytes_eq service k then none else get_entry k v))
unfolding remove_entry
remove_entry_lem service k v = elim (Bool-cases (ltb (length (without service v)) (length v))) [
  | inl fewer ↦ rw fewer (present fewer, get_entry-without k service v)
  | inr same ↦
      let gone = get_entry-Absent service v (keep_all service v (ground arith)) in
      rw (same, gone) (refl, ground (arith, bytes_eq_iff service k))
]
  where
    present :
        ltb (length (without service v)) (length v) ≡ true → true ≡ is_some (get_entry service v)
    present fewer = elim (Option-cases (get_entry service v)) [
      | inr (e, found) ↦ rw found refl
      | inl missing ↦
          let kept = without-Absent service v (none-Absent service v missing) in
          absurd (let shorter = ltb→lt _ _ fewer in omega (arith, ap (λ x. length x) kept))
    ]
