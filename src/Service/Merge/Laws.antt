-- ===== src/Service/Merge/Laws.antt =====
-- The merge keeps, for each service, the entry that was written last.
use duckpass.Prelude.{
  ℕ, ltb, Option-cases, Bool, true, false, List, [], ◌∷◌, ◌≡◌, refl, ap, ◌∙◌, subst, Option, none,
  some, Bytes, bytes_eq, bytes_eq→eq, bytes_eq_iff, if◌then◌else◌, arith, Bool-cases, inl, inr,
}
use duckpass.Service.Merge.{is_deleted, is_newer, merge_entry, merge_entries}
use duckpass.Vault.Entries.Laws.{get_entry-add_entry, add_entry-IsDistinct}
use duckpass.Vault.Entries.{VaultEntry, Vault, get_entry, stamp, Absent, IsDistinct}

-- What a merge should find under a service, from what the disk and the memory have.
unfoldable pub newest : ℕ → Bool → Option VaultEntry → Option VaultEntry → Option VaultEntry
newest now deleted none local = local
newest now true (some e) local = local
newest now false (some e) none = some (stamp now e)
newest now false (some e) (some l) =
    if ltb l.last_updated e.last_updated then some (stamp now e) else some l

get_entry-merge_entry :
    (now : ℕ) (deleted : List Bytes) (e : VaultEntry) (v : Vault) (k : Bytes)
    → get_entry k (merge_entry now deleted e v) ≡ (
        if bytes_eq e.service k
        then newest now (is_deleted deleted k) (some e) (get_entry k v)
        else get_entry k v)
unfolding merge_entry newest is_newer
get_entry-merge_entry now deleted e v k = elim (Bool-cases (bytes_eq e.service k)) [
  | inr other ↦ ground (arith, bytes_eq_iff e.service k, get_entry-add_entry now k e v)
  | inl same ↦
      let key : e.service ≡ k = bytes_eq→eq _ _ same in
      elim (Option-cases (get_entry k v)) [
        | inl missing ↦ ground (arith, bytes_eq_iff e.service k, get_entry-add_entry now k e v)
        | inr (l, found) ↦ ground (arith, bytes_eq_iff e.service k, get_entry-add_entry now k e v)
      ]
]

merge_entry-IsDistinct :
    (now : ℕ) (deleted : List Bytes) (e : VaultEntry) (v : Vault)
    → IsDistinct v
    → IsDistinct (merge_entry now deleted e v)
unfolding merge_entry
merge_entry-IsDistinct now deleted e v d = ground (arith, add_entry-IsDistinct now e v d)

-- An entry of another service does not matter.
get_entry-merge_other :
    (now : ℕ) (deleted : List Bytes) (disk v : Vault) (k : Bytes)
    → Absent k disk
    → get_entry k (merge_entries now deleted disk v) ≡ get_entry k v
unfolding merge_entries
get_entry-merge_other now deleted [] v k a = refl
get_entry-merge_other now deleted (e ∷ disk) v k a =
    get_entry-merge_other now deleted disk (merge_entry now deleted e v) k a.1
    ∙ (get_entry-merge_entry now deleted e v k ∙ rw a.0 refl)

-- For every service, a merge with a disk whose services are distinct keeps the entry in memory if the
-- service was deleted, is not on the disk, or is not newer there; otherwise it takes that of the disk,
-- with the time of the call if its own time is 0.
pub get_entry-merge_entries :
    (now : ℕ) (deleted : List Bytes) (disk v : Vault) (k : Bytes)
    → IsDistinct disk
    → get_entry k (merge_entries now deleted disk v)
      ≡ newest now (is_deleted deleted k) (get_entry k disk) (get_entry k v)
unfolding merge_entries get_entry newest
get_entry-merge_entries now deleted [] v k d = refl
get_entry-merge_entries now deleted (e ∷ disk) v k d = elim (Bool-cases (bytes_eq e.service k)) [
  | inl same ↦ rw same (
      get_entry-merge_other now deleted disk (merge_entry now deleted e v) k
        (subst (λ j. Absent j disk) (bytes_eq→eq _ _ same) d.0)
      ∙ (get_entry-merge_entry now deleted e v k ∙ rw same refl))
  | inr other ↦ rw other (
      get_entry-merge_entries now deleted disk (merge_entry now deleted e v) k d.1
      ∙ ap (newest now (is_deleted deleted k) (get_entry k disk))
          (get_entry-merge_entry now deleted e v k ∙ rw other refl))
]

pub merge_entries-IsDistinct :
    (now : ℕ) (deleted : List Bytes) (disk v : Vault)
    → IsDistinct v
    → IsDistinct (merge_entries now deleted disk v)
unfolding merge_entries
merge_entries-IsDistinct now deleted [] v d = d
merge_entries-IsDistinct now deleted (e ∷ disk) v d =
    merge_entries-IsDistinct now deleted disk _ (merge_entry-IsDistinct now deleted e v d)
