-- ===== src/Audit/Scan/Table.antt =====
-- The hash table after the loop has every hash once, with the places of the entries that have it.
use duckpass.Audit.Scan.{Groups, push_index}
use duckpass.Audit.Reuse.Table.{group, Fresh, IsKeyed, IsOrder, positions}
use duckpass.Audit.Reuse.Laws.{Places}
use duckpass.Prelude.{
  ℕ, ◌+◌, false, List, [], ◌∷◌, ◌++◌, ◌≡◌, refl, sym, ap, ◌∙◌, Bytes, bytes_eq, bytes_eq_iff,
  bytes_eq_comm, if◌then◌else◌, All, Bool-cases, inl, inr, append_assoc, append-nil,
}

-- The entries of a vault with these hashes, put in from `n` on.
unfoldable pub push_all : ℕ → List Bytes → Groups → Groups
push_all n [] groups = groups
push_all n (h ∷ hashes) groups = push_all (n + 1) hashes (push_index h n groups)

group-push_index :
    (x : Bytes) (i : ℕ) (groups : Groups) (h : Bytes)
    → group h (push_index x i groups)
      ≡ (if bytes_eq h x then group h groups ++ i ∷ [] else group h groups)
unfolding group push_index
group-push_index x i [] h = rw (bytes_eq_comm x h) refl
group-push_index x i ((key, indices) ∷ groups) h = elim (Bool-cases (bytes_eq key x)) [
  | inl same ↦
      let e = (bytes_eq_iff key x).0 same in
      rw (same, e, bytes_eq_comm h x)
        (elim (Bool-cases (bytes_eq x h)) [
          | inl matches ↦ rw matches refl
          | inr misses ↦ rw misses refl
        ])
  | inr other ↦ rw other (elim (Bool-cases (bytes_eq key h)) [
    | inl here ↦
        let e = (bytes_eq_iff key h).0 here in
        rw here (rw (ap (λ (z : Bytes). bytes_eq z x) (sym e) ∙ other) refl)
    | inr there ↦ rw there (group-push_index x i groups h)
  ])
]

Fresh-push_index :
    (key x : Bytes) (i : ℕ) (groups : Groups)
    → bytes_eq key x ≡ false
    → Fresh key groups
    → Fresh key (push_index x i groups)
unfolding push_index
Fresh-push_index key x i [] n f = (n, tt)
Fresh-push_index key x i ((other, indices) ∷ groups) n f = elim (Bool-cases (bytes_eq other x)) [
  | inl same ↦ rw same f
  | inr differs ↦ rw differs (f.0, Fresh-push_index key x i groups n f.1)
]

IsKeyed-push_index :
    (x : Bytes) (i : ℕ) (groups : Groups) → IsKeyed groups → IsKeyed (push_index x i groups)
unfolding push_index
IsKeyed-push_index x i [] k = (tt, tt)
IsKeyed-push_index x i ((other, indices) ∷ groups) k = elim (Bool-cases (bytes_eq other x)) [
  | inl same ↦ rw same k
  | inr differs ↦
      rw differs (Fresh-push_index other x i groups differs k.0, IsKeyed-push_index x i groups k.1)
]

IsKeyed-push_all :
    (n : ℕ) (hashes : List Bytes) (groups : Groups)
    → IsKeyed groups
    → IsKeyed (push_all n hashes groups)
unfolding push_all
IsKeyed-push_all n [] groups k = k
IsKeyed-push_all n (h ∷ hashes) groups k =
    IsKeyed-push_all (n + 1) hashes _ (IsKeyed-push_index h n groups k)

group-push_all :
    (n : ℕ) (hashes : List Bytes) (groups : Groups) (h : Bytes)
    → group h (push_all n hashes groups) ≡ group h groups ++ positions h hashes n
unfolding push_all positions
group-push_all n [] groups h = sym (append-nil (group h groups))
group-push_all n (x ∷ hashes) groups h =
    let rest = group-push_all (n + 1) hashes (push_index x n groups) h in
    elim (Bool-cases (bytes_eq h x)) [
      | inl same ↦
          rw (rest, group-push_index x n groups h, same)
            (append_assoc (group h groups) (n ∷ []) (positions h hashes (n + 1)))
      | inr differs ↦ rw (rest, group-push_index x n groups h, differs) refl
    ]

All-map :
    (P Q : Bytes × List ℕ → Type 0) (groups : Groups)
    → ((g : Bytes × List ℕ) → P g → Q g)
    → All P groups
    → All Q groups
All-map P Q [] f a = tt
All-map P Q (g ∷ groups) f a = (f g a.0, All-map P Q groups f a.1)

All-both :
    (P Q : Bytes × List ℕ → Type 0) (groups : Groups)
    → All P groups
    → All Q groups
    → All (λ g. P g × Q g) groups
All-both P Q [] a b = tt
All-both P Q (g ∷ groups) a b = ((a.0, b.0), All-both P Q groups a.1 b.1)

-- A key of the table finds its own indices.
IsKeyed-group :
    (groups : Groups) → IsKeyed groups → All (λ (g : Bytes × List ℕ). g.1 ≡ group g.0 groups) groups
IsKeyed-group [] k = tt
IsKeyed-group ((key, indices) ∷ groups) k = (
  unfold group in rw ((bytes_eq_iff key key).1 refl) refl,
  All-map (λ g. (bytes_eq key g.0 ≡ false) × (g.1 ≡ group g.0 groups))
      (λ g. g.1 ≡ group g.0 ((key, indices) ∷ groups)) groups
      (λ g both. unfold group in rw both.0 both.1)
      (All-both (λ (g : Bytes × List ℕ). bytes_eq key g.0 ≡ false)
        (λ (g : Bytes × List ℕ). g.1 ≡ group g.0 groups) groups k.0 (IsKeyed-group groups k.1)),
)

-- In whatever order the table is read.
pub push_all-Places :
    (order : Groups → Groups) (hashes : List Bytes)
    → IsOrder order
    → IsKeyed (order (push_all 0 hashes []))
      × Places hashes (order (push_all 0 hashes []))
      × ((h : Bytes) → group h (order (push_all 0 hashes [])) ≡ positions h hashes 0)
push_all-Places order hashes o =
    let keyed = o (push_all 0 hashes []) (IsKeyed-push_all 0 hashes [] tt) in
    let found : (h : Bytes) → group h (order (push_all 0 hashes [])) ≡ positions h hashes 0 =
      λ h. keyed.1 h ∙ (group-push_all 0 hashes [] h ∙ (unfold group in refl)) in
    (keyed.0, All-map _ _ _ (λ g e. e ∙ found g.0) (IsKeyed-group _ keyed.0), found)
