-- ===== src/Storage/Write/Atomic.antt =====
-- `write_file_atomic` replaces a file by all of the new data or leaves it as it was, also at a crash.
use duckpass.Prelude.{
  ◌<◌, false, List, [], ◌∷◌, ◌++◌, ◌≡◌, refl, sym, ap, ◌∙◌, inl, inr, Option, some, Bytes, bytes_eq,
  bytes_eq→eq, bytes_eq_refl, text, length, length-append, take, drop, take-append-drop,
  append_assoc, append-nil, arith, Bool-cases,
}
use duckpass.Prelude.Result.{ok}
use duckpass.Storage.Disk.{Disk, Storage, put, put_lem, commit, backup_path}
use duckpass.Storage.Write.{
  WriteCall, some_written, write_interrupted, write_failed, TempName, tmp_path, write_all,
}

-- A path with something appended is another path.
pub bytes_eq_longer : (path more : Bytes) → 0 < length more → bytes_eq (path ++ more) path ≡ false
bytes_eq_longer path more h = elim (Bool-cases (bytes_eq (path ++ more) path)) [
  | inr other ↦ other
  | inl same ↦
      let e = ap (λ x. length x) (bytes_eq→eq _ _ same) in
      absurd (omega (arith, e, length-append path more))
]

pub tmp-ne-path : (path : Bytes) (n : TempName) → bytes_eq (tmp_path path n) path ≡ false
unfolding tmp_path text
tmp-ne-path path n = bytes_eq_longer path _ (omega arith)

pub backup-ne-path : (path : Bytes) → bytes_eq (backup_path path) path ≡ false
unfolding backup_path text
backup-ne-path path = bytes_eq_longer path _ (omega arith)

bytes_eq_prefix : (p a b : Bytes) → bytes_eq (p ++ a) (p ++ b) ≡ bytes_eq a b
unfolding bytes_eq
bytes_eq_prefix [] a b = refl
bytes_eq_prefix (x ∷ p) a b = ground (arith, bytes_eq_prefix p a b)

pub tmp-ne-backup :
    (path : Bytes) (n : TempName) → bytes_eq (tmp_path path n) (backup_path path) ≡ false
unfolding tmp_path backup_path text bytes_eq
tmp-ne-backup path n = bytes_eq_prefix path _ _

-- What each write into the temporary file keeps, the whole loop keeps.
module _ {κ} (Q : Storage → Type κ) (tmp : Bytes)
    (closed : (s : Storage) (c : Option Bytes) → Q s → Q (commit (put s.disk tmp c) s)) where
  pub write_all-keeps :
      (calls : List WriteCall) (written bytes : Bytes) (s : Storage)
      → Q s
      → Q (write_all calls tmp written bytes s).1
  unfolding write_all
  write_all-keeps [] written [] s a = a
  write_all-keeps [] written (b ∷ bytes) s a = closed s _ a
  write_all-keeps (write_interrupted ∷ calls) written bytes s a =
      write_all-keeps calls written bytes s a
  write_all-keeps (write_failed why ∷ calls) written [] s a = a
  write_all-keeps (write_failed why ∷ calls) written (b ∷ bytes) s a = a
  write_all-keeps (some_written n ∷ calls) written [] s a = a
  write_all-keeps (some_written n ∷ calls) written (b ∷ bytes) s a =
      write_all-keeps calls _ _ _ (closed s _ a)

pub put_self : (d : Disk) (path : Bytes) (c : Option Bytes) → put d path c path ≡ c
put_self d path c = put_lem d path path c ∙ rw (bytes_eq_refl path) refl

pub put_other :
    (d : Disk) (path q : Bytes) (c : Option Bytes) → bytes_eq path q ≡ false → put d path c q ≡ d q
put_other d path q c h = put_lem d path q c ∙ rw h refl

-- A write that succeeds has put all the data into the file.
pub write_all_complete :
    (calls : List WriteCall) (tmp written bytes : Bytes) (s : Storage)
    → s.disk tmp ≡ some written
    → (write_all calls tmp written bytes s).0 ≡ ok tt
    → (write_all calls tmp written bytes s).1.disk tmp ≡ some (written ++ bytes)
unfolding write_all commit
write_all_complete [] tmp written [] s h r = h ∙ ap some (sym (append-nil written))
write_all_complete [] tmp written (b ∷ bytes) s h r = put_self s.disk tmp _
write_all_complete (write_interrupted ∷ calls) tmp written bytes s h r =
    write_all_complete calls tmp written bytes s h r
write_all_complete (write_failed why ∷ calls) tmp written [] s h r =
    h ∙ ap some (sym (append-nil written))
write_all_complete (write_failed why ∷ calls) tmp written (b ∷ bytes) s h r = cc
write_all_complete (some_written n ∷ calls) tmp written [] s h r =
    h ∙ ap some (sym (append-nil written))
write_all_complete (some_written n ∷ calls) tmp written (b ∷ bytes) s h r =
    write_all_complete calls tmp (written ++ take n (b ∷ bytes)) (drop n (b ∷ bytes)) _
      (put_self s.disk tmp _) r
    ∙ ap some (append_assoc written _ _ ∙ ap (◌++◌ written) (take-append-drop n (b ∷ bytes)))
