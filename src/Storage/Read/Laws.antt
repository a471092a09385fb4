-- ===== src/Storage/Read/Laws.antt =====
-- `read_file` gives the contents of the file, in however many pieces they arrive.
use duckpass.Prelude.{
  ℕ, zero, suc, ◌-◌, ◌≤◌, ◌<◌, ◌==◌, false, List, [], ◌∷◌, ◌++◌, ◌≡◌, refl, sym, ap, subst, ◌∙◌,
  none, some, Bytes, length, length-take, length-drop, take, drop, take-length, min, ltb, le→ltb,
  append_assoc, append-nil, arith, Bool-cases, Option-cases, inl, inr, All,
}
use duckpass.Prelude.Result.{ok}
use duckpass.Storage.Disk.{Disk}
use duckpass.Storage.Read.{
  ReadCall, some_bytes, read_interrupted, read_failed, ReadAnswers, max_file_size, read_rest,
  read_all, read_opened, read_file,
}

length-nil : (xs : Bytes) → length xs ≡ 0 → xs ≡ []
length-nil [] h = refl
length-nil (x ∷ xs) h = absurd (omega arith)

-- What is taken from the file, and what is left of it.
rejoin :
    (n : ℕ) (got file : Bytes)
    → (got ++ take n file) ++ drop (length (take n file)) file ≡ got ++ file
rejoin n got file = append_assoc got (take n file) _ ∙ ap (◌++◌ got) (cut n file)
  where
    cut : (n : ℕ) (file : Bytes) → take n file ++ drop (length (take n file)) file ≡ file
    cut zero file = refl
    cut (suc n) [] = refl
    cut (suc n) (b ∷ file) = rw (cut n file) refl

read_all_sound :
    (calls : List ReadCall) (file got b : Bytes)
    → read_all calls (length file) file got ≡ ok b
    → b ≡ got ++ file
unfolding read_all read_rest
read_all_sound [] file got b h =
    cc (rw (le→ltb (length file) (length file) (omega arith), take-length file) at h)
read_all_sound (read_interrupted ∷ calls) file got b h = read_all_sound calls file got b h
read_all_sound (read_failed why ∷ calls) file got b h = elim (Bool-cases (length file == 0)) [
  | inr more ↦ cc (rw more at h)
  | inl complete ↦
      let e = length-nil file (ground arith) in rw (e, append-nil got) (cc (rw complete at h))
]
read_all_sound (some_bytes n ∷ calls) file got b h = elim (Bool-cases (length file == 0)) [
  | inl complete ↦
      let e = length-nil file (ground arith) in rw (e, append-nil got) (cc (rw complete at h))
  | inr more ↦
      let chunk = take (min n (length file)) file in
      let left = drop (length chunk) file in
      let size : length file - length chunk ≡ length left = sym (length-drop (length chunk) file) in
      elim (Bool-cases (length chunk == 0)) [
        | inl empty ↦ cc (rw (more, empty) at h)
        | inr useful ↦
            let h' : read_all calls (length file - length chunk) left (got ++ chunk) ≡ ok b =
              rw (more, useful) at h in
            read_all_sound calls left (got ++ chunk) b
              (subst (λ k. read_all calls k left (got ++ chunk) ≡ ok b) size h')
            ∙ rejoin (min n (length file)) got file
      ]
]

-- A call that makes progress or is to be repeated.
abbrev pub Progresses : ReadCall → Type 0
Progresses (some_bytes n) = 0 < n
Progresses read_interrupted = Unit {0}
Progresses (read_failed why) = ⊥

nonzero : (n : ℕ) → 0 < n → (n == 0) ≡ false
nonzero n h = ground arith

nonempty : (n : ℕ) → (n == 0) ≡ false → 0 < n
nonempty n h = ground arith

read_all_complete :
    (calls : List ReadCall) (file got : Bytes)
    → All Progresses calls
    → read_all calls (length file) file got ≡ ok (got ++ file)
unfolding read_all read_rest
read_all_complete [] file got p =
    rw (le→ltb (length file) (length file) (omega arith), take-length file) refl
read_all_complete (read_interrupted ∷ calls) file got p = read_all_complete calls file got p.1
read_all_complete (read_failed why ∷ calls) file got p = absurd p.0
read_all_complete (some_bytes n ∷ calls) file got p = elim (Bool-cases (length file == 0)) [
  | inl complete ↦ let e = length-nil file (ground arith) in rw (complete, e, append-nil got) refl
  | inr more ↦
      let chunk = take (min n (length file)) file in
      let left = drop (length chunk) file in
      let size : length file - length chunk ≡ length left = sym (length-drop (length chunk) file) in
      let positive = p.0 in
      let useful : (length chunk == 0) ≡ false =
        nonzero _ (omega (arith, length-take (min n (length file)) file, nonempty _ more)) in
      rw (more, useful)
        (ap (λ k. read_all calls k left (got ++ chunk)) size
          ∙ (read_all_complete calls left (got ++ chunk) p.1
              ∙ ap ok (rejoin (min n (length file)) got file)))
]

read_opened_sound :
    (a : ReadAnswers) (path file b : Bytes) → read_opened a path file ≡ ok b → b ≡ file
unfolding read_opened
read_opened_sound a path file b h = elim (Option-cases a.stat_fails) [
  | inr (why, failed) ↦ cc (rw (failed, read_opened) at h)
  | inl stated ↦ elim (Bool-cases (ltb max_file_size (length file))) [
    | inl large ↦ cc (rw (stated, large, read_opened) at h)
    | inr small ↦ elim (Bool-cases (length file == 0)) [
      | inl empty ↦
          rw (length-nil file (ground arith)) (cc (rw (stated, small, empty, read_opened) at h))
      | inr full ↦ read_all_sound a.calls file [] b (rw (stated, small, full, read_opened) at h)
    ]
  ]
]

-- What `read_file` returns is what the file holds.
pub read_file_sound :
    (a : ReadAnswers) (d : Disk) (path b : Bytes) → read_file a d path ≡ ok b → d path ≡ some b
unfolding read_file
read_file_sound a d path b h = elim (Option-cases a.open_fails) [
  | inr (why, failed) ↦ cc (rw (failed, read_file) at h)
  | inl opened ↦ elim (Option-cases (d path)) [
    | inl missing ↦ cc (rw (opened, missing, read_file) at h)
    | inr (file, found) ↦
        found ∙ ap some (sym (read_opened_sound a path file b (rw (opened, found, read_file) at h)))
  ]
]

-- If no call fails and the file is not above the limit, the whole file is returned, in however many
-- pieces and after however many interruptions it arrives.
pub read_file_complete :
    (a : ReadAnswers) (d : Disk) (path file : Bytes)
    → a.open_fails ≡ none
    → a.stat_fails ≡ none
    → All Progresses a.calls
    → d path ≡ some file
    → length file ≤ max_file_size
    → read_file a d path ≡ ok file
unfolding read_file read_opened
read_file_complete a d path file opened stated p found small =
    elim (Bool-cases (length file == 0)) [
      | inl empty ↦
          rw (opened, found, stated, le→ltb _ _ small, empty, read_file, read_opened)
            (ap ok (sym (length-nil file (ground arith))))
      | inr full ↦
          rw (opened, found, stated, le→ltb _ _ small, full, read_file, read_opened)
            (read_all_complete a.calls file [] p)
    ]

-- Only the file that is read matters.
pub read_file_reads :
    (a : ReadAnswers) (d d' : Disk) (path : Bytes)
    → d path ≡ d' path
    → read_file a d path ≡ read_file a d' path
unfolding read_file
read_file_reads a d d' path e = elim (Option-cases a.open_fails) [
  | inr (why, failed) ↦ rw (failed, read_file) refl
  | inl opened ↦ elim (Option-cases (d' path)) [
    | inl missing ↦ rw (opened, e ∙ missing, missing, read_file) refl
    | inr (file, found) ↦ rw (opened, e ∙ found, found, read_file) refl
  ]
]
