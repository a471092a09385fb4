-- ===== src/Audit/Reuse/Laws.antt =====
-- The marks that the groups leave on an entry depend on its own group only.
use duckpass.Audit.{EntryAuditResult}
use duckpass.Audit.Reuse.{Results, mark_group, finalize_reuses}
use duckpass.Audit.Scan.{Groups}
use duckpass.Prelude.{
  ℕ, List, [], ◌∷◌, ◌≡◌, refl, sym, ap, subst, ◌∙◌, Option, some, Bytes, bytes_eq, bytes_eq_iff,
  get_at, All, Bool-cases, inl, inr,
}
use duckpass.Audit.Reuse.Marks.{
  NotIn, Once, SameServices, effect, others_same, mark_group-NotIn, mark_group-Once,
  mark_group_same,
}
use duckpass.Audit.Reuse.Table.{
  group, IsKeyed, positions, positions-NotIn_at, positions-Once_at, group-Fresh,
}

-- Every group has the places of its key.
abbrev pub Places : List Bytes → Groups → Type 0
Places hashes = All (λ (g : Bytes × List ℕ). g.1 ≡ positions g.0 hashes 0)

effect_none : (i : ℕ) (rs : Results) (o : Option EntryAuditResult) → effect i [] rs o ≡ o
unfolding effect
effect_none i rs o = refl

effect_same :
    (i : ℕ) (indices : List ℕ) (rs qs : Results) (o : Option EntryAuditResult)
    → SameServices rs qs
    → effect i indices rs o ≡ effect i indices qs o
unfolding effect
effect_same i indices rs qs o s = rw (others_same i indices rs qs s) refl

-- An entry is changed once, by the group of its own hash.
pub finalize_reuses_lem :
    (hashes : List Bytes) (groups : Groups) (rs : Results) (i : ℕ) (h : Bytes)
    → get_at hashes i ≡ some h
    → IsKeyed groups
    → Places hashes groups
    → get_at (finalize_reuses groups rs) i ≡ effect i (group h groups) rs (get_at rs i)
unfolding finalize_reuses group
finalize_reuses_lem hashes [] rs i h at_i keyed places = sym (effect_none i rs (get_at rs i))
finalize_reuses_lem hashes ((key, indices) ∷ groups) rs i h at_i keyed places =
    let rest =
      finalize_reuses_lem hashes groups (mark_group indices rs) i h at_i keyed.1 places.1 in
    elim (Bool-cases (bytes_eq key h)) [
      | inl same ↦
          let e : key ≡ h = (bytes_eq_iff key h).0 same in
          rw same (
            rest
            ∙ (ap
                  (λ (g : List ℕ).
                    effect i g (mark_group indices rs) (get_at (mark_group indices rs) i))
                  (group-Fresh key h groups same keyed.0)
                ∙ (effect_none i _ _
                    ∙ mark_group-Once i indices rs (
                        subst (Once i)
                          (ap (λ (z : Bytes). positions z hashes 0) (sym e) ∙ sym places.0)
                          (positions-Once_at h hashes i at_i)))))
      | inr other ↦ rw other (
          rest
          ∙ (effect_same i (group h groups) _ rs _ (mark_group_same indices rs)
              ∙ ap (effect i (group h groups) rs) (
                  mark_group-NotIn i indices rs (
                    subst (NotIn i) (sym places.0)
                      (positions-NotIn_at key h hashes i at_i other)))))
    ]
