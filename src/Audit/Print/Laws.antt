-- ===== src/Audit/Print/Laws.antt =====
-- The word for an entry with no issue.
use duckpass.Audit.{EntryAuditResult}
use duckpass.Audit.Print.{issues, when}
use duckpass.Prelude.{Bool, true, false, ◌||◌, [], ◌++◌, ◌≡◌, refl, ◌↔◌, Bytes}

-- An entry is reported as secure exactly if it is neither weak nor leaked nor reused nor stale.
pub issues-empty :
    (r : EntryAuditResult)
    → (issues r ≡ [])
      ↔ ((r.entropy.is_weak || (r.hibp.is_pwned || (r.is_reused || r.is_stale))) ≡ false)
unfolding issues
issues-empty r = listed _ _ _ _ r.entropy.is_weak r.hibp.is_pwned r.is_reused r.is_stale
  where
    listed :
        (u v w x : Bytes) (a b c d : Bool)
        → (when a u ++ (when b v ++ (when c w ++ when d x)) ≡ []) ↔ ((a || (b || (c || d))) ≡ false)
    listed u v w x true b c d = (λ h. cc, λ h. cc)
    listed u v w x false true c d = (λ h. cc, λ h. cc)
    listed u v w x false false true d = (λ h. cc, λ h. cc)
    listed u v w x false false false true = (λ h. cc, λ h. cc)
    listed u v w x false false false false = (λ h. refl, λ h. refl)
