-- ===== src/Audit/Scan/Stale.antt =====
-- When a password counts as stale.
use duckpass.Audit.Scan.{check_stale}
use duckpass.Prelude.{
  ℕ, ◌+◌, ◌-◌, ◌%◌, ◌^◌, ◌≤◌, ◌<◌, true, ◌↔◌, ◌⊎◌, ◌≡◌, ltb, arith, &&_iff, ltb→lt, lt→ltb,
}

wrapped :
    (now threshold last : ℕ)
    → now < 2 ^ 64
    → last < 2 ^ 64
    → (threshold < (now + 2 ^ 64 - last) % 2 ^ 64) ↔ (
        ((last ≤ now) × (threshold < now - last))
        ⊎ ((now < last) × (threshold < 2 ^ 64 - (last - now))))
wrapped now threshold last n l = ground arith

-- For a clock and a time of 64 bits, a password is stale exactly if its time is known, and lies back by more
-- than the threshold, or is in the future by less than 2 ^ 64 seconds minus the threshold: a time that is
-- ahead of the clock, by however little, counts as stale.
pub check_stale_lem :
    (now threshold last_updated : ℕ)
    → now < 2 ^ 64
    → last_updated < 2 ^ 64
    → (check_stale now threshold last_updated ≡ true) ↔ (
        (0 < last_updated)
        × (((last_updated ≤ now) × (threshold < now - last_updated))
            ⊎ ((now < last_updated) × (threshold < 2 ^ 64 - (last_updated - now)))))
unfolding check_stale
check_stale_lem now threshold last n l =
    let w = wrapped now threshold last n l in
    (
      λ h.
          let both = (&&_iff (ltb 0 last) (ltb threshold ((now + 2 ^ 64 - last) % 2 ^ 64))).0 h in
          (ltb→lt 0 last both.0, w.0 (ltb→lt threshold _ both.1)),
      λ h. (&&_iff _ _).1 (lt→ltb 0 last h.0, lt→ltb threshold _ (w.1 h.1)),
    )
