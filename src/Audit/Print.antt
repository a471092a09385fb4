-- ===== src/Audit/Print.antt =====
-- `operator<<` of an `AuditReport`.
pub mod Laws
use duckpass.Audit.{EntryAuditResult, AuditReport}
use duckpass.Hibp.{Count}
use duckpass.Prelude.{
  none, some, ℕ, zero, suc, ◌+◌, ◌-◌, ◌^◌, Bool, true, false, List, [], ◌∷◌, ◌++◌, Bytes, text,
  length, replicate, ltb, if◌then◌else◌,
}
use duckpass.Text.Decimal.{to_string}

-- `std::left << std::setw(width)`
unfoldable pub setw : ℕ → Bytes → Bytes
setw width s = s ++ replicate (width - length s) b' '

-- An `int`, of 32 bits in two's complement.
unfoldable pub print_int : ℕ → Bytes
print_int bits = if ltb bits (2 ^ 31) then to_string bits else b'-' ∷ to_string (2 ^ 32 - bits)

abbrev pub when : Bool → Bytes → List Bytes
when true issue = issue ∷ []
when false issue = []

-- A count that has overflowed has no digits that the language defines; none stand for them here.
unfoldable pub print_count : Count → Bytes
print_count none = []
print_count (some count) = to_string count

unfoldable pub issues : EntryAuditResult → List Bytes
unfolding text
issues r =
    when r.entropy.is_weak (text "WEAK")
    ++ (when r.hibp.is_pwned (text "PWNED(" ++ (print_count r.hibp.breach_count ++ b')' ∷ []))
        ++ (when r.is_reused (text "REUSED") ++ when r.is_stale (text "STALE")))

-- The loop over the issues after the first.
unfoldable pub more_issues : List Bytes → Bytes
unfolding text
more_issues [] = []
more_issues (issue ∷ rest) = text ", " ++ (issue ++ more_issues rest)

unfoldable pub print_issues : List Bytes → Bytes
unfolding text more_issues
print_issues [] = text "Secure"
print_issues (issue ∷ rest) = issue ++ more_issues rest

unfoldable pub print_entry : EntryAuditResult → Bytes
unfolding setw print_int print_issues issues
print_entry r =
    setw 20 r.service
    ++ (setw 20 r.username
        ++ (setw 10 (print_int r.entropy.score) ++ (print_issues (issues r) ++ 10 ∷ [])))

unfoldable pub print_entries : List EntryAuditResult → Bytes
print_entries [] = []
print_entries (r ∷ entries) = print_entry r ++ print_entries entries

abbrev line_of : Bytes → ℕ → Bytes
line_of label n = label ++ (to_string n ++ 10 ∷ [])

unfoldable pub print_report : AuditReport → Bytes
unfolding text setw
print_report report =
    text "\n--- AUDIT REPORT ---\n"
    ++ (setw 20 (text "Service")
        ++ (setw 20 (text "User")
            ++ (setw 10 (text "Score")
                ++ (text "Issues\n"
                    ++ (replicate 60 b'-'
                        ++ (10 ∷ print_entries report.entries
                            ++ (text "\nSummary:\n"
                                ++ (line_of (text "  - Total entries:    ") report.total_entries
                                    ++ (line_of (text "  - Weak passwords:   ")
                                          report.weak_passwords
                                        ++ (line_of (text "  - Pwned passwords:  ")
                                              report.pwned_passwords
                                            ++ (line_of (text "  - Reused passwords: ")
                                                  report.reused_passwords
                                                ++ line_of (text "  - Stale passwords:  ")
                                                    report.stale_passwords)))))))))))
