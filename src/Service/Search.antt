-- ===== src/Service/Search.antt =====
-- `list_entries` of src/vault_service.cpp.
use duckpass.Fuzzy.{fuzzy_match}
use duckpass.Prelude.{ℕ, List, [], ◌∷◌, Bytes, is_empty, ltb, map, if◌then◌else◌}
use duckpass.Vault.Entries.{VaultEntry, Vault}

pub record MatchResult : Type 0 where
  pub entry : VaultEntry
  pub score : ℕ

-- The first loop.
unfoldable pub filtered_results : Bytes → Vault → List MatchResult
filtered_results query [] = []
filtered_results query (e ∷ entries) =
    let score = fuzzy_match query e.service in
    let rest = filtered_results query entries in
    if ltb 0 score then record { entry = e; score = score } ∷ rest else rest

-- `sort` stands for `std::ranges::sort` by falling score, which is not stable.
unfoldable pub list_entries :
    (List MatchResult → List MatchResult) → Bytes → Vault → List VaultEntry
list_entries sort query vault =
    if is_empty query
    then vault
    else map (λ (m : MatchResult). m.entry) (sort (filtered_results query vault))
