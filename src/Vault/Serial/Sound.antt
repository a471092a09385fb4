-- ===== src/Vault/Serial/Sound.antt =====
-- What `deserialize` accepts, whatever the bytes are.
use duckpass.Prelude.{ℕ, zero, suc, [], ◌∷◌, ◌≡◌, subst, Bytes}
use duckpass.Prelude.Result.{ok, bind-eq-ok}
use duckpass.Vault.Entries.Laws.{add_entry-IsDistinct}
use duckpass.Vault.Entries.{Vault, add_entry, IsDistinct}
use duckpass.Vault.Serial.{read_entry, read_entries, deserialize}
use duckpass.Vault.Wire.{read_uint32}

read_entries-IsDistinct :
    (n now version : ℕ) (bytes : Bytes) (vault v : Vault)
    → IsDistinct vault
    → read_entries n now version bytes vault ≡ ok v
    → IsDistinct v
unfolding read_entries
read_entries-IsDistinct zero now version bytes vault v d h = subst IsDistinct (cc) d
read_entries-IsDistinct (suc n) now version bytes vault v d h =
    let (p, _, rest) = bind-eq-ok (read_entry version bytes) _ h in
    read_entries-IsDistinct n now version p.1 (add_entry now p.0 vault) v
      (add_entry-IsDistinct now p.0 vault d) rest

-- A vault that was loaded has one entry at most for each service, also from a file that repeats one.
pub deserialize-IsDistinct :
    (now : ℕ) (bytes : Bytes) (version : ℕ) (v : Vault)
    → deserialize now bytes version ≡ ok v
    → IsDistinct v
unfolding deserialize
deserialize-IsDistinct now [] version v h = subst IsDistinct {x = []} (cc) tt
deserialize-IsDistinct now (b ∷ bytes) version v h =
    let (p, _, rest) = bind-eq-ok (read_uint32 (b ∷ bytes)) _ h in
    read_entries-IsDistinct p.0 now version p.1 [] v tt rest
