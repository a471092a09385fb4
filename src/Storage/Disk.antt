-- ===== src/Storage/Disk.antt =====
-- The file system as the storage layer sees it, with the states that a crash could leave behind.
use duckpass.Prelude.{
  Bool, List, ◌∷◌, ◌++◌, ◌≡◌, refl, Option, Bytes, bytes_eq, text, is_some, if◌then◌else◌,
}

-- The contents of the files, by path.
abbrev pub Disk : Type 0
Disk = Bytes → Option Bytes

unfoldable pub put : Disk → Bytes → Option Bytes → Disk
put disk path content = λ q. if bytes_eq path q then content else disk q

abbrev pub exists : Disk → Bytes → Bool
exists disk path = is_some (disk path)

-- The disk, and the states that it went through, the last one first.
pub record Storage : Type 0 where
  pub disk : Disk
  pub history : List Disk

unfoldable pub commit : Disk → Storage → Storage
commit disk s = record { disk = disk; history = disk ∷ s.history }

-- `backup_path.replace_extension(path.extension().string() + ".bak")`
unfoldable pub backup_path : Bytes → Bytes
backup_path path = path ++ text ".bak"

pub put_lem :
    (disk : Disk) (path q : Bytes) (content : Option Bytes)
    → put disk path content q ≡ (if bytes_eq path q then content else disk q)
unfolding put
put_lem disk path q content = refl
