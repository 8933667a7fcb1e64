-- ===== src/Backup.antt =====
-- scripts/operations/backup_restore.py: the paths that it takes, the walk up to the root, and `restore`.
-- A path is the list of its parts. What the operating system says of files is a parameter.
pub mod Within
pub mod Restore
pub mod Tests
use ito.Prelude.{
  ℕ, zero, suc, ◌==◌, Bool, true, false, ◌||◌, Option, none, some, List, [], ◌∷◌, ◌++◌, Result, ok,
  err, ◌>>◌, raise_if, if◌then◌else◌, any, Eq,
}
use ito.Prelude.Text.{Text, codes, beq, split}

abbrev pub Parts : Type 0
Parts = List Text

pub data BackupError : Type 0 where
  unsafe_path : Text → BackupError
  outside_root : Parts → BackupError
  unsupported_member : Text → BackupError
  invalid_manifest key_error : BackupError
  integrity_failure : Parts → BackupError
  os_error : Parts → BackupError

-- `Path(value)` on POSIX: empty parts and single dots are left out, and a slash in front is absolute.
unfoldable pub kept_parts : List Text → Parts
kept_parts [] = []
kept_parts (part ∷ parts) =
    let rest = kept_parts parts in if beq part [] || beq part (codes ".") then rest else part ∷ rest

abbrev pub parts_of : Text → Parts
parts_of value = kept_parts (split b'/' value)

abbrev pub is_absolute : Text → Bool
is_absolute [] = false
is_absolute (c ∷ value) = c == b'/'

unfoldable pub safe_relative : Text → Result BackupError Parts
safe_relative value =
    if is_absolute value || any (beq (codes "..")) (parts_of value)
    then err (unsafe_path value)
    else ok (parts_of value)
