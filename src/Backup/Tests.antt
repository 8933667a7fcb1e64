-- ===== src/Backup/Tests.antt =====
-- Runs of the backup's path checks and of `restore`, and their theorems at concrete files. A content is
-- a number, its size, and its digest is one digit.
use ito.Prelude.{
  ℕ, ◌+◌, ◌==◌, ◌≡◌, refl, Bool, true, false, Option, some, List, [], ◌∷◌, ok, err, arith,
  if◌then◌else◌,
}
use ito.Prelude.Int.{ℤ, pos}
use ito.Prelude.Dict.{lookup, insert, erase}
use ito.Prelude.Text.{Text, codes, split_from}
use ito.Backup.{
  Parts, unsafe_path, outside_root, integrity_failure, os_error, kept_parts, safe_relative,
}
use ito.Backup.Within.{ensure_within_root, meets_root, and_above, ensure_within_root-ends}
use ito.Backup.Restore.{
  parts_eq, same_path, Member, Entry, Files, temporary_of, verify_members, check_entries,
  copy_entries, restore, Attempt, completes, stops,
}

paths_run :
    (safe_relative (codes "docs//./a") ≡ ok (codes "docs" ∷ codes "a" ∷ []))
    × (safe_relative (codes "docs/../a") ≡ err (unsafe_path (codes "docs/../a")))
    × (safe_relative (codes "/a") ≡ err (unsafe_path (codes "/a")))
unfolding safe_relative kept_parts split_from
paths_run = (refl, refl, refl)

-- The path a/b/c, from the last part to the first, and the root a.
abbrev inner : Parts
inner = codes "c" ∷ codes "b" ∷ codes "a" ∷ []

abbrev samefile : Parts → Parts → Option Bool
samefile path root = some (same_path path root)

ensure_within_root-ends_example :
    ensure_within_root samefile (codes "a" ∷ []) 4 inner
    ≡ some (
        if meets_root samefile (codes "a" ∷ []) (and_above samefile (codes "a" ∷ []) inner)
        then ok tt
        else err (outside_root inner))
ensure_within_root-ends_example =
    ensure_within_root-ends samefile (codes "a" ∷ []) 4 inner (omega arith)

abbrev size_of : ℕ → ℤ
size_of = pos

abbrev digest : ℕ → Text
digest content = (b'0' + content) ∷ []

abbrev entry : Text → ℕ → Entry
entry path content = record { path = path; size = pos content; sha256 = digest content }

abbrev member : Text → Member
member name = record { name = name; is_file = true; is_sym = false; is_lnk = false }

abbrev a : Parts
a = codes "a" ∷ []

abbrev b : Parts
b = codes "b" ∷ []

abbrev hidden : Parts
hidden = codes ".a.restore" ∷ []

abbrev members : List Member
members = member (codes "manifest.json") ∷ member (codes "a") ∷ []

abbrev staging : Files ℕ
staging = (a, 5) ∷ (hidden, 6) ∷ []

abbrev destination : Files ℕ
destination = (a, 4) ∷ (b, 3) ∷ []

abbrev all_complete : ℕ → Attempt ℕ
all_complete i = completes

-- The second round stops when the temporary file is written.
abbrev second_stops : ℕ → Attempt ℕ
second_stops i = if i == 1 then stops (some 6) else completes

restore_runs :
    (restore size_of digest all_complete members
        (some (pos 1, some (entry (codes "a") 5 ∷ [])))
        staging
        destination
      ≡ (ok tt, (a, 5) ∷ (b, 3) ∷ []))
    × (restore size_of digest all_complete members
          (some (pos 1, some (entry (codes "a") 7 ∷ [])))
          staging
          destination
        ≡ (err (integrity_failure a), destination))
unfolding restore verify_members check_entries copy_entries safe_relative kept_parts split_from
    temporary_of lookup insert erase
restore_runs = (refl, refl)

-- The file ".a.restore" is lost where "a" is restored after it.
restore_loses :
    restore size_of digest all_complete members
      (some (pos 1, some (entry (codes ".a.restore") 6 ∷ entry (codes "a") 5 ∷ [])))
      staging
      destination
    ≡ (ok tt, (a, 5) ∷ (b, 3) ∷ [])
unfolding restore verify_members check_entries copy_entries safe_relative kept_parts split_from
    temporary_of lookup insert erase
restore_loses = refl

abbrev entries : List Entry
entries = entry (codes "a") 5 ∷ entry (codes "c") 6 ∷ []

abbrev c : Parts
c = codes "c" ∷ []

abbrev c_hidden : Parts
c_hidden = codes ".c.restore" ∷ []

abbrev staged : Files ℕ
staged = (a, 5) ∷ (c, 6) ∷ []

-- The file system fails on the second entry: the first is restored, and a temporary file is left.
restore_stops :
    restore size_of digest second_stops members (some (pos 1, some entries)) staged destination
    ≡ (err (os_error c), (a, 5) ∷ (b, 3) ∷ (c_hidden, 6) ∷ [])
unfolding restore verify_members check_entries copy_entries safe_relative kept_parts split_from
    temporary_of lookup insert erase
restore_stops = refl
