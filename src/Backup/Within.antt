-- ===== src/Backup/Within.antt =====
-- `ensure_within_root` of scripts/operations/backup_restore.py, on paths that are resolved: the parts
-- from the last one to the first, so that the parent is the tail and the root of the file system is its
-- own parent.
use ito.Prelude.{
  ℕ, zero, suc, ◌<◌, ◌≡◌, refl, ap, ◌∙◌, if◌then◌else◌, Bool, true, false, Option, none, some, List,
  [], ◌∷◌, length, Result, ok, err, Bool-cases, inl, inr, arith,
}
use ito.Backup.{Parts, BackupError, outside_root}

abbrev pub parent : Parts → Parts
parent [] = []
parent (part ∷ parts) = parts

abbrev pub is_top : Parts → Bool
is_top [] = true
is_top (part ∷ parts) = false

-- `os.path.samefile(current, root)` is none where it raises an OSError.
module _ (samefile : Parts → Parts → Option Bool) (root : Parts) where
  -- The loop on fuel: none is a loop that has not ended.
  unfoldable pub walk : ℕ → Parts → Option Bool
  walk zero current = none
  walk (suc fuel) current =
      let rest = walk fuel (parent current) in
      elim (samefile current root) [
        | none ↦ some false
        | some same ↦ elim same [
          | true ↦ some true
          | false ↦ elim (is_top current) [ true ↦ some false | false ↦ rest ]
        ]
      ]

  -- The path with those above it, from the path up to the root of the file system.
  abbrev pub and_above : Parts → List Parts
  and_above [] = [] ∷ []
  and_above (part ∷ parts) = (part ∷ parts) ∷ and_above parts

  -- One of the paths is the root, and the system could compare it and every one before it.
  abbrev pub meets_root : List Parts → Bool
  meets_root [] = false
  meets_root (path ∷ paths) = elim (samefile path root) [
    | none ↦ false
    | some same ↦ elim same [ true ↦ true | false ↦ meets_root paths ]
  ]

  walk-ends :
      (fuel : ℕ) (path : Parts)
      → length path < fuel
      → walk fuel path ≡ some (meets_root (and_above path))
  unfolding walk
  walk-ends zero path h = absurd (omega arith)
  walk-ends (suc fuel) [] h = ground arith
  walk-ends (suc fuel) (part ∷ parts) h = ground (arith, walk-ends fuel parts)

  abbrev pub decided : Parts → Option Bool → Option (Result BackupError (Unit {0}))
  decided path none = none
  decided path (some true) = some (ok tt)
  decided path (some false) = some (err (outside_root path))

  unfoldable pub ensure_within_root : ℕ → Parts → Option (Result BackupError (Unit {0}))
  ensure_within_root fuel path = decided path (walk fuel path)

  -- `ensure_within_root` ends on any path, after one round for each part and one more, whatever the
  -- system answers: it returns if the path or a path above it is the root and the system could compare
  -- it and every one before it, and otherwise it raises.
  pub ensure_within_root-ends :
      (fuel : ℕ) (path : Parts)
      → length path < fuel
      → ensure_within_root fuel path
        ≡ some (if meets_root (and_above path) then ok tt else err (outside_root path))
  unfolding ensure_within_root
  ensure_within_root-ends fuel path h =
      ap (decided path) (walk-ends fuel path h)
      ∙ elim (Bool-cases (meets_root (and_above path))) [ inl e ↦ rw e refl | inr e ↦ rw e refl ]
