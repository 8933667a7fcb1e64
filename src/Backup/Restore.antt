-- ===== src/Backup/Restore.antt =====
-- `verify_members` and `restore` of scripts/operations/backup_restore.py, from the members of the
-- archive and the manifest in it on. Extraction into the staging directory is a parameter: `staging`
-- holds the files there. Files are dicts from paths to contents. What the file system makes of each
-- round of the second loop is a parameter too.
pub mod Copies
pub mod Restored
use ito.Prelude.{
  ℕ, suc, ◌==◌, ◌≡◌, ◌≢◌, refl, sym, subst, ap, ◌∙◌, Bool, true, false, not, ◌&&◌, ◌||◌, Option,
  none, some, List, [], ◌∷◌, ◌++◌, Result, ok, err, ◌>>=◌, ◌>>◌, raise_if, if◌then◌else◌, Eq, ◌↔◌,
  ◌⊎◌, beq_ne, Bool-cases, and-eq-true, any, Option-cases, Result-cases, ok_injective, inl, inr,
  All, arith,
}
use ito.Prelude.Int.{ℤ, pos, eqb_ℤ, eqb_ℤ_iff}
use ito.Prelude.Dict.{
  Dict, lookup, insert, erase, lookup-insert, lookup-erase, lookup-insert_ne, lookup-erase_ne,
  lookup-insert_self,
}
use ito.Prelude.Text.{Text, codes, beq, beq_iff, text_eq}
use ito.Backup.{
  Parts, BackupError, unsafe_path, unsupported_member, invalid_manifest, key_error, parts_of,
  is_absolute, integrity_failure, os_error, safe_relative,
}

-- The parts of two paths are compared one by one.
abbrev pub same_path : Parts → Parts → Bool
same_path [] [] = true
same_path [] (q ∷ qs) = false
same_path (p ∷ ps) [] = false
same_path (p ∷ ps) (q ∷ qs) = beq p q && same_path ps qs

pub same_path_iff : (p q : Parts) → (same_path p q ≡ true) ↔ (p ≡ q)
same_path_iff [] [] = ground arith
same_path_iff [] (q ∷ qs) = ground arith
same_path_iff (p ∷ ps) [] = ground arith
same_path_iff (p ∷ ps) (q ∷ qs) = ground (arith, beq_iff p q, same_path_iff ps qs)

instance abbrev pub parts_eq : Eq Parts
parts_eq = record { beq = same_path; beq_iff = same_path_iff }

pub record Member : Type 0 where
  pub name : Text
  pub is_file : Bool
  pub is_sym : Bool
  pub is_lnk : Bool

-- Both branches for the manifest and for the other members test the same.
unfoldable pub verify_members : List Member → Result BackupError (Unit {0})
verify_members [] = ok tt
verify_members (member ∷ members) = safe_relative member.name >>= λ relative.
    raise_if (not member.is_file || member.is_sym || member.is_lnk) (unsupported_member member.name)
    >> verify_members members

-- An entry of the manifest's files.
pub record Entry : Type 0 where
  pub path : Text
  pub size : ℤ
  pub sha256 : Text

-- `target.with_name(f".{target.name}.restore")`, for a path that has a name.
abbrev pub restore_name : Text → Text
restore_name name = (b'.' ∷ name) ++ codes ".restore"

unfoldable pub temporary_of : Parts → Parts
temporary_of [] = []
temporary_of (name ∷ []) = restore_name name ∷ []
temporary_of (part ∷ name ∷ parts) = part ∷ temporary_of (name ∷ parts)

abbrev pub Files : Type 0 → Type 0
Files Content = Dict Parts Content

-- What the file system makes of one round of the second loop: it completes, or the making of the
-- directory, the copy or the replacement raises an OSError, which leaves the temporary file as it was
-- or with some contents.
pub data Attempt (Content : Type 0) : Type 0 where
  completes : Attempt Content
  stops : Option Content → Attempt Content

-- The member "manifest.json", with the format and, if it is a list, the files that it gives.
abbrev pub read_manifest : Option (ℤ × Option (List Entry)) → Result BackupError (List Entry)
read_manifest none = err key_error
read_manifest (some (format, none)) = err invalid_manifest
read_manifest (some (format, some entries)) =
    if eqb_ℤ format (pos 1) then ok entries else err invalid_manifest

module _ {Content : Type 0} where
  -- `source.is_file()` for `staging / relative`, with its contents: the staging directory is no file.
  abbrev pub source_at : Files Content → Parts → Option Content
  source_at staging [] = none
  source_at staging (part ∷ parts) = lookup (part ∷ parts) staging

  -- `shutil.copyfile(source, temporary_target)` and `os.replace(temporary_target, target)`. A source
  -- that is not there is one that the first loop has refused.
  abbrev pub replaced : Parts → Option Content → Files Content → Files Content
  replaced relative none destination = destination
  replaced relative (some content) destination =
      insert relative content
        (erase (temporary_of relative) (insert (temporary_of relative) content destination))

  abbrev pub left_behind : Parts → Option Content → Files Content → Files Content
  left_behind relative none destination = destination
  left_behind relative (some content) destination =
      insert (temporary_of relative) content destination

  -- The second loop, with the destination also where it raises. The attempts are those of its rounds.
  unfoldable pub copy_entries :
      (ℕ → Attempt Content)
      → Files Content
      → List Entry
      → Files Content
      → Result BackupError (Unit {0}) × Files Content
  copy_entries attempts staging [] destination = (ok tt, destination)
  copy_entries attempts staging (entry ∷ entries) destination = elim (safe_relative entry.path) [
    | err e ↦ (err e, destination)
    | ok relative ↦ elim (attempts 0) [
      | stops content ↦ (err (os_error relative), left_behind relative content destination)
      | completes ↦
          copy_entries (λ i. attempts (suc i)) staging entries
            (replaced relative (source_at staging relative) destination)
    ]
  ]

module _ {Content : Type 0} (size_of : Content → ℤ) (digest : Content → Text) where
  abbrev pub is_intact : Entry → Option Content → Bool
  is_intact entry none = false
  is_intact entry (some content) =
      eqb_ℤ (size_of content) entry.size && beq (digest content) entry.sha256

  -- The first loop: the source of each entry is there, with its size and its digest.
  unfoldable pub check_entries : Files Content → List Entry → Result BackupError (Unit {0})
  check_entries staging [] = ok tt
  check_entries staging (entry ∷ entries) = safe_relative entry.path >>= λ relative.
      raise_if (not (is_intact entry (source_at staging relative))) (integrity_failure relative)
      >> check_entries staging entries

  abbrev pub checked :
      List Member
      → Option (ℤ × Option (List Entry))
      → Files Content
      → Result BackupError (List Entry)
  checked members manifest staging = verify_members members >> read_manifest manifest >>= λ entries.
      check_entries staging entries >> ok entries

  unfoldable pub restore :
      (ℕ → Attempt Content)
      → List Member
      → Option (ℤ × Option (List Entry))
      → Files Content
      → Files Content
      → Result BackupError (Unit {0}) × Files Content
  restore attempts members manifest staging destination = elim (checked members manifest staging) [
    | err e ↦ (err e, destination)
    | ok entries ↦ copy_entries attempts staging entries destination
  ]
