-- ===== src/Backup/Restore/Restored.antt =====
-- What `restore` leaves in the destination.
use ito.Prelude.{◌≡◌, some}
use ito.Prelude.Int.{ℤ}
use ito.Prelude.Dict.{lookup}
use ito.Prelude.Text.{Text, text_eq}
use ito.Backup.Restore.{parts_eq, Entry, Files, source_at}
use ito.Backup.Restore.Copies.{target}

module _ {Content : Type 0} (size_of : Content → ℤ) (digest : Content → Text) where
  -- The entry's file is in the destination with the contents of the archive, which have its size and
  -- its digest.
  abbrev pub IsRestored : Files Content → Files Content → Entry → Type 0
  IsRestored staging destination entry =
      (content : Content) × (source_at staging (target entry) ≡ some content)
      × (size_of content ≡ entry.size)
      × (digest content ≡ entry.sha256)
      × (lookup (target entry) destination ≡ some content)
