-- ===== src/Disk.antt =====
-- The file system, as far as src/relay_select.rs and src/geo_update.rs use it: contents and stamps
-- by path, and whether a write or a removal succeeds, which the environment decides.
use rustdesk_server.Prelude.{ℕ, Bool, true, false, Option, none, some, if◌then◌else◌, ◌==◌, text_eq}
use rustdesk_server.Prelude.Text.{Text}

pub record Disk : Type 0 where
  -- `fs::read_to_string`
  pub contents : Text → Option Text
  -- Modification time and length.
  pub stamp : Text → Option (ℕ × ℕ)
  pub can_write : Text → Bool
  -- A file that is not there counts as removed.
  pub can_remove : Text → Bool

abbrev update : {A : Type 0} → (Text → A) → Text → A → Text → A
update f path a p = if p == path then a else f p

-- `fs::write`: whether it succeeded, and the disk after it.
unfoldable pub write : Text → Text → Disk → Bool × Disk
write path content d =
    if d.can_write path
    then (true, record d { contents = update d.contents path (some content) })
    else (false, d)

-- `fs::remove_file`
unfoldable pub remove_file : Text → Disk → Bool × Disk
remove_file path d =
    if d.can_remove path
    then (true, record d { contents = update d.contents path none })
    else (false, d)

-- `fs::rename` of a file that is there; it fails if the new place cannot be written.
unfoldable pub rename_file : Text → Text → Disk → Bool × Disk
rename_file from to d = elim (d.contents from) [
  | none ↦ (false, d)
  | some content ↦
      if d.can_write to
      then (true, record d { contents = update (update d.contents from none) to (some content) })
      else (false, d)
]
