-- ===== src/GuestFs/Listing.antt =====
-- What the browser shows of a directory and of a file (`list` and `preview` of
-- crates/mc-sandbox/src/fs.rs).
use Prim.Native.Char.{code}
use Prim.Native.String.{[], ◌∷◌}
use mobile_coder.Prelude.{
  ℕ, ◌<>◌, String, Bool, true, false, not, ◌&&◌, ◌||◌, Option, none, some, List, map, ◌>>=◌, eqb,
  ltb, if◌then◌else◌, keep, any, take,
}
use mobile_coder.Prelude.Text.{is_prefix}
use mobile_coder.Files.{
  EntryKind, directory, file, symlink, other, FileEntry, FilePreview, binary, normalize, join,
}
use mobile_coder.Files as Shown
use mobile_coder.Sandbox.{Ran, ok, err}
use mobile_coder.GuestFs.{
  HostPath, HostFs, Meta, FileType, dir, regular, link, special, DirEntry, resolve,
}

-- The place of a kind in a listing (the derived order of EntryKind).
abbrev pub rank : EntryKind → ℕ
rank directory = 0
rank file = 1
rank symlink = 2
rank other = 3

-- The order of texts by their bytes, which is that of the numbers of their characters.
abbrev pub text_le : String → String → Bool
text_le [] t = true
text_le (c ∷ s) [] = false
text_le (c ∷ s) (d ∷ t) = ltb (code c) (code d) || eqb (code c) (code d) && text_le s t

abbrev pub ok_path : Option (Ran HostPath) → Option HostPath
ok_path none = none
ok_path (some (err e)) = none
ok_path (some (ok p)) = some p

abbrev pub ok_meta : Ran Meta → Option Meta
ok_meta (err e) = none
ok_meta (ok m) = some m

-- A link to a directory is shown as a directory.
abbrev pub kind_of_target : Option Meta → EntryKind
kind_of_target none = symlink
kind_of_target (some m) = if m.is_dir then directory else symlink

abbrev pub size_of : Option Meta → Option ℕ
size_of none = none
size_of (some m) = if m.is_file then some m.len else none

module _ (fs : HostFs) (root : HostPath) where
  unfoldable pub kind_of : String → String → Option FileType → EntryKind
  kind_of path name none = other
  kind_of path name (some dir) = directory
  kind_of path name (some regular) = file
  kind_of path name (some special) = other
  kind_of path name (some link) =
      kind_of_target (ok_path (resolve fs root (join path name)) >>= (λ p. ok_meta (fs.metadata p)))

  unfoldable pub entry_of : String → DirEntry → FileEntry
  entry_of path e = record {
    name = e.file_name;
    kind = kind_of path e.file_name e.file_type;
    size = size_of e.entry_meta;
  }

  -- `then_with`: the kinds first, and the names without case where these are the same.
  unfoldable pub entry_le : FileEntry → FileEntry → Bool
  entry_le a b =
      ltb (rank a.kind) (rank b.kind)
      || eqb (rank a.kind) (rank b.kind)
        && text_le (fs.to_lowercase a.name) (fs.to_lowercase b.name)

  unfoldable pub insert : FileEntry → List FileEntry → List FileEntry
  insert a List.[] = List.◌∷◌ a List.[]
  insert a (List.◌∷◌ b l) =
      let rest = insert a l in if entry_le a b then List.◌∷◌ a (List.◌∷◌ b l) else List.◌∷◌ b rest

  -- `sort_by`, which is stable.
  unfoldable pub sort : List FileEntry → List FileEntry
  sort List.[] = List.[]
  sort (List.◌∷◌ a l) = insert a (sort l)

  unfoldable pub is_shown : FileEntry → Bool
  is_shown e = not (is_prefix ".l2s." e.name)

  abbrev pub listed : String → Ran (List DirEntry) → Ran (List FileEntry)
  listed path (err e) = err (normalize path <> ": " <> e)
  listed path (ok entries) = ok (sort (keep is_shown (map (entry_of path) entries)))

  abbrev pub list_at : String → Ran HostPath → Ran (List FileEntry)
  list_at path (err e) = err e
  list_at path (ok found) = listed path (fs.read_dir found)

  unfoldable pub list : String → Option (Ran (List FileEntry))
  list path = resolve fs root path >>= (λ found. some (list_at path found))

  abbrev pub shown : String → ℕ → Meta → Ran (List ℕ) → Ran FilePreview
  shown path limit m (err e) = err (normalize path <> ": " <> e)
  shown path limit m (ok bytes) =
      if any (λ b. eqb b 0) (take 8000 bytes)
      then ok (binary m.len)
      else ok (Shown.FilePreview.text (fs.lossy bytes) (ltb limit m.len))

  abbrev pub preview_file : String → ℕ → HostPath → Ran Meta → Ran FilePreview
  preview_file path limit found (err e) = err (normalize path <> ": " <> e)
  preview_file path limit found (ok m) =
      if m.is_file
      then shown path limit m (fs.read_start found limit)
      else err (normalize path <> " is not a regular file")

  abbrev pub preview_at : String → ℕ → Ran HostPath → Ran FilePreview
  preview_at path limit (err e) = err e
  preview_at path limit (ok found) = preview_file path limit found (fs.metadata found)

  unfoldable pub preview : String → ℕ → Option (Ran FilePreview)
  preview path limit = resolve fs root path >>= (λ found. some (preview_at path limit found))
