-- ===== src/GuestFs/Sorted.antt =====
-- The order of a listing (`list` of crates/mc-sandbox/src/fs.rs).
use Prim.Native.String.{[], ◌∷◌}
use mathlib.Core.List.{Perm}
use mathlib.Core.List.Perm
use mobile_coder.Prelude.{◌≡◌, String, true, List}
use mobile_coder.Files.{FileEntry, EntryKind, directory, file, symlink, other}
use mobile_coder.GuestFs.{HostPath, HostFs}
use mobile_coder.GuestFs.Listing.{text_le, entry_le}

-- An order by kind, with the condition on two entries of the same kind.
abbrev pub ByKind : EntryKind → EntryKind → Type 0 → Type 0
ByKind directory directory N = N
ByKind directory _ N = Unit
ByKind file directory N = ⊥
ByKind file file N = N
ByKind file _ N = Unit
ByKind symlink symlink N = N
ByKind symlink other N = Unit
ByKind symlink _ N = ⊥
ByKind other other N = N
ByKind other _ N = ⊥

module _ (fs : HostFs) (root : HostPath) where
  abbrev pub IsFirst : FileEntry → List FileEntry → Type 0
  IsFirst a List.[] = Unit
  IsFirst a (List.◌∷◌ b l) = entry_le fs root a b ≡ true

  abbrev pub IsOrdered : List FileEntry → Type 0
  IsOrdered List.[] = Unit
  IsOrdered (List.◌∷◌ a l) = IsFirst a l × IsOrdered l

  -- The name without case comes first, or is the same.
  abbrev pub IsNameBefore : FileEntry → FileEntry → Type 0
  IsNameBefore a b = text_le (fs.to_lowercase a.name) (fs.to_lowercase b.name) ≡ true

  -- Directories come first, then files, then links, then what is left; within a kind by name.
  abbrev pub IsBefore : FileEntry → FileEntry → Type 0
  IsBefore a b = ByKind a.kind b.kind (IsNameBefore a b)

  abbrev pub IsListed : List FileEntry → Type 0
  IsListed List.[] = Unit
  IsListed (List.◌∷◌ a List.[]) = Unit
  IsListed (List.◌∷◌ a (List.◌∷◌ b l)) = IsBefore a b × IsListed (List.◌∷◌ b l)
