-- ===== src/Files.antt =====
-- Guest paths and what the file browser shows of them (crates/mc-core/src/files.rs).
pub mod Normal
use mobile_coder.Prelude.{
  ℕ, ◌<>◌, String, Bool, ◌||◌, Option, none, some, List, [], ◌∷◌, reverse, ◌==◌, if◌then◌else◌,
}
use mobile_coder.Prelude.Text.{is_empty, split, join as join_parts}

-- In the order of a listing.
pub data EntryKind : Type 0 where
  directory file symlink other : EntryKind

pub record FileEntry : Type 0 where
  pub name : String
  pub kind : EntryKind
  pub size : Option ℕ

pub data FilePreview : Type 0 where
  text : (text : String) (truncated : Bool) → FilePreview
  binary : (size : ℕ) → FilePreview

abbrev pub pop : List String → List String
pop [] = []
pop (p ∷ ps) = ps

-- The parts are kept from the last one on.
unfoldable pub visit : String → List String → List String
visit part parts =
    if is_empty part || part == "." then parts else if part == ".." then pop parts else part ∷ parts

unfoldable pub collect : List String → List String → List String
collect [] parts = parts
collect (part ∷ rest) parts = collect rest (visit part parts)

unfoldable pub normalize : String → String
normalize path = "/" <> join_parts "/" (reverse (collect (split b'/' path) []))

unfoldable pub join : String → String → String
join dir name = normalize (dir <> "/" <> name)

unfoldable pub parent : String → Option String
parent path =
    let path = normalize path in if path == "/" then none else some (normalize (path <> "/.."))
