-- ===== src/GuestFs.antt =====
-- The files of the guest on the host (crates/mc-sandbox/src/fs.rs). A host path is the list of its
-- names from the last one on, and what the host answers is a parameter.
pub mod Ends
pub mod Inside
pub mod Listing
pub mod Sorted
use mobile_coder.Prelude.{
  ℕ, zero, suc, ◌+◌, ◌*◌, ◌<>◌, String, Bool, true, false, not, ◌&&◌, ◌||◌, Option, none, some,
  List, [], ◌∷◌, ◌++◌, reverse, ◌==◌, eqb, ltb, if◌then◌else◌, keep, any, take, length,
}
use mobile_coder.Prelude.Text.{is_empty, split, is_prefix, join as join_parts}
use mobile_coder.Files.{normalize}
use mobile_coder.Sandbox.{Ran, ok, err}

abbrev pub HostPath : Type 0
HostPath = List String

pub record Meta : Type 0 where
  pub is_dir : Bool
  pub is_file : Bool
  pub len : ℕ

pub data FileType : Type 0 where
  dir regular link special : FileType

pub record DirEntry : Type 0 where
  pub file_name : String
  -- `metadata` and `file_type` of the entry, which follow no link
  pub entry_meta : Option Meta
  pub file_type : Option FileType

pub record HostFs : Type 0 where
  -- `fs::canonicalize`
  pub canonicalize : HostPath → Option HostPath
  -- `fs::symlink_metadata`, of which only `is_symlink` is read
  pub is_symlink : HostPath → Ran Bool
  pub read_link : HostPath → Ran String
  pub metadata : HostPath → Ran Meta
  pub read_dir : HostPath → Ran (List DirEntry)
  -- `File::open` and as many bytes at most
  pub read_start : HostPath → ℕ → Ran (List ℕ)
  -- `String::from_utf8_lossy` and `str::to_lowercase`
  pub lossy : List ℕ → String
  pub to_lowercase : String → String

pub record RootedFs : Type 0 where
  pub root : HostPath
  pub home : String

abbrev canonical : HostPath → Option HostPath → HostPath
canonical root none = root
canonical root (some found) = found

unfoldable pub new : HostFs → HostPath → String → RootedFs
new fs root home = record { root = canonical root (fs.canonicalize root); home = normalize home }

abbrev pub max_link_hops : ℕ
max_link_hops = 40

abbrev pub same_path : HostPath → HostPath → Bool
same_path [] [] = true
same_path [] (q ∷ qs) = false
same_path (p ∷ ps) [] = false
same_path (p ∷ ps) (q ∷ qs) = p == q && same_path ps qs

-- `Path::strip_prefix`, on names from the first one on.
abbrev pub strip_prefix : List String → List String → Option (List String)
strip_prefix [] path = some path
strip_prefix (r ∷ rs) [] = none
strip_prefix (r ∷ rs) (p ∷ ps) = let rest = strip_prefix rs ps in if r == p then rest else none

abbrev unwrap_path : List String → Option (List String) → List String
unwrap_path path none = path
unwrap_path path (some rest) = rest

unfoldable pub guest_of : HostPath → HostPath → String
guest_of root host =
    let path = reverse host in
    normalize (join_parts "/" (unwrap_path path (strip_prefix (reverse root) path)))

-- The names and the `..` of a link's text, as `Path::components` gives them.
unfoldable pub components : String → List String
components target = keep (λ p. not (is_empty p || p == ".")) (split b'/' target)

pub record State : Type 0 where
  pub pending : List String
  pub resolved : HostPath
  pub hops : ℕ

pub data Step : Type 0 where
  done : Ran HostPath → Step
  next : State → Step

unfoldable pub expand_below :
    HostPath → List String → Option (List String) → List String → ℕ → State
expand_below root parts none rest hops = record {
  pending = parts ++ rest;
  resolved = root;
  hops = hops;
}
expand_below root parts (some inner) rest hops = record {
  pending = inner ++ rest;
  resolved = root;
  hops = hops;
}

-- The loop goes on with what a link says: below the root where it is absolute, otherwise here.
unfoldable pub expand : HostPath → String → HostPath → List String → ℕ → State
unfolding expand_below
expand root target resolved rest hops =
    let parts = components target in
    if is_prefix "/" target
    then expand_below root parts (strip_prefix (reverse root) parts) rest hops
    else record { pending = parts ++ rest; resolved = resolved; hops = hops }

module _ (fs : HostFs) (root : HostPath) (guest : String) where
  unfoldable pub follow : Ran String → HostPath → List String → ℕ → Step
  follow (err e) resolved rest hops = done (err e)
  follow (ok target) resolved rest hops = next (expand root target resolved rest hops)

  unfoldable pub enter : Ran Bool → String → HostPath → List String → ℕ → Step
  unfolding follow
  enter (err e) part resolved rest hops = done (err (guest_of root (part ∷ resolved) <> ": " <> e))
  enter (ok false) part resolved rest hops =
      next (record { pending = rest; resolved = part ∷ resolved; hops = hops })
  enter (ok true) part resolved rest hops =
      if ltb max_link_hops (hops + 1)
      then done (err (guest <> ": too many levels of symbolic links"))
      else follow (fs.read_link (part ∷ resolved)) resolved rest (hops + 1)

  abbrev pub up : HostPath → HostPath
  up [] = []
  up (p ∷ ps) = if same_path (p ∷ ps) root then p ∷ ps else ps

  unfoldable pub checked : HostPath → Option (List String) → Ran HostPath
  checked resolved none = err (guest <> ": resolves outside the sandbox")
  checked resolved (some rest) = ok resolved

  unfoldable pub step_at : List String → HostPath → ℕ → Step
  unfolding enter checked
  step_at [] resolved hops =
      done (checked resolved (strip_prefix (reverse root) (reverse resolved)))
  step_at (part ∷ rest) resolved hops =
      if part == ".."
      then next (record { pending = rest; resolved = up resolved; hops = hops })
      else enter (fs.is_symlink (part ∷ resolved)) part resolved rest hops

  unfoldable pub after : (State → Option (Ran HostPath)) → Step → Option (Ran HostPath)
  after rest (done r) = some r
  after rest (next s) = rest s

  -- `none` stands for more rounds than the fuel.
  unfoldable pub loop : ℕ → State → Option (Ran HostPath)
  unfolding after step_at
  loop zero s = none
  loop (suc fuel) s = after (loop fuel) (step_at s.pending s.resolved s.hops)

  abbrev pub start : State
  start = record {
    pending = keep (λ p. not (is_empty p)) (split b'/' (normalize guest));
    resolved = root;
    hops = 0;
  }

  -- A link holds 4095 bytes at most, so a round takes a name away, or is one of the 40 that put in
  -- 4096 at most.
  unfoldable pub resolve : Option (Ran HostPath)
  unfolding loop
  resolve = loop (suc (length start.pending + 40 * 4097)) start
