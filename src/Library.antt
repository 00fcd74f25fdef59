-- ===== src/Library.antt =====
-- crates/mc-core/src/library.rs and store.rs: the chats on disk, one file for each. The directory is
-- a list of its `.json` files by the id that names them, with the time of the last change. What is
-- in a file is a session, or a text that does not parse as one: `to_vec` and `from_str` are those of
-- serde_json, and what they do for a session, that what was written is read back, is taken for
-- granted. Writing goes to a temporary file
-- that is renamed, so a save that fails leaves the directory as it was.
pub mod Refined
pub mod Stored
use mobile_coder.Prelude.{
  ℕ, String, Bool, true, false, Option, none, some, List, [], ◌∷◌, length, leb, eqb, not,
  if◌then◌else◌, filter_map, keep, first?,
}
use mobile_coder.Json.{Json}
use mobile_coder.Sandbox.{Ran, ok, err}
use mobile_coder.Session.{SessionId, Session, display_title}

pub data Content (V : Type 0) : Type 0 where
  readable : Session V → Content V
  unreadable : Content V

pub record ChatFile (V : Type 0) : Type 0 where
  pub name : SessionId
  pub content : Content V
  pub modified : ℕ

pub record SessionEntry : Type 0 where
  pub id : SessionId
  pub title : String
  pub turns : ℕ
  pub updated : ℕ

abbrev pub session_in : {V : Type 0} → Content V → Option (Session V)
session_in (readable s) = some s
session_in unreadable = none

module _ {V : Type 0} where
  unfoldable pub load : SessionId → List (ChatFile V) → Option (Session V)
  load id [] = none
  load id (f ∷ fs) = let rest = load id fs in if eqb f.name id then session_in f.content else rest

  -- Create or replace the file of an id.
  unfoldable pub write : SessionId → Content V → ℕ → List (ChatFile V) → List (ChatFile V)
  write id content now [] = record { name = id; content = content; modified = now } ∷ []
  write id content now (f ∷ fs) =
      let rest = write id content now fs in
      if eqb f.name id then record f { content = content; modified = now } ∷ fs else f ∷ rest

  -- The save succeeds or fails as a whole.
  unfoldable pub save : Bool → ℕ → Session V → List (ChatFile V) → List (ChatFile V)
  save true now s files = write s.id (readable s) now files
  save false now s files = files

  -- The error is one that `remove_file` gives, other than that there is no such file, which is none
  -- here.
  unfoldable pub delete :
      Option String → SessionId → List (ChatFile V) → Ran Unit × List (ChatFile V)
  delete (some e) id files = (err e, files)
  delete none id files = (ok tt, keep (λ f. not (eqb f.name id)) files)

  -- The file of an older version is taken over, and removed where that succeeded.
  unfoldable pub adopt :
      Bool → ℕ → Option (Content V) → List (ChatFile V) → List (ChatFile V) × Option (Content V)
  adopt saved now none files = (files, none)
  adopt saved now (some unreadable) files = (files, some unreadable)
  adopt saved now (some (readable s)) files =
      (save saved now s files, if saved then none else some (readable s))

insert_entry : SessionEntry → List SessionEntry → List SessionEntry
insert_entry e [] = e ∷ []
insert_entry e (f ∷ fs) =
    let rest = insert_entry e fs in if leb f.updated e.updated then e ∷ f ∷ fs else f ∷ rest

-- `sort_by_key` with `Reverse(updated)`, from the back, so that equal times keep their order.
sort_entries : List SessionEntry → List SessionEntry
sort_entries [] = []
sort_entries (e ∷ es) = insert_entry e (sort_entries es)

module _ (J : Json) where
  open J use {Value}

  entry_of : ChatFile Value → Option SessionEntry
  entry_of f = elim (session_in f.content) [
    | none ↦ none
    | some s ↦ some (record {
      id = s.id;
      title = display_title J s;
      turns = length s.transcript;
      updated = f.modified;
    })
  ]

  unfoldable pub list : List (ChatFile Value) → List SessionEntry
  unfolding sort_entries insert_entry entry_of
  list files = sort_entries (filter_map entry_of files)

  unfoldable pub most_recent : List (ChatFile Value) → Option (Session Value)
  unfolding list
  most_recent files = elim (first? (list files)) [ none ↦ none | some e ↦ load e.id files ]
