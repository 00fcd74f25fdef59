-- ===== src/Library/Refined.antt =====
-- The chats on disk as a map from ids to sessions (crates/mc-core/src/library.rs, store.rs).
use mobile_coder.Prelude.{
  ℕ, String, Bool, true, false, Option, none, some, List, [], ◌∷◌, eqb, if◌then◌else◌,
}
use mobile_coder.Session.{SessionId, Session}
use mobile_coder.Library.{ChatFile, save, delete}

-- What is done to the directory. A save may fail, and has a time; a deletion may end in an error.
pub data Op (V : Type 0) : Type 0 where
  saves : (ok : Bool) (now : ℕ) (s : Session V) → Op V
  deletes : (error : Option String) → SessionId → Op V

-- What can be loaded.
abbrev pub Chats : Type 0 → Type 0
Chats V = SessionId → Option (Session V)

module _ {V : Type 0} where
  unfoldable pub run : List (Op V) → List (ChatFile V) → List (ChatFile V)
  run [] files = files
  run (saves ok now s ∷ ops) files = run ops (save ok now s files)
  run (deletes error id ∷ ops) files = run ops (delete error id files).1

  -- The same on maps.
  abbrev pub put : Bool → Session V → Chats V → Chats V
  put true s m id = if eqb s.id id then some s else m id
  put false s m id = m id

  abbrev pub remove : Option String → SessionId → Chats V → Chats V
  remove (some e) gone m id = m id
  remove none gone m id = if eqb gone id then none else m id

  unfoldable pub run_map : List (Op V) → Chats V → Chats V
  run_map [] m = m
  run_map (saves ok now s ∷ ops) m = run_map ops (put ok s m)
  run_map (deletes error id ∷ ops) m = run_map ops (remove error id m)
