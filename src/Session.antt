-- ===== src/Session.antt =====
-- crates/mc-core/src/session.rs: projects, turns and sessions.
pub mod Cut
pub mod Title
use mobile_coder.Prelude.{
  ℕ, suc, zero, ◌+◌, ◌-◌, ◌<>◌, String, Bool, true, false, ◌&&◌, ◌||◌, not, Option, none, some,
  List, [], ◌∷◌, ◌++◌, map, length, get_elem?, first?, drop, any, ltb, leb, min, ◌==◌,
  if◌then◌else◌, ◌>>=◌,
}
use Prim.Native.String.{count}
use mobile_coder.Prelude.Text.{lines, trim, trim_end, take_chars, is_empty}
use mobile_coder.Json.{Json, get_str}

-- A UUID, as its 128-bit number.
abbrev pub SessionId : Type 0
SessionId = ℕ

pub record Project : Type 0 where
  pub name : String
  pub path : String

pub record Turn (V : Type 0) : Type 0 where
  pub role : String
  pub content : V

pub record Session (V : Type 0) : Type 0 where
  pub id : SessionId
  pub title : String
  pub project : Project
  pub transcript : List (Turn V)
  pub summary : Option String

abbrev pub default_title : String
default_title = "New chat"

abbrev placeholder_titles : List String
placeholder_titles = default_title ∷ "New session" ∷ []

abbrev pub title_chars : ℕ
title_chars = 48

-- The first line that is not blank.
pub first_full : List String → String
first_full [] = ""
first_full (l ∷ ls) = let rest = first_full ls in if is_empty (trim l) then rest else l

unfoldable pub clip_title : String → String
unfolding first_full
clip_title text =
    let line = trim (first_full (lines text)) in
    if leb (count line) title_chars
    then line
    else trim_end (take_chars (title_chars - 1) line) <> "…"

abbrev pub is_text_type : Option String → Bool
is_text_type none = false
is_text_type (some kind) = kind == "text"

module _ (J : Json) where
  open J use {Value}

  unfoldable pub user_text : String → Turn Value
  user_text text = record {
    role = "user";
    content = J.array (J.object (("type", J.string "text") ∷ ("text", J.string text) ∷ []) ∷ []);
  }

  unfoldable pub assistant : Value → Turn Value
  assistant content = record { role = "assistant"; content = content }

  unfoldable pub tool_results : List Value → Turn Value
  tool_results blocks = record { role = "user"; content = J.array blocks }

  -- The id is the fresh UUID that `Uuid::new_v4` gives.
  unfoldable pub new : SessionId → Project → Session Value
  new id project = record {
    id = id;
    title = default_title;
    project = project;
    transcript = [];
    summary = none;
  }

  unfoldable pub push : Turn Value → Session Value → Session Value
  push turn s = record s { transcript = s.transcript ++ turn ∷ [] }

  -- The text of the first block of a turn.
  abbrev first_text : Turn Value → Option String
  first_text turn = J.as_array turn.content >>= first? >>= λ block. get_str J block "text"

  -- `find(|turn| turn.role == "user")` on the transcript
  first_user : List (Turn Value) → Option (Turn Value)
  first_user [] = none
  first_user (t ∷ ts) = let rest = first_user ts in if t.role == "user" then some t else rest

  derived_title : Option (Turn Value) → String
  derived_title none = default_title
  derived_title (some turn) = elim (first_text turn) [
    | none ↦ default_title
    | some text ↦ clip_title text
  ]

  unfoldable pub display_title : Session Value → String
  unfolding derived_title first_user
  display_title s =
      if not (is_empty s.title) && not (any (λ t. t == s.title) placeholder_titles)
      then s.title
      else derived_title (first_user s.transcript)

  unfoldable pub message : Turn Value → Value
  message t = J.object (("role", J.string t.role) ∷ ("content", t.content) ∷ [])

  unfoldable pub messages : Session Value → List Value
  messages s = map message s.transcript

  -- The type of the first block of a turn is `text`.
  abbrev pub first_is_text : Turn Value → Bool
  first_is_text turn =
      is_text_type (J.as_array turn.content >>= first? >>= λ block. get_str J block "type")

  -- A turn that the user typed.
  unfoldable pub is_typed : Turn Value → Bool
  is_typed turn = turn.role == "user" && first_is_text turn

  abbrev pub typed_at : Option (Turn Value) → Bool
  typed_at none = false
  typed_at (some turn) = is_typed turn

  unfoldable pub is_prompt : List (Turn Value) → ℕ → Bool
  is_prompt transcript i = typed_at (get_elem? transcript i)

  -- `(1..=latest).rev().find(|&i| self.is_prompt(i))`
  unfoldable pub last_prompt : List (Turn Value) → ℕ → Option ℕ
  last_prompt transcript zero = none
  last_prompt transcript (suc i) =
      let rest = last_prompt transcript i in
      if is_prompt transcript (suc i) then some (suc i) else rest

  unfoldable pub compaction_cut : Session Value → ℕ → Option ℕ
  compaction_cut s keep_recent =
      let n = length s.transcript in
      if ltb n keep_recent then none else last_prompt s.transcript (n - keep_recent)

  -- The session after the cut, and how many turns were dropped.
  unfoldable pub compact : ℕ → String → Session Value → Session Value × ℕ
  compact cut summary s =
      let dropped = min cut (length s.transcript) in
      (record s { transcript = drop dropped s.transcript; summary = some summary }, dropped)
