-- ===== src/Transcript.antt =====
-- How the turns of a conversation belong together, as crates/mc-core/src/session.rs and
-- crates/mc-agent/src/lib.rs state it: the calls of an assistant turn are answered, all and in
-- order, by the results of the turn behind it, and results stand nowhere else; and no assistant turn
-- comes first or right behind another one. That the roles alternate is stated there too; here two
-- turns of the user may stand in a row.
pub mod Keep
use mobile_coder.Prelude.{
  ◌≡◌, refl, sym, subst, ◌∙◌, ap, String, Bool, true, false, not, Option, none, some, List, [], ◌∷◌,
  ◌++◌, All, map, filter_map, keep, ◌==◌, if◌then◌else◌,
}
use mobile_coder.Json.{Json, IsLawful, get_str, blocks_of, get_str-object, blocks_of-array}
use mobile_coder.Session.{Turn, is_typed, user_text, assistant, tool_results}
use mobile_coder.Wire.{has_type}

module _ (J : Json) where
  open J use {Value}

  -- The ids in the blocks of a type.
  unfoldable pub ids_in : (kind field : String) → List Value → List String
  ids_in kind field blocks = filter_map (λ b. get_str J b field) (keep (has_type J kind) blocks)

  unfoldable pub request_ids : Turn Value → List String
  request_ids t =
      if t.role == "assistant" then ids_in "tool_use" "id" (blocks_of J t.content) else []

  unfoldable pub result_ids : Turn Value → List String
  result_ids t =
      if t.role == "user" then ids_in "tool_result" "tool_use_id" (blocks_of J t.content) else []

  -- The turns answer the calls that are due, and each other's, to the last.
  abbrev pub Answers : List String → List (Turn Value) → Type 0
  Answers due [] = due ≡ []
  Answers due (t ∷ ts) = (result_ids t ≡ due) × Answers (request_ids t) ts

  -- A turn that counts as typed holds no results, so that a transcript may begin with it.
  abbrev pub IsShaped : Turn Value → Type 0
  IsShaped t = is_typed J t ≡ true → result_ids t ≡ []

  abbrev pub is_assistant : Turn Value → Bool
  is_assistant t = t.role == "assistant"

  -- An assistant turn stands right behind a turn that is none; the flag is whether there is one
  -- before the first.
  abbrev pub Asks : Bool → List (Turn Value) → Type 0
  Asks asked [] = Unit
  Asks asked (t ∷ ts) = (is_assistant t ≡ true → asked ≡ true) × Asks (not (is_assistant t)) ts

  -- Whether the last turn is no assistant turn.
  abbrev pub ends_asked : Bool → List (Turn Value) → Bool
  ends_asked asked [] = asked
  ends_asked asked (t ∷ ts) = ends_asked (not (is_assistant t)) ts

  pub record IsPiece (is_asked : Bool) (ts : List (Turn Value)) : Type 0 where
    pub answered : Answers [] ts
    pub shaped : All IsShaped ts
    pub asked : Asks is_asked ts

  -- A whole conversation: no assistant turn comes first.
  abbrev pub IsValid : List (Turn Value) → Type 0
  IsValid ts = IsPiece false ts
