-- ===== src/Wire.antt =====
-- crates/mc-agent/src/wire.rs: a message rebuilt from the events of its stream.
pub mod Data
pub mod Calls
pub mod Chunks
use mobile_coder.Prelude.{
  ℕ, suc, zero, ◌+◌, ◌<>◌, String, Bool, true, false, Option, none, some, List, [], ◌∷◌, ◌++◌, map,
  length, get_elem?, set, leb, ◌==◌, if◌then◌else◌, keep, filter_map, ◌>>=◌, unwrap_or,
}
use mobile_coder.Json.{Json, get_str, str_or}
unfoldable pub use mobile_coder.Wire.Data.*

module _ (J : Json) where
  open J use {Value}

  unfoldable pub as_tool_use : Value → Option (ToolUse Value)
  as_tool_use b = get_str J b "id" >>= λ id. get_str J b "name" >>= λ name.
      some (record { id = id; name = name; input = unwrap_or (J.object []) (J.get b "input") })

  -- `get("type").and_then(Value::as_str) == Some(kind)`
  unfoldable pub has_type : String → Value → Bool
  has_type kind b = is_some_text kind (get_str J b "type")

  unfoldable pub tool_uses : List Value → List (ToolUse Value)
  tool_uses content = filter_map as_tool_use (keep (has_type "tool_use") content)

  unfoldable pub content_value : StreamedMessage Value → Value
  content_value m = J.array m.content

  unfoldable pub new : StreamAccumulator Value
  new = record {
    blocks = [];
    message = record { content = []; stop_reason = ""; stop_details = none; usage = J.null };
  }

  unfoldable pub index_of : Value → ℕ
  index_of event = elim (J.get event "index") [
    | none ↦ 0
    | some v ↦ elim (J.as_u64 v) [ none ↦ 0 | some n ↦ n ]
  ]

  abbrev pub or_empty : Option Value → Value
  or_empty none = J.object []
  or_empty (some v) = v

  unfoldable pub start_of : BlockKind → Value → Block Value
  start_of BlockKind.text raw = Block.text (str_or J "" raw "text")
  start_of BlockKind.thinking raw = Block.thinking (str_or J "" raw "thinking") ""
  start_of BlockKind.tool_use raw =
      Block.tool_use (str_or J "" raw "id") (str_or J "" raw "name") ""
  start_of BlockKind.other raw = passthrough raw

  unfoldable pub start_block : Value → Block Value
  start_block raw = start_of (block_kind (get_str J raw "type")) raw

  unfoldable pub started : Block Value → Emitted
  started (Block.tool_use id name json) = tool_started id name
  started _ = nothing

  -- What a delta makes of the block that it is for; a delta of another kind leaves it.
  unfoldable pub delta_step : DeltaKind → Value → Block Value → Block Value × Emitted
  delta_step text_delta delta (Block.text t) =
      let chunk = str_or J "" delta "text" in (Block.text (t <> chunk), Emitted.text chunk)
  delta_step thinking_delta delta (Block.thinking t signature) =
      let chunk = str_or J "" delta "thinking" in
      (Block.thinking (t <> chunk) signature, Emitted.thinking chunk)
  delta_step signature_delta delta (Block.thinking t signature) =
      (Block.thinking t (signature <> str_or J "" delta "signature"), nothing)
  delta_step input_json_delta delta (Block.tool_use id name json) =
      (Block.tool_use id name (json <> str_or J "" delta "partial_json"), nothing)
  delta_step _ delta block = (block, nothing)

  insert_all : Value → List (String × Value) → Value
  insert_all target [] = target
  insert_all target ((k, v) ∷ fields) = insert_all (J.insert target k v) fields

  unfoldable pub merge : Value → Value → Value
  unfolding insert_all
  merge target incoming = elim (J.as_object target) [
    | none ↦ incoming
    | some old ↦ elim (J.as_object incoming) [
      | none ↦ incoming
      | some fields ↦ insert_all target fields
    ]
  ]

  abbrev pub set_reason : Value → StreamedMessage Value → StreamedMessage Value
  set_reason event m = elim (J.pointer event "/delta/stop_reason" >>= J.as_str) [
    | none ↦ m
    | some reason ↦ record m { stop_reason = reason }
  ]

  abbrev pub set_details : Value → StreamedMessage Value → StreamedMessage Value
  set_details event m = elim (J.pointer event "/delta/stop_details") [
    | none ↦ m
    | some details ↦ if J.is_null details then m else record m { stop_details = some details }
  ]

  abbrev pub merge_usage : Value → StreamedMessage Value → StreamedMessage Value
  merge_usage event m = elim (J.get event "usage") [
    | none ↦ m
    | some usage ↦ record m { usage = merge m.usage usage }
  ]

  abbrev pub start_usage : Value → StreamedMessage Value → StreamedMessage Value
  start_usage event m = elim (J.pointer event "/message/usage") [
    | none ↦ m
    | some usage ↦ record m { usage = usage }
  ]

  unfoldable pub on_message_start : Value → StreamAccumulator Value → StreamAccumulator Value
  on_message_start event a = record a { message = start_usage event a.message }

  unfoldable pub on_block_start :
      Value → StreamAccumulator Value → StreamAccumulator Value × Emitted
  on_block_start event a =
      let block = start_block (or_empty (J.get event "content_block")) in
      (record a { blocks = put (index_of event) block a.blocks }, started block)

  -- `self.blocks.get_mut(index).and_then(Option::as_mut)` and the match on it.
  unfoldable pub delta_at :
      ℕ
      → Value
      → Option (Option (Block Value))
      → StreamAccumulator Value
      → StreamAccumulator Value × Emitted
  delta_at index delta (some (some block)) a =
      let (block', emitted) = delta_step (delta_kind (str_or J "" delta "type")) delta block in
      (record a { blocks = set a.blocks index (some block') }, emitted)
  delta_at index delta _ a = (a, nothing)

  unfoldable pub on_block_delta :
      Value → StreamAccumulator Value → StreamAccumulator Value × Emitted
  on_block_delta event a =
      delta_at (index_of event) (or_empty (J.get event "delta"))
        (get_elem? a.blocks (index_of event)) a

  unfoldable pub on_message_delta : Value → StreamAccumulator Value → StreamAccumulator Value
  on_message_delta event a = record a {
    message = merge_usage event (set_details event (set_reason event a.message));
  }

  unfoldable pub dispatch :
      EventKind → Value → StreamAccumulator Value → StreamAccumulator Value × Emitted
  dispatch message_start event a = (on_message_start event a, nothing)
  dispatch block_start event a = on_block_start event a
  dispatch block_delta event a = on_block_delta event a
  dispatch message_delta event a = (on_message_delta event a, nothing)
  dispatch message_stop event a = (a, done)
  dispatch EventKind.other event a = (a, nothing)

  unfoldable pub push : Value → StreamAccumulator Value → StreamAccumulator Value × Emitted
  push event a = dispatch (event_kind (get_str J event "type")) event a

  -- A block in the shape of the API.
  unfoldable pub render : Block Value → Value
  render (Block.text t) = J.object (("type", J.string "text") ∷ ("text", J.string t) ∷ [])
  render (Block.thinking t signature) = J.object (
      ("type", J.string "thinking")
      ∷ ("thinking", J.string t)
      ∷ ("signature", J.string signature)
      ∷ [])
  render (Block.tool_use id name json) = J.object (
      ("type", J.string "tool_use")
      ∷ ("id", J.string id)
      ∷ ("name", J.string name)
      ∷ ("input", unwrap_or (J.object []) (J.parse json))
      ∷ [])
  render (passthrough v) = v

  unfoldable pub finish : StreamAccumulator Value → StreamedMessage Value
  finish a = record (a.message) { content = map render (present a.blocks) }
