-- ===== src/Wire/Data.antt =====
-- The data of crates/mc-agent/src/wire.rs: messages, blocks, what a frame emits, and their kinds.
use mobile_coder.Prelude.{
  ℕ, suc, zero, ◌+◌, String, Bool, false, Option, none, some, List, [], ◌∷◌, length, set, leb, ◌==◌,
  if◌then◌else◌,
}

pub record StreamedMessage (V : Type 0) : Type 0 where
  pub content : List V
  pub stop_reason : String
  pub stop_details : Option V
  pub usage : V

pub record ToolUse (V : Type 0) : Type 0 where
  pub id : String
  pub name : String
  pub input : V

pub data Block (V : Type 0) : Type 0 where
  text : String → Block V
  thinking : (text signature : String) → Block V
  tool_use : (id name partial_json : String) → Block V
  passthrough : V → Block V

pub record StreamAccumulator (V : Type 0) : Type 0 where
  pub blocks : List (Option (Block V))
  pub message : StreamedMessage V

pub data Emitted : Type 0 where
  nothing : Emitted
  text : String → Emitted
  thinking : String → Emitted
  tool_started : (id name : String) → Emitted
  done : Emitted

-- The arms of the matches on a `type`.
pub data EventKind : Type 0 where
  message_start block_start block_delta message_delta message_stop other : EventKind

unfoldable pub event_kind : Option String → EventKind
event_kind none = other
event_kind (some kind) =
    if kind == "message_start"
    then message_start
    else if kind == "content_block_start"
    then block_start
    else if kind == "content_block_delta"
    then block_delta
    else if kind == "message_delta"
    then message_delta
    else if kind == "message_stop"
    then message_stop
    else other

pub data BlockKind : Type 0 where
  text thinking tool_use other : BlockKind

unfoldable pub block_kind : Option String → BlockKind
block_kind none = BlockKind.other
block_kind (some kind) =
    if kind == "text"
    then BlockKind.text
    else if kind == "thinking"
    then BlockKind.thinking
    else if kind == "tool_use"
    then BlockKind.tool_use
    else BlockKind.other

pub data DeltaKind : Type 0 where
  text_delta thinking_delta signature_delta input_json_delta other : DeltaKind

unfoldable pub delta_kind : String → DeltaKind
delta_kind kind =
    if kind == "text_delta"
    then text_delta
    else if kind == "thinking_delta"
    then thinking_delta
    else if kind == "signature_delta"
    then signature_delta
    else if kind == "input_json_delta"
    then input_json_delta
    else DeltaKind.other

-- `blocks.resize(n, None)` where `n` is above the length, which `put` has tested.
unfoldable pub resize {ℓ} : {A : Type ℓ} → ℕ → List (Option A) → List (Option A)
resize zero xs = xs
resize (suc n) [] = none ∷ resize n []
resize (suc n) (x ∷ xs) = x ∷ resize n xs

unfoldable pub put {ℓ} : {A : Type ℓ} → ℕ → A → List (Option A) → List (Option A)
unfolding resize
put index block blocks =
    set (if leb (length blocks) index then resize (index + 1) blocks else blocks) index (some block)

unfoldable pub present {ℓ} : {A : Type ℓ} → List (Option A) → List A
present [] = []
present (none ∷ bs) = present bs
present (some b ∷ bs) = b ∷ present bs

abbrev pub is_some_text : String → Option String → Bool
is_some_text kind none = false
is_some_text kind (some found) = found == kind
