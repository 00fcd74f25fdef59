-- ===== src/Chat.antt =====
-- crates/mc-core/src/chat.rs: the chat on the screen, reduced from the events.
pub mod Deltas
pub mod Tools
use mobile_coder.Prelude.{
  ℕ, ◌<>◌, String, Bool, true, false, Option, none, some, List, [], ◌∷◌, ◌++◌, map, first?, ◌==◌,
  eqb, ◌||◌, if◌then◌else◌,
}
use mobile_coder.Prelude.Text.{lines, show}
use mobile_coder.Json.{Json, get_str, str_or, blocks_of}
use mobile_coder.Session.{Turn, Session}
use mobile_coder.Event.{
  Event, turn_started, text_delta, thinking_delta, tool_requested, tool_completed, pty_output,
  stream_retrying, context_usage, compacted, session_opened, turn_ended,
}

pub data ToolState : Type 0 where
  running : ToolState
  succeeded : String → ToolState
  failed : String → ToolState

pub data ChatItem : Type 0 where
  user : String → ChatItem
  assistant : String → ChatItem
  thinking : String → ChatItem
  tool : (id name summary : String) → ToolState → ChatItem
  error : String → ChatItem
  notice : String → ChatItem

pub record ChatLog : Type 0 where
  pub items : List ChatItem
  pub busy : Bool
  pub context_tokens : Option ℕ

abbrev pub empty : ChatLog
empty = record { items = []; busy = false; context_tokens = none }

abbrev pub add : ChatItem → ChatLog → ChatLog
add item log = record log { items = log.items ++ item ∷ [] }

-- `match self.items.last_mut()` for a text delta.
unfoldable pub extend_text : String → List ChatItem → List ChatItem
extend_text t [] = assistant t ∷ []
extend_text t (assistant b ∷ []) = assistant (b <> t) ∷ []
extend_text t (x ∷ []) = x ∷ assistant t ∷ []
extend_text t (x ∷ y ∷ ys) = x ∷ extend_text t (y ∷ ys)

-- The same for a thinking delta.
unfoldable pub extend_thinking : String → List ChatItem → List ChatItem
extend_thinking t [] = thinking t ∷ []
extend_thinking t (thinking b ∷ []) = thinking (b <> t) ∷ []
extend_thinking t (x ∷ []) = x ∷ thinking t ∷ []
extend_thinking t (x ∷ y ∷ ys) = x ∷ extend_thinking t (y ∷ ys)

abbrev pub is_tool : String → ChatItem → Bool
is_tool id (tool t name summary state) = t == id
is_tool id _ = false

abbrev pub set_state : ToolState → ChatItem → ChatItem
set_state state (tool id name summary _) = tool id name summary state
set_state state item = item

-- `iter_mut().rev().find(…)`: the last tool call of this id gets the state.
unfoldable pub complete : String → ToolState → List ChatItem → Option (List ChatItem)
complete id state [] = none
complete id state (x ∷ xs) =
    let rest = complete id state xs in
    elim rest [
      | some xs' ↦ some (x ∷ xs')
      | none ↦ if is_tool id x then some (set_state state x ∷ xs) else none
    ]

abbrev pub completed : String → ToolState → List ChatItem → List ChatItem
completed id state items = elim (complete id state items) [ none ↦ items | some items' ↦ items' ]

abbrev pub is_streamed : ChatItem → Bool
is_streamed (assistant _) = true
is_streamed (thinking _) = true
is_streamed _ = false

abbrev pub keep_last : ChatItem → List ChatItem → List ChatItem
keep_last x [] = if is_streamed x then [] else x ∷ []
keep_last x (y ∷ ys) = x ∷ y ∷ ys

-- The loop that pops streamed items off the end.
unfoldable pub pop_streamed : List ChatItem → List ChatItem
pop_streamed [] = []
pop_streamed (x ∷ xs) = keep_last x (pop_streamed xs)

-- A tool call that is still running becomes one that was interrupted.
abbrev pub interrupt : ChatItem → ChatItem
interrupt (tool id name summary running) = tool id name summary (ToolState.failed "interrupted")
interrupt item = item

-- The arms of the match on a stop reason.
unfoldable pub end_notice : String → Option String
end_notice reason =
    if reason == "end_turn" || reason == "tool_use" || reason == "stop_sequence"
    then none
    else if reason == "cancelled"
    then some "Stopped."
    else if reason == "max_tokens"
    then some "The response hit the length limit and was cut off."
    else some ("Turn ended: " <> reason)

abbrev pub add_notice : Option String → ChatLog → ChatLog
add_notice none log = log
add_notice (some text) log = add (notice text) log

-- The literal of the source, the run of blanks in it included.
compacted_notice : ℕ → String
compacted_notice dropped =
    "Summarized "
    <> show dropped
    <> " earlier message"
    <> (if eqb dropped 1 then "" else "s")
    <> " to stay within the model's context.                      The details are in the summary now, not the transcript."

module _ (J : Json) where
  open J use {Value}

  -- The field of the input that says most, by the tool's name.
  abbrev telling_field : String → Value → Option String
  telling_field name input =
      if name == "bash"
      then get_str J input "command"
      else if name == "read_file" || name == "write_file" || name == "edit_file"
      then get_str J input "path"
      else if name == "search"
      then get_str J input "pattern"
      else none

  unfoldable pub summarise_input : String → Value → String
  summarise_input name input =
      let summary : String = elim (telling_field name input) [
        | none ↦ J.print input
        | some s ↦ s
      ] in
      elim (first? (lines summary)) [ none ↦ "" | some line ↦ line ]

  unfoldable pub apply : ChatLog → Event Value → ChatLog
  unfolding compacted_notice
  apply log (turn_started session prompt) = add (user prompt) (record log { busy = true })
  apply log (text_delta session t) = record log { items = extend_text t log.items }
  apply log (thinking_delta session t) = record log { items = extend_thinking t log.items }
  apply log (tool_requested session id name input) =
      add (tool id name (summarise_input name input) running) log
  apply log (tool_completed session id is_error output) = record log {
    items = completed id (if is_error then ToolState.failed output else succeeded output) log.items;
  }
  apply log (stream_retrying session attempt reason) =
      add
        (notice
          ("Connection interrupted (" <> reason <> "). Retrying, attempt " <> show attempt <> "."))
        (record log { items = pop_streamed log.items })
  apply log (turn_ended session reason) =
      add_notice (end_notice reason) (record log { busy = false })
  apply log (Event.failed session message) =
      add (error message) (record log { busy = false; items = map interrupt log.items })
  apply log (session_opened session) = empty
  apply log (context_usage session input_tokens output_tokens) = record log {
    context_tokens = some input_tokens;
  }
  apply log (compacted session dropped) = add (notice (compacted_notice dropped)) log
  apply log (pty_output session bytes) = log

  -- A run of events, in order.
  unfoldable pub apply_all : ChatLog → List (Event Value) → ChatLog
  apply_all log [] = log
  apply_all log (e ∷ es) = apply_all (apply log e) es

  abbrev pub result_output : Option Value → String
  result_output none = ""
  result_output (some content) = elim (J.as_str content) [ none ↦ J.print content | some s ↦ s ]

  abbrev pub result_failed : Option Value → Bool
  result_failed none = false
  result_failed (some flag) = elim (J.as_bool flag) [ none ↦ false | some b ↦ b ]

  abbrev pub input_or_null : Option Value → Value
  input_or_null none = J.null
  input_or_null (some input) = input

  -- The arms of the match on the role and the type of a block.
  unfoldable pub restore_block : ℕ → String → Value → ChatLog → ChatLog
  restore_block session role block log =
      let kind = str_or J "" block "type" in
      if role == "user"
      then (if kind == "text"
          then add (user (str_or J "" block "text")) log
          else if kind == "tool_result"
          then apply log (
              tool_completed session (str_or J "" block "tool_use_id")
                (result_failed (J.get block "is_error")) (result_output (J.get block "content")))
          else log)
      else if role == "assistant"
      then (if kind == "text"
          then add (assistant (str_or J "" block "text")) log
          else if kind == "tool_use"
          then (let name = str_or J "" block "name" in
              add
                (tool (str_or J "" block "id") name
                  (summarise_input name (input_or_null (J.get block "input"))) running)
                log)
          else log)
      else log

  unfoldable pub restore_blocks : ℕ → String → List Value → ChatLog → ChatLog
  restore_blocks session role [] log = log
  restore_blocks session role (b ∷ bs) log =
      restore_blocks session role bs (restore_block session role b log)

  unfoldable pub restore_turns : ℕ → List (Turn Value) → ChatLog → ChatLog
  restore_turns session [] log = log
  restore_turns session (t ∷ ts) log =
      restore_turns session ts (restore_blocks session t.role (blocks_of J t.content) log)

  abbrev pub opening : Option String → ChatLog
  opening none = empty
  opening (some summary) =
      add
        (notice "Earlier messages in this conversation were summarized to fit the model's context.")
        empty

  unfoldable pub from_session : Session Value → ChatLog
  unfolding restore_block restore_blocks restore_turns
  from_session s =
      let log = restore_turns s.id s.transcript (opening s.summary) in
      record log { items = map interrupt log.items }
