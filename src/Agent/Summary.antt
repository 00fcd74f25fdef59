-- ===== src/Agent/Summary.antt =====
-- Compaction, in crates/mc-agent/src/lib.rs: the summary of the turns that are dropped.
pub mod Kept
pub mod Told
use Prim.Native.String.{count}
use mobile_coder.Prelude.{
  ℕ, ◌-◌, ◌*◌, ◌/◌, ◌%◌, ◌^◌, ◌<>◌, String, Bool, false, ◌&&◌, ◌||◌, Option, none, some, List, [],
  ◌∷◌, keep, filter_map, take, any, leb, ltb, eqb, ◌==◌, if◌then◌else◌, ◌>>=◌, not,
}
use mobile_coder.Prelude.Text.{show, trim, is_empty, take_chars, skip_chars, join, contains_lower}
use mobile_coder.Json.{Json, get_str, str_or, blocks_of}
use mobile_coder.Session.{Turn, Session, compaction_cut, compact}
use mobile_coder.Event.{Event, compacted}
use mobile_coder.Wire.{has_type}
use mobile_coder.Agent.{
  AgentError, http, api, truncated, Res, ok, err, AgentConfig, Reply, unsent, answered, Host,
}

abbrev summary_max_tokens : ℕ
summary_max_tokens = 1024

abbrev max_summary_input_chars : ℕ
max_summary_input_chars = 40000

abbrev max_summary_block_chars : ℕ
max_summary_block_chars = 2000

summary_system : String
summary_system =
    "You are compacting a coding session so it can continue within a smaller context. Write a dense factual summary of the excerpt below, for the assistant that will carry on the work. Keep: what the user asked for, decisions taken and why, file paths and names, commands that worked, errors and how they were resolved, and anything still unfinished. Drop pleasantries and narration. No preamble - start with the summary itself."

summary_prefix : String
summary_prefix =
    "Earlier parts of this conversation were summarized to stay within the context window. Treat the following as what was said, and do not claim to remember more than it contains:"

unfoldable pub clamp : String → ℕ → String
clamp text most =
    let n = count text in
    if leb n most
    then text
    else (let head = take_chars (most * 2 / 3) text in
        let tail = skip_chars (n - most / 3) text in
        head
        <> "\n\n… "
        <> show (n - count head - count tail)
        <> " characters omitted …\n\n"
        <> tail)

abbrev needles : List String
needles =
    "prompt is too long" ∷ "too long" ∷ "context length" ∷ "context_length" ∷ "maximum context" ∷ []

unfoldable pub is_too_long : AgentError → Bool
is_too_long (api status body) =
    (eqb status 400 || eqb status 413) && any (λ needle. contains_lower body needle) needles
is_too_long _ = false

unfoldable pub is_success : ℕ → Bool
is_success status = leb 200 status && ltb status 300

module _ (J : Json) where
  open J use {Value}

  mark_last : List Value → List Value
  mark_last [] = []
  mark_last (t ∷ []) =
      J.insert t "cache_control" (J.object (("type", J.string "ephemeral") ∷ [])) ∷ []
  mark_last (t ∷ u ∷ ts) = t ∷ mark_last (u ∷ ts)

  abbrev text_block : String → Value
  text_block text = J.object (("type", J.string "text") ∷ ("text", J.string text) ∷ [])

  abbrev summary_blocks : Option String → List Value
  summary_blocks none = []
  summary_blocks (some summary) = text_block (summary_prefix <> "\n\n" <> summary) ∷ []

  unfoldable pub system_blocks : String → Option String → Value
  unfolding mark_last summary_prefix
  system_blocks system summary = J.array (mark_last (text_block system ∷ summary_blocks summary))

  unfoldable pub input_tokens : Value → Option ℕ
  input_tokens usage = J.get usage "input_tokens" >>= J.as_u64 >>= λ n. some (n % 2 ^ 32)

  text_of : Value → String
  text_of payload = elim (J.get payload "content" >>= J.as_array) [
    | none ↦ ""
    | some blocks ↦ join "" (filter_map (λ b. get_str J b "text") (keep (has_type J "text") blocks))
  ]

  abbrev result_text : Option Value → String
  result_text none = ""
  result_text (some content) = elim (J.as_str content) [ none ↦ J.print content | some s ↦ s ]

  abbrev input_text : Option Value → String
  input_text none = ""
  input_text (some input) = J.print input

  -- The line of one block; thinking and the like have none.
  summary_line : String → Value → Option String
  summary_line role block =
      let kind = str_or J "" block "type" in
      if kind == "text"
      then some
          ((if role == "user" then "User" else "Assistant") <> ": " <> str_or J "" block "text")
      else if kind == "tool_use"
      then some (
          "Assistant ran "
          <> str_or J "a tool" block "name"
          <> ": "
          <> input_text (J.get block "input"))
      else if kind == "tool_result"
      then some ("Result: " <> result_text (J.get block "content"))
      else none

  add_line : Option String → String → String
  add_line none out = out
  add_line (some line) out = out <> clamp line max_summary_block_chars <> "\n\n"

  add_blocks : String → List Value → String → String
  add_blocks role [] out = out
  add_blocks role (b ∷ bs) out = add_blocks role bs (add_line (summary_line role b) out)

  add_turns : List (Turn Value) → String → String
  add_turns [] out = out
  add_turns (t ∷ ts) out = add_turns ts (add_blocks t.role (blocks_of J t.content) out)

  abbrev preface : Option String → String
  preface none = ""
  preface (some previous) =
      "Summary of the conversation before this excerpt:\n" <> previous <> "\n\n"

  unfoldable pub render_for_summary : Option String → List (Turn Value) → String
  unfolding add_turns add_blocks add_line summary_line
  render_for_summary previous turns =
      clamp (add_turns turns (preface previous <> "Conversation excerpt:\n\n"))
        max_summary_input_chars

  module _ (H : Host J) (config : AgentConfig) where
    open H use {sandbox}

    summary_body : Session Value → ℕ → Value
    summary_body s cut = J.object (
        ("model", J.string config.model)
        ∷ ("max_tokens", J.number summary_max_tokens)
        ∷ ("stream", J.boolean false)
        ∷ ("system", J.array (text_block summary_system ∷ []))
        ∷ (
          "messages",
          J.array (
              J.object (
                ("role", J.string "user")
                ∷ (
                  "content",
                  J.array (text_block (render_for_summary s.summary (take cut s.transcript)) ∷ []),
                )
                ∷ [])
              ∷ []),
        )
        ∷ [])

    checked_summary : String → Res String
    checked_summary summary =
        if is_empty (trim summary)
        then err (truncated "the summary came back empty")
        else ok summary

    read_reply : Reply → Res String
    read_reply (unsent e) = err (http e)
    read_reply (answered status body) =
        if not (is_success status) then err (api status body) else elim (J.parse body) [
          | none ↦ err (
              http (record {
                is_connect = false;
                is_request = false;
                is_timeout = false;
                text = J.parse_error body;
              }))
          | some payload ↦ checked_summary (text_of payload)
        ]

    unfoldable pub summarize : Session Value → ℕ → sandbox.World → Res String × sandbox.World
    unfolding summary_body read_reply checked_summary summary_system text_of
    summarize s cut w = let (reply, w') = H.ask (summary_body s cut) w in (read_reply reply, w')

    pub record Compaction : Type 0 where
      pub dropped : ℕ
      pub session : Session Value
      pub events : List (Event Value)
      pub world : sandbox.World

    unfoldable pub compact_with : Session Value → ℕ → Res String × sandbox.World → Compaction
    compact_with s cut (err e, w) = record { dropped = 0; session = s; events = []; world = w }
    compact_with s cut (ok summary, w) =
        let (s', dropped) = compact J cut summary s in
        record { dropped = dropped; session = s'; events = compacted s.id dropped ∷ []; world = w }

    unfoldable pub compact_at : Session Value → sandbox.World → Option ℕ → Compaction
    compact_at s w none = record { dropped = 0; session = s; events = []; world = w }
    compact_at s w (some cut) = compact_with s cut (summarize s cut w)

    unfoldable pub compact_now : Session Value → sandbox.World → Compaction
    compact_now s w = compact_at s w (compaction_cut J s config.keep_recent_turns)

    unfoldable pub compact_if_full : Session Value → Option ℕ → sandbox.World → Compaction
    compact_if_full s used w =
        let full : Bool = elim used [ none ↦ false | some n ↦ leb config.compact_at_tokens n ] in
        if full
        then compact_now s w
        else record { dropped = 0; session = s; events = []; world = w }
