-- ===== src/Agent/Turn.antt =====
-- `run_turn_cancellable` of crates/mc-agent/src/lib.rs: the rounds of a turn and its tool calls.
pub mod ToolCalls
pub mod Idle
pub mod Answered
pub mod Confined
pub mod Kept
use mobile_coder.Prelude.{
  ℕ, zero, suc, ◌%◌, ◌^◌, String, Bool, true, false, ◌&&◌, ◌||◌, not, Option, none, some, List, [],
  ◌∷◌, ◌++◌, eqb, ◌==◌, if◌then◌else◌, ◌>>=◌,
}
use mobile_coder.Json.{Json, get_str}
use mobile_coder.Session.{SessionId, Session, push, user_text, assistant, tool_results}
use mobile_coder.Event.{
  Event, turn_started, tool_requested, tool_completed, context_usage, turn_ended, failed,
}
use mobile_coder.Tools.{execute_cancellable}
use mobile_coder.Tools.Commands.{ToolOutcome, stopped as not_run}
use mobile_coder.Wire.{StreamedMessage, ToolUse, tool_uses, content_value}
use mobile_coder.Agent.{AgentError, refused, runaway, cancelled, Res, ok, err, AgentConfig, Host}
use mobile_coder.Agent.Summary.{is_too_long, input_tokens, Compaction, compact_now, compact_if_full}
use mobile_coder.Agent.Stream.{stream_with_retry}

abbrev pub max_tool_rounds : ℕ
max_tool_rounds = 64

module _ (J : Json) (H : Host J) where
  open J use {Value}
  open H use {sandbox}

  -- How a turn ends: an error or none, what it left, and the events that it emitted.
  pub record TurnEnd : Type 0 where
    pub outcome : Option AgentError
    pub session : Session Value
    pub events : List (Event Value)
    pub world : sandbox.World

  pub record Calls : Type 0 where
    pub results : List Value
    pub events : List (Event Value)
    pub stopped : Bool
    pub world : sandbox.World

  abbrev pub after : List (Event Value) → TurnEnd → TurnEnd
  after events e = record e { events = events ++ e.events }

  unfoldable pub result_block : ToolUse Value → ToolOutcome → Value
  result_block call outcome = J.object (
      ("type", J.string "tool_result")
      ∷ ("tool_use_id", J.string call.id)
      ∷ ("content", J.string outcome.text)
      ∷ ("is_error", J.boolean outcome.is_error)
      ∷ [])

  -- A call, unless the turn was stopped: its outcome, whether it is stopped, and the world.
  unfoldable pub call_tool :
      Bool → ToolUse Value → sandbox.World → ToolOutcome × Bool × sandbox.World
  call_tool halted call w =
      let (outcome, w') = execute_cancellable J sandbox call.name call.input w in
      if halted || sandbox.is_cancelled w then (not_run, true, w) else (outcome, false, w')

  -- The loop over the calls of one message.
  unfoldable pub run_calls : SessionId → Bool → List (ToolUse Value) → sandbox.World → Calls
  run_calls id halted [] w = record { results = []; events = []; stopped = halted; world = w }
  run_calls id halted (call ∷ calls) w =
      let (outcome, halted', w') = call_tool halted call w in
      let rest = run_calls id halted' calls w' in
      record {
        results = result_block call outcome ∷ rest.results;
        events =
            tool_requested id call.id call.name call.input
            ∷ tool_completed id call.id outcome.is_error outcome.text
            ∷ rest.events;
        stopped = rest.stopped;
        world = rest.world;
      }

  module _ (config : AgentConfig) where
    unfoldable pub usage_event : SessionId → Value → Option ℕ → List (Event Value)
    usage_event id usage none = []
    usage_event id usage (some n) =
        let output : ℕ = elim (J.get usage "output_tokens" >>= J.as_u64) [
          | none ↦ 0
          | some m ↦ m % 2 ^ 32
        ] in
        context_usage id n output ∷ []

    unfoldable pub usage_events : SessionId → Value → List (Event Value)
    usage_events id usage = usage_event id usage (input_tokens J usage)

    unfoldable pub finish_cancelled : Session Value → sandbox.World → TurnEnd
    finish_cancelled s w = record {
      outcome = none;
      session = s;
      events = turn_ended s.id "cancelled" ∷ [];
      world = w;
    }

    abbrev pub fail_with : AgentError → Session Value → sandbox.World → TurnEnd
    fail_with e s w = record { outcome = some e; session = s; events = []; world = w }

    -- The next round: whether a compaction was tried, the session and the world.
    abbrev pub Next : Type 0
    Next = Bool → Session Value → sandbox.World → TurnEnd

    unfoldable pub recompact : Next → AgentError → Compaction J H config → TurnEnd
    recompact next e c =
        after c.events
          (if eqb c.dropped 0 then fail_with e c.session c.world else next true c.session c.world)

    unfoldable pub on_error : Next → Bool → AgentError → Session Value → sandbox.World → TurnEnd
    on_error next compacted cancelled s w = finish_cancelled s w
    on_error next compacted e s w =
        if is_too_long e && not compacted
        then recompact next e (compact_now J H config s w)
        else fail_with e s w

    unfoldable pub refuse : StreamedMessage Value → Session Value → sandbox.World → TurnEnd
    refuse message s w = record {
      outcome = some (refused (message.stop_details >>= λ d. get_str J d "category"));
      session = s;
      events = Event.failed s.id "the model declined this request" ∷ [];
      world = w;
    }

    unfoldable pub settle : StreamedMessage Value → Session Value → sandbox.World → TurnEnd
    settle message s w =
        let c = compact_if_full J H config s (input_tokens J message.usage) w in
        record {
          outcome = none;
          session = c.session;
          events = turn_ended s.id message.stop_reason ∷ c.events;
          world = c.world;
        }

    unfoldable pub answer :
        Next → Bool → List (ToolUse Value) → Session Value → sandbox.World → TurnEnd
    answer next compacted calls s w =
        let c = run_calls s.id false calls w in
        let s' = push J (tool_results J c.results) s in
        after c.events
          (if c.stopped then finish_cancelled s' c.world else next compacted s' c.world)

    unfoldable pub on_calls :
        Next
        → Bool
        → StreamedMessage Value
        → List (ToolUse Value)
        → Session Value
        → sandbox.World
        → TurnEnd
    on_calls next compacted message [] s w = settle message s w
    on_calls next compacted message (call ∷ calls) s w = answer next compacted (call ∷ calls) s w

    -- The message is stored before it is looked at.
    unfoldable pub on_message :
        Next → Bool → StreamedMessage Value → Session Value → sandbox.World → TurnEnd
    on_message next compacted message s w =
        let s' = push J (assistant J (content_value J message)) s in
        after (usage_events s.id message.usage) (
          if message.stop_reason == "refusal"
          then refuse message s' w
          else on_calls next compacted message (tool_uses J message.content) s' w)

    unfoldable pub on_result :
        Next → Bool → Session Value → sandbox.World → Res (StreamedMessage Value) → TurnEnd
    on_result next compacted s w (ok message) = on_message next compacted message s w
    on_result next compacted s w (err e) = on_error next compacted e s w

    unfoldable pub round : Next → Bool → Session Value → sandbox.World → TurnEnd
    round next compacted s w =
        let (result, events, w') = stream_with_retry J H config s w in
        if sandbox.is_cancelled w
        then finish_cancelled s w
        else after events (on_result next compacted s w' result)

    -- The `for` loop, over the rounds left.
    unfoldable pub rounds : ℕ → Next
    rounds zero compacted s w = fail_with runaway s w
    rounds (suc n) compacted s w = round (rounds n) compacted s w

    unfoldable pub run_turn_cancellable : Session Value → String → sandbox.World → TurnEnd
    run_turn_cancellable s prompt w =
        after (turn_started s.id prompt ∷ [])
          (rounds max_tool_rounds false (push J (user_text J prompt) s) w)
