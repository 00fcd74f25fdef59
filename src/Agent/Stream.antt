-- ===== src/Agent/Stream.antt =====
-- One request and its stream, and the retries, in crates/mc-agent/src/lib.rs.
pub mod Events
pub mod Named
pub mod Retries
use mobile_coder.Prelude.{
  ℕ, zero, suc, ◌+◌, ◌*◌, ◌^◌, ◌<>◌, String, Bool, true, false, ◌||◌, Option, none, some, List, [],
  ◌∷◌, ◌++◌, ◌==◌, if◌then◌else◌, ◌>>=◌,
}
use mobile_coder.Prelude.Text.{is_empty}
use mobile_coder.Json.{Json, get_str}
use mobile_coder.Session.{SessionId, Session, messages}
use mobile_coder.Event.{Event, text_delta, thinking_delta, stream_retrying}
use mobile_coder.Tools.Definitions.{definitions}
use mobile_coder.Wire.{
  StreamedMessage, StreamAccumulator, Emitted, nothing, text, thinking, tool_started, done, new,
  push, finish, has_type,
}
use mobile_coder.Agent.{
  AgentError, http, api, decode, truncated, stream_error, cancelled, Res, ok, err, AgentConfig,
  SseItem, frame, broken, Response, Host,
}
use mobile_coder.Agent.Summary.{is_success, system_blocks}

abbrev pub max_stream_retries : ℕ
max_stream_retries = 4

-- Why a result counts as a failure in transit.
unfoldable pub transient : {A : Type 0} → Res A → Option String
transient (ok a) = none
transient (err (truncated reason)) = some reason
transient (err (http e)) =
    if e.is_connect || e.is_request || e.is_timeout then some ("transport: " <> e.text) else none
transient (err _) = none

module _ (J : Json) where
  open J use {Value}

  abbrev pub Streamed : Type 0
  Streamed = Res (StreamedMessage Value) × List (Event Value)

  -- What a frame that was accumulated adds to the events of the rest.
  abbrev pub emit : SessionId → Bool → StreamedMessage Value → Emitted → Streamed → Streamed
  emit id show_thinking message done rest = (ok message, [])
  emit id show_thinking message (text t) (r, events) = (r, text_delta id t ∷ events)
  emit id show_thinking message (thinking t) (r, events) =
      (r, if show_thinking then thinking_delta id t ∷ events else events)
  emit id show_thinking message nothing rest = rest
  emit id show_thinking message (tool_started _ _) rest = rest

  pointed : Value → String → String → String
  pointed payload path d = elim (J.pointer payload path >>= J.as_str) [ none ↦ d | some s ↦ s ]

  -- The text of an `error` event.
  error_event : Value → String
  error_event payload =
      pointed payload "/error/type" "error"
      <> ": "
      <> pointed payload "/error/message" "unknown error"

  abbrev pub closed_early : String
  closed_early = "connection closed without a message_stop event"

  -- What is made of a payload; `next` goes on with the stream.
  unfoldable pub on_payload :
      SessionId
      → Bool
      → StreamAccumulator Value
      → (StreamAccumulator Value → Streamed)
      → Value
      → Streamed
  unfolding error_event pointed
  on_payload id show_thinking acc next payload =
      let (acc', emitted) = push J payload acc in
      if has_type J "error" payload
      then (err (stream_error (error_event payload)), [])
      else emit id show_thinking (finish J acc') emitted (next acc')

  unfoldable pub on_parsed :
      SessionId
      → Bool
      → StreamAccumulator Value
      → (StreamAccumulator Value → Streamed)
      → String
      → Option Value
      → Streamed
  on_parsed id show_thinking acc next d none = (err (decode (J.parse_error d)), [])
  on_parsed id show_thinking acc next d (some payload) =
      on_payload id show_thinking acc next payload

  -- The `while let` over the stream.
  unfoldable pub consume : SessionId → Bool → List SseItem → StreamAccumulator Value → Streamed
  consume id show_thinking [] acc = (err (truncated closed_early), [])
  consume id show_thinking (SseItem.interrupted ∷ items) acc = (err cancelled, [])
  consume id show_thinking (broken e ∷ items) acc = (err (truncated ("transport: " <> e)), [])
  consume id show_thinking (frame d ∷ items) acc =
      let skipped = consume id show_thinking items acc in
      if is_empty d
      then skipped
      else on_parsed id show_thinking acc (consume id show_thinking items) d (J.parse d)

  module _ (H : Host J) (config : AgentConfig) where
    open H use {sandbox}

    unfoldable pub request_body : Session Value → Value
    request_body s = J.object (
        ("model", J.string config.model)
        ∷ ("max_tokens", J.number config.max_tokens)
        ∷ ("stream", J.boolean true)
        ∷ ("tools", J.array (definitions J))
        ∷ ("system", system_blocks J config.system s.summary)
        ∷ (
          "thinking",
          J.object (
              ("type", J.string "adaptive")
              ∷ ("display", J.string (if config.show_thinking then "summarized" else "omitted"))
              ∷ []),
        )
        ∷ ("output_config", J.object (("effort", J.string config.effort) ∷ []))
        ∷ ("messages", J.array (messages J s))
        ∷ [])

    unfoldable pub receive : SessionId → Response → Streamed
    receive id (Response.unsent e) = (err (http e), [])
    receive id Response.interrupted = (err cancelled, [])
    receive id (Response.answered status body items) =
        if is_success status
        then consume id config.show_thinking items (new J)
        else (err (api status body), [])

    abbrev pub Round : Type 0
    Round = Res (StreamedMessage Value) × List (Event Value) × sandbox.World

    unfoldable pub stream_once : Session Value → sandbox.World → Round
    unfolding receive
    stream_once s w =
        let (response, w') = H.send (request_body s) w in
        let (result, events) = receive s.id response in (result, events, w')

    -- The `select!`, which is biased: a stop that was pressed before wins over the request.
    unfoldable pub attempt_once : Session Value → sandbox.World → Round
    attempt_once s w =
        let streamed = stream_once s w in
        if sandbox.is_cancelled w then (err cancelled, [], w) else streamed

    -- What follows a result: it stands, or the retry is announced and made after a pause.
    unfoldable pub retry_if :
        SessionId → ℕ → Option String → Round → (sandbox.World → Round) → Round
    retry_if id attempt none first next = first
    retry_if id attempt (some reason) (result, events, w) next =
        let (result', events', w') = next (H.sleep (500 * 2 ^ attempt) w) in
        (result', events ++ stream_retrying id attempt reason ∷ events', w')

    -- The loop; the first argument is how many retries are left, `max_stream_retries - attempt`.
    unfoldable pub retry_from : ℕ → ℕ → Session Value → sandbox.World → Round
    retry_from zero attempt s w = attempt_once s w
    retry_from (suc left) attempt s w =
        let first = attempt_once s w in
        retry_if s.id (attempt + 1) (transient first.0) first (retry_from left (attempt + 1) s)

    unfoldable pub stream_with_retry : Session Value → sandbox.World → Round
    stream_with_retry s w = retry_from max_stream_retries 0 s w
