-- ===== src/Agent/Stream/Events.antt =====
-- The events of a stream and its retries (crates/mc-agent/src/lib.rs) hold no part of a tool
-- call, and its errors are none that the turn has told already.
use mobile_coder.Prelude.{
  ℕ, zero, suc, String, Bool, true, false, inl, inr, Option, none, some, List, [], ◌∷◌, Bool-cases,
  ◌+◌, ◌*◌, ◌^◌,
}
use mobile_coder.Prelude.Text.{is_empty}
use mobile_coder.Json.{Json}
use mobile_coder.Session.{SessionId, Session}
use mobile_coder.Event.{Event, stream_retrying}
use mobile_coder.Event.Protocol.{Paired, Paired-append}
use mobile_coder.Wire.{
  StreamedMessage, StreamAccumulator, Emitted, nothing, text, thinking, tool_started, done, ToolUse,
  tool_uses, content_value, has_type, finish,
}
use mobile_coder.Wire as Wire
use mobile_coder.Agent.{refused, Res, err, AgentConfig, SseItem, frame, broken, Response, Host}
use mobile_coder.Agent.Summary.{is_success}
use mobile_coder.Agent.Stream.{
  retry_if, Streamed, emit, on_payload, on_parsed, consume, request_body, receive, stream_once,
  attempt_once, retry_from, stream_with_retry, transient, Round,
}

module _ (J : Json) where
  open J use {Value}

  -- An error of a stream is never a refusal, which is an answer.
  abbrev pub NotRefused : Res (StreamedMessage Value) → Type 0
  NotRefused (err (refused category)) = ⊥
  NotRefused _ = Unit

  abbrev pub IsPlain : Res (StreamedMessage Value) → List (Event Value) → Type 0
  IsPlain r events = Paired events × NotRefused r

  emit-IsPlain :
      (id : SessionId) (shown : Bool) (m : StreamedMessage Value) (e : Emitted) (rest : Streamed J)
      → IsPlain rest.0 rest.1
      → IsPlain (emit J id shown m e rest).0 (emit J id shown m e rest).1
  emit-IsPlain id shown m done rest h = (tt, tt)
  emit-IsPlain id shown m (text t) rest h = h
  emit-IsPlain id true m (thinking t) rest h = h
  emit-IsPlain id false m (thinking t) rest h = h
  emit-IsPlain id shown m nothing rest h = h
  emit-IsPlain id shown m (tool_started i n) rest h = h

  abbrev NextIsPlain : (StreamAccumulator Value → Streamed J) → Type 0
  NextIsPlain next = (a : StreamAccumulator Value) → IsPlain (next a).0 (next a).1

  on_payload-IsPlain :
      (id : SessionId) (shown : Bool) (acc : StreamAccumulator Value)
      (next : StreamAccumulator Value → Streamed J) (payload : Value)
      → NextIsPlain next
      → let r = on_payload J id shown acc next payload in IsPlain r.0 r.1
  unfolding on_payload
  on_payload-IsPlain id shown acc next payload h = elim (Bool-cases (has_type J "error" payload)) [
    | inl e ↦ rw e (tt, tt)
    | inr e ↦
        let (acc', emitted) = Wire.push J payload acc in
        rw e (emit-IsPlain id shown (finish J acc') emitted (next acc') (h acc'))
  ]

  on_parsed-IsPlain :
      (id : SessionId) (shown : Bool) (acc : StreamAccumulator Value)
      (next : StreamAccumulator Value → Streamed J) (d : String) (parsed : Option Value)
      → NextIsPlain next
      → let r = on_parsed J id shown acc next d parsed in IsPlain r.0 r.1
  unfolding on_parsed
  on_parsed-IsPlain id shown acc next d none h = (tt, tt)
  on_parsed-IsPlain id shown acc next d (some payload) h =
      on_payload-IsPlain id shown acc next payload h

  consume-IsPlain :
      (id : SessionId) (shown : Bool) (items : List SseItem) (acc : StreamAccumulator Value)
      → IsPlain (consume J id shown items acc).0 (consume J id shown items acc).1
  unfolding consume
  consume-IsPlain id shown [] acc = (tt, tt)
  consume-IsPlain id shown (SseItem.interrupted ∷ items) acc = (tt, tt)
  consume-IsPlain id shown (broken e ∷ items) acc = (tt, tt)
  consume-IsPlain id shown (frame d ∷ items) acc = elim (Bool-cases (is_empty d)) [
    | inl e ↦ rw e (consume-IsPlain id shown items acc)
    | inr e ↦ rw e (
        on_parsed-IsPlain id shown acc (consume J id shown items) d (J.parse d)
          (consume-IsPlain id shown items))
  ]

  module _ (H : Host J) (config : AgentConfig) where
    open H use {sandbox}

    abbrev IsPlainRound : Round J H config → Type 0
    IsPlainRound r = IsPlain r.0 r.1

    receive-IsPlain :
        (id : SessionId) (r : Response)
        → IsPlain (receive J H config id r).0 (receive J H config id r).1
    unfolding receive
    receive-IsPlain id (Response.unsent e) = (tt, tt)
    receive-IsPlain id Response.interrupted = (tt, tt)
    receive-IsPlain id (Response.answered status body items) =
        elim (Bool-cases (is_success status)) [
          | inl e ↦ rw e (consume-IsPlain id config.show_thinking items (Wire.new J))
          | inr e ↦ rw e (tt, tt)
        ]

    attempt_once-IsPlain :
        (s : Session Value) (w : sandbox.World) → IsPlainRound (attempt_once J H config s w)
    unfolding attempt_once stream_once
    attempt_once-IsPlain s w = elim (Bool-cases (sandbox.is_cancelled w)) [
      | inl e ↦ rw e (tt, tt)
      | inr e ↦ rw e (receive-IsPlain s.id (H.send (request_body J H config s) w).0)
    ]

    retry_if-IsPlain :
        (id : SessionId) (attempt : ℕ) (t : Option String) (first : Round J H config)
        (next : sandbox.World → Round J H config)
        → IsPlainRound first
        → ((w : sandbox.World) → IsPlainRound (next w))
        → IsPlainRound (retry_if J H config id attempt t first next)
    unfolding retry_if
    retry_if-IsPlain id attempt none first next h k = h
    retry_if-IsPlain id attempt (some reason) (result, events, w) next h k =
        let again = k (H.sleep (500 * 2 ^ attempt) w) in
        (
          Paired-append events
              (stream_retrying id attempt reason ∷ (next (H.sleep (500 * 2 ^ attempt) w)).1) h.0
              again.0,
          again.1,
        )

    retry_from-IsPlain :
        (left attempt : ℕ) (s : Session Value) (w : sandbox.World)
        → IsPlainRound (retry_from J H config left attempt s w)
    unfolding retry_from
    retry_from-IsPlain zero attempt s w = attempt_once-IsPlain s w
    retry_from-IsPlain (suc left) attempt s w =
        retry_if-IsPlain s.id (attempt + 1) (transient (attempt_once J H config s w).0)
          (attempt_once J H config s w) (retry_from J H config left (attempt + 1) s)
          (attempt_once-IsPlain s w) (retry_from-IsPlain left (attempt + 1) s)

    -- The events of a request with its retries hold no part of a tool call outside a pair, and its
    -- error is never a refusal.
    pub stream_with_retry-IsPlain :
        (s : Session Value) (w : sandbox.World)
        → IsPlain (stream_with_retry J H config s w).0 (stream_with_retry J H config s w).1
    unfolding stream_with_retry
    stream_with_retry-IsPlain s w = retry_from-IsPlain 4 0 s w
