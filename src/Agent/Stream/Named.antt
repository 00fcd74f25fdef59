-- ===== src/Agent/Stream/Named.antt =====
-- The messages that a stream gives, with all retries (crates/mc-agent/src/lib.rs): the agent sees
-- every call in them.
use mobile_coder.Prelude.{
  ℕ, zero, suc, String, Bool, inl, inr, Option, none, some, List, [], ◌∷◌, Bool-cases, All, ◌+◌,
  ◌*◌, ◌^◌,
}
use mobile_coder.Prelude.Text.{is_empty}
use mobile_coder.Json.{Json, IsLawful}
use mobile_coder.Session.{SessionId, Session}
use mobile_coder.Wire.{
  StreamedMessage, StreamAccumulator, Emitted, nothing, text, thinking, tool_started, done, ToolUse,
  tool_uses, content_value, has_type, finish,
}
use mobile_coder.Wire as Wire
use mobile_coder.Agent.{Res, ok, err, AgentConfig, SseItem, frame, broken, Response, Host}
use mobile_coder.Agent.Summary.{is_success}
use mobile_coder.Agent.Stream.{
  retry_if, Streamed, emit, on_payload, on_parsed, consume, request_body, receive, stream_once,
  attempt_once, retry_from, stream_with_retry, transient, Round,
}
use mobile_coder.Wire.Calls.{IsProper, push-IsProper, IsNamed, finish-IsNamed}

module _ (J : Json) (L : IsLawful J) where
  open J use {Value}

  -- A message in which the agent sees every call.
  abbrev pub IsNamedRes : Res (StreamedMessage Value) → Type 0
  IsNamedRes (ok m) = IsNamed J m.content
  IsNamedRes (err e) = Unit

  emit-IsNamed :
      (id : SessionId) (shown : Bool) (m : StreamedMessage Value) (e : Emitted) (rest : Streamed J)
      → IsNamed J m.content
      → IsNamedRes rest.0
      → IsNamedRes (emit J id shown m e rest).0
  emit-IsNamed id shown m done rest k h = k
  emit-IsNamed id shown m (text t) rest k h = h
  emit-IsNamed id shown m (thinking t) rest k h = h
  emit-IsNamed id shown m nothing rest k h = h
  emit-IsNamed id shown m (tool_started i n) rest k h = h

  abbrev AllProper : StreamAccumulator Value → Type 0
  AllProper a = All (IsProper J) a.blocks

  abbrev NextIsNamed : (StreamAccumulator Value → Streamed J) → Type 0
  NextIsNamed next = (a : StreamAccumulator Value) → AllProper a → IsNamedRes (next a).0

  on_payload-IsNamed :
      (id : SessionId) (shown : Bool) (acc : StreamAccumulator Value)
      (next : StreamAccumulator Value → Streamed J) (payload : Value)
      → AllProper acc
      → NextIsNamed next
      → IsNamedRes (on_payload J id shown acc next payload).0
  unfolding on_payload
  on_payload-IsNamed id shown acc next payload p h =
      elim (Bool-cases (has_type J "error" payload)) [
        | inl e ↦ rw e tt
        | inr e ↦
            let (acc', emitted) = Wire.push J payload acc in
            let p' = push-IsProper J payload acc p in
            rw e (
              emit-IsNamed id shown (finish J acc') emitted (next acc') (finish-IsNamed J L acc' p')
                (h acc' p'))
      ]

  on_parsed-IsNamed :
      (id : SessionId) (shown : Bool) (acc : StreamAccumulator Value)
      (next : StreamAccumulator Value → Streamed J) (d : String) (parsed : Option Value)
      → AllProper acc
      → NextIsNamed next
      → IsNamedRes (on_parsed J id shown acc next d parsed).0
  unfolding on_parsed
  on_parsed-IsNamed id shown acc next d none p h = tt
  on_parsed-IsNamed id shown acc next d (some payload) p h =
      on_payload-IsNamed id shown acc next payload p h

  consume-IsNamed :
      (id : SessionId) (shown : Bool) (items : List SseItem) (acc : StreamAccumulator Value)
      → AllProper acc
      → IsNamedRes (consume J id shown items acc).0
  unfolding consume
  consume-IsNamed id shown [] acc p = tt
  consume-IsNamed id shown (SseItem.interrupted ∷ items) acc p = tt
  consume-IsNamed id shown (broken e ∷ items) acc p = tt
  consume-IsNamed id shown (frame d ∷ items) acc p = elim (Bool-cases (is_empty d)) [
    | inl e ↦ rw e (consume-IsNamed id shown items acc p)
    | inr e ↦ rw e (
        on_parsed-IsNamed id shown acc (consume J id shown items) d (J.parse d) p
          (consume-IsNamed id shown items))
  ]

  module _ (H : Host J) (config : AgentConfig) where
    open H use {sandbox}

    receive-IsNamed : (id : SessionId) (r : Response) → IsNamedRes (receive J H config id r).0
    unfolding receive Wire.new
    receive-IsNamed id (Response.unsent e) = tt
    receive-IsNamed id Response.interrupted = tt
    receive-IsNamed id (Response.answered status body items) =
        elim (Bool-cases (is_success status)) [
          | inl e ↦ rw e (consume-IsNamed id config.show_thinking items (Wire.new J) tt)
          | inr e ↦ rw e tt
        ]

    attempt_once-IsNamed :
        (s : Session Value) (w : sandbox.World) → IsNamedRes (attempt_once J H config s w).0
    unfolding attempt_once stream_once
    attempt_once-IsNamed s w = elim (Bool-cases (sandbox.is_cancelled w)) [
      | inl e ↦ rw e tt
      | inr e ↦ rw e (receive-IsNamed s.id (H.send (request_body J H config s) w).0)
    ]

    retry_if-IsNamed :
        (id : SessionId) (attempt : ℕ) (t : Option String) (first : Round J H config)
        (next : sandbox.World → Round J H config)
        → IsNamedRes first.0
        → ((w : sandbox.World) → IsNamedRes (next w).0)
        → IsNamedRes (retry_if J H config id attempt t first next).0
    unfolding retry_if
    retry_if-IsNamed id attempt none first next h k = h
    retry_if-IsNamed id attempt (some reason) (result, events, w) next h k =
        k (H.sleep (500 * 2 ^ attempt) w)

    retry_from-IsNamed :
        (left attempt : ℕ) (s : Session Value) (w : sandbox.World)
        → IsNamedRes (retry_from J H config left attempt s w).0
    unfolding retry_from
    retry_from-IsNamed zero attempt s w = attempt_once-IsNamed s w
    retry_from-IsNamed (suc left) attempt s w =
        retry_if-IsNamed s.id (attempt + 1) (transient (attempt_once J H config s w).0)
          (attempt_once J H config s w) (retry_from J H config left (attempt + 1) s)
          (attempt_once-IsNamed s w) (retry_from-IsNamed left (attempt + 1) s)

    -- In a message that the stream gives, after any retries, the ids of the calls that the agent
    -- reads are those of all blocks of type tool_use, in order.
    pub stream_with_retry-IsNamed :
        (s : Session Value) (w : sandbox.World) → IsNamedRes (stream_with_retry J H config s w).0
    unfolding stream_with_retry
    stream_with_retry-IsNamed s w = retry_from-IsNamed 4 0 s w
