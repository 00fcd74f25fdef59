-- ===== src/Agent/Stream/Retries.antt =====
-- The retries of a request (crates/mc-agent/src/lib.rs): how many there are, how they are numbered
-- and when they end.
use mobile_coder.Prelude.{
  ℕ, zero, suc, ◌≡◌, refl, ap, ◌∙◌, String, Bool, true, false, inl, inr, Option, none, some, List,
  [], ◌∷◌, ◌++◌, arith, Bool-cases, ◌+◌, ◌*◌, ◌^◌, ◌≤◌, ◌<◌, All, filter_map,
}
use mobile_coder.Prelude.Text.{is_empty}
use mobile_coder.Json.{Json}
use mobile_coder.Session.{SessionId, Session}
use mobile_coder.Event.{Event, text_delta, thinking_delta, stream_retrying}
use mobile_coder.Chat.Deltas.{IsDelta}
use mobile_coder.Wire.{
  StreamedMessage, StreamAccumulator, Emitted, nothing, text, thinking, tool_started, done,
  has_type, finish,
}
use mobile_coder.Wire as Wire
use mobile_coder.Agent.{AgentConfig, SseItem, frame, broken, Response, Host}
use mobile_coder.Agent.Summary.{is_success}
use mobile_coder.Agent.Stream.{
  retry_if, Streamed, emit, on_payload, on_parsed, consume, request_body, receive, stream_once,
  attempt_once, retry_from, stream_with_retry, transient, Round,
}

module _ (J : Json) where
  open J use {Value}

  abbrev pub AllDeltas : List (Event Value) → Type 0
  AllDeltas = All (IsDelta J)

  emit-AllDeltas :
      (id : SessionId) (shown : Bool) (m : StreamedMessage Value) (e : Emitted) (rest : Streamed J)
      → AllDeltas rest.1
      → AllDeltas (emit J id shown m e rest).1
  emit-AllDeltas id shown m done rest h = tt
  emit-AllDeltas id shown m (text t) rest h = (tt, h)
  emit-AllDeltas id true m (thinking t) rest h = (tt, h)
  emit-AllDeltas id false m (thinking t) rest h = h
  emit-AllDeltas id shown m nothing rest h = h
  emit-AllDeltas id shown m (tool_started i n) rest h = h

  on_payload-AllDeltas :
      (id : SessionId) (shown : Bool) (acc : StreamAccumulator Value)
      (next : StreamAccumulator Value → Streamed J) (payload : Value)
      → ((a : StreamAccumulator Value) → AllDeltas (next a).1)
      → AllDeltas (on_payload J id shown acc next payload).1
  unfolding on_payload
  on_payload-AllDeltas id shown acc next payload h =
      elim (Bool-cases (has_type J "error" payload)) [
        | inl e ↦ rw e tt
        | inr e ↦
            let (acc', emitted) = Wire.push J payload acc in
            rw e (emit-AllDeltas id shown (finish J acc') emitted (next acc') (h acc'))
      ]

  on_parsed-AllDeltas :
      (id : SessionId) (shown : Bool) (acc : StreamAccumulator Value)
      (next : StreamAccumulator Value → Streamed J) (d : String) (parsed : Option Value)
      → ((a : StreamAccumulator Value) → AllDeltas (next a).1)
      → AllDeltas (on_parsed J id shown acc next d parsed).1
  unfolding on_parsed
  on_parsed-AllDeltas id shown acc next d none h = tt
  on_parsed-AllDeltas id shown acc next d (some payload) h =
      on_payload-AllDeltas id shown acc next payload h

  consume-AllDeltas :
      (id : SessionId) (shown : Bool) (items : List SseItem) (acc : StreamAccumulator Value)
      → AllDeltas (consume J id shown items acc).1
  unfolding consume
  consume-AllDeltas id shown [] acc = tt
  consume-AllDeltas id shown (SseItem.interrupted ∷ items) acc = tt
  consume-AllDeltas id shown (broken e ∷ items) acc = tt
  consume-AllDeltas id shown (frame d ∷ items) acc = elim (Bool-cases (is_empty d)) [
    | inl e ↦ rw e (consume-AllDeltas id shown items acc)
    | inr e ↦ rw e (
        on_parsed-AllDeltas id shown acc (consume J id shown items) d (J.parse d)
          (consume-AllDeltas id shown items))
  ]

  attempt_of : Event Value → Option ℕ
  attempt_of (stream_retrying session attempt reason) = some attempt
  attempt_of _ = none

  -- The numbers of the retries that are announced.
  unfoldable pub attempts : List (Event Value) → List ℕ
  unfolding attempt_of
  attempts events = filter_map attempt_of events

  attempts-deltas :
      (events rest : List (Event Value))
      → AllDeltas events
      → attempts (events ++ rest) ≡ attempts rest
  unfolding attempts
  attempts-deltas [] rest h = refl
  attempts-deltas (text_delta s t ∷ es) rest (d, h) = attempts-deltas es rest h
  attempts-deltas (thinking_delta s t ∷ es) rest (d, h) = attempts-deltas es rest h
  attempts-deltas (_ ∷ es) rest (d, h) = absurd d

  no_attempts-deltas : (events : List (Event Value)) → AllDeltas events → attempts events ≡ []
  unfolding attempts
  no_attempts-deltas [] h = refl
  no_attempts-deltas (text_delta s t ∷ es) (d, h) = no_attempts-deltas es h
  no_attempts-deltas (thinking_delta s t ∷ es) (d, h) = no_attempts-deltas es h
  no_attempts-deltas (_ ∷ es) (d, h) = absurd d

  module _ (H : Host J) (config : AgentConfig) where
    open H use {sandbox}

    receive-AllDeltas : (id : SessionId) (r : Response) → AllDeltas (receive J H config id r).1
    unfolding receive
    receive-AllDeltas id (Response.unsent e) = tt
    receive-AllDeltas id Response.interrupted = tt
    receive-AllDeltas id (Response.answered status body items) =
        elim (Bool-cases (is_success status)) [
          | inl e ↦ rw e (consume-AllDeltas id config.show_thinking items (Wire.new J))
          | inr e ↦ rw e tt
        ]

    attempt_once-AllDeltas :
        (s : Session Value) (w : sandbox.World) → AllDeltas (attempt_once J H config s w).1
    unfolding attempt_once stream_once
    attempt_once-AllDeltas s w = elim (Bool-cases (sandbox.is_cancelled w)) [
      | inl e ↦ rw e tt
      | inr e ↦ rw e (receive-AllDeltas s.id (H.send (request_body J H config s) w).0)
    ]

    abbrev pub count_up : ℕ → ℕ → List ℕ
    count_up from zero = []
    count_up from (suc n) = from ∷ count_up (from + 1) n

    -- The retries that were announced are numbered on without a gap, there are no more than are
    -- left, and where there are fewer the result is no failure in transit.
    abbrev pub IsBounded : ℕ → ℕ → Round J H config → Type 0
    IsBounded left attempt r =
        (n : ℕ) × (n ≤ left)
        × (attempts r.1 ≡ count_up (attempt + 1) n)
        × (n < left → transient r.0 ≡ none)

    attempts-stream_retrying :
        (id : SessionId) (attempt : ℕ) (reason : String) (rest : List (Event Value)) (n : ℕ)
        → attempts rest ≡ count_up (attempt + 1) n
        → attempts (stream_retrying id attempt reason ∷ rest) ≡ count_up attempt (suc n)
    unfolding attempts
    attempts-stream_retrying id attempt reason rest n k = ap (λ l. attempt ∷ l) k

    retry_if-IsBounded :
        (id : SessionId) (left attempt : ℕ) (t : Option String) (first : Round J H config)
        (next : sandbox.World → Round J H config)
        → transient first.0 ≡ t
        → AllDeltas first.1
        → ((w : sandbox.World) → IsBounded left (attempt + 1) (next w))
        → IsBounded (suc left) attempt (retry_if J H config id (attempt + 1) t first next)
    unfolding retry_if
    retry_if-IsBounded id left attempt none first next e d h =
        (0, omega arith, no_attempts-deltas first.1 d, λ fewer. e)
    retry_if-IsBounded id left attempt (some reason) (result, events, w) next e d h =
        let w' = H.sleep (500 * 2 ^ (attempt + 1)) w in
        let (n, few, numbered, over) = h w' in
        (
          suc n,
          omega arith,
          attempts-deltas events (stream_retrying id (attempt + 1) reason ∷ (next w').1) d
              ∙ attempts-stream_retrying id (attempt + 1) reason (next w').1 n numbered,
          λ fewer. over (omega arith),
        )

    retry_from-IsBounded :
        (left attempt : ℕ) (s : Session Value) (w : sandbox.World)
        → IsBounded left attempt (retry_from J H config left attempt s w)
    unfolding retry_from
    retry_from-IsBounded zero attempt s w = (
      0,
      omega arith,
      no_attempts-deltas _ (attempt_once-AllDeltas s w),
      λ fewer. absurd (omega arith),
    )
    retry_from-IsBounded (suc left) attempt s w =
        retry_if-IsBounded s.id left attempt _ (attempt_once J H config s w)
          (retry_from J H config left (attempt + 1) s) refl (attempt_once-AllDeltas s w)
          (retry_from-IsBounded left (attempt + 1) s)

    -- Whatever the server does, a request is retried four times at most, the retries are announced
    -- as 1, 2 and so on, and where there are fewer than four the result is no failure in transit.
    pub stream_with_retry-IsBounded :
        (s : Session Value) (w : sandbox.World)
        → (n : ℕ) × (n ≤ 4)
          × (attempts (stream_with_retry J H config s w).1 ≡ count_up 1 n)
          × (n < 4 → transient (stream_with_retry J H config s w).0 ≡ none)
    unfolding stream_with_retry
    stream_with_retry-IsBounded s w = retry_from-IsBounded 4 0 s w
