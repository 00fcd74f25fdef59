-- ===== src/Agent/Turn/Kept.antt =====
-- What a whole turn keeps of the world (crates/mc-agent/src/lib.rs): what its requests, its pauses
-- and the operations of its sandbox keep.
use mobile_coder.Prelude.{
  ℕ, zero, suc, ◌+◌, String, Bool, true, false, ◌&&◌, ◌||◌, not, eqb, ◌==◌, Option, none, some,
  List, [], ◌∷◌, inl, inr, Bool-cases, if◌then◌else◌,
}
use mobile_coder.Json.{Json}
use mobile_coder.Session.{SessionId, Session}
use mobile_coder.Wire.{StreamedMessage, ToolUse, tool_uses}
use mobile_coder.Tools.Kept.{Keeps, execute_cancellable-keeps}
use mobile_coder.Agent.{AgentError, cancelled, Res, ok, err, AgentConfig, Host}
use mobile_coder.Agent.Summary.{
  Compaction, compact_now, compact_if_full, compact_at, compact_with, summarize, is_too_long,
}
use mobile_coder.Agent.Stream.{
  Round, stream_once, attempt_once, retry_if, retry_from, stream_with_retry, max_stream_retries,
}
use mobile_coder.Agent.Turn.{
  TurnEnd, call_tool, run_calls, recompact, on_error, refuse, settle, answer, on_calls, on_message,
  on_result, round, rounds, run_turn_cancellable, finish_cancelled, Next, max_tool_rounds,
}

-- The operations of the sandbox, the requests and the pauses keep a predicate on the world.
pub record Holds (J : Json) (H : Host J) (I : H.sandbox.World → Type 0) : Type 0 where
  pub tools : Keeps H.sandbox I
  pub send : (body : J.Value) (w : H.sandbox.World) → I w → I (H.send body w).1
  pub ask : (body : J.Value) (w : H.sandbox.World) → I w → I (H.ask body w).1
  pub sleep : (ms : ℕ) (w : H.sandbox.World) → I w → I (H.sleep ms w)

module _ (J : Json) (H : Host J) (I : H.sandbox.World → Type 0) (K : Holds J H I) where
  open J use {Value}
  open H use {sandbox}

  call_tool-keeps :
      (halted : Bool) (call : ToolUse Value) (w : sandbox.World)
      → I w
      → I (call_tool J H halted call w).2
  unfolding call_tool
  call_tool-keeps halted call w h = elim (Bool-cases (halted || sandbox.is_cancelled w)) [
    | inl e ↦ rw e h
    | inr e ↦ rw e (execute_cancellable-keeps J sandbox I K.tools call.name call.input w h)
  ]

  run_calls-keeps :
      (id : SessionId) (halted : Bool) (calls : List (ToolUse Value)) (w : sandbox.World)
      → I w
      → I (run_calls J H id halted calls w).world
  unfolding run_calls
  run_calls-keeps id halted [] w h = h
  run_calls-keeps id halted (call ∷ calls) w h =
      run_calls-keeps id (call_tool J H halted call w).1 calls _ (call_tool-keeps halted call w h)

  module _ (config : AgentConfig) where
    attempt_once-keeps :
        (s : Session Value) (w : sandbox.World) → I w → I (attempt_once J H config s w).2
    unfolding attempt_once stream_once
    attempt_once-keeps s w h = elim (Bool-cases (sandbox.is_cancelled w)) [
      | inl e ↦ rw e h
      | inr e ↦ rw e (K.send _ w h)
    ]

    retry_if-keeps :
        (id : SessionId) (attempt : ℕ) (reason : Option String) (first : Round J H config)
        (next : sandbox.World → Round J H config)
        → I first.2
        → ((w : sandbox.World) → I w → I (next w).2)
        → I (retry_if J H config id attempt reason first next).2
    unfolding retry_if
    retry_if-keeps id attempt none first next h k = h
    retry_if-keeps id attempt (some reason) (result, events, w) next h k = k _ (K.sleep _ w h)

    retry_from-keeps :
        (left attempt : ℕ) (s : Session Value) (w : sandbox.World)
        → I w
        → I (retry_from J H config left attempt s w).2
    unfolding retry_from
    retry_from-keeps zero attempt s w h = attempt_once-keeps s w h
    retry_from-keeps (suc left) attempt s w h =
        retry_if-keeps s.id (attempt + 1) _ _ _ (attempt_once-keeps s w h)
          (λ w' h'. retry_from-keeps left (attempt + 1) s w' h')

    compact_with-keeps :
        (s : Session Value) (cut : ℕ) (summary : Res String) (w : sandbox.World)
        → I w
        → I (compact_with J H config s cut (summary, w)).world
    unfolding compact_with
    compact_with-keeps s cut (err e) w h = h
    compact_with-keeps s cut (ok text) w h = h

    compact_at-keeps :
        (s : Session Value) (w : sandbox.World) (cut : Option ℕ)
        → I w
        → I (compact_at J H config s w cut).world
    unfolding compact_at summarize
    compact_at-keeps s w none h = h
    compact_at-keeps s w (some cut) h = compact_with-keeps s cut _ _ (K.ask _ w h)

    compact_now-keeps :
        (s : Session Value) (w : sandbox.World) → I w → I (compact_now J H config s w).world
    unfolding compact_now
    compact_now-keeps s w h = compact_at-keeps s w _ h

    kept_if : (b : Bool) (d e : TurnEnd J H) → I d.world → I e.world → I (if b then d else e).world
    kept_if true d e p q = p
    kept_if false d e p q = q

    compact_if_full-keeps :
        (s : Session Value) (used : Option ℕ) (w : sandbox.World)
        → I w
        → I (compact_if_full J H config s used w).world
    unfolding compact_if_full
    compact_if_full-keeps s used w h =
        kept_compaction _ (compact_now J H config s w) _ (compact_now-keeps s w h) h
      where
        kept_compaction :
            (b : Bool) (c d : Compaction J H config)
            → I c.world
            → I d.world
            → I (if b then c else d).world
        kept_compaction true c d p q = p
        kept_compaction false c d p q = q

    NextKeeps : Next J H config → Type 0
    NextKeeps next =
        (compacted : Bool) (s : Session Value) (w : sandbox.World)
        → I w
        → I (next compacted s w).world

    recompact-keeps :
        (next : Next J H config) (e : AgentError) (c : Compaction J H config)
        → NextKeeps next
        → I c.world
        → I (recompact J H config next e c).world
    unfolding recompact NextKeeps
    recompact-keeps next e c k h = kept_if (eqb c.dropped 0) _ _ h (k true c.session c.world h)

    on_error-keeps :
        (next : Next J H config) (compacted : Bool) (e : AgentError) (s : Session Value)
        (w : sandbox.World)
        → NextKeeps next
        → I w
        → I (on_error J H config next compacted e s w).world
    unfolding on_error finish_cancelled
    on_error-keeps next compacted cancelled s w k h = h
    on_error-keeps next compacted e s w k h =
        kept_if (is_too_long e && not compacted) _ _
          (recompact-keeps next e _ k (compact_now-keeps s w h)) h

    answer-keeps :
        (next : Next J H config) (compacted : Bool) (calls : List (ToolUse Value))
        (s : Session Value) (w : sandbox.World)
        → NextKeeps next
        → I w
        → I (answer J H config next compacted calls s w).world
    unfolding answer finish_cancelled NextKeeps
    answer-keeps next compacted calls s w k h =
        let done = run_calls-keeps s.id false calls w h in kept_if _ _ _ done (k _ _ _ done)

    on_calls-keeps :
        (next : Next J H config) (compacted : Bool) (message : StreamedMessage Value)
        (calls : List (ToolUse Value)) (s : Session Value) (w : sandbox.World)
        → NextKeeps next
        → I w
        → I (on_calls J H config next compacted message calls s w).world
    unfolding on_calls settle
    on_calls-keeps next compacted message [] s w k h = compact_if_full-keeps s _ w h
    on_calls-keeps next compacted message (call ∷ calls) s w k h =
        answer-keeps next compacted (call ∷ calls) s w k h

    on_result-keeps :
        (next : Next J H config) (compacted : Bool) (s : Session Value) (w : sandbox.World)
        (result : Res (StreamedMessage Value))
        → NextKeeps next
        → I w
        → I (on_result J H config next compacted s w result).world
    unfolding on_result on_message refuse
    on_result-keeps next compacted s w (ok message) k h =
        kept_if (message.stop_reason == "refusal") _ _ h
          (on_calls-keeps next compacted message (tool_uses J message.content) _ w k h)
    on_result-keeps next compacted s w (err e) k h = on_error-keeps next compacted e s w k h

    rounds-keeps : (n : ℕ) → NextKeeps (rounds J H config n)
    unfolding NextKeeps rounds round stream_with_retry finish_cancelled
    rounds-keeps zero compacted s w h = h
    rounds-keeps (suc n) compacted s w h = kept_if (sandbox.is_cancelled w) _ _ h (
        on_result-keeps (rounds J H config n) compacted s _ _ (rounds-keeps n)
          (retry_from-keeps max_stream_retries 0 s w h))

    -- What the requests, the pauses and the operations of the sandbox keep is kept by a turn.
    pub run_turn-keeps :
        (s : Session Value) (prompt : String) (w : sandbox.World)
        → I w
        → I (run_turn_cancellable J H config s prompt w).world
    unfolding run_turn_cancellable NextKeeps
    run_turn-keeps s prompt w h = rounds-keeps max_tool_rounds false _ w h
