-- ===== src/Agent/Turn/Answered.antt =====
-- The transcript of a turn (crates/mc-agent/src/lib.rs): in what the agent stores all calls of
-- tools are answered.
use mobile_coder.Prelude.{
  ℕ, zero, suc, ◌≡◌, refl, ◌∙◌, subst, String, Bool, true, false, ◌&&◌, not, inl, inr, Option, some,
  List, [], ◌∷◌, Bool-cases, eqb, ◌==◌, if◌then◌else◌,
}
use mobile_coder.Json.{Json, IsLawful}
use mobile_coder.Session.{Session, push, user_text, tool_results}
use mobile_coder.Transcript.{IsValid}
use mobile_coder.Transcript.Keep.{IsPiece-append, ends_asked-append, user_text-IsPiece}
use mobile_coder.Wire.{StreamedMessage, ToolUse, tool_uses}
use mobile_coder.Wire.Calls.{IsNamed}
use mobile_coder.Agent.{AgentError, refused, cancelled, Res, ok, err, AgentConfig, Host}
use mobile_coder.Agent.Summary.{is_too_long, input_tokens, compact_now}
use mobile_coder.Agent.Stream.{stream_with_retry}
use mobile_coder.Agent.Stream.Named.{IsNamedRes, stream_with_retry-IsNamed}
use mobile_coder.Agent.Turn.{
  TurnEnd, run_calls, finish_cancelled, Next, fail_with, recompact, on_error, refuse, settle,
  answer, on_calls, on_message, on_result, round, rounds, run_turn_cancellable, max_tool_rounds,
}
use mobile_coder.Agent.Summary.Kept.{
  HasValid, HasAsked, compact_now-HasAsked, compact_if_full-HasValid,
}
use mobile_coder.Agent.Turn.ToolCalls.{stored, answered-HasAsked, plain-HasValid}

module _ (J : Json) (L : IsLawful J) (H : Host J) where
  open J use {Value}
  open H use {sandbox}

  module _ (config : AgentConfig) where
    abbrev pub is_refusal : Option AgentError → Bool
    is_refusal (some (refused category)) = true
    is_refusal _ = false

    -- A turn that was not refused ends with a valid session.
    abbrev pub EndsValid : TurnEnd J H → Type 0
    EndsValid e = is_refusal e.outcome ≡ false → HasValid J H e.session

    abbrev NextEndsValid : Next J H config → Type 0
    NextEndsValid next =
        (compacted : Bool) (s : Session Value) (w : sandbox.World)
        → HasAsked J H s
        → EndsValid (next compacted s w)

    settle-EndsValid :
        (m : StreamedMessage Value) (s : Session Value) (w : sandbox.World)
        → HasValid J H s
        → EndsValid (settle J H config m s w)
    unfolding settle
    settle-EndsValid m s w v own =
        compact_if_full-HasValid J H config s (input_tokens J m.usage) w v

    recompact-EndsValid :
        (next : Next J H config) (e : AgentError) (s : Session Value) (w : sandbox.World)
        → HasAsked J H s
        → NextEndsValid next
        → EndsValid (recompact J H config next e (compact_now J H config s w))
    unfolding recompact
    recompact-EndsValid next e s w v h =
        let c = compact_now J H config s w in
        let v' = compact_now-HasAsked J H config s w v in
        elim (Bool-cases (eqb c.dropped 0)) [
          | inl z ↦ rw z (λ own. v'.0)
          | inr z ↦ rw z (h true c.session c.world v')
        ]

    own_error-EndsValid :
        (next : Next J H config) (compacted : Bool) (e : AgentError) (s : Session Value)
        (w : sandbox.World)
        → HasAsked J H s
        → NextEndsValid next
        → EndsValid (
            if is_too_long e && not compacted
            then recompact J H config next e (compact_now J H config s w)
            else fail_with J H config e s w)
    own_error-EndsValid next compacted e s w v h =
        elim (Bool-cases (is_too_long e && not compacted)) [
          | inl z ↦ rw z (recompact-EndsValid next e s w v h)
          | inr z ↦ rw z (λ own. v.0)
        ]

    on_error-EndsValid :
        (next : Next J H config) (compacted : Bool) (e : AgentError) (s : Session Value)
        (w : sandbox.World)
        → HasAsked J H s
        → NextEndsValid next
        → EndsValid (on_error J H config next compacted e s w)
    unfolding on_error finish_cancelled
    on_error-EndsValid next compacted cancelled s w v h = λ own. v.0
    on_error-EndsValid next compacted e s w v h = own_error-EndsValid next compacted e s w v h

    answer-EndsValid :
        (next : Next J H config) (compacted : Bool) (m : StreamedMessage Value) (s : Session Value)
        (w : sandbox.World)
        → IsNamed J m.content
        → HasAsked J H s
        → NextEndsValid next
        → EndsValid (answer J H config next compacted (tool_uses J m.content) (stored J m s) w)
    unfolding answer finish_cancelled push
    answer-EndsValid next compacted m s w named v h =
        let c = run_calls J H s.id false (tool_uses J m.content) w in
        let s' = push J (tool_results J c.results) (stored J m s) in
        let v' = answered-HasAsked J L H m s w named v in
        elim (Bool-cases c.stopped) [
          | inl e ↦ rw e (λ own. v'.0)
          | inr e ↦ rw e (h compacted s' c.world v')
        ]

    on_calls-EndsValid :
        (next : Next J H config) (compacted : Bool) (m : StreamedMessage Value)
        (calls : List (ToolUse Value)) (s : Session Value) (w : sandbox.World)
        → tool_uses J m.content ≡ calls
        → IsNamed J m.content
        → HasAsked J H s
        → NextEndsValid next
        → EndsValid (on_calls J H config next compacted m calls (stored J m s) w)
    unfolding on_calls
    on_calls-EndsValid next compacted m [] s w e named v h =
        settle-EndsValid m (stored J m s) w (plain-HasValid J L H m s named e v)
    on_calls-EndsValid next compacted m (c ∷ cs) s w e named v h =
        subst (λ calls. EndsValid (answer J H config next compacted calls (stored J m s) w)) e
          (answer-EndsValid next compacted m s w named v h)

    on_message-EndsValid :
        (next : Next J H config) (compacted : Bool) (m : StreamedMessage Value) (s : Session Value)
        (w : sandbox.World)
        → IsNamed J m.content
        → HasAsked J H s
        → NextEndsValid next
        → EndsValid (on_message J H config next compacted m s w)
    unfolding on_message refuse
    on_message-EndsValid next compacted m s w named v h =
        elim (Bool-cases (m.stop_reason == "refusal")) [
          | inl e ↦ rw e (λ own. cc)
          | inr e ↦
              rw e (on_calls-EndsValid next compacted m (tool_uses J m.content) s w refl named v h)
        ]

    on_result-EndsValid :
        (next : Next J H config) (compacted : Bool) (s : Session Value) (w : sandbox.World)
        (r : Res (StreamedMessage Value))
        → IsNamedRes J L r
        → HasAsked J H s
        → NextEndsValid next
        → EndsValid (on_result J H config next compacted s w r)
    unfolding on_result
    on_result-EndsValid next compacted s w (ok m) named v h =
        on_message-EndsValid next compacted m s w named v h
    on_result-EndsValid next compacted s w (err e) named v h =
        on_error-EndsValid next compacted e s w v h

    round-EndsValid :
        (next : Next J H config) (compacted : Bool) (s : Session Value) (w : sandbox.World)
        → HasAsked J H s
        → NextEndsValid next
        → EndsValid (round J H config next compacted s w)
    unfolding round finish_cancelled
    round-EndsValid next compacted s w v h =
        let (result, events, w') = stream_with_retry J H config s w in
        elim (Bool-cases (sandbox.is_cancelled w)) [
          | inl e ↦ rw e (λ own. v.0)
          | inr e ↦ rw e (
              on_result-EndsValid next compacted s w' result
                (stream_with_retry-IsNamed J L H config s w) v h)
        ]

    rounds-EndsValid : (n : ℕ) → NextEndsValid (rounds J H config n)
    unfolding rounds
    rounds-EndsValid zero compacted s w v = λ own. v.0
    rounds-EndsValid (suc n) compacted s w v =
        round-EndsValid (rounds J H config n) compacted s w v (rounds-EndsValid n)

    -- A turn on a transcript in which the results of each turn are those of the tool calls of the
    -- turn before it, all and in order, no call is left open, a typed turn holds no results, and no
    -- assistant turn comes first or right behind another one, leaves such a transcript where the
    -- model does not refuse it, also when the turn is stopped, fails, runs out of rounds or is
    -- compacted. Other turns may stand in a row.
    pub run_turn-EndsValid :
        (s : Session Value) (prompt : String) (w : sandbox.World)
        → IsValid J s.transcript
        → is_refusal (run_turn_cancellable J H config s prompt w).outcome ≡ false
        → IsValid J (run_turn_cancellable J H config s prompt w).session.transcript
    unfolding run_turn_cancellable push
    run_turn-EndsValid s prompt w v own =
        rounds-EndsValid max_tool_rounds false (push J (user_text J prompt) s) w
          (
            IsPiece-append J false s.transcript _ v (user_text-IsPiece J L _ prompt),
            ends_asked-append J false s.transcript (user_text J prompt ∷ [])
                ∙ unfold user_text ◌==◌ in refl,
          )
          own
