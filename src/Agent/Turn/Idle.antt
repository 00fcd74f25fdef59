-- ===== src/Agent/Turn/Idle.antt =====
-- The events of a turn (crates/mc-agent/src/lib.rs): tool calls are announced and completed in
-- pairs, and a turn that ends without an error of its own has said so.
use mobile_coder.Prelude.{
  ℕ, zero, suc, ◌≡◌, refl, ◌∙◌, String, Bool, true, false, ◌&&◌, not, inl, inr, Option, none, some,
  List, [], ◌∷◌, Bool-cases, eqb, ◌==◌, if◌then◌else◌,
}
use mobile_coder.Json.{Json}
use mobile_coder.Session.{SessionId, Session, push, user_text, assistant, tool_results}
use mobile_coder.Event.{Event, turn_started}
use mobile_coder.Event.Protocol.{busy_after, busy_after-append, Paired, Paired-append}
use mobile_coder.Wire.{StreamedMessage, ToolUse, tool_uses, content_value}
use mobile_coder.Agent.{AgentError, refused, runaway, cancelled, Res, ok, err, AgentConfig, Host}
use mobile_coder.Agent.Summary.{is_too_long, input_tokens, compact_now}
use mobile_coder.Agent.Summary.Told.{compact_now-events, compact_if_full-events}
use mobile_coder.Agent.Stream.{stream_with_retry}
use mobile_coder.Agent.Stream.Events.{NotRefused, stream_with_retry-IsPlain}
use mobile_coder.Agent.Turn.{
  usage_event, fail_with, on_calls, on_result, TurnEnd, after, call_tool, run_calls, usage_events,
  finish_cancelled, Next, recompact, on_error, refuse, settle, answer, on_message, round, rounds,
  run_turn_cancellable,
}

-- What a turn tells the user by itself: that it ended, or that the model declined.
abbrev pub is_reported : Option AgentError → Bool
is_reported none = true
is_reported (some (refused category)) = true
is_reported (some _) = false

module _ (J : Json) (H : Host J) where
  open J use {Value}
  open H use {sandbox}

  run_calls-Paired :
      (id : SessionId) (halted : Bool) (calls : List (ToolUse Value)) (w : sandbox.World)
      → Paired (run_calls J H id halted calls w).events
  unfolding run_calls
  run_calls-Paired id halted [] w = tt
  run_calls-Paired id halted (call ∷ calls) w =
      let (outcome, halted', w') = call_tool J H halted call w in
      (refl, run_calls-Paired id halted' calls w')

  -- The promise that the events of a turn keep.
  pub record IsClosed (e : TurnEnd J H) : Type 0 where
    pub paired : Paired e.events
    pub ends : is_reported e.outcome ≡ true → (b : Bool) → busy_after b e.events ≡ false

  module _ (config : AgentConfig) where
    usage_event-Paired :
        (id : SessionId) (usage : Value) (n : Option ℕ) → Paired (usage_event J H config id usage n)
    unfolding usage_event
    usage_event-Paired id usage none = tt
    usage_event-Paired id usage (some n) = tt

    usage_events-Paired :
        (id : SessionId) (usage : Value) → Paired (usage_events J H config id usage)
    unfolding usage_events
    usage_events-Paired id usage = usage_event-Paired id usage (input_tokens J usage)

    abbrev NextIsClosed : Next J H config → Type 0
    NextIsClosed next =
        (compacted : Bool) (s : Session Value) (w : sandbox.World) → IsClosed (next compacted s w)

    after-IsClosed :
        (events : List (Event Value)) (e : TurnEnd J H)
        → Paired events
        → IsClosed e
        → IsClosed (after J H events e)
    after-IsClosed events e h c = record {
      paired = Paired-append events e.events h c.paired;
      ends = λ r b. busy_after-append b events e.events ∙ c.ends r (busy_after b events);
    }

    finish_cancelled-IsClosed :
        (s : Session Value) (w : sandbox.World) → IsClosed (finish_cancelled J H config s w)
    unfolding finish_cancelled
    finish_cancelled-IsClosed s w = record { paired = tt; ends = λ r b. refl }

    -- An error that the turn leaves to its caller to tell.
    fail_with-IsClosed :
        (e : AgentError) (s : Session Value) (w : sandbox.World)
        → is_reported (some e) ≡ false
        → IsClosed (fail_with J H config e s w)
    fail_with-IsClosed e s w h = record { paired = tt; ends = λ r b. cc }

    refuse-IsClosed :
        (m : StreamedMessage Value) (s : Session Value) (w : sandbox.World)
        → IsClosed (refuse J H config m s w)
    unfolding refuse
    refuse-IsClosed m s w = record { paired = tt; ends = λ r b. refl }

    settle-IsClosed :
        (m : StreamedMessage Value) (s : Session Value) (w : sandbox.World)
        → IsClosed (settle J H config m s w)
    unfolding settle
    settle-IsClosed m s w =
        let (p, q) = compact_if_full-events J H config s (input_tokens J m.usage) w in
        record { paired = p; ends = λ r b. q }

    answer-IsClosed :
        (next : Next J H config) (compacted : Bool) (calls : List (ToolUse Value))
        (s : Session Value) (w : sandbox.World)
        → NextIsClosed next
        → IsClosed (answer J H config next compacted calls s w)
    unfolding answer
    answer-IsClosed next compacted calls s w h =
        let c = run_calls J H s.id false calls w in
        let s' = push J (tool_results J c.results) s in
        after-IsClosed c.events _ (run_calls-Paired s.id false calls w)
          (elim (Bool-cases c.stopped) [
            | inl e ↦ rw e (finish_cancelled-IsClosed s' c.world)
            | inr e ↦ rw e (h compacted s' c.world)
          ])

    on_calls-IsClosed :
        (next : Next J H config) (compacted : Bool) (m : StreamedMessage Value)
        (calls : List (ToolUse Value)) (s : Session Value) (w : sandbox.World)
        → NextIsClosed next
        → IsClosed (on_calls J H config next compacted m calls s w)
    unfolding on_calls
    on_calls-IsClosed next compacted m [] s w h = settle-IsClosed m s w
    on_calls-IsClosed next compacted m (c ∷ cs) s w h =
        answer-IsClosed next compacted (c ∷ cs) s w h

    on_message-IsClosed :
        (next : Next J H config) (compacted : Bool) (m : StreamedMessage Value) (s : Session Value)
        (w : sandbox.World)
        → NextIsClosed next
        → IsClosed (on_message J H config next compacted m s w)
    unfolding on_message
    on_message-IsClosed next compacted m s w h =
        let s' = push J (assistant J (content_value J m)) s in
        after-IsClosed (usage_events J H config s.id m.usage) _ (usage_events-Paired s.id m.usage)
          (elim (Bool-cases (m.stop_reason == "refusal")) [
            | inl e ↦ rw e (refuse-IsClosed m s' w)
            | inr e ↦ rw e (on_calls-IsClosed next compacted m (tool_uses J m.content) s' w h)
          ])

    recompact-IsClosed :
        (next : Next J H config) (e : AgentError) (s : Session Value) (w : sandbox.World)
        → is_reported (some e) ≡ false
        → NextIsClosed next
        → IsClosed (recompact J H config next e (compact_now J H config s w))
    unfolding recompact
    recompact-IsClosed next e s w own h =
        let c = compact_now J H config s w in
        after-IsClosed c.events _ (compact_now-events J H config s w).0
          (elim (Bool-cases (eqb c.dropped 0)) [
            | inl z ↦ rw z (fail_with-IsClosed e c.session c.world own)
            | inr z ↦ rw z (h true c.session c.world)
          ])

    own_error-IsClosed :
        (next : Next J H config) (compacted : Bool) (e : AgentError) (s : Session Value)
        (w : sandbox.World)
        → is_reported (some e) ≡ false
        → NextIsClosed next
        → IsClosed (
            if is_too_long e && not compacted
            then recompact J H config next e (compact_now J H config s w)
            else fail_with J H config e s w)
    own_error-IsClosed next compacted e s w own h =
        elim (Bool-cases (is_too_long e && not compacted)) [
          | inl z ↦ rw z (recompact-IsClosed next e s w own h)
          | inr z ↦ rw z (fail_with-IsClosed e s w own)
        ]

    on_result-IsClosed :
        (next : Next J H config) (compacted : Bool) (s : Session Value) (w : sandbox.World)
        (r : Res (StreamedMessage Value))
        → NotRefused J r
        → NextIsClosed next
        → IsClosed (on_result J H config next compacted s w r)
    unfolding on_result on_error
    on_result-IsClosed next compacted s w (ok m) own h = on_message-IsClosed next compacted m s w h
    on_result-IsClosed next compacted s w (err cancelled) own h = finish_cancelled-IsClosed s w
    on_result-IsClosed next compacted s w (err (refused c)) own h = absurd own
    on_result-IsClosed next compacted s w (err e) own h =
        own_error-IsClosed next compacted e s w refl h

    round-IsClosed :
        (next : Next J H config) (compacted : Bool) (s : Session Value) (w : sandbox.World)
        → NextIsClosed next
        → IsClosed (round J H config next compacted s w)
    unfolding round
    round-IsClosed next compacted s w h =
        let (result, events, w') = stream_with_retry J H config s w in
        let (p, own) = stream_with_retry-IsPlain J H config s w in
        elim (Bool-cases (sandbox.is_cancelled w)) [
          | inl e ↦ rw e (finish_cancelled-IsClosed s w)
          | inr e ↦
              rw e (after-IsClosed events _ p (on_result-IsClosed next compacted s w' result own h))
        ]

    rounds-IsClosed : (n : ℕ) → NextIsClosed (rounds J H config n)
    unfolding rounds
    rounds-IsClosed zero compacted s w = fail_with-IsClosed runaway s w refl
    rounds-IsClosed (suc n) compacted s w =
        round-IsClosed (rounds J H config n) compacted s w (rounds-IsClosed n)

    -- In the events of a turn each request of a tool is followed at once by the completion of the
    -- same call and there is no other completion, and a turn that ends without an error, or
    -- refused, has told that it is over.
    pub run_turn-IsClosed :
        (s : Session Value) (prompt : String) (w : sandbox.World)
        → IsClosed (run_turn_cancellable J H config s prompt w)
    unfolding run_turn_cancellable
    run_turn-IsClosed s prompt w =
        after-IsClosed (turn_started s.id prompt ∷ []) _ tt
          (rounds-IsClosed 64 false (push J (user_text J prompt) s) w)
