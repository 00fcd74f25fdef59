-- ===== src/Agent/Turn/ToolCalls.antt =====
-- The tool calls of one message (crates/mc-agent/src/lib.rs) and the turns that are stored for them.
use mobile_coder.Prelude.{
  ℕ, ◌≡◌, refl, ap, ◌∙◌, sym, subst, Bool, true, false, some, List, [], ◌∷◌, ◌++◌, All, map, ◌==◌,
  append_assoc,
}
use mobile_coder.Json.{Json, IsLawful, get_str, get_str-object, blocks_of-array}
use mobile_coder.Session.{Session, Turn, push, assistant, tool_results}
use mobile_coder.Transcript.{ids_in, IsPiece, IsValid}
use mobile_coder.Transcript.Keep.{
  IsPiece-append, ends_asked-append, exchange-IsPiece, assistant-IsPiece,
}
use mobile_coder.Wire.{StreamedMessage, ToolUse, tool_uses, content_value, has_type}
use mobile_coder.Wire.Calls.{IsNamed}
use mobile_coder.Tools.Commands.{ToolOutcome, stopped}
use mobile_coder.Agent.{Host}
use mobile_coder.Agent.Turn.{result_block, call_tool, run_calls}
use mobile_coder.Agent.Summary.Kept.{HasValid, HasAsked}

module _ (J : Json) where
  open J use {Value}

  -- The message with its calls and their results behind a valid transcript.
  abbrev pub stored : StreamedMessage Value → Session Value → Session Value
  stored m s = push J (assistant J (content_value J m)) s

module _ (J : Json) (L : IsLawful J) (H : Host J) where
  open J use {Value}
  open H use {sandbox}

  result_block-has_type :
      (call : ToolUse Value) (o : ToolOutcome)
      → has_type J "tool_result" (result_block J H call o) ≡ true
  unfolding result_block has_type ◌==◌
  result_block-has_type call o = rw (get_str-object J L _ "type" refl)

  result_block-id :
      (call : ToolUse Value) (o : ToolOutcome)
      → get_str J (result_block J H call o) "tool_use_id" ≡ some call.id
  unfolding result_block ◌==◌
  result_block-id call o = get_str-object J L _ "tool_use_id" refl

  run_calls-has_type :
      (id : ℕ) (halted : Bool) (calls : List (ToolUse Value)) (w : sandbox.World)
      → All (λ r. has_type J "tool_result" r ≡ true) (run_calls J H id halted calls w).results
  unfolding run_calls
  run_calls-has_type id halted [] w = tt
  run_calls-has_type id halted (call ∷ calls) w =
      let (o, halted', w') = call_tool J H halted call w in
      (result_block-has_type call o, run_calls-has_type id halted' calls w')

  -- The results that a round stores name the ids of its calls, one each and in order, also for
  -- those that a stop kept from running.
  pub run_calls-answers :
      (id : ℕ) (halted : Bool) (calls : List (ToolUse Value)) (w : sandbox.World)
      → ids_in J "tool_result" "tool_use_id" (run_calls J H id halted calls w).results
        ≡ map (λ (u : ToolUse Value). u.id) calls
  unfolding run_calls ids_in
  run_calls-answers id halted [] w = refl
  run_calls-answers id halted (call ∷ calls) w =
      let (o, halted', w') = call_tool J H halted call w in
      rw (result_block-has_type call o, result_block-id call o)
        (ap (λ l. call.id ∷ l) (run_calls-answers id halted' calls w'))

  -- What stands behind a turn that asks is a piece of the transcript.
  behind-HasValid :
      (s : Session Value) (ts : List (Turn Value))
      → HasAsked J H s
      → IsPiece J true ts
      → IsValid J (s.transcript ++ ts)
  behind-HasValid s ts (v, asked) piece =
      IsPiece-append J false s.transcript ts v (subst (λ b. IsPiece J b ts) (sym asked) piece)

  pub answered-HasAsked :
      (m : StreamedMessage Value) (s : Session Value) (w : sandbox.World)
      → IsNamed J m.content
      → HasAsked J H s
      → HasAsked J H (
          push J
            (tool_results J (run_calls J H s.id false (tool_uses J m.content) w).results)
            (stored J m s))
  unfolding push content_value
  answered-HasAsked m s w named v =
      let c = run_calls J H s.id false (tool_uses J m.content) w in
      let ts = assistant J (J.array m.content) ∷ tool_results J c.results ∷ [] in
      rw (append_assoc s.transcript) (
        behind-HasValid s ts v (
            exchange-IsPiece J L (J.array m.content) c.results
              (run_calls-answers s.id false (tool_uses J m.content) w
                ∙ named
                ∙ ap (ids_in J "tool_use" "id") (sym (blocks_of-array J L m.content)))
              (run_calls-has_type s.id false (tool_uses J m.content) w)),
        ends_asked-append J false s.transcript ts ∙ unfold tool_results ◌==◌ in refl,
      )

  pub plain-HasValid :
      (m : StreamedMessage Value) (s : Session Value)
      → IsNamed J m.content
      → tool_uses J m.content ≡ []
      → HasAsked J H s
      → HasValid J H (stored J m s)
  unfolding push content_value
  plain-HasValid m s named no_calls v = behind-HasValid s _ v (
      assistant-IsPiece J L (J.array m.content) (
        ap (ids_in J "tool_use" "id") (blocks_of-array J L m.content)
        ∙ sym named
        ∙ ap (map (λ (u : ToolUse Value). u.id)) no_calls))

module _ (J : Json) (H : Host J) where
  open J use {Value}
  open H use {sandbox}

  -- Behind a stop no call of the message is run: the world stays as it was, the loop stays stopped,
  -- and each call is answered by the note that it was not run.
  pub run_calls-halted :
      (id : ℕ) (calls : List (ToolUse Value)) (w : sandbox.World)
      → let c = run_calls J H id true calls w in
        (c.world ≡ w)
        × (c.stopped ≡ true)
        × (c.results ≡ map (λ (u : ToolUse Value). result_block J H u stopped) calls)
  unfolding run_calls call_tool
  run_calls-halted id [] w = (refl, refl, refl)
  run_calls-halted id (call ∷ calls) w =
      let (same, halted, answered) = run_calls-halted id calls w in
      (same, halted, ap (λ l. result_block J H call stopped ∷ l) answered)
