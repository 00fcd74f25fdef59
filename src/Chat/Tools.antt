-- ===== src/Chat/Tools.antt =====
-- Tool calls in `ChatLog` (crates/mc-core/src/chat.rs): what completes them, and that none is left
-- running where a turn is over.
use mobile_coder.Prelude.{
  ◌≡◌, refl, sym, subst, ap, ◌∙◌, String, Bool, true, false, none, some, Option, List, [], ◌∷◌,
  ◌++◌, map, All, All-append, arith, ==_refl, if◌then◌else◌,
}
use mobile_coder.Json.{Json, blocks_of}
use mobile_coder.Session.{SessionId, Turn, Session}
use mobile_coder.Event.{
  Event, turn_started, text_delta, thinking_delta, tool_requested, tool_completed, pty_output,
  stream_retrying, context_usage, compacted, session_opened, turn_ended,
}
use mobile_coder.Event.Protocol.{busy_after, Paired}
use mobile_coder.Chat.{
  ToolState, running, succeeded, ChatItem, user, assistant, thinking, tool, error, notice, ChatLog,
  add, extend_text, extend_thinking, complete, add_notice, keep_last, pop_streamed, interrupt,
  end_notice, summarise_input, apply, apply_all, restore_block, restore_blocks, restore_turns,
  opening, from_session,
}

-- Not a tool call that is still running.
abbrev pub IsOver : ChatItem → Type 0
IsOver (tool id name summary running) = ⊥
IsOver _ = Unit

abbrev pub AllOver : ChatLog → Type 0
AllOver log = All IsOver log.items

interrupt-IsOver : (items : List ChatItem) → All IsOver (map interrupt items)
interrupt-IsOver [] = tt
interrupt-IsOver (tool i n s running ∷ items) = (tt, interrupt-IsOver items)
interrupt-IsOver (_ ∷ items) = (tt, interrupt-IsOver items)

extend_text-IsOver :
    (t : String) (items : List ChatItem) → All IsOver items → All IsOver (extend_text t items)
unfolding extend_text
extend_text-IsOver t [] h = (tt, tt)
extend_text-IsOver t (assistant b ∷ []) h = (tt, tt)
extend_text-IsOver t (_ ∷ []) (h, k) = (h, (tt, tt))
extend_text-IsOver t (x ∷ y ∷ ys) (h, k) = (h, extend_text-IsOver t (y ∷ ys) k)

extend_thinking-IsOver :
    (t : String) (items : List ChatItem) → All IsOver items → All IsOver (extend_thinking t items)
unfolding extend_thinking
extend_thinking-IsOver t [] h = (tt, tt)
extend_thinking-IsOver t (thinking b ∷ []) h = (tt, tt)
extend_thinking-IsOver t (_ ∷ []) (h, k) = (h, (tt, tt))
extend_thinking-IsOver t (x ∷ y ∷ ys) (h, k) = (h, extend_thinking-IsOver t (y ∷ ys) k)

keep_last-IsOver :
    (x : ChatItem) (kept : List ChatItem)
    → IsOver x
    → All IsOver kept
    → All IsOver (keep_last x kept)
keep_last-IsOver (assistant t) [] h k = tt
keep_last-IsOver (thinking t) [] h k = tt
keep_last-IsOver _ [] h k = (h, tt)
keep_last-IsOver x (y ∷ ys) h k = (h, k)

pop_streamed-IsOver : (items : List ChatItem) → All IsOver items → All IsOver (pop_streamed items)
unfolding pop_streamed
pop_streamed-IsOver [] h = tt
pop_streamed-IsOver (x ∷ xs) (h, k) =
    keep_last-IsOver x (pop_streamed xs) h (pop_streamed-IsOver xs k)

complete-push :
    (id name summary : String) (old state : ToolState) (items : List ChatItem)
    → complete id state (items ++ tool id name summary old ∷ [])
      ≡ some (items ++ tool id name summary state ∷ [])
unfolding complete
complete-push id name summary old state [] = rw (==_refl id)
complete-push id name summary old state (x ∷ xs) = rw (complete-push id name summary old state xs)

module _ (J : Json) where
  open J use {Value}

  -- A completion behind its request sets the state of that call and changes no other item, also
  -- where an earlier call has the same id.
  pub request_complete :
      (log : ChatLog) (session : SessionId) (id name : String) (input : Value) (is_error : Bool)
      (output : String)
      → apply J
          (apply J log (tool_requested session id name input))
          (tool_completed session id is_error output)
        ≡ add
            (tool id name
              (summarise_input J name input)
              (if is_error then ToolState.failed output else succeeded output))
            log
  unfolding apply
  request_complete log session id name input is_error output = ground (
    arith,
    complete-push id name (summarise_input J name input) running
        (if is_error then ToolState.failed output else succeeded output) log.items,
  )

  outcome-IsOver :
      (id name summary : String) (is_error : Bool) (output : String)
      → IsOver
          (tool id name summary (if is_error then ToolState.failed output else succeeded output))
  outcome-IsOver id name summary true output = tt
  outcome-IsOver id name summary false output = tt

  notice_of_end-AllOver :
      (reason : Option String) (log : ChatLog) → AllOver log → AllOver (add_notice reason log)
  notice_of_end-AllOver none log h = h
  notice_of_end-AllOver (some text) log h =
      All-append IsOver log.items (notice text ∷ []) h (tt, tt)

  -- One event that is no part of a tool call.
  plain-AllOver :
      (log : ChatLog) (e : Event Value) → Paired (e ∷ []) → AllOver log → AllOver (apply J log e)
  unfolding apply
  plain-AllOver log (turn_started s p) d h = All-append IsOver log.items (user p ∷ []) h (tt, tt)
  plain-AllOver log (text_delta s t) d h = extend_text-IsOver t log.items h
  plain-AllOver log (thinking_delta s t) d h = extend_thinking-IsOver t log.items h
  plain-AllOver log (tool_requested s id n i) d h = absurd d
  plain-AllOver log (tool_completed s id e o) d h = absurd d
  plain-AllOver log (pty_output s b) d h = h
  plain-AllOver log (stream_retrying s n r) d h =
      All-append IsOver (pop_streamed log.items) (notice _ ∷ []) (pop_streamed-IsOver log.items h)
        (tt, tt)
  plain-AllOver log (context_usage s n m) d h = h
  plain-AllOver log (compacted s n) d h = All-append IsOver log.items (notice _ ∷ []) h (tt, tt)
  plain-AllOver log (session_opened s) d h = tt
  plain-AllOver log (turn_ended s r) d h =
      notice_of_end-AllOver (end_notice r) (record log { busy = false }) h
  plain-AllOver log (Event.failed s m) d h =
      All-append IsOver (map interrupt log.items) (error m ∷ []) (interrupt-IsOver log.items)
        (tt, tt)

  pair-AllOver :
      (log : ChatLog) (s s' : SessionId) (id id' n : String) (i : Value) (e : Bool) (o : String)
      → id ≡ id'
      → AllOver log
      → AllOver (apply J (apply J log (tool_requested s id n i)) (tool_completed s' id' e o))
  unfolding apply
  pair-AllOver log s s' id id' n i e o same h =
      subst
        (λ k. AllOver (apply J (apply J log (tool_requested s id n i)) (tool_completed s' k e o)))
        same
        (subst AllOver (sym (request_complete log s id n i e o)) (
          All-append IsOver log.items (tool id n (summarise_input J n i) _ ∷ []) h
            (outcome-IsOver id n (summarise_input J n i) e o, tt)))

  -- Events in which each request is completed at once leave no tool running.
  pub Paired-AllOver :
      (log : ChatLog) (es : List (Event Value))
      → Paired es
      → AllOver log
      → AllOver (apply_all J log es)
  unfolding apply_all
  Paired-AllOver log [] p h = h
  Paired-AllOver log (tool_requested s id n i ∷ []) p h = absurd p
  Paired-AllOver log (tool_requested s id n i ∷ tool_completed s' id' e o ∷ es) (same, p) h =
      Paired-AllOver (apply J (apply J log (tool_requested s id n i)) (tool_completed s' id' e o))
        es p (pair-AllOver log s s' id id' n i e o same h)
  Paired-AllOver log (tool_requested s id n i ∷ _ ∷ es) p h = absurd p
  Paired-AllOver log (tool_completed s id e o ∷ es) p h = absurd p
  Paired-AllOver log (e ∷ es) p h = Paired-AllOver (apply J log e) es p (plain-AllOver log e tt h)

  notice_of_end-busy :
      (reason : Option String) (log : ChatLog) → (add_notice reason log).busy ≡ log.busy
  notice_of_end-busy none log = refl
  notice_of_end-busy (some text) log = refl

  -- After any events the log is busy exactly where the last event that starts or ends a turn starts
  -- one, or where there is none and it was busy before.
  pub apply_all-busy :
      (log : ChatLog) (es : List (Event Value)) → (apply_all J log es).busy ≡ busy_after log.busy es
  unfolding apply_all apply
  apply_all-busy log [] = refl
  apply_all-busy log (turn_ended s r ∷ es) =
      apply_all-busy (apply J log (turn_ended s r)) es
      ∙ ap (λ b. busy_after b es) (notice_of_end-busy (end_notice r) (record log { busy = false }))
  apply_all-busy log (e ∷ es) = apply_all-busy (apply J log e) es

  restore_block-busy :
      (session : SessionId) (role : String) (block : Value) (log : ChatLog)
      → (restore_block J session role block log).busy ≡ log.busy
  unfolding restore_block apply
  restore_block-busy session role block log = ground arith

  restore_blocks-busy :
      (session : SessionId) (role : String) (bs : List Value) (log : ChatLog)
      → (restore_blocks J session role bs log).busy ≡ log.busy
  unfolding restore_blocks
  restore_blocks-busy session role [] log = refl
  restore_blocks-busy session role (b ∷ bs) log =
      restore_blocks-busy session role bs (restore_block J session role b log)
      ∙ restore_block-busy session role b log

  restore_turns-busy :
      (session : SessionId) (ts : List (Turn Value)) (log : ChatLog)
      → (restore_turns J session ts log).busy ≡ log.busy
  unfolding restore_turns
  restore_turns-busy session [] log = refl
  restore_turns-busy session (t ∷ ts) log =
      restore_turns-busy session ts (restore_blocks J session t.role (blocks_of J t.content) log)
      ∙ restore_blocks-busy session t.role (blocks_of J t.content) log

  opening-busy : (summary : Option String) → (opening J summary).busy ≡ false
  opening-busy none = refl
  opening-busy (some t) = refl

  -- A log restored from any session is idle and shows no tool as running.
  pub from_session_idle :
      (s : Session Value) → ((from_session J s).busy ≡ false) × AllOver (from_session J s)
  unfolding from_session
  from_session_idle s = (
    restore_turns-busy s.id s.transcript (opening J s.summary) ∙ opening-busy s.summary,
    interrupt-IsOver (restore_turns J s.id s.transcript (opening J s.summary)).items,
  )
