-- ===== src/Worker/Idle.antt =====
-- The worker and the screen together (crates/mc-agent/src/worker.rs, crates/mc-core/src/chat.rs):
-- when a command has been served, the chat is idle and shows no tool as running.
use mobile_coder.Prelude.{
  ◌≡◌, refl, ◌∙◌, sym, subst, [], ◌∷◌, Bool, true, false, Option, none, some, List, ◌++◌, String,
  append-nil,
}
use mobile_coder.Json.{Json}
use mobile_coder.Session.{SessionId, Project, Session}
use mobile_coder.Event.{Event}
use mobile_coder.Event.Protocol.{busy_after, busy_after-append, Paired, Paired-append}
use mobile_coder.Sandbox.{Ran, ok, err}
use mobile_coder.Chat.{ChatLog, apply, apply_all, from_session}
use mobile_coder.Chat.Tools.{AllOver, Paired-AllOver, apply_all-busy, from_session_idle}
use mobile_coder.Agent.{AgentError, refused, AgentConfig}
use mobile_coder.Agent.Turn.{run_turn_cancellable}
use mobile_coder.Agent.Turn.Idle.{is_reported, run_turn-IsClosed}
use mobile_coder.Worker.{
  AgentCommand, prompt, open_chat, new_chat, Outside, State, report, end_turn, serve_prompt,
  prompt_with, serve, serve_all,
}

module _ (J : Json) (O : Outside J) (project : Project) where
  open J use {Value}
  open O use {host}

  -- Events that leave any screen idle.
  abbrev LeavesIdle : List (Event Value) → Type 0
  LeavesIdle es = Paired es × ((b : Bool) → busy_after b es ≡ false)

  told :
      (id : SessionId) (o : Option AgentError) (es : List (Event Value))
      → Paired es
      → (is_reported o ≡ true → (b : Bool) → busy_after b es ≡ false)
      → LeavesIdle (es ++ report J O project id o)
  told id none es p h = rw append-nil (p, h refl)
  told id (some (refused c)) es p h = rw append-nil (p, h refl)
  told id (some e) es p h = (
    Paired-append es (report J O project id (some e)) p tt,
    λ b. busy_after-append b es (report J O project id (some e)),
  )

  prompt_with-LeavesIdle :
      (text : String) (st : State J O project) (w : host.sandbox.World) (ready : Ran AgentConfig)
      → LeavesIdle (prompt_with J O project text st w ready).1
  unfolding prompt_with end_turn
  prompt_with-LeavesIdle text st w (err reason) = (tt, λ b. refl)
  prompt_with-LeavesIdle text st w (ok config) =
      let e = run_turn_cancellable J host config st.session text w in
      let c = run_turn-IsClosed J host config st.session text w in
      told e.session.id e.outcome e.events c.paired c.ends

  serve-LeavesIdle :
      (c : AgentCommand) (st : State J O project) → LeavesIdle (serve J O project c st).1
  unfolding serve serve_prompt
  serve-LeavesIdle (prompt text) st =
      let (ready, w) = O.setup (O.reset st.world) in prompt_with-LeavesIdle text st w ready
  serve-LeavesIdle (open_chat id) st = (tt, λ b. refl)
  serve-LeavesIdle new_chat st = (tt, λ b. refl)

  -- Whatever command the worker serves, and however the turn goes, a screen on which no tool was
  -- running has the input enabled again after the events, and shows no tool as running.
  pub serve_leaves_chat_idle :
      (c : AgentCommand) (st : State J O project) (log : ChatLog)
      → AllOver log
      → let log' = apply_all J log (serve J O project c st).1 in (log'.busy ≡ false) × AllOver log'
  serve_leaves_chat_idle c st log h =
      let (p, q) = serve-LeavesIdle c st in
      (apply_all-busy J log (serve J O project c st).1 ∙ q log.busy, Paired-AllOver J log _ p h)

  apply_all-append :
      (log : ChatLog) (xs ys : List (Event Value))
      → apply_all J log (xs ++ ys) ≡ apply_all J (apply_all J log xs) ys
  unfolding apply_all
  apply_all-append log [] ys = refl
  apply_all-append log (x ∷ xs) ys = apply_all-append (apply J log x) xs ys

  abbrev pub IsIdle : ChatLog → Type 0
  IsIdle log = (log.busy ≡ false) × AllOver log

  serve_all-IsIdle :
      (cs : List AgentCommand) (st : State J O project) (log : ChatLog)
      → IsIdle log
      → IsIdle (apply_all J log (serve_all J O project cs st).1)
  unfolding serve_all apply_all
  serve_all-IsIdle [] st log h = h
  serve_all-IsIdle (c ∷ cs) st log h =
      let (st', events) = serve J O project c st in
      subst IsIdle (sym (apply_all-append log events (serve_all J O project cs st').1))
        (serve_all-IsIdle cs st' (apply_all J log events) (serve_leaves_chat_idle c st log h.1))

  -- A chat that is restored from any session, and shown what a worker in any state does for any
  -- commands one after another, ends with the input enabled and no tool shown as running.
  pub reopened_chat-IsIdle :
      (s : Session Value) (cs : List AgentCommand) (st : State J O project)
      → IsIdle (apply_all J (from_session J s) (serve_all J O project cs st).1)
  reopened_chat-IsIdle s cs st = serve_all-IsIdle cs st (from_session J s) (from_session_idle J s)
