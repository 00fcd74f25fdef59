-- ===== src/Worker.antt =====
-- crates/mc-agent/src/worker.rs: the thread that serves a chat, one command after another.
pub mod Confined
pub mod Idle
pub mod Saved
use mobile_coder.Prelude.{
  ℕ, ◌<>◌, String, Bool, true, false, Option, none, some, List, [], ◌∷◌, ◌++◌, eqb, if◌then◌else◌,
}
use mobile_coder.Prelude.Text.{show, take_chars}
use mobile_coder.Json.{Json}
use mobile_coder.Session.{SessionId, Project, Session, new}
use mobile_coder.Event.{Event, turn_started, failed, session_opened}
use mobile_coder.Sandbox.{Ran, ok, err}
use mobile_coder.Agent.{AgentError, http, api, refused, error_text, AgentConfig, Host}
use mobile_coder.Agent.Turn.{TurnEnd, run_turn_cancellable}
use mobile_coder.Library.{ChatFile, load, save, most_recent}

pub data AgentCommand : Type 0 where
  prompt : String → AgentCommand
  open_chat : SessionId → AgentCommand
  new_chat : AgentCommand

unfoldable pub describe : AgentError → String
describe (api status body) =
    if eqb status 401
    then "The API key was rejected. Check it, or switch to a local endpoint."
    else if eqb status 429
    then "Rate limited by the API. Wait a moment and try again."
    else "The API returned " <> show status <> ": " <> take_chars 300 body
describe (http e) =
    if e.is_connect
    then "Could not reach the model server. Check the network and the endpoint. (" <> e.text <> ")"
    else error_text (http e)
describe e = error_text e

-- The outside of the worker: that of the agent, the setup that is called for each prompt, the clock
-- and the state of the disk, and the source of fresh ids.
pub record Outside (J : Json) : Type 1 where
  pub host : Host J
  -- `Cancel::reset`
  pub reset : host.sandbox.World → host.sandbox.World
  pub setup : host.sandbox.World → Ran AgentConfig × host.sandbox.World
  pub now : host.sandbox.World → ℕ
  pub can_write : host.sandbox.World → Bool
  pub fresh_id : host.sandbox.World → SessionId × host.sandbox.World

module _ (J : Json) (O : Outside J) (project : Project) where
  open J use {Value}
  open O use {host}

  -- `files` is the library, where there is one.
  pub record State : Type 0 where
    pub session : Session Value
    pub files : Option (List (ChatFile Value))
    pub world : host.sandbox.World

  unfoldable pub store : State → State
  store st = elim st.files [
    | none ↦ st
    | some files ↦ record st {
      files = some (save (O.can_write st.world) (O.now st.world) st.session files);
    }
  ]

  abbrev pub opened : SessionId → State → Option (Session Value)
  opened id st = elim st.files [ none ↦ none | some files ↦ load id files ]

  unfoldable pub start_empty : State → State
  start_empty st =
      let (id, w) = O.fresh_id st.world in record st { session = new J id project; world = w }

  unfoldable pub open_or_new : SessionId → State → State
  open_or_new id st = elim (opened id st) [
    | none ↦ start_empty st
    | some s ↦ record st { session = s }
  ]

  -- A refusal was reported by the turn.
  abbrev pub report : SessionId → Option AgentError → List (Event Value)
  report id none = []
  report id (some (refused category)) = []
  report id (some e) = failed id (describe e) ∷ []

  unfoldable pub end_turn : TurnEnd J O.host → State → State × List (Event Value)
  end_turn e st = (
    store (record st { session = e.session; world = e.world }),
    e.events ++ report e.session.id e.outcome,
  )

  unfoldable pub prompt_with :
      String → State → host.sandbox.World → Ran AgentConfig → State × List (Event Value)
  prompt_with text st w (err reason) =
      (record st { world = w }, turn_started st.session.id text ∷ failed st.session.id reason ∷ [])
  prompt_with text st w (ok config) =
      end_turn (run_turn_cancellable J O.host config st.session text w) (record st { world = w })

  unfoldable pub serve_prompt : String → State → State × List (Event Value)
  serve_prompt text st = let (ready, w) = O.setup (O.reset st.world) in prompt_with text st w ready

  -- One round of the loop: a chat that is left is saved, and so is the one that is opened.
  unfoldable pub serve : AgentCommand → State → State × List (Event Value)
  serve (prompt text) st = serve_prompt text st
  serve (open_chat id) st =
      let st' = store (open_or_new id (store st)) in (st', session_opened st'.session.id ∷ [])
  serve new_chat st =
      let st' = store (start_empty (store st)) in (st', session_opened st'.session.id ∷ [])

  -- Commands in the order in which they were sent.
  unfoldable pub serve_all : List AgentCommand → State → State × List (Event Value)
  serve_all [] st = (st, [])
  serve_all (c ∷ cs) st =
      let (st', events) = serve c st in
      let (st'', events') = serve_all cs st' in (st'', events ++ events')

  -- The session that the worker starts with.
  unfoldable pub start : Option (List (ChatFile Value)) → host.sandbox.World → State
  start files w =
      let fresh : State =
        start_empty (record { session = new J 0 project; files = files; world = w }) in
      elim files [
        | none ↦ fresh
        | some fs ↦ elim (most_recent J fs) [
          | none ↦ fresh
          | some s ↦ record { session = s; files = some fs; world = w }
        ]
      ]
