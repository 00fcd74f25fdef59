-- ===== src/Screen.antt =====
-- The chat on the screen (crates/mc-ui/src/chat.rs): the two tasks that write its log, and the texts
-- that it cuts. Each task has a receiver of its own on the channel of events; what a receiver has
-- not taken yet is a list.
pub mod Ordered
pub mod Synced
use mobile_coder.Prelude.{
  ℕ, suc, ◌-◌, ◌<>◌, String, Bool, true, false, not, ◌||◌, Option, none, some, List, [], ◌∷◌, ◌++◌,
  take, length, leb, if◌then◌else◌, unwrap_or,
}
use mobile_coder.Prelude.Text.{show, lines, trim, trim_end, is_empty, join, take_chars, skip_chars}
use mobile_coder.Json.{Json}
use mobile_coder.Session.{SessionId, default_title, first_full}
use mobile_coder.Event.{Event, session_opened}
use mobile_coder.Chat.{ChatLog, ChatItem, user, error, notice, empty, add, apply, from_session}
use mobile_coder.Library.{ChatFile, load}
use Prim.Native.String.{count}

-- A step of a task: it takes an event, or its receiver lags and loses one.
pub data Step : Type 0 where
  collects follows collector_lags follower_lags : Step

module _ (J : Json) where
  open J use {Value}

  pub record Tasks : Type 0 where
    pub log : ChatLog
    pub collecting : List (Event Value)
    pub following : List (Event Value)

  -- What the library makes of the chat that is opened.
  abbrev pub restore : List (ChatFile Value) → SessionId → ChatLog
  restore files id = elim (load id files) [ none ↦ empty | some s ↦ from_session J s ]

  -- A receiver that has nothing waits.
  unfoldable pub collect : List (Event Value) → Tasks → Tasks
  collect [] t = t
  collect (event ∷ events) t = record t { log = apply J t.log event; collecting = events }

  unfoldable pub follow_event : List (ChatFile Value) → Event Value → ChatLog → ChatLog
  follow_event files (session_opened id) log = restore files id
  follow_event files _ log = log

  unfoldable pub follow : List (ChatFile Value) → List (Event Value) → Tasks → Tasks
  follow files [] t = t
  follow files (event ∷ events) t = record t {
    log = follow_event files event t.log;
    following = events;
  }

  abbrev lost : List (Event Value) → List (Event Value)
  lost [] = []
  lost (event ∷ events) = events

  unfoldable pub step : List (ChatFile Value) → Step → Tasks → Tasks
  step files collects t = collect t.collecting t
  step files follows t = follow files t.following t
  step files collector_lags t = record t { collecting = lost t.collecting }
  step files follower_lags t = record t { following = lost t.following }

  unfoldable pub run : List (ChatFile Value) → List Step → Tasks → Tasks
  run files [] t = t
  run files (s ∷ steps) t = run files steps (step files s t)

  abbrev pub no_model : String
  no_model =
      "No model is configured. On desktop set ANTHROPIC_API_KEY, or ANTHROPIC_BASE_URL for a local server. On Android use apps/android/agent.sh --key or --endpoint."

  -- The log that the app starts with.
  unfoldable pub first_log : (has_agent : Bool) → Option ChatLog → ChatLog
  first_log has_agent restored =
      let log = unwrap_or empty restored in if has_agent then log else add (notice no_model) log

  -- The `send` of the message box: what is submitted, and the log. `submit` tells whether the agent
  -- still takes commands.
  abbrev submitted : Bool → String → ChatLog → Option String × ChatLog
  submitted true text log = (some text, log)
  submitted false text log = (none, add (error "The agent stopped running. Restart the app.") log)

  unfoldable pub send : (has_agent submit : Bool) → String → ChatLog → Option String × ChatLog
  send has_agent submit raw log =
      let text = trim raw in
      if is_empty text || log.busy
      then (none, log)
      else if has_agent
      then submitted submit text log
      else (none, log)

-- The first thing that the user said.
abbrev pub first_said : List ChatItem → Option String
first_said [] = none
first_said (user text ∷ items) = some text
first_said (_ ∷ items) = first_said items

unfoldable pub short_title : String → String
short_title text =
    let line = trim (first_full (lines text)) in
    if leb (count line) 40 then line else trim_end (take_chars 39 line) <> "…"

unfoldable pub current_title : ChatLog → String
current_title log = elim (first_said log.items) [
  | none ↦ default_title
  | some text ↦ short_title text
]

unfoldable pub head_lines : String → ℕ → String
head_lines text n =
    let ls = lines text in
    if leb (length ls) n
    then trim_end text
    else join "\n" (take n ls) <> "\n… " <> show (length ls - n) <> " more lines"

unfoldable pub tail_chars : String → ℕ → String
tail_chars text n =
    if leb (count text) n then trim text else "…" <> trim (skip_chars (count text - n) text)
