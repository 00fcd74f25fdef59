-- ===== src/Device.antt =====
-- apps/android/src/agent_task.rs: the mirror of the events in the log of the device, the flag that a
-- turn is running, and the summary that keeps the app awake. What is written to the log is returned.
pub mod Awake
use mobile_coder.Prelude.{
  ℕ, String, ◌<>◌, Bool, true, false, List, [], ◌∷◌, ◌++◌, map, eqb, if◌then◌else◌,
}
use mobile_coder.Prelude.Text.{show, lines, split, join, trim_end, take_chars, is_empty}
use mobile_coder.Json.{Json}
use mobile_coder.Event.{
  Event, turn_started, text_delta, tool_requested, tool_completed, stream_retrying, turn_ended,
}

abbrev pub job_parts : ℕ → List String
job_parts jobs =
    if eqb jobs 0
    then []
    else if eqb jobs 1
    then "1 background job" ∷ []
    else (show jobs <> " background jobs") ∷ []

-- The summary, with the number of jobs that are running and whether a turn is.
unfoldable pub work_summary : ℕ → Bool → String
work_summary jobs turn =
    join " · " ((if turn then "Working on a turn" ∷ [] else []) ++ job_parts jobs)

pub data Level : Type 0 where
  info warn error : Level

pub record Mirror : Type 0 where
  pub busy : Bool
  -- the text that no line break ended yet
  pub line : String

-- What a receiver of the bus gets: an event, or that it has lost some.
pub data Received (V : Type 0) : Type 0 where
  received : Event V → Received V
  lagged : Received V

abbrev claude_line : String → Level × String
claude_line text = (info, "[claude] " <> trim_end text)

-- The lines that are ended, and what is behind the last break.
abbrev ended : List String → List String × String
ended [] = ([], "")
ended (rest ∷ []) = ([], rest)
ended (l ∷ m ∷ ls) = let (before, rest) = ended (m ∷ ls) in (l ∷ before, rest)

abbrev on_text : String → Mirror → List (Level × String) × Mirror
on_text text m =
    let (before, rest) = ended (split 10 (m.line <> text)) in
    (map claude_line before, record m { line = rest })

abbrev tool_line : Bool → String → String → Level × String
tool_line is_error tag text = (if is_error then error else info, "[tool] " <> tag <> ": " <> text)

abbrev tool_lines : Bool → List String → List (Level × String)
tool_lines is_error [] = []
tool_lines is_error (first ∷ rest) =
    tool_line is_error (if is_error then "failed" else "ok") first
    ∷ map (tool_line is_error "  |") rest

module _ (J : Json) where
  open J use {Value}

  -- What the thread does for one event.
  unfoldable pub mirror : Event Value → Mirror → List (Level × String) × Mirror
  mirror (turn_started session prompt) m =
      ((info, "[turn] starting: " <> prompt) ∷ [], record m { busy = true })
  mirror (text_delta session text) m = on_text text m
  mirror (tool_requested session id name input) m =
      ((info, "[tool] " <> name <> " " <> J.print input) ∷ [], m)
  mirror (tool_completed session id is_error output) m =
      (tool_lines is_error (lines (take_chars 600 output)), m)
  mirror (stream_retrying session attempt reason) m = (
    (warn, "[turn] stream broke (" <> reason <> "); retry " <> show attempt) ∷ [],
    record m { line = "" },
  )
  mirror (turn_ended session stop_reason) m = (
    (if is_empty m.line then [] else claude_line m.line ∷ [])
        ++ (info, "[turn] complete: " <> stop_reason) ∷ [],
    record { busy = false; line = "" },
  )
  mirror (Event.failed session message) m =
      ((error, "[turn] error: " <> message) ∷ [], record m { busy = false })
  mirror _ m = ([], m)

  -- The loop of the thread, until the bus is closed: a receiver that lags goes on with what it has.
  unfoldable pub mirror_all : List (Received Value) → Mirror → List (Level × String) × Mirror
  mirror_all [] m = ([], m)
  mirror_all (lagged ∷ rest) m = mirror_all rest m
  mirror_all (received event ∷ rest) m =
      let (first, m') = mirror event m in
      let (others, m'') = mirror_all rest m' in (first ++ others, m'')
