-- ===== src/Tests/Screens.antt =====
-- The chat on the screen and the worker at concrete inputs.
use mobile_coder.Prelude.{
  map, not, ◌&&◌, eqb, ◌≡◌, none, refl, true, false, some, List, [], ◌∷◌, ◌++◌, ◌<>◌, All,
  get_last?,
}
use mobile_coder.Prelude.Sublists.{Within}
use mobile_coder.Prelude.Text.{show, is_empty}
use mobile_coder.Event.{
  Event, session_opened, text_delta, thinking_delta, tool_requested, tool_completed, turn_started,
  stream_retrying,
}
use mobile_coder.Chat.{
  ChatLog, user, assistant, thinking, tool, succeeded, empty, add, apply, apply_all, from_session,
  summarise_input,
}
use mobile_coder.Chat.Deltas.{retry_discards_attempt}
use mobile_coder.Chat.Tools.{AllOver, request_complete}
use mobile_coder.Worker.{State, prompt, new_chat, serve, serve_all}
use mobile_coder.Worker.Idle.{IsIdle, serve_leaves_chat_idle, reopened_chat-IsIdle}
use mobile_coder.Device.{received, mirror_all, work_summary}
use mobile_coder.Device.Awake.{work_is_told}
use mobile_coder.Prompt.{repo_name, commit_message, answer, take_answer}
use mobile_coder.Prompt.Delivered.{
  Step, requests, answers, takes_answer, all_received, all_given, answers_reach_asker,
}
use mobile_coder.Tests.Values.{Value, data_json}
use mobile_coder.Tests.Scenario.{outside, project, fresh, talk}

abbrev shown : ChatLog
shown = add (assistant "He") (add (thinking "Hm.") (add (user "hi") empty))

retry_discards_attempt_example :
    apply data_json
      (apply_all data_json shown (text_delta 1 "llo" ∷ thinking_delta 1 "." ∷ []))
      (stream_retrying 1 1 "reset")
    ≡ apply data_json shown (stream_retrying 1 1 "reset")
retry_discards_attempt_example =
    retry_discards_attempt data_json shown (text_delta 1 "llo" ∷ thinking_delta 1 "." ∷ []) 1 1
      "reset" (tt, (tt, tt))

request_complete_example :
    apply data_json
      (apply data_json shown (tool_requested 1 "t" "bash" data_json.null))
      (tool_completed 1 "t" false "ok")
    ≡ add (tool "t" "bash" (summarise_input data_json "bash" data_json.null) (succeeded "ok")) shown
request_complete_example = request_complete data_json shown 1 "t" "bash" data_json.null false "ok"

abbrev started : State data_json outside project
started = record { session = fresh; files = some []; world = 0 }

serve_leaves_chat_idle_example :
    let log = apply_all data_json shown (serve data_json outside project (prompt "hi") started).1 in
    (log.busy ≡ false) × AllOver log
serve_leaves_chat_idle_example =
    serve_leaves_chat_idle data_json outside project (prompt "hi") started shown
      (tt, (tt, (tt, tt)))

reopened_chat-IsIdle_example : IsIdle data_json outside project (
    apply_all data_json
      (from_session data_json talk)
      (serve_all data_json outside project (prompt "hi" ∷ new_chat ∷ prompt "ho" ∷ []) started).1)
reopened_chat-IsIdle_example =
    reopened_chat-IsIdle data_json outside project talk (prompt "hi" ∷ new_chat ∷ prompt "ho" ∷ [])
      started

abbrev asked : List Step
asked =
    requests repo_name
    ∷ answers repo_name "demo"
    ∷ takes_answer commit_message
    ∷ takes_answer repo_name
    ∷ takes_answer repo_name
    ∷ answers repo_name "  "
    ∷ takes_answer repo_name
    ∷ []

asked_received : all_received repo_name asked (record { pending = 0; slot = none }) ≡ "demo" ∷ []
unfolding all_received answer take_answer mobile_coder.Prelude.Text.trim
asked_received = refl

answers_reach_asker_example :
    Within
      (all_received repo_name asked (record { pending = 0; slot = none }))
      (all_given repo_name asked)
answers_reach_asker_example =
    answers_reach_asker repo_name asked (record { pending = 0; slot = none })

abbrev broken_off : List (Event Value)
broken_off =
    session_opened 1 ∷ turn_started 1 "go" ∷ text_delta 1 "a\nb" ∷ Event.failed 1 "reset" ∷ []

work_is_told_example :
    ((mirror_all data_json (map received broken_off) (record { busy = false; line = "" })).1.busy
      ≡ (apply_all data_json shown broken_off).busy)
    × (is_empty (
          work_summary 1
            (mirror_all data_json
              (map received broken_off)
              (record { busy = false; line = "" })).1.busy)
        ≡ (not (apply_all data_json shown broken_off).busy && eqb 1 0))
work_is_told_example =
    work_is_told data_json shown (record { busy = false; line = "" }) broken_off 1 refl (refl, tt)
