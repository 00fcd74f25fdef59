-- ===== src/Tests/Following.antt =====
-- The two tasks of the chat at concrete inputs.
use mobile_coder.Prelude.{◌≡◌, refl, List, [], ◌∷◌, arith}
use mobile_coder.Session.{new}
use mobile_coder.Event.{Event, session_opened, turn_started}
use mobile_coder.Chat.{ChatLog, add, user, empty, from_session}
use mobile_coder.Library.{ChatFile, readable}
use mobile_coder.Screen.{Step, collects, follows, collect, follow, follow_event, step, run}
use mobile_coder.Screen.Synced.{shown}
use mobile_coder.Screen.Ordered.{IsOrdered, ordered_tasks_show_chat}
use mobile_coder.Tests.Values.{Value, data_json}
use mobile_coder.Tests.Scenario.{talk}

abbrev files : List (ChatFile Value)
files = record { name = 1; content = readable talk; modified = 2 } ∷ []

abbrev left : ChatLog
left = add (user "hi") empty

abbrev events : List (Event Value)
events = session_opened 1 ∷ turn_started 1 "go" ∷ []

abbrev in_turn : List Step
in_turn = collects ∷ follows ∷ collects ∷ follows ∷ []

ordered_tasks_show_chat_example :
    (run data_json files in_turn
      (record { log = left; collecting = events; following = events })).log
    ≡ shown data_json files left events
unfolding IsOrdered step run collect follow
ordered_tasks_show_chat_example =
    ordered_tasks_show_chat data_json files left events in_turn
      (omega arith, ((λ e. omega arith), (omega arith, ((λ e. cc), tt)))) refl refl

-- Where the follower comes first, the collector empties the chat that it restored.
follower_first :
    (run data_json files (follows ∷ collects ∷ []) (record {
      log = left;
      collecting = session_opened 1 ∷ [];
      following = session_opened 1 ∷ [];
    })).log
    ≡ empty
unfolding run step collect follow mobile_coder.Chat.apply
follower_first = refl

-- Where the collector goes on before the follower, the turn that started is not shown.
follower_late :
    (run data_json files
      (collects ∷ collects ∷ follows ∷ follows ∷ [])
      (record { log = left; collecting = events; following = events })).log
    ≡ from_session data_json talk
unfolding run step collect follow follow_event new mobile_coder.Chat.apply from_session
    mobile_coder.Library.load
follower_late = refl
