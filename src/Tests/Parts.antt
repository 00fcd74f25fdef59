-- ===== src/Tests/Parts.antt =====
-- The disk, the jobs, the quoting and the retries at concrete inputs.
use Prim.Native.String.{len}
use mobile_coder.Prelude.{
  ℕ, ◌+◌, ◌≤◌, ◌<◌, ◌≡◌, refl, inr, map, eqb, String, ◌<>◌, true, false, none, some, List, [], ◌∷◌,
  arith,
}
use mobile_coder.Session.{new}
use mobile_coder.Library.{ChatFile, readable, unreadable}
use mobile_coder.Worker.{open_chat, new_chat, serve}
use mobile_coder.Worker.Saved.{with_disk, BothStored, switch_stores_both}
use mobile_coder.Jobs.Output.{Buffer, push_bounded, read_new, unread}
use mobile_coder.Jobs.Output.Accounted.{
  IsBuffer, push_bounded-accounted, push_each, read_new-push_each,
}
use mobile_coder.Prelude.Text.{count_matches}
use mobile_coder.Sandbox.{run}
use mobile_coder.Tools.{replace_in}
use mobile_coder.Tools.Commands.{shq, store_command}
use mobile_coder.Tools.Definitions.{definitions}
use mobile_coder.Tools.Definitions.Demanded.{demanded_by}
use mobile_coder.Tools.Offered.{is_met, IsHandled, offered-IsHandled}
use mobile_coder.Tools.Edit.{IsAmbiguous, edit_replaces_match, edit_refuses_ambiguity}
use mobile_coder.Tools.Quote.{bare, read_word, read_word-shq}
use mobile_coder.Agent.Stream.{stream_with_retry, transient}
use mobile_coder.Agent.Stream.Retries.{attempts, count_up, stream_with_retry-IsBounded}
use mobile_coder.Wire.{ToolUse, Block, StreamAccumulator, push}
use mobile_coder.Wire.Chunks.{feed, input_event, input_chunks_join}
use mobile_coder.Tests.Values.{Value, pair, data_json, data_json-IsLawful}
use mobile_coder.Tests.Scenario.{outside, host, config, project, fresh, talk}

abbrev disk : List (ChatFile Value)
disk =
    record { name = 4; content = unreadable; modified = 3 }
    ∷ record { name = 5; content = readable (record fresh { id = 5 }); modified = 2 }
    ∷ []

switch_stores_both_example :
    BothStored data_json outside project talk
      (serve data_json outside project
        (open_chat 5)
        (with_disk data_json outside project talk disk 0)).0
    × BothStored data_json outside project talk
        (serve data_json outside project new_chat
          (with_disk data_json outside project talk disk 0)).0
unfolding new
switch_stores_both_example =
    switch_stores_both data_json outside project (λ w. refl) 5 talk disk 0
      ((λ s e. cc), ((λ s e. cc), tt)) refl

abbrev log : Buffer
log = record { text = "abc"; cursor = 1; dropped = 2 }

push_bounded-accounted_example :
    let b' = push_bounded 4 "dé" log in
    (len b'.text ≤ 4) × (b'.dropped + len b'.text ≡ 2 + 3 + 3) × IsBuffer b'
push_bounded-accounted_example = push_bounded-accounted 4 "dé" log (omega arith)

read_new-push_each_example :
    let after = read_new (push_each 9 ("dé" ∷ "f" ∷ []) (read_new log).1) in
    (after.0 ≡ "déf") × (unread after.1 ≡ 0)
read_new-push_each_example = read_new-push_each 9 ("dé" ∷ "f" ∷ []) log (omega arith)

read_word-shq_example : read_word bare (shq "it's $HOME; rm -rf /") ≡ some "it's $HOME; rm -rf /"
read_word-shq_example = read_word-shq "it's $HOME; rm -rf /"

stream_with_retry-IsBounded_example :
    (n : ℕ) × (n ≤ 4)
    × (attempts data_json (stream_with_retry data_json host config fresh 0).1
        ≡ count_up data_json host config 1 n)
    × (n < 4 → transient (stream_with_retry data_json host config fresh 0).0 ≡ none)
stream_with_retry-IsBounded_example = stream_with_retry-IsBounded data_json host config fresh 0

abbrev call : ToolUse Value
call = record { id = "a"; name = "bash"; input = data_json.null }

abbrev reading : StreamAccumulator Value
reading = record {
  blocks = none ∷ some (Block.tool_use "a" "bash" "{") ∷ [];
  message = record { content = []; stop_reason = ""; stop_details = none; usage = data_json.null };
}

input_chunks_join_example :
    feed data_json (map (input_event data_json 1) ("\"command\":" ∷ "\"l" ∷ "s\"}" ∷ [])) reading
    ≡ (push data_json (input_event data_json 1 "\"command\":\"ls\"}") reading).0
input_chunks_join_example =
    input_chunks_join data_json data_json-IsLawful 1 "\"command\":" ("\"l" ∷ "s\"}" ∷ []) reading

-- A file is named, but no text is given for it.
abbrev no_content : Value
no_content = data_json.object (pair "path" "f" ∷ [])

offered-IsHandled_example :
    IsHandled data_json host.sandbox
      (is_met data_json no_content (demanded_by data_json "write_file" (definitions data_json)))
      "write_file"
      no_content
      0
offered-IsHandled_example =
    offered-IsHandled data_json data_json-IsLawful host.sandbox "write_file" no_content 0

undemanded :
    is_met data_json no_content (demanded_by data_json "write_file" (definitions data_json)) ≡ false
unfolding definitions mobile_coder.Prelude.◌==◌
undemanded = refl

-- Occurrences that overlap count once, so this edit is one that runs.
overlaps : count_matches "aa" "aaa" ≡ 1
unfolding count_matches
overlaps = refl

once : count_matches "old" "an old file" ≡ 1
unfolding count_matches
once = refl

edit_replaces_match_example :
    (a b : String) × ("an old file" ≡ a <> ("old" <> b))
    × ((replace_in data_json host.sandbox "f" "old" "new" "an old file" 0).1
        ≡ (run host.sandbox (store_command "f" (host.sandbox.encode (a <> ("new" <> b)))) none 0).1)
edit_replaces_match_example =
    edit_replaces_match data_json host.sandbox "f" "old" "new" "an old file" 0 once

foo_twice : IsAmbiguous data_json host.sandbox "o" "foo"
foo_twice = inr (refl, "f", "", "", refl)

edit_refuses_ambiguity_example :
    ((replace_in data_json host.sandbox "f" "o" "a" "foo" 0).1 ≡ 0)
    × ((replace_in data_json host.sandbox "f" "o" "a" "foo" 0).0.is_error ≡ true)
edit_refuses_ambiguity_example =
    edit_refuses_ambiguity data_json host.sandbox "f" "o" "a" "foo" 0 foo_twice
