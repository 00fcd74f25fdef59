-- ===== src/Tests/Turns.antt =====
-- The turn, the stream and the session at concrete inputs.
use mobile_coder.Prelude.{
  ◌≡◌, refl, false, none, some, List, [], ◌∷◌, length, ◌==◌, ◌<◌, ◌≤◌, take, ◌++◌,
}
use mobile_coder.Session.{
  new, push, user_text, assistant, tool_results, is_typed, is_prompt, last_prompt, compaction_cut,
  compact,
}
use mobile_coder.Transcript.{ids_in, request_ids, result_ids, IsValid}
use mobile_coder.Wire as Wire
use mobile_coder.Wire.{
  event_kind, block_kind, delta_kind, put, present, as_tool_use, has_type, tool_uses, content_value,
  ToolUse, index_of, start_of, start_block, started, delta_step, delta_at, on_block_start,
  on_block_delta, dispatch, render, finish, on_message_start, on_message_delta,
}
use mobile_coder.Tools.{execute_cancellable}
use mobile_coder.Agent.Summary.{is_success, input_tokens, compact_if_full, compact_now}
use mobile_coder.Agent.Stream.{
  transient, on_payload, on_parsed, consume, receive, stream_once, attempt_once, retry_if,
  retry_from, stream_with_retry,
}
use mobile_coder.Agent.Turn.{
  result_block, call_tool, run_calls, usage_event, usage_events, settle, answer, on_calls,
  on_message, on_result, round, rounds, run_turn_cancellable, finish_cancelled,
}
use mobile_coder.Agent.Turn.Answered.{run_turn-EndsValid}
use mobile_coder.Agent.Turn.Idle.{IsClosed, run_turn-IsClosed}
use mobile_coder.Agent.Turn.ToolCalls.{run_calls-answers}
use mobile_coder.Agent.Summary.Kept.{compact_now-HasValid}
use mobile_coder.Agent.Stream.Named.{IsNamedRes, stream_with_retry-IsNamed}
use mobile_coder.Session.Cut.{IsBestCut, compaction_cut-IsBestCut, compact_at_cut}
use mobile_coder.Tests.Values.{Value, data_json, data_json-IsLawful}
use mobile_coder.Tests.Scenario.{host, config, fresh, talk}

fresh-IsValid : IsValid data_json fresh.transcript
unfolding new
fresh-IsValid = record { answered = refl; shaped = tt; asked = tt }

-- The turn asks for a tool, is told the result, and ends.
tool_turn : (run_turn_cancellable data_json host config fresh "hi" 0).outcome ≡ none
unfolding run_turn_cancellable rounds round on_result on_message on_calls answer settle
    finish_cancelled run_calls call_tool result_block usage_events usage_event compact_if_full
    input_tokens stream_with_retry retry_from retry_if attempt_once stream_once receive consume
    on_parsed on_payload transient is_success Wire.push dispatch on_block_start on_block_delta
    delta_at delta_step start_block start_of started index_of put present render finish tool_uses
    as_tool_use has_type content_value event_kind block_kind delta_kind ◌==◌ new push user_text
    assistant tool_results Wire.new execute_cancellable
tool_turn = refl

run_turn-EndsValid_example :
    IsValid data_json (run_turn_cancellable data_json host config fresh "hi" 0).session.transcript
run_turn-EndsValid_example =
    run_turn-EndsValid data_json data_json-IsLawful host config fresh "hi" 0 fresh-IsValid
      (rw tool_turn refl)

run_turn-IsClosed_example :
    IsClosed data_json host (run_turn_cancellable data_json host config fresh "hi" 0)
run_turn-IsClosed_example = run_turn-IsClosed data_json host config fresh "hi" 0

compaction_cut-IsBestCut_example :
    IsBestCut data_json talk.transcript 1 (compaction_cut data_json talk 1)
compaction_cut-IsBestCut_example = compaction_cut-IsBestCut data_json talk 1

talk_cut : compaction_cut data_json talk 1 ≡ some 3
unfolding compaction_cut last_prompt is_prompt is_typed user_text assistant tool_results new ◌==◌
talk_cut = refl

compact_at_cut_example :
    ((compact data_json 3 "They spoke." talk).1 ≡ 3)
    × (0 < 3)
    × (1 ≤ length (compact data_json 3 "They spoke." talk).0.transcript)
    × (talk.transcript
        ≡ take 3 talk.transcript ++ (compact data_json 3 "They spoke." talk).0.transcript)
    × ((compact data_json 3 "They spoke." talk).0.summary ≡ some "They spoke.")
compact_at_cut_example = compact_at_cut data_json talk 1 "They spoke." talk_cut

talk-IsValid : IsValid data_json talk.transcript
unfolding user_text assistant tool_results new request_ids result_ids ids_in has_type is_typed ◌==◌
talk-IsValid = record {
  answered = (refl, (refl, (refl, (refl, refl))));
  shaped = ((λ e. refl), ((λ e. refl), ((λ e. cc), ((λ e. refl), tt))));
  asked = ((λ e. cc), ((λ e. refl), ((λ e. cc), ((λ e. refl), tt))));
}

compact_now-HasValid_example :
    IsValid data_json (compact_now data_json host config talk 0).session.transcript
compact_now-HasValid_example = compact_now-HasValid data_json host config talk 0 talk-IsValid

abbrev two_calls : List (ToolUse Value)
two_calls =
    record { id = "a"; name = "list_jobs"; input = data_json.null }
    ∷ record { id = "b"; name = "no such tool"; input = data_json.null }
    ∷ []

run_calls-answers_example :
    ids_in data_json "tool_result" "tool_use_id"
      (run_calls data_json host 1 false two_calls 0).results
    ≡ "a" ∷ "b" ∷ []
run_calls-answers_example = run_calls-answers data_json data_json-IsLawful host 1 false two_calls 0

stream_with_retry-IsNamed_example :
    IsNamedRes data_json data_json-IsLawful (stream_with_retry data_json host config fresh 0).0
stream_with_retry-IsNamed_example =
    stream_with_retry-IsNamed data_json data_json-IsLawful host config fresh 0
