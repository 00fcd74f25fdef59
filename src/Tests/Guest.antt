-- ===== src/Tests/Guest.antt =====
-- A turn on the device at a concrete input: the world is what was spawned.
use mobile_coder.Prelude.{◌≡◌, refl, true, false, ◌==◌, none, some, List, [], ◌∷◌, All}
use mobile_coder.Sandbox.{ok, err}
use mobile_coder.Launch.{ResolvedCommand, ProotBackend, new, build}
use mobile_coder.Launch.Run.{Processes, finished, run_inner, build_with}
use mobile_coder.Launch.Confined.{Others, IsConfined}
use mobile_coder.Agent.{frame, Response, Reply}
use mobile_coder.Wire as Wire
use mobile_coder.Wire.{
  event_kind, block_kind, delta_kind, put, present, as_tool_use, has_type, tool_uses, content_value,
  ToolUse, index_of, start_of, start_block, started, delta_step, delta_at, on_block_start,
  on_block_delta, dispatch, render, finish, on_message_start, on_message_delta,
}
use mobile_coder.Tools.{execute_cancellable}
use mobile_coder.Agent.Summary.{is_success, input_tokens, compact_if_full}
use mobile_coder.Agent.Stream.{
  transient, on_payload, on_parsed, consume, receive, stream_once, attempt_once, retry_if,
  retry_from, stream_with_retry,
}
use mobile_coder.Agent.Turn.{
  result_block, call_tool, run_calls, usage_event, usage_events, settle, answer, on_calls,
  on_message, on_result, round, rounds, run_turn_cancellable, finish_cancelled,
}
use mobile_coder.Session.{push, user_text, assistant, tool_results}
use mobile_coder.Agent.Turn.Confined.{Network, device, IsLogged}
use mobile_coder.Worker.{prompt, new_chat, Outside, State, serve_all}
use mobile_coder.Worker.Confined.{Surroundings, on_device, IsSilent, worker_stays_in_guest}
use mobile_coder.Tests.Values.{data_json}
use mobile_coder.Tests.Scenario.{config, project, fresh, offline}

abbrev phone : ProotBackend
phone = new "/lib/libproot.so" "/data/rootfs"

abbrev processes : Processes (List ResolvedCommand)
processes = record {
  spawn = λ r w. (ok 7, r ∷ w);
  race = λ child limit stops w. (finished (ok (some 0)), w);
  kill_group = λ child w. w;
  start_kill = λ child w. w;
  wait = λ child w. (some (some 0), w);
  stdout = λ child w. (some [], w);
  stderr = λ child w. (none, w);
  lossy = λ bytes. "";
  start_job = λ command r w. (ok "job-1", r ∷ w);
}

abbrev others : Others (List ResolvedCommand)
others = record {
  is_cancelled = λ w. false;
  read_job = λ id w. (none, w);
  list_jobs = λ w. [];
  kill_job = λ id w. (none, w);
  kill_all = λ w. (0, w);
  encode = λ t. t;
  decode = λ t. some t;
}

-- The server asks for a command until one was spawned.
abbrev answer_for : List ResolvedCommand → Response
answer_for [] = Response.answered 200 "" (frame "shell" ∷ frame "input" ∷ frame "stop" ∷ [])
answer_for (r ∷ rs) = Response.answered 200 "" (frame "say" ∷ frame "stop" ∷ [])

abbrev network : Network data_json (List ResolvedCommand)
network = record {
  send = λ body w. (answer_for w, w);
  ask = λ body w. (Reply.unsent offline, w);
  sleep = λ ms w. w;
}

spawned-IsLogged : IsLogged processes others network (λ w. w)
spawned-IsLogged = record {
  spawn = λ r w. refl;
  start_job = λ command r w. refl;
  race = λ child limit stops w. refl;
  kill_group = λ child w. refl;
  start_kill = λ child w. refl;
  wait = λ child w. refl;
  stdout = λ child w. refl;
  stderr = λ child w. refl;
  read_job = λ id w. refl;
  kill_job = λ id w. refl;
  kill_all = λ w. refl;
  send = λ body w. refl;
  ask = λ body w. refl;
  sleep = λ ms w. refl;
}

abbrev surroundings : Surroundings (List ResolvedCommand)
surroundings = record {
  reset = λ w. w;
  setup = λ w. (ok config, w);
  now = λ w. 3;
  can_write = λ w. true;
  fresh_id = λ w. (9, w);
}

surroundings-IsSilent : IsSilent surroundings (λ w. w)
surroundings-IsSilent = record { reset = λ w. refl; setup = λ w. refl; fresh_id = λ w. refl }

abbrev outside : Outside data_json
outside = on_device data_json processes others network phone surroundings

abbrev idle : State data_json outside project
idle = record { session = fresh; files = some []; world = [] }

worker_stays_in_guest_example :
    All
      (IsConfined phone)
      (serve_all data_json outside project (prompt "hi" ∷ new_chat ∷ prompt "ls" ∷ []) idle).0.world
unfolding new
worker_stays_in_guest_example =
    worker_stays_in_guest data_json processes others network phone surroundings (λ w. w)
      spawned-IsLogged surroundings-IsSilent refl project
      (prompt "hi" ∷ new_chat ∷ prompt "ls" ∷ []) idle tt

-- One command was spawned: the shell of the guest, below proot.
one_command :
    (run_turn_cancellable data_json
      (device data_json processes others network phone)
      config
      fresh
      "hi"
      []).world
    ≡ build "ls" none phone ∷ []
unfolding run_turn_cancellable rounds round on_result on_message on_calls answer settle
    finish_cancelled run_calls call_tool result_block usage_events usage_event compact_if_full
    input_tokens stream_with_retry retry_from retry_if attempt_once stream_once receive consume
    on_parsed on_payload transient is_success Wire.push dispatch on_block_start on_block_delta
    delta_at delta_step start_block start_of started index_of put present render finish tool_uses
    as_tool_use has_type content_value event_kind block_kind delta_kind ◌==◌ new push user_text
    assistant tool_results Wire.new execute_cancellable run_inner build_with
    mobile_coder.Sandbox.run_cancellable mobile_coder.Launch.Run.drained
    mobile_coder.Tools.Shell.on_bash mobile_coder.Tools.Shell.run_command
one_command = refl
