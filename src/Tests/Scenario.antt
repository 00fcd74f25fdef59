-- ===== src/Tests/Scenario.antt =====
-- A sandbox, a server and a disk for the tests. The world counts the requests that were sent: the
-- server asks for a tool on the first, and ends the turn on the others.
use mobile_coder.Prelude.{ℕ, zero, suc, ◌+◌, true, false, none, some, [], ◌∷◌, leb}
use mobile_coder.Session.{Project, Session, new, user_text, assistant, tool_results}
use mobile_coder.Sandbox.{Sandbox, ok, err}
use mobile_coder.Agent.{AgentConfig, frame, Response, Reply, Host, HttpError}
use mobile_coder.Worker.{Outside}
use mobile_coder.Tests.Values.{Value, data_json, pair}

abbrev pub project : Project
project = record { name = "demo"; path = "/root/demo" }

-- A stop is pressed when `limit` requests are out.
abbrev pub sandbox_with : ℕ → Sandbox
sandbox_with limit = record {
  World = ℕ;
  is_cancelled = λ w. leb limit w;
  run_inner = λ command cwd timeout stop w. (err "no shell", w);
  start_background = λ command cwd w. (ok "job-1", w);
  read_job = λ id w. (none, w);
  list_jobs = λ w. [];
  kill_job = λ id w. (none, w);
  kill_all = λ w. (0, w);
  encode = λ t. t;
  decode = λ t. some t;
}

abbrev pub reply_to : ℕ → Response
reply_to zero = Response.answered 200 "" (frame "call" ∷ frame "" ∷ frame "stop" ∷ [])
reply_to (suc n) = Response.answered 200 "" (frame "say" ∷ frame "more" ∷ frame "stop" ∷ [])

abbrev pub offline : HttpError
offline = record { is_connect = true; is_request = false; is_timeout = false; text = "offline" }

abbrev pub host_with : ℕ → Host data_json
host_with limit = record {
  sandbox = sandbox_with limit;
  send = λ body w. (reply_to w, w + 1);
  ask = λ body w. (Reply.unsent offline, w);
  sleep = λ ms w. w;
}

abbrev pub host : Host data_json
host = host_with 100

abbrev pub config : AgentConfig
config = record {
  api_key = "key";
  base_url = "http://localhost";
  model = "m";
  max_tokens = 1000;
  effort = "high";
  show_thinking = true;
  system = "";
  compact_at_tokens = 1000;
  keep_recent_turns = 1;
}

abbrev pub outside : Outside data_json
outside = record {
  host = host;
  reset = λ w. w;
  setup = λ w. (ok config, w);
  now = λ w. w;
  can_write = λ w. true;
  fresh_id = λ w. (w + 7, w);
}

abbrev pub fresh : Session Value
fresh = new data_json 1 project

-- A chat of two prompts, the first with a call and its result.
abbrev pub talk : Session Value
talk = record fresh {
  transcript =
      user_text data_json "Which jobs?"
      ∷ assistant data_json (
          data_json.array (
            data_json.object
              (pair "type" "tool_use" ∷ pair "id" "t0" ∷ pair "name" "list_jobs" ∷ [])
            ∷ []))
      ∷ tool_results data_json (
          data_json.object
            (pair "type" "tool_result" ∷ pair "tool_use_id" "t0" ∷ pair "content" "None." ∷ [])
          ∷ [])
      ∷ user_text data_json "And now?"
      ∷ [];
}
