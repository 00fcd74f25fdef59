-- ===== src/Tests/Hub.antt =====
-- The theorems on git, the proxy, the stop and the chats on disk at concrete inputs.
use mobile_coder.Prelude.{
  ℕ, ◌+◌, ◌-◌, ◌≡◌, ◌⊎◌, refl, ◌<>◌, true, Option, none, some, [], ◌∷◌, ◌++◌, map, ◌==◌, arith,
}
use mobile_coder.Sandbox.{ok}
use mobile_coder.Github.Command.{git_command, git_settings}
use mobile_coder.Github.Command.Shell.{word, and_if, tokens}
use mobile_coder.Github.Command.Words.{tokens-git_command}
use mobile_coder.Github.Status.{repo_of, origin_url}
use mobile_coder.Github.Status.Origin.{repo_of-origin_url}
use mobile_coder.Prelude.Text.Affix.{strip_suffix}
use mobile_coder.Github.Proxy.{State, Request, Forward, Response, answer, handle}
use mobile_coder.Github.Proxy.Guarded.{IsRefusal, IsAllowed, handle-guarded}
use mobile_coder.Github.Git.{Network}
use mobile_coder.Cancel as Stop
use mobile_coder.Cancel.{
  Reach, here, on, task, stores, notifies, start, store, notify_waiters, advance, returned,
}
use mobile_coder.Cancel.Woken.{stop_is_heard}
use mobile_coder.Session.{Session, new}
use mobile_coder.Tests.Values.{Value, data_json}
use mobile_coder.Tests.Scenario.{project}

tokens-git_command_example :
    tokens (git_command "/root/it's" ("commit" ∷ "-m" ∷ "a; rm -rf $HOME" ∷ []))
    ≡ some (
        word "cd"
        ∷ word "/root/it's"
        ∷ and_if
        ∷ word "git"
        ∷ map word (git_settings ++ "commit" ∷ "-m" ∷ "a; rm -rf $HOME" ∷ []))
tokens-git_command_example =
    tokens-git_command "/root/it's" ("commit" ∷ "-m" ∷ "a; rm -rf $HOME" ∷ [])

no_suffix : strip_suffix ".git" "octo/demo" ≡ none
unfolding strip_suffix ◌==◌
no_suffix = refl

repo_of-origin_url_example :
    repo_of (origin_url ("octo" <> "/" <> "demo")) ≡ some ("octo" <> "/" <> "demo")
repo_of-origin_url_example = repo_of-origin_url "octo" "demo" (refl, refl) (refl, refl) no_suffix

abbrev state : State
state = record {
  secret = "s3";
  repo = "octo/demo";
  token = some (record { as_str = "ghp_1" });
  upstream = "https://github.com";
}

abbrev asked : Request
asked = record {
  method = "GET";
  path = "/s3/octo/demo.git/info/refs";
  query = some "service=git-upload-pack";
  headers = ("host", "127.0.0.1") ∷ ("authorization", "x") ∷ ("accept", "a") ∷ [];
  body = "";
}

-- Counts what is sent, and is not reached.
abbrev send : Forward → ℕ → Option Response × ℕ
send f n = (none, n + 1)

handle-guarded_example :
    ((r : Response) × IsRefusal r × (handle send state asked 0 ≡ (r, 0)))
    ⊎ ((f : Forward) × IsAllowed state asked f
        × (handle send state asked 0 ≡ (answer (send f 0).0, (send f 0).1)))
handle-guarded_example = handle-guarded send state asked 0

-- The world counts the listeners.
abbrev pub network : Network ℕ
network = record {
  bind = λ w. (ok 4000, w);
  secret = λ w. ("s3", w);
  serve = λ st w. w + 1;
  close = λ w. w - 1;
}

-- The task looks, makes its `notified()`, looks again and sleeps, then a stop comes.
abbrev asleep : Stop.State
asleep = advance (advance (advance start))

abbrev stopped : Stop.State
stopped = notify_waiters (store asleep)

stopped-Reach : Reach stopped
unfolding start advance store notify_waiters
stopped-Reach =
    on
      (on (on (on (on here (task start)) (task (advance start))) (task (advance (advance start))))
        (stores asleep))
      (notifies (store asleep) (omega arith))

stopped_flag : stopped.flagged ≡ true
unfolding start advance store notify_waiters
stopped_flag = refl

stopped_told : stopped.owed ≡ 0
unfolding start advance store notify_waiters
stopped_told = refl

stop_is_heard_example : (advance (advance stopped)).place ≡ returned
stop_is_heard_example = stop_is_heard stopped stopped-Reach stopped_flag stopped_told

abbrev chat : Session Value
chat = new data_json 1 project
