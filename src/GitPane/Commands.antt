-- ===== src/GitPane/Commands.antt =====
-- The commands of the Git pane (`execute` and `run` of crates/mc-ui/src/git.rs).
use mobile_coder.Prelude.{◌<>◌, String, true, Option, none, some, unwrap_or}
use mobile_coder.Json.{Json}
use mobile_coder.Sandbox.{Sandbox}
use mobile_coder.Github.{GithubError, other, Done, fine, failed, Repo, Token, create_repo}
use mobile_coder.Github as Hub
use mobile_coder.Github.Git.{Network, commit, push, pull}
use mobile_coder.GitPane.{
  Command, sign_in, sign_out, refresh, clone_repo, create, select, commit_all, push_all, pull_all,
  describe, say, first_line, Outside, Pane, publish, with_world, and_then, project, signed_out, ask,
  load_account, load_projects, greeting, author_of, select_dir, run_clone,
}

module _ (J : Json) (S : Sandbox) (N : Network S.World) (O : Outside J S N) where
  -- The projects are read again, and then there is something to say.
  unfoldable pub then_projects :
      (Pane J S N → Option String) → Pane J S N → Done (Option String) × Pane J S N
  then_projects message p = let q = load_projects J S N O p in (fine (message q), q)

  abbrev pub refreshed : Option Token → Pane J S N → Done Unit × Pane J S N
  refreshed none p = (fine tt, p)
  refreshed (some t) p = load_account J S N O p

  abbrev pub created : String → Option Token → Pane J S N → Done Repo × Pane J S N
  created name none p = (failed (other "add a GitHub token first"), p)
  created name (some t) p =
      ask J S N O O.read_repo (create_repo J name true true (Hub.new t.as_str)) p

  unfoldable pub execute : Command → Pane J S N → Done (Option String) × Pane J S N
  execute (sign_in token) p =
      and_then J S N O
        (load_account J S N O (record p { token = some (record { as_str = token }) }))
        (λ loaded q. then_projects (λ r. some (greeting J S N O r.state.signed_in)) q)
  execute sign_out p =
      (fine (some "Signed out. The token was deleted from this device."), signed_out J S N O p)
  execute refresh p =
      and_then J S N O (refreshed p.token p) (λ loaded q. then_projects (λ r. none) q)
  execute (clone_repo repo) p =
      and_then J S N O (run_clone J S N O repo p) (λ dir q.
        then_projects (λ r. some ("Cloned into " <> dir <> ".")) (select_dir J S N O dir q))
  execute (create name) p = and_then J S N O (created name p.token p) (λ repo q.
      and_then J S N O (run_clone J S N O repo.full_name q) (λ dir q1.
        and_then J S N O (load_account J S N O (select_dir J S N O dir q1)) (λ loaded q2.
          then_projects (λ r. some ("Created " <> repo.full_name <> " and cloned it.")) q2)))
  execute (select dir) p = then_projects (λ r. none) (select_dir J S N O dir p)
  execute (commit_all message) p = and_then J S N O (project J S N O p) (λ dir q.
      and_then J S N O
        (with_world J S N O q (commit S dir message (author_of J S N O q.state.signed_in) q.world))
        (λ out q1. then_projects (λ r. some (unwrap_or "Committed." (first_line out))) q1))
  execute push_all p = and_then J S N O (project J S N O p) (λ dir q.
      and_then J S N O (with_world J S N O q (push S N dir q.token q.world))
        (λ out q1. then_projects (λ r. some "Pushed.") q1))
  execute pull_all p = and_then J S N O (project J S N O p) (λ dir q.
      and_then J S N O (with_world J S N O q (pull S N dir q.token q.world))
        (λ out q1. then_projects (λ r. some (unwrap_or "Up to date." (first_line out))) q1))

  abbrev pub message_of : Done (Option String) → Option String
  message_of (fine message) = message
  message_of (failed e) = some (say O.unreachable e)

  unfoldable pub settle : Done (Option String) × Pane J S N → Pane J S N
  settle (outcome, p) =
      publish J S N
        (record p { state = record p.state { busy = none; message = message_of outcome } })

  unfoldable pub run : Command → Pane J S N → Pane J S N
  run command p = settle (
      execute command (
        publish J S N
          (record p { state = record p.state { busy = some (describe command); message = none } })))
