-- ===== src/GitPane.antt =====
-- The worker behind the Git pane (crates/mc-ui/src/git.rs). Its statics are fields of `Pane`: the state
-- that is published with its version, the request to forget the token, and the token itself
-- (crates/mc-github/src/token.rs).
pub mod Shown
pub mod Commands
pub mod Signed
use mobile_coder.Prelude.{
  ℕ, ◌+◌, ◌<>◌, String, Bool, true, false, not, ◌&&◌, ◌||◌, Option, none, some, List, [], ◌∷◌, ◌++◌,
  map, keep, any, first?, unwrap_or, ◌==◌, if◌then◌else◌,
}
use mobile_coder.Prelude.Text.{lines, trim, is_empty, split, show}
use mobile_coder.Json.{Json}
use mobile_coder.Sandbox.{Sandbox, Output, Ran, ok, err}
use mobile_coder.Sandbox as Shell
use mobile_coder.Github.{
  GithubError, http, unauthorized, api, other, Done, fine, failed, Viewer, Repo, Token, Request,
  Answer, get, viewer, repos, create_repo, last_part,
}
use mobile_coder.Github as Hub
use mobile_coder.Github.Status.{Status, summary, is_clean}
use mobile_coder.Github.Git.{Network, clone, commit, push, pull, status}
unfoldable pub use mobile_coder.GitPane.Shown.*

module _ (J : Json) (S : Sandbox) (N : Network S.World) where
  pub record Outside : Type 0 where
    pub create_sandbox : S.World → Ran Unit × S.World
    pub projects_dir : String
    pub send : Request J.Value → S.World → Answer × S.World
    pub read_viewer : String → Ran Viewer
    pub read_repos : String → Ran (List Repo)
    pub read_repo : String → Ran Repo
    pub unreachable : String → Bool

  pub record Pane : Type 0 where
    pub state : GitState
    pub token : Option Token
    pub forget : Bool
    pub shown : Option GitState
    pub version : ℕ
    pub world : S.World

  unfoldable pub publish : Pane → Pane
  publish p = record p { shown = some p.state; version = p.version + 1 }

  unfoldable pub take_forget_request : Pane → Bool × Pane
  take_forget_request p = (p.forget, record p { forget = false })

  module _ (O : Outside) where
    abbrev pub with_world : {A : Type 0} → Pane → A × S.World → A × Pane
    with_world p (a, w) = (a, record p { world = w })

    -- `?`
    unfoldable pub and_then :
        {A B : Type 0} → Done A × Pane → (A → Pane → Done B × Pane) → Done B × Pane
    and_then (fine a, p) f = f a p
    and_then (failed e, p) f = (failed e, p)

    abbrev pub as_done : Ran Unit × Pane → Done Unit × Pane
    as_done (ok done, p) = (fine tt, p)
    as_done (err e, p) = (failed (other e), p)

    unfoldable pub sandbox : Pane → Done Unit × Pane
    sandbox p = as_done (with_world p (O.create_sandbox p.world))

    abbrev pub if_selected : Option String → Pane → Done String × Pane
    if_selected none p = (failed (other "choose a project first"), p)
    if_selected (some dir) p = and_then (sandbox p) (λ made q. (fine dir, q))

    unfoldable pub project : Pane → Done String × Pane
    project p = if_selected p.state.selected p

    unfoldable pub signed_out : Pane → Pane
    signed_out p = record p {
      token = none;
      forget = true;
      state = record p.state { signed_in = none; repos = [] };
    }

    abbrev pub rows_of : Done (List Repo) → List RepoRow
    rows_of (fine found) = rows found
    rows_of (failed e) = []

    unfoldable pub set_repos : Done (List Repo) × Pane → Done Unit × Pane
    set_repos (found, p) =
        (fine tt, record p { state = mark_cloned (record p.state { repos = rows_of found }) })

    abbrev pub get_from : {A : Type 0} → (String → Ran A) → Answer × Pane → Done A × Pane
    get_from read (answer, p) = (get J read answer, p)

    unfoldable pub ask : {A : Type 0} → (String → Ran A) → Request J.Value → Pane → Done A × Pane
    ask read request p = get_from read (with_world p (O.send request p.world))

    abbrev pub on_viewer : Token → Done Viewer × Pane → Done Unit × Pane
    on_viewer t (fine v, p) = set_repos (
        ask O.read_repos (repos J (Hub.new t.as_str))
          (record p { state = record p.state { signed_in = some v.login } }))
    on_viewer t (failed (unauthorized reason), p) = (failed (unauthorized reason), signed_out p)
    on_viewer t (failed e, p) = (failed e, p)

    abbrev pub with_token : Option Token → Pane → Done Unit × Pane
    with_token none p = (failed (other "add a GitHub token first"), p)
    with_token (some t) p = on_viewer t (ask O.read_viewer (viewer J (Hub.new t.as_str)) p)

    unfoldable pub load_account : Pane → Done Unit × Pane
    load_account p = with_token p.token p

    abbrev pub status_shown : Done Status → Option String × Bool
    status_shown (fine s) = (some (summary s), is_clean s)
    status_shown (failed e) = (some (say O.unreachable e), true)

    abbrev is_selected : Option String → String → Bool
    is_selected none dir = false
    is_selected (some d) dir = d == dir

    abbrev pub described : String → Done Status × S.World → Project × S.World
    described dir (found, w) = (
      record {
        dir = dir;
        name = last_part dir (split b'/' dir);
        status = (status_shown found).0;
        clean = (status_shown found).1;
      },
      w,
    )

    -- Only the selected project's status is read.
    unfoldable pub describe_dir : Option String → String → S.World → Project × S.World
    describe_dir selected dir w =
        if is_selected selected dir then described dir (status S dir w) else (
          record { dir = dir; name = last_part dir (split b'/' dir); status = none; clean = true },
          w,
        )

    unfoldable pub describe_dirs : Option String → List String → List Project → Pane → Pane
    describe_dirs selected [] found p = record p {
      state = mark_cloned (record p.state { projects = found });
    }
    describe_dirs selected (dir ∷ dirs) found p =
        let (project, w) = describe_dir selected dir p.world in
        describe_dirs selected dirs (found ++ project ∷ []) (record p { world = w })

    abbrev pub on_listing : Ran Output × Pane → Pane
    on_listing (out, p) =
        let chosen = selection p.state.selected (dirs_of out) in
        describe_dirs chosen (dirs_of out) []
          (record p { state = record p.state { selected = chosen } })

    abbrev pub on_sandbox : Done Unit × Pane → Pane
    on_sandbox (failed e, p) = record p { state = record p.state { projects = [] } }
    on_sandbox (fine made, p) =
        on_listing (with_world p (Shell.run S (list_command O.projects_dir) none p.world))

    unfoldable pub load_projects : Pane → Pane
    load_projects p = on_sandbox (sandbox p)

    abbrev pub greeting : Option String → String
    greeting none = "Signed in."
    greeting (some login) = "Signed in as " <> login <> "."

    abbrev pub author_of : Option String → Option (String × String)
    author_of none = none
    author_of (some login) = some (login, login <> "@users.noreply.github.com")

    abbrev pub select_dir : String → Pane → Pane
    select_dir dir p = record p { state = record p.state { selected = some dir } }

    unfoldable pub run_clone : String → Pane → Done String × Pane
    run_clone repo p =
        and_then (sandbox p)
          (λ made q. with_world q (clone S N O.projects_dir repo q.token (some 1) q.world))
