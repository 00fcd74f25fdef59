-- ===== src/GitPane/Signed.antt =====
-- Who is signed in, and the token (`run` of crates/mc-ui/src/git.rs).
use mobile_coder.Prelude.{
  ◌≡◌, refl, String, Bool, true, false, Option, none, some, List, [], ◌∷◌, ◌++◌,
}
use mobile_coder.Json.{Json}
use mobile_coder.Sandbox.{Sandbox, Ran, ok, err}
use mobile_coder.Github.{
  GithubError, http, unauthorized, api, other, Done, fine, failed, Viewer, Repo, Token, Answer,
  create_repo,
}
use mobile_coder.Github as Hub
use mobile_coder.Github.Git.{Network}
use mobile_coder.GitPane.{
  Command, sign_in, sign_out, refresh, clone_repo, create, select, commit_all, push_all, pull_all,
  Project, mark_cloned, Outside, Pane, publish, with_world, and_then, as_done, sandbox, if_selected,
  project, signed_out, set_repos, ask, on_viewer, with_token, load_account, describe_dir,
  describe_dirs, on_sandbox, load_projects, select_dir, run_clone,
}
use mobile_coder.GitPane.Commands.{then_projects, refreshed, created, execute, settle, run}

abbrev is_set : Option Token → Bool
is_set none = false
is_set (some t) = true

-- Where someone is signed in there is a token.
abbrev pub IsHeld : Option String → Option Token → Type 0
IsHeld none token = Unit
IsHeld (some login) token = is_set token ≡ true

module _ (J : Json) (S : Sandbox) (N : Network S.World) (O : Outside J S N) where
  abbrev pub HoldsToken : Pane J S N → Type 0
  HoldsToken p = IsHeld p.state.signed_in p.token

  and_then-HoldsToken :
      {A B : Type 0} (r : Done A × Pane J S N) (f : A → Pane J S N → Done B × Pane J S N)
      → HoldsToken r.1
      → ((a : A) (q : Pane J S N) → HoldsToken q → HoldsToken (f a q).1)
      → HoldsToken (and_then J S N O r f).1
  unfolding and_then
  and_then-HoldsToken (fine a, p) f h k = k a p h
  and_then-HoldsToken (failed e, p) f h k = h

  sandbox-HoldsToken : (p : Pane J S N) → HoldsToken p → HoldsToken (sandbox J S N O p).1
  unfolding sandbox
  sandbox-HoldsToken p h = made (O.create_sandbox p.world)
    where
      made : (r : Ran Unit × S.World) → HoldsToken (as_done J S N O (with_world J S N O p r)).1
      made (ok done, w) = h
      made (err e, w) = h

  ask-HoldsToken :
      {A : Type 0} (read : String → Ran A) (request : Hub.Request J.Value) (p : Pane J S N)
      → HoldsToken p
      → HoldsToken (ask J S N O read request p).1
  unfolding ask
  ask-HoldsToken read request p h = h

  on_viewer-HoldsToken :
      (t : Token) (r : Done Viewer × Pane J S N)
      → is_set r.1.token ≡ true
      → HoldsToken r.1
      → HoldsToken (on_viewer J S N O t r).1
  unfolding set_repos ask mark_cloned signed_out
  on_viewer-HoldsToken t (fine v, p) there h = there
  on_viewer-HoldsToken t (failed (unauthorized reason), p) there h = tt
  on_viewer-HoldsToken t (failed (http e), p) there h = h
  on_viewer-HoldsToken t (failed (api n m), p) there h = h
  on_viewer-HoldsToken t (failed (other e), p) there h = h

  with_token-HoldsToken :
      (token : Option Token) (p : Pane J S N)
      → p.token ≡ token
      → HoldsToken p
      → HoldsToken (with_token J S N O token p).1
  unfolding ask
  with_token-HoldsToken none p e h = h
  with_token-HoldsToken (some t) p e h = on_viewer-HoldsToken t _ (rw e refl) h

  load_account-HoldsToken : (p : Pane J S N) → HoldsToken p → HoldsToken (load_account J S N O p).1
  unfolding load_account
  load_account-HoldsToken p h = with_token-HoldsToken p.token p refl h

  describe_dirs-HoldsToken :
      (selected : Option String) (dirs : List String) (found : List Project) (p : Pane J S N)
      → HoldsToken p
      → HoldsToken (describe_dirs J S N O selected dirs found p)
  unfolding describe_dirs mark_cloned
  describe_dirs-HoldsToken selected [] found p h = h
  describe_dirs-HoldsToken selected (dir ∷ dirs) found p h =
      let (project, w) = describe_dir J S N O selected dir p.world in
      describe_dirs-HoldsToken selected dirs (found ++ project ∷ []) (record p { world = w }) h

  load_projects-HoldsToken : (p : Pane J S N) → HoldsToken p → HoldsToken (load_projects J S N O p)
  unfolding load_projects
  load_projects-HoldsToken p h = listed (sandbox J S N O p) (sandbox-HoldsToken p h)
    where
      listed : (r : Done Unit × Pane J S N) → HoldsToken r.1 → HoldsToken (on_sandbox J S N O r)
      listed (failed e, q) k = k
      listed (fine made, q) k = describe_dirs-HoldsToken _ _ [] _ k

  then_projects-HoldsToken :
      (message : Pane J S N → Option String) (p : Pane J S N)
      → HoldsToken p
      → HoldsToken (then_projects J S N O message p).1
  unfolding then_projects
  then_projects-HoldsToken message p h = load_projects-HoldsToken p h

  project-HoldsToken : (p : Pane J S N) → HoldsToken p → HoldsToken (project J S N O p).1
  unfolding project
  project-HoldsToken p h = chosen p.state.selected
    where
      chosen : (o : Option String) → HoldsToken (if_selected J S N O o p).1
      chosen none = h
      chosen (some dir) =
          and_then-HoldsToken (sandbox J S N O p) _ (sandbox-HoldsToken p h) (λ made q k. k)

  run_clone-HoldsToken :
      (repo : String) (p : Pane J S N) → HoldsToken p → HoldsToken (run_clone J S N O repo p).1
  unfolding run_clone
  run_clone-HoldsToken repo p h =
      and_then-HoldsToken (sandbox J S N O p) _ (sandbox-HoldsToken p h) (λ made q k. k)

  -- An operation on the selected project, and the projects read again.
  on_project :
      (p : Pane J S N) (act : String → Pane J S N → Done String × Pane J S N)
      (message : String → Pane J S N → Option String)
      → HoldsToken p
      → ((dir : String) (q : Pane J S N) → HoldsToken q → HoldsToken (act dir q).1)
      → HoldsToken
          (and_then J S N O (project J S N O p) (λ dir q.
            and_then J S N O (act dir q) (λ out q1. then_projects J S N O (message out) q1))).1
  on_project p act message h keep =
      and_then-HoldsToken (project J S N O p) _ (project-HoldsToken p h) (λ dir q k.
        and_then-HoldsToken (act dir q) _ (keep dir q k)
          (λ out q1 k1. then_projects-HoldsToken (message out) q1 k1))

  refreshed-HoldsToken :
      (token : Option Token) (p : Pane J S N)
      → HoldsToken p
      → HoldsToken (refreshed J S N O token p).1
  refreshed-HoldsToken none p h = h
  refreshed-HoldsToken (some t) p h = load_account-HoldsToken p h

  created-HoldsToken :
      (name : String) (token : Option Token) (p : Pane J S N)
      → HoldsToken p
      → HoldsToken (created J S N O name token p).1
  created-HoldsToken name none p h = h
  created-HoldsToken name (some t) p h = ask-HoldsToken O.read_repo _ p h

  with_any_token : (login : Option String) (t : Token) → IsHeld login (some t)
  with_any_token none t = tt
  with_any_token (some l) t = refl

  execute-HoldsToken :
      (command : Command) (p : Pane J S N) → HoldsToken p → HoldsToken (execute J S N O command p).1
  unfolding execute signed_out
  execute-HoldsToken (sign_in token) p h =
      and_then-HoldsToken (load_account J S N O _) _
        (load_account-HoldsToken (record p { token = some (record { as_str = token }) })
          (with_any_token p.state.signed_in (record { as_str = token })))
        (λ loaded q k. then_projects-HoldsToken _ q k)
  execute-HoldsToken sign_out p h = tt
  execute-HoldsToken refresh p h =
      and_then-HoldsToken (refreshed J S N O p.token p) _ (refreshed-HoldsToken p.token p h)
        (λ loaded q k. then_projects-HoldsToken _ q k)
  execute-HoldsToken (clone_repo repo) p h =
      and_then-HoldsToken (run_clone J S N O repo p) _ (run_clone-HoldsToken repo p h)
        (λ dir q k. then_projects-HoldsToken _ (select_dir J S N O dir q) k)
  execute-HoldsToken (create name) p h =
      and_then-HoldsToken (created J S N O name p.token p) _ (created-HoldsToken name p.token p h)
        (λ repo q k.
          and_then-HoldsToken (run_clone J S N O repo.full_name q) _
            (run_clone-HoldsToken repo.full_name q k)
            (λ dir q1 k1.
              and_then-HoldsToken (load_account J S N O (select_dir J S N O dir q1)) _
                (load_account-HoldsToken (select_dir J S N O dir q1) k1)
                (λ loaded q2 k2. then_projects-HoldsToken _ q2 k2)))
  execute-HoldsToken (select dir) p h = then_projects-HoldsToken _ (select_dir J S N O dir p) h
  execute-HoldsToken (commit_all message) p h = on_project p _ _ h (λ dir q k. k)
  execute-HoldsToken push_all p h = on_project p _ _ h (λ dir q k. k)
  execute-HoldsToken pull_all p h = on_project p _ _ h (λ dir q k. k)

  -- Where someone is signed in only with a token, that is so behind any command of the Git pane,
  -- whatever failed; nothing is shown as running then, and what is published is the state.
  pub run-HoldsToken :
      (command : Command) (p : Pane J S N)
      → HoldsToken p
      → HoldsToken (run J S N O command p)
        × ((run J S N O command p).state.busy ≡ none)
        × ((run J S N O command p).shown ≡ some (run J S N O command p).state)
  unfolding run settle publish
  run-HoldsToken command p h = (execute-HoldsToken command _ h, refl, refl)
