-- ===== src/Github/Git.antt =====
-- The git operations of a project (crates/mc-github/src/git.rs). Opening a proxy and closing it is
-- the outside: a proxy is closed where its value goes out of scope.
use mobile_coder.Prelude.{
  ℕ, ◌<>◌, String, Bool, Option, none, some, List, [], ◌∷◌, ◌++◌, if◌then◌else◌, eqb, ◌||◌, not,
}
use mobile_coder.Prelude.Text.{trim, split, is_empty, show, contains_lower, count_matches}
use mobile_coder.Prelude.Text.Affix.{trim_end_matches}
use mobile_coder.Sandbox.{Sandbox, Output, Ran, ok, err, run_with_timeout}
use mobile_coder.Github.{GithubError, other, Done, fine, failed, Token, git_root, last_part}
use mobile_coder.Github.Command.{git, shell_quote, local_timeout, network_timeout}
use mobile_coder.Github.Status.{Status, parse_status, repo_of, origin_url}
use mobile_coder.Github.Proxy as Proxy

abbrev pub projects_dir : String
projects_dir = "/root/projects"

-- The listener of a proxy: the port that it gets, where it can be opened, what it serves, and its
-- end.
pub record Network (W : Type 0) : Type 0 where
  pub bind : W → Ran ℕ × W
  pub secret : W → String × W
  pub serve : Proxy.State → W → W
  pub close : W → W

-- `{e}` of a failed local call, and `unwrap_or_default`.
abbrev pub text_or : String → Done String → String
text_or d (fine s) = s
text_or d (failed e) = d

unfoldable pub mentions : String → String → Bool
mentions p s = not (eqb (count_matches p s) 0)

unfoldable pub explain_push : GithubError → String → GithubError
explain_push (other reason) repo =
    if contains_lower reason "denied to" || contains_lower reason "403"
    then other (
        "The token cannot write to " <> repo
        <> ". On github.com, give it Contents: Read and write, and make sure " <> repo
        <> " is one of the repositories it can reach.")
    else if contains_lower reason "non-fast-forward" || contains_lower reason "rejected"
    then other "The remote has commits this branch does not. Pull first, then push again."
    else other reason
explain_push e repo = e

unfoldable pub explain_merge : GithubError → GithubError
explain_merge (other reason) =
    if mentions "Not possible to fast-forward" reason
    then other
        "the branch and its remote have both moved on. Sort it out where there is a bigger screen, or reset to the remote and lose the local commits."
    else other reason
explain_merge e = e

abbrev pub map_err : {A : Type 0} → (GithubError → GithubError) → Done A → Done A
map_err f (fine a) = fine a
map_err f (failed e) = failed (f e)

-- A proxy that is open: what it tells git to rewrite.
unfoldable pub rewrite_of : ℕ → String → String
rewrite_of port secret = Proxy.rewrite_for (Proxy.prefix port secret) git_root

abbrev pub identity_args : Option (String × String) → List String
identity_args none = []
identity_args (some (name, email)) =
    "-c" ∷ ("user.name=" <> name) ∷ "-c" ∷ ("user.email=" <> email) ∷ []

abbrev pub depth_args : Option ℕ → List String
depth_args none = []
depth_args (some depth) = "--depth" ∷ show depth ∷ []

module _ (S : Sandbox) where
  -- `?`: an error ends the operation.
  unfoldable pub and_then :
      {A B : Type 0} → Done A × S.World → (A → S.World → Done B × S.World) → Done B × S.World
  and_then (fine a, w) f = f a w
  and_then (failed e, w) f = (failed e, w)

  pub status_of : String → Done String × S.World → Done Status × S.World
  status_of porcelain (remote, w) =
      (fine (record (parse_status porcelain) { repo = repo_of (trim (text_or "" remote)) }), w)

  unfoldable pub status : String → S.World → Done Status × S.World
  unfolding status_of
  status dir w =
      and_then
        (git S dir ("status" ∷ "--porcelain=v2" ∷ "--branch" ∷ "--untracked-files=normal" ∷ [])
          local_timeout w)
        (λ porcelain w'.
          status_of porcelain (git S dir ("remote" ∷ "get-url" ∷ "origin" ∷ []) local_timeout w'))

  unfoldable pub commit :
      String → String → Option (String × String) → S.World → Done String × S.World
  commit dir message author w =
      if is_empty (trim message)
      then (failed (other "a commit needs a message"), w)
      else and_then (git S dir ("add" ∷ "-A" ∷ []) local_timeout w) (λ added w'.
        git S dir (identity_args author ++ "commit" ∷ "-m" ∷ message ∷ []) local_timeout w')

  unfoldable pub init : String → S.World → Done String × S.World
  init dir w = git S dir ("init" ∷ "-b" ∷ "main" ∷ []) local_timeout w

  abbrev or_else : Done String × S.World → (S.World → Done String × S.World) → Done String × S.World
  or_else (fine a, w) f = (fine a, w)
  or_else (failed e, w) f = f w

  unfoldable pub set_origin : String → String → S.World → Done String × S.World
  set_origin dir repo w =
      or_else (git S dir ("remote" ∷ "add" ∷ "origin" ∷ origin_url repo ∷ []) local_timeout w)
        (git S dir ("remote" ∷ "set-url" ∷ "origin" ∷ origin_url repo ∷ []) local_timeout)

  module _ (N : Network S.World) where
    -- The end of the scope of a proxy, which aborts its task.
    pub closed : {A : Type 0} → Done A × S.World → Done A × S.World
    closed (r, w) = (r, N.close w)

    abbrev served : String → Option Token → ℕ → String × S.World → Done String × S.World
    served repo token port (secret, w) =
        (fine (rewrite_of port secret), N.serve (Proxy.new_state repo token git_root secret) w)

    abbrev bound : String → Option Token → Ran ℕ × S.World → Done String × S.World
    bound repo token (err e, w) = (failed (other e), w)
    bound repo token (ok port, w) = served repo token port (N.secret w)

    -- `GitProxy::start`: a proxy that serves, by the setting that leads git to it.
    pub start_proxy : String → Option Token → S.World → Done String × S.World
    start_proxy repo token w = bound repo token (N.bind w)

    pub made_dir : Ran Output × S.World → Done String × S.World
    made_dir (err e, w) = (failed (other e), w)
    made_dir (ok out, w) = (fine "", w)

    abbrev pub target_dir : String → String → String
    target_dir projects repo =
        projects <> "/" <> trim_end_matches ".git" (last_part repo (split b'/' repo))

    unfoldable pub clone :
        String → String → Option Token → Option ℕ → S.World → Done String × S.World
    unfolding made_dir start_proxy closed
    clone projects repo token depth w = and_then (start_proxy repo token w) (λ rewrite w1. closed (
        and_then
          (made_dir
            (run_with_timeout S ("mkdir -p " <> shell_quote projects) none (some local_timeout) w1))
          (λ made w2.
            and_then
              (git S projects
                (("-c" ∷ rewrite ∷ "clone" ∷ depth_args depth)
                  ++ origin_url repo ∷ target_dir projects repo ∷ [])
                network_timeout w2)
              (λ said w3. (fine (target_dir projects repo), w3)))))

    abbrev pub with_remote :
        Option String → (String → S.World → Done String × S.World) → S.World → Done String × S.World
    with_remote none body w = (failed (other "this project has no GitHub remote"), w)
    with_remote (some repo) body w = body repo w

    pub explained : (GithubError → GithubError) → Done String × S.World → Done String × S.World
    explained f (r, w) = (map_err f r, w)

    unfoldable pub push : String → Option Token → S.World → Done String × S.World
    unfolding explained start_proxy closed
    push dir token w = and_then (status dir w) (λ found. with_remote found.repo (λ repo w1.
        and_then (start_proxy repo token w1) (λ rewrite w2. closed (
          explained (λ e. explain_push e repo)
            (git S dir ("-c" ∷ rewrite ∷ "push" ∷ "-u" ∷ "origin" ∷ "HEAD" ∷ []) network_timeout
              w2)))))

    unfoldable pub pull : String → Option Token → S.World → Done String × S.World
    unfolding explained start_proxy closed
    pull dir token w = and_then (status dir w) (λ found. with_remote found.repo (λ repo w1.
        and_then (start_proxy repo token w1) (λ rewrite w2. closed (
          and_then (git S dir ("-c" ∷ rewrite ∷ "fetch" ∷ "origin" ∷ []) network_timeout w2)
            (λ fetched w3.
              explained explain_merge
                (git S dir ("merge" ∷ "--ff-only" ∷ "@{u}" ∷ []) local_timeout w3))))))
