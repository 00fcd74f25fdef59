-- ===== src/GitPane/Shown.antt =====
-- What the Git pane shows (crates/mc-ui/src/git.rs).
use mobile_coder.Prelude.{
  ◌<>◌, String, Bool, false, not, Option, none, some, List, [], map, keep, any, first?, ◌==◌,
  if◌then◌else◌,
}
use mobile_coder.Prelude.Text.{lines, trim, is_empty, split, show}
use mobile_coder.Sandbox.{Output, Ran, ok, err}
use mobile_coder.Github.{GithubError, http, unauthorized, api, other, Repo, repos, last_part}
use mobile_coder.Github.Git.{status}

pub data Command : Type 0 where
  sign_in : String → Command
  sign_out refresh : Command
  clone_repo : String → Command
  create : String → Command
  select : String → Command
  commit_all : String → Command
  push_all pull_all : Command

pub record Project : Type 0 where
  pub dir : String
  pub name : String
  pub status : Option String
  pub clean : Bool

pub record RepoRow : Type 0 where
  pub full_name : String
  pub private : Bool
  pub cloned : Bool

pub record GitState : Type 0 where
  pub signed_in : Option String
  pub repos : List RepoRow
  pub projects : List Project
  pub selected : Option String
  pub busy : Option String
  pub message : Option String

unfoldable pub rows : List Repo → List RepoRow
rows repos =
    map (λ r. record { full_name = r.full_name; private = r.private; cloned = false }) repos

unfoldable pub describe : Command → String
describe (sign_in token) = "Signing in…"
describe sign_out = "Signing out…"
describe refresh = "Refreshing…"
describe (clone_repo repo) = "Cloning " <> repo <> "…"
describe (create name) = "Creating " <> name <> "…"
describe (select dir) = "Reading the project…"
describe (commit_all message) = "Committing…"
describe push_all = "Pushing…"
describe pull_all = "Pulling…"

-- The text of a GithubError, and the sentence for the screen. Whether a failure of the network is one
-- of connecting, or a deadline, is told by the client.
unfoldable pub show_error : GithubError → String
show_error (http e) = "network request failed: " <> e
show_error (unauthorized reason) = "GitHub rejected the token (" <> reason <> ")"
show_error (api status message) = "GitHub returned " <> show status <> ": " <> message
show_error (other e) = e

unfoldable pub say : (String → Bool) → GithubError → String
say unreachable (unauthorized reason) =
    "GitHub rejected the token: " <> reason <> ". Add a new one."
say unreachable (http e) =
    if unreachable e then "Could not reach GitHub. Check the network." else show_error (http e)
say unreachable e = show_error e

unfoldable pub first_line : String → Option String
first_line text = first? (keep (λ l. not (is_empty l)) (map trim (lines text)))

unfoldable pub flag : List Project → RepoRow → RepoRow
flag projects r = record r {
  cloned = any (λ p. p.name == last_part r.full_name (split b'/' r.full_name)) projects;
}

unfoldable pub mark_cloned : GitState → GitState
mark_cloned s = record s { repos = map (flag s.projects) s.repos }

unfoldable pub list_command : String → String
list_command projects =
    "for d in " <> projects <> "/*/; do [ -d \"$d.git\" ] && printf '%s\\n' \"${d%/}\"; done"

abbrev pub dirs_of : Ran Output → List String
dirs_of (err e) = []
dirs_of (ok out) = keep (λ d. not (is_empty d)) (lines out.stdout)

abbrev pub is_in : Option String → List String → Bool
is_in none dirs = false
is_in (some dir) dirs = any (λ d. d == dir) dirs

-- The selection, or the first project where it is gone.
unfoldable pub selection : Option String → List String → Option String
selection selected dirs = if is_in selected dirs then selected else first? dirs
