-- ===== src/Github/Command.antt =====
-- The git command line of the sandbox (`git` of crates/mc-github/src/git.rs).
pub mod Shell
pub mod Words
use Prim.Native.String.{count}
use mobile_coder.Prelude.{
  ℕ, ◌<>◌, String, Option, none, some, List, [], ◌∷◌, ◌++◌, map, leb, if◌then◌else◌,
}
use mobile_coder.Prelude.Text.{replace_char, join, trim, is_empty, take_chars, show}
use mobile_coder.Sandbox.{Sandbox, Output, Ran, ok, err, is_ok, run_with_timeout}
use mobile_coder.Github.{GithubError, other, Done, fine, failed}

-- In seconds.
abbrev pub network_timeout : ℕ
network_timeout = 600

abbrev pub local_timeout : ℕ
local_timeout = 60

abbrev pub git_settings : List String
git_settings = "-c" ∷ "core.createObject=rename" ∷ []

unfoldable pub shell_quote : String → String
shell_quote raw = "'" <> replace_char b'\'' "'\\''" raw <> "'"

unfoldable pub clip : String → ℕ → String
clip text max = if leb (count text) max then text else take_chars max text <> "…"

unfoldable pub git_command : String → List String → String
git_command dir args =
    "cd " <> shell_quote dir <> " && " <> join " " ("git" ∷ map shell_quote (git_settings ++ args))

abbrev reason_of : Output → String
reason_of out = if is_empty (trim out.stderr) then trim out.stdout else trim out.stderr

unfoldable pub outcome : ℕ → Ran Output → Done String
outcome timeout (err e) = failed (other e)
outcome timeout (ok out) =
    if out.timed_out
    then failed (other ("git took longer than " <> show timeout <> "s and was stopped"))
    else if is_ok out
    then fine out.stdout
    else failed (other (clip (reason_of out) 400))

module _ (S : Sandbox) where
  unfoldable pub git : String → List String → ℕ → S.World → Done String × S.World
  git dir args timeout w =
      let (out, w') = run_with_timeout S (git_command dir args) none (some timeout) w in
      (outcome timeout out, w')
