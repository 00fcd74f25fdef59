-- ===== src/Sandbox.antt =====
-- What the agent uses of crates/mc-sandbox and of the outside: processes, the registry of jobs, the
-- stop flag of the turn, base64. `World` is the state of all that, and changes at each effect.
use mobile_coder.Prelude.{ℕ, String, Bool, true, false, not, ◌&&◌, Option, none, some, List, eqb}
use mobile_coder.Jobs.{JobSummary, JobRead}

pub record Output : Type 0 where
  pub status : Option ℕ
  pub stdout : String
  pub stderr : String
  pub timed_out : Bool

abbrev pub is_status : ℕ → Option ℕ → Bool
is_status code none = false
is_status code (some found) = eqb found code

unfoldable pub is_ok : Output → Bool
is_ok out = not out.timed_out && is_status 0 out.status

-- An error comes as its text.
pub data Ran (A : Type 0) : Type 0 where
  ok : A → Ran A
  err : String → Ran A

pub record Sandbox : Type 1 where
  pub World : Type 0
  -- `Cancel::is_cancelled` on the token of the turn
  pub is_cancelled : World → Bool
  -- command, directory, deadline in seconds, and whether a stop kills it
  pub run_inner : String → Option String → Option ℕ → Bool → World → Ran Output × World
  pub start_background : String → Option String → World → Ran String × World
  pub read_job : String → World → Option JobRead × World
  pub list_jobs : World → List JobSummary
  pub kill_job : String → World → Option JobSummary × World
  pub kill_all : World → ℕ × World
  -- base64 of the bytes of a text, and back, where the bytes are UTF-8
  pub encode : String → String
  pub decode : String → Option String

module _ (S : Sandbox) where
  open S use {World}

  unfoldable pub run_with_timeout : String → Option String → Option ℕ → World → Ran Output × World
  run_with_timeout command cwd timeout w = S.run_inner command cwd timeout false w

  unfoldable pub run : String → Option String → World → Ran Output × World
  unfolding run_with_timeout
  run command cwd w = run_with_timeout command cwd none w

  unfoldable pub run_cancellable : String → Option String → Option ℕ → World → Ran Output × World
  run_cancellable command cwd timeout w = S.run_inner command cwd timeout true w
