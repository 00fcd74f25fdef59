-- ===== src/Launch/Run.antt =====
-- Running a resolved command (`Sandbox` of crates/mc-sandbox/src/backend.rs). Processes, pipes and
-- signals are the host's; what is spawned has a group of its own.
use mobile_coder.Prelude.{ℕ, ◌<>◌, String, Bool, true, false, Option, none, some, List, []}
use mobile_coder.Sandbox.{Output, Ran, ok, err}
use mobile_coder.Launch.{ResolvedCommand, ProotBackend, build, host_build}

-- What is first: the end of the command, its deadline, or a stop.
pub data Race : Type 0 where
  finished : Ran (Option ℕ) → Race
  deadline : Race
  stopped : Race

pub record Processes (W : Type 0) : Type 0 where
  -- `configure` and `spawn`: a child, or the text of the error
  pub spawn : ResolvedCommand → W → Ran ℕ × W
  -- `select!` over the child, a limit in seconds where there is one, and a stop where it counts
  pub race : ℕ → Option ℕ → Bool → W → Race × W
  pub kill_group : ℕ → W → W
  pub start_kill : ℕ → W → W
  pub wait : ℕ → W → Option (Option ℕ) × W
  -- what the readers of the two pipes have within the grace, or none
  pub stdout : ℕ → W → Option (List ℕ) × W
  pub stderr : ℕ → W → Option (List ℕ) × W
  -- `String::from_utf8_lossy`
  pub lossy : List ℕ → String
  -- `jobs::start` with the configured command
  pub start_job : String → ResolvedCommand → W → Ran String × W

pub data Backend : Type 0 where
  host : (shell : String) → Backend
  proot : ProotBackend → Backend

-- `Backend::build`, which never fails, since both backends resolve directly.
unfoldable pub build_with : Backend → String → Option String → ResolvedCommand
build_with (host shell) command cwd = host_build shell command
build_with (proot b) command cwd = build command cwd b

abbrev pub bytes_of : Option (List ℕ) → List ℕ
bytes_of none = []
bytes_of (some bytes) = bytes

abbrev pub code_of : Option (Option ℕ) → Option ℕ
code_of none = none
code_of (some code) = code

unfoldable pub spawn_error : ResolvedCommand → String → String
spawn_error resolved e = "spawning " <> resolved.program <> " failed: " <> e

module _ {W : Type 0} (P : Processes W) where
  unfoldable pub drained : ℕ → Option ℕ → Bool → W → Output × W
  drained child status timed_out w =
      let (out, w1) = P.stdout child w in
      let (errors, w2) = P.stderr child w1 in
      (
        record {
          status = status;
          stdout = P.lossy (bytes_of out);
          stderr = P.lossy (bytes_of errors);
          timed_out = timed_out;
        },
        w2,
      )

  abbrev pub as_ok : Output × W → Ran Output × W
  as_ok (out, w) = (ok out, w)

  -- The whole group is killed, and then what was spawned is waited for.
  unfoldable pub killed : ℕ → W → Option (Option ℕ) × W
  killed child w = P.wait child (P.start_kill child (P.kill_group child w))

  abbrev pub after_kill : ℕ → Bool → Option (Option ℕ) × W → Ran Output × W
  after_kill child timed_out (status, w) = as_ok (drained child (code_of status) timed_out w)

  abbrev pub on_race : ResolvedCommand → ℕ → Race × W → Ran Output × W
  on_race resolved child (finished (ok status), w) = as_ok (drained child status false w)
  on_race resolved child (finished (err e), w) = (err (spawn_error resolved e), w)
  on_race resolved child (deadline, w) = after_kill child true (killed child w)
  on_race resolved child (stopped, w) = after_kill child false (killed child w)

  abbrev pub on_spawn : ResolvedCommand → Option ℕ → Bool → Ran ℕ × W → Ran Output × W
  on_spawn resolved timeout cancel (err e, w) = (err (spawn_error resolved e), w)
  on_spawn resolved timeout cancel (ok child, w) =
      on_race resolved child (P.race child timeout cancel w)

  unfoldable pub run_inner : Backend → String → Option String → Option ℕ → Bool → W → Ran Output × W
  run_inner backend command cwd timeout cancel w =
      let resolved = build_with backend command cwd in
      on_spawn resolved timeout cancel (P.spawn resolved w)

  abbrev pub on_start : ResolvedCommand → Ran String × W → Ran String × W
  on_start resolved (err e, w) = (err (spawn_error resolved e), w)
  on_start resolved (ok id, w) = (ok id, w)

  unfoldable pub start_background : Backend → String → Option String → W → Ran String × W
  start_background backend command cwd w =
      let resolved = build_with backend command cwd in
      on_start resolved (P.start_job command resolved w)
