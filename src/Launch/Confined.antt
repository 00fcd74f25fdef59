-- ===== src/Launch/Confined.antt =====
-- The sandbox of the device (`Sandbox` of crates/mc-sandbox/src/backend.rs on a `ProotBackend`), and
-- what is spawned when the model calls its tools.
use mobile_coder.Prelude.{
  ℕ, ◌≡◌, refl, ap, ◌∙◌, unwrap_or, String, Bool, true, false, Option, some, List, [], ◌∷◌,
}
use mobile_coder.Prelude.Text.Parts.{has_char}
use mobile_coder.Jobs.{JobRead, JobSummary}
use mobile_coder.Sandbox.{Sandbox, Ran, ok, err}
use mobile_coder.Launch.{ResolvedCommand, ProotBackend, guest_env, resolve_with, build}
use mobile_coder.Launch.Guest.{read_proot, read_command, launched, guest_is_launched}
use mobile_coder.Launch.Run.{
  Processes, Race, finished, deadline, stopped, Backend, proot, build_with, drained, killed,
  on_race, on_spawn, run_inner, on_start, start_background,
}
use mobile_coder.Tools.Kept.{Keeps}

-- The registry of jobs, the stop flag and base64, beside the processes.
pub record Others (W : Type 0) : Type 0 where
  pub is_cancelled : W → Bool
  pub read_job : String → W → Option JobRead × W
  pub list_jobs : W → List JobSummary
  pub kill_job : String → W → Option JobSummary × W
  pub kill_all : W → ℕ × W
  pub encode : String → String
  pub decode : String → Option String

-- `Sandbox::new`
abbrev pub sandbox_on : {W : Type 0} → Processes W → Others W → Backend → Sandbox
sandbox_on {W = W} P O backend = record {
  World = W;
  is_cancelled = O.is_cancelled;
  run_inner = run_inner P backend;
  start_background = start_background P backend;
  read_job = O.read_job;
  list_jobs = O.list_jobs;
  kill_job = O.kill_job;
  kill_all = O.kill_all;
  encode = O.encode;
  decode = O.decode;
}

-- What is spawned is proot, which reads of its arguments the root of the guest, its directory, the
-- fixed options, and env, which sets only the variables of the guest and runs its shell with the
-- command as one argument.
pub record IsConfined (b : ProotBackend) (r : ResolvedCommand) : Type 0 where
  pub cwd : String
  pub command : String
  pub is_proot : r.program ≡ b.proot
  pub is_launched : read_proot r.args ≡ launched b cwd ("-lc" ∷ command ∷ [])
  pub is_shell :
      read_command (read_proot r.args).command
      ≡ some (record { env = guest_env; argv = b.shell ∷ "-lc" ∷ command ∷ [] })

-- What the host relies on, for a predicate on the world: a spawn keeps it where the command is as
-- allowed, and nothing else starts a process.
pub record SpawnsOnly {W : Type 0} (P : Processes W) (O : Others W)
    (Allowed : ResolvedCommand → Type 0) (I : W → Type 0) : Type 0 where
  pub spawn : (r : ResolvedCommand) (w : W) → Allowed r → I w → I (P.spawn r w).1
  pub start_job :
      (command : String) (r : ResolvedCommand) (w : W)
      → Allowed r
      → I w
      → I (P.start_job command r w).1
  pub race :
      (child : ℕ) (limit : Option ℕ) (stops : Bool) (w : W) → I w → I (P.race child limit stops w).1
  pub kill_group : (child : ℕ) (w : W) → I w → I (P.kill_group child w)
  pub start_kill : (child : ℕ) (w : W) → I w → I (P.start_kill child w)
  pub wait : (child : ℕ) (w : W) → I w → I (P.wait child w).1
  pub stdout : (child : ℕ) (w : W) → I w → I (P.stdout child w).1
  pub stderr : (child : ℕ) (w : W) → I w → I (P.stderr child w).1
  pub read_job : (id : String) (w : W) → I w → I (O.read_job id w).1
  pub kill_job : (id : String) (w : W) → I w → I (O.kill_job id w).1
  pub kill_all : (w : W) → I w → I (O.kill_all w).1

build-IsConfined :
    (b : ProotBackend) (command : String) (cwd : Option String)
    → has_char b'=' b.shell ≡ false
    → IsConfined b (build command cwd b)
unfolding build resolve_with
build-IsConfined b command cwd plain =
    let (reads, runs) = guest_is_launched b (unwrap_or b.cwd cwd) ("-lc" ∷ command ∷ []) plain in
    record {
      cwd = unwrap_or b.cwd cwd;
      command = command;
      is_proot = refl;
      is_launched = reads;
      is_shell = ap (λ l. read_command l.command) reads ∙ runs;
    }

module _ {W : Type 0} (P : Processes W) (O : Others W) (b : ProotBackend) (I : W → Type 0)
    (plain : has_char b'=' b.shell ≡ false) (H : SpawnsOnly P O (IsConfined b) I) where
  drained-keeps :
      (child : ℕ) (status : Option ℕ) (late : Bool) (w : W)
      → I w
      → I (drained P child status late w).1
  unfolding drained
  drained-keeps child status late w h = H.stderr child _ (H.stdout child w h)

  killed-keeps : (child : ℕ) (w : W) → I w → I (killed P child w).1
  unfolding killed
  killed-keeps child w h = H.wait child _ (H.start_kill child _ (H.kill_group child w h))

  on_race-keeps :
      (r : ResolvedCommand) (child : ℕ) (race : Race) (w : W)
      → I w
      → I (on_race P r child (race, w)).1
  on_race-keeps r child (finished (ok status)) w h = drained-keeps child status false w h
  on_race-keeps r child (finished (err e)) w h = h
  on_race-keeps r child deadline w h = drained-keeps child _ true _ (killed-keeps child w h)
  on_race-keeps r child stopped w h = drained-keeps child _ false _ (killed-keeps child w h)

  on_spawn-keeps :
      (r : ResolvedCommand) (limit : Option ℕ) (stops : Bool) (child : Ran ℕ) (w : W)
      → I w
      → I (on_spawn P r limit stops (child, w)).1
  on_spawn-keeps r limit stops (err e) w h = h
  on_spawn-keeps r limit stops (ok child) w h =
      on_race-keeps r child _ _ (H.race child limit stops w h)

  on_start-keeps :
      (r : ResolvedCommand) (started : Ran String) (w : W) → I w → I (on_start P r (started, w)).1
  on_start-keeps r (err e) w h = h
  on_start-keeps r (ok id) w h = h

  -- The sandbox of the device keeps what allows only confined commands to be spawned.
  pub sandbox_on-Keeps : Keeps (sandbox_on P O (proot b)) I
  unfolding run_inner start_background build_with
  sandbox_on-Keeps = record {
    run_inner = λ command cwd limit stops w h.
        on_spawn-keeps _ limit stops _ _ (H.spawn _ w (build-IsConfined b command cwd plain) h);
    start_background = λ command cwd w h.
        on_start-keeps _ _ _ (H.start_job command _ w (build-IsConfined b command cwd plain) h);
    read_job = H.read_job;
    kill_job = H.kill_job;
    kill_all = H.kill_all;
  }
