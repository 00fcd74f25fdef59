-- ===== src/Agent/Turn/Confined.antt =====
-- A turn on the device: the agent (crates/mc-agent/src/lib.rs) on the sandbox that the app makes for
-- it, with what it spawns.
use mobile_coder.Prelude.{ℕ, ◌≡◌, sym, subst, String, Bool, false, Option, List, ◌∷◌, All}
use mobile_coder.Prelude.Text.Parts.{has_char}
use mobile_coder.Json.{Json}
use mobile_coder.Session.{Session}
use mobile_coder.Launch.{ResolvedCommand, ProotBackend}
use mobile_coder.Launch.Run.{Processes, proot}
use mobile_coder.Launch.Confined.{Others, sandbox_on, IsConfined, SpawnsOnly, sandbox_on-Keeps}
use mobile_coder.Agent.{AgentConfig, Response, Reply, Host}
use mobile_coder.Agent.Turn.{run_turn_cancellable}
use mobile_coder.Agent.Turn.Kept.{run_turn-keeps}

-- The requests and the pauses of the agent.
pub record Network (J : Json) (W : Type 0) : Type 0 where
  pub send : J.Value → W → Response × W
  pub ask : J.Value → W → Reply × W
  pub sleep : ℕ → W → W

abbrev pub device :
    (J : Json) → {W : Type 0} → Processes W → Others W → Network J W → ProotBackend → Host J
device J P O N b = record {
  sandbox = sandbox_on P O (proot b);
  send = N.send;
  ask = N.ask;
  sleep = N.sleep;
}

-- The world holds what was spawned: a spawn and the start of a job add their command, and nothing
-- else adds one.
pub record IsLogged {J : Json} {W : Type 0} (P : Processes W) (O : Others W) (N : Network J W)
    (spawned : W → List ResolvedCommand) : Type 0 where
  pub spawn : (r : ResolvedCommand) (w : W) → spawned (P.spawn r w).1 ≡ r ∷ spawned w
  pub start_job :
      (command : String) (r : ResolvedCommand) (w : W)
      → spawned (P.start_job command r w).1 ≡ r ∷ spawned w
  pub race :
      (child : ℕ) (limit : Option ℕ) (stops : Bool) (w : W)
      → spawned (P.race child limit stops w).1 ≡ spawned w
  pub kill_group : (child : ℕ) (w : W) → spawned (P.kill_group child w) ≡ spawned w
  pub start_kill : (child : ℕ) (w : W) → spawned (P.start_kill child w) ≡ spawned w
  pub wait : (child : ℕ) (w : W) → spawned (P.wait child w).1 ≡ spawned w
  pub stdout : (child : ℕ) (w : W) → spawned (P.stdout child w).1 ≡ spawned w
  pub stderr : (child : ℕ) (w : W) → spawned (P.stderr child w).1 ≡ spawned w
  pub read_job : (id : String) (w : W) → spawned (O.read_job id w).1 ≡ spawned w
  pub kill_job : (id : String) (w : W) → spawned (O.kill_job id w).1 ≡ spawned w
  pub kill_all : (w : W) → spawned (O.kill_all w).1 ≡ spawned w
  pub send : (body : J.Value) (w : W) → spawned (N.send body w).1 ≡ spawned w
  pub ask : (body : J.Value) (w : W) → spawned (N.ask body w).1 ≡ spawned w
  pub sleep : (ms : ℕ) (w : W) → spawned (N.sleep ms w) ≡ spawned w

module _ (J : Json) {W : Type 0} (P : Processes W) (O : Others W) (N : Network J W)
    (b : ProotBackend) (spawned : W → List ResolvedCommand) (L : IsLogged P O N spawned)
    (plain : has_char b'=' b.shell ≡ false) where
  IsGuest : W → Type 0
  IsGuest w = All (IsConfined b) (spawned w)

  same : (w w' : W) → spawned w' ≡ spawned w → IsGuest w → IsGuest w'
  unfolding IsGuest
  same w w' e h = subst (All (IsConfined b)) (sym e) h

  more :
      (r : ResolvedCommand) (w w' : W)
      → spawned w' ≡ r ∷ spawned w
      → IsConfined b r
      → IsGuest w
      → IsGuest w'
  unfolding IsGuest
  more r w w' e c h = subst (All (IsConfined b)) (sym e) (c, h)

  spawns_only : SpawnsOnly P O (IsConfined b) IsGuest
  spawns_only = record {
    spawn = λ r w c h. more r w _ (L.spawn r w) c h;
    start_job = λ command r w c h. more r w _ (L.start_job command r w) c h;
    race = λ child limit stops w h. same w _ (L.race child limit stops w) h;
    kill_group = λ child w h. same w _ (L.kill_group child w) h;
    start_kill = λ child w h. same w _ (L.start_kill child w) h;
    wait = λ child w h. same w _ (L.wait child w) h;
    stdout = λ child w h. same w _ (L.stdout child w) h;
    stderr = λ child w h. same w _ (L.stderr child w) h;
    read_job = λ id w h. same w _ (L.read_job id w) h;
    kill_job = λ id w h. same w _ (L.kill_job id w) h;
    kill_all = λ w h. same w _ (L.kill_all w) h;
  }

  -- A turn spawns only commands of the guest.
  pub turn_stays_in_guest :
      (config : AgentConfig) (s : Session J.Value) (prompt : String) (w : W)
      → All (IsConfined b) (spawned w)
      → All
          (IsConfined b)
          (spawned (run_turn_cancellable J (device J P O N b) config s prompt w).world)
  unfolding IsGuest
  turn_stays_in_guest config s prompt w h =
      run_turn-keeps J (device J P O N b) IsGuest
        (record {
          tools = sandbox_on-Keeps P O b IsGuest plain spawns_only;
          send = λ body w h. same w _ (L.send body w) h;
          ask = λ body w h. same w _ (L.ask body w) h;
          sleep = λ ms w h. same w _ (L.sleep ms w) h;
        })
        config s prompt w h
