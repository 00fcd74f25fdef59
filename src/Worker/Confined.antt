-- ===== src/Worker/Confined.antt =====
-- The worker on the device: what is spawned whatever commands it serves (crates/mc-agent/src/worker.rs).
use mobile_coder.Prelude.{
  ◌≡◌, refl, ap, sym, subst, inl, inr, Option-cases, String, Bool, false, ℕ, List, [], ◌∷◌, All,
}
use mobile_coder.Prelude.Text.Parts.{has_char}
use mobile_coder.Json.{Json}
use mobile_coder.Session.{SessionId, Project}
use mobile_coder.Sandbox.{Ran, ok, err}
use mobile_coder.Launch.{ResolvedCommand, ProotBackend}
use mobile_coder.Launch.Run.{Processes}
use mobile_coder.Launch.Confined.{Others, IsConfined}
use mobile_coder.Agent.{AgentConfig}
use mobile_coder.Agent.Turn.Confined.{Network, device, IsLogged, turn_stays_in_guest}
use mobile_coder.Worker.{
  AgentCommand, prompt, open_chat, new_chat, Outside, State, store, open_or_new, opened,
  start_empty, end_turn, prompt_with, serve_prompt, serve, serve_all,
}

-- What the worker asks of the outside beside the turns.
pub record Surroundings (W : Type 0) : Type 0 where
  pub reset : W → W
  pub setup : W → Ran AgentConfig × W
  pub now : W → ℕ
  pub can_write : W → Bool
  pub fresh_id : W → SessionId × W

abbrev pub on_device :
    (J : Json)
    → {W : Type 0} → Processes W
    → Others W
    → Network J W
    → ProotBackend
    → Surroundings W
    → Outside J
on_device J P O N b U = record {
  host = device J P O N b;
  reset = U.reset;
  setup = U.setup;
  now = U.now;
  can_write = U.can_write;
  fresh_id = U.fresh_id;
}

-- None of these spawns anything.
pub record IsSilent {W : Type 0} (U : Surroundings W) (spawned : W → List ResolvedCommand)
    : Type 0 where
  pub reset : (w : W) → spawned (U.reset w) ≡ spawned w
  pub setup : (w : W) → spawned (U.setup w).1 ≡ spawned w
  pub fresh_id : (w : W) → spawned (U.fresh_id w).1 ≡ spawned w

module _ (J : Json) {W : Type 0} (P : Processes W) (O : Others W) (N : Network J W)
    (b : ProotBackend) (U : Surroundings W) (spawned : W → List ResolvedCommand)
    (L : IsLogged P O N spawned) (Q : IsSilent U spawned) (plain : has_char b'=' b.shell ≡ false)
    (project : Project) where
  abbrev outside : Outside J
  outside = on_device J P O N b U

  abbrev IsGuest : State J outside project → Type 0
  IsGuest st = All (IsConfined b) (spawned st.world)

  same :
      (w w' : W)
      → spawned w' ≡ spawned w
      → All (IsConfined b) (spawned w)
      → All (IsConfined b) (spawned w')
  same w w' e h = subst (All (IsConfined b)) (sym e) h

  store-world : (st : State J outside project) → (store J outside project st).world ≡ st.world
  unfolding store
  store-world st = elim (Option-cases st.files) [ inl e ↦ rw e refl | inr (files, e) ↦ rw e refl ]

  stored : (st : State J outside project) → IsGuest st → IsGuest (store J outside project st)
  stored st h = same st.world _ (ap spawned (store-world st)) h

  started : (st : State J outside project) → IsGuest st → IsGuest (start_empty J outside project st)
  unfolding start_empty
  started st h = same st.world _ (Q.fresh_id st.world) h

  opened_chat :
      (id : SessionId) (st : State J outside project)
      → IsGuest st
      → IsGuest (open_or_new J outside project id st)
  unfolding open_or_new
  opened_chat id st h = elim (Option-cases (opened J outside project id st)) [
    | inl e ↦ rw (open_or_new, e) (started st h)
    | inr (s, e) ↦ rw (open_or_new, e) h
  ]

  prompted :
      (text : String) (st : State J outside project) (w : W) (ready : Ran AgentConfig)
      → All (IsConfined b) (spawned w)
      → IsGuest (prompt_with J outside project text st w ready).0
  unfolding prompt_with end_turn
  prompted text st w (err reason) h = h
  prompted text st w (ok config) h =
      stored _ (turn_stays_in_guest J P O N b spawned L plain config st.session text w h)

  served :
      (c : AgentCommand) (st : State J outside project)
      → IsGuest st
      → IsGuest (serve J outside project c st).0
  unfolding serve serve_prompt
  served (prompt text) st h = prompted text st _ _ (
      same (U.reset st.world) _ (Q.setup (U.reset st.world)) (same st.world _ (Q.reset st.world) h))
  served (open_chat id) st h = stored _ (opened_chat id _ (stored st h))
  served new_chat st h = stored _ (started _ (stored st h))

  -- Where the name of the shell has no equals sign and the world keeps a list of what was spawned,
  -- to which only a spawn and the start of a job add, whatever commands the worker of the device
  -- serves, whatever the model answers and however calls, retries and compactions go, all that is
  -- spawned is proot, which reads of its arguments the root of the guest and the fixed options, and
  -- runs below env, with only the four variables of the guest, the shell of the guest with one
  -- command, where that was so before.
  pub worker_stays_in_guest :
      (cs : List AgentCommand) (st : State J outside project)
      → All (IsConfined b) (spawned st.world)
      → All (IsConfined b) (spawned (serve_all J outside project cs st).0.world)
  unfolding serve_all
  worker_stays_in_guest [] st h = h
  worker_stays_in_guest (c ∷ cs) st h = worker_stays_in_guest cs _ (served c st h)
