-- ===== src/Bootstrap/Announced.antt =====
-- When the sandbox of the device is announced as ready (apps/android/src/bootstrap.rs).
use mobile_coder.Prelude.{
  ◌≡◌, ◌⊎◌, inl, inr, refl, sym, ap, ◌∙◌, String, Bool, true, false, ◌||◌, Option, none, some, List,
  [], ◌∷◌, Bool-cases, if◌then◌else◌,
}
use mobile_coder.Sandbox as Front
use mobile_coder.Sandbox.{Sandbox, Output, Ran, ok, err, is_ok}
use mobile_coder.Maps.{native_lib_dir}
use mobile_coder.Rootfs.{Disk, Done, fine, failed, RootfsSpec, alpine, is_ready, ensure}
use mobile_coder.Rootfs.Checked.{KeepsMarker, IsInstalled, WasChecked, ensure-IsInstalled}
use mobile_coder.Bootstrap.{
  Phone, State, watched, apply, mark_ready, probes, probe, has_succeeded, guest, complete,
  with_guest, on_installed, on_runtime, on_lib_dir, run, self_lib,
}

-- The watched disk keeps the marker where the disk does.
watched-KeepsMarker : {W : Type 0} (D : Disk W) → KeepsMarker D → KeepsMarker (watched D)
watched-KeepsMarker D K = record {
  progress = λ p (w, fresh). K.progress p w;
  remove_archive = λ (w, fresh). K.remove_archive w;
  write_marker = λ m (w, fresh) (w', fresh') e. K.write_marker m w w' (ap (λ r. (r.0, r.1.0)) e);
}

module _ (S : Sandbox) where
  -- One of the commands succeeds where they are run one behind the other.
  abbrev pub OneSucceeds : List String → S.World → Type 0
  OneSucceeds [] w = ⊥
  OneSucceeds (command ∷ commands) w =
      (has_succeeded (Front.run S command none w).0 ≡ true)
      ⊎ OneSucceeds commands (Front.run S command none w).1

  found_by_probe :
      (commands : List String) (guest_ok : Bool) (w : S.World)
      → (probe S commands guest_ok w).0 ≡ true
      → (guest_ok ≡ true) ⊎ OneSucceeds commands w
  unfolding probe
  found_by_probe [] guest_ok w h = inl h
  found_by_probe (command ∷ commands) guest_ok w h =
      let ran = (Front.run S command none w).0 in
      elim (found_by_probe commands (has_succeeded ran || guest_ok) _ h) [
        | inr found ↦ inr (inr found)
        | inl either ↦ elim (Bool-cases (has_succeeded ran)) [
          | inl good ↦ inr (inl good)
          | inr bad ↦ inl (cc (either, ap (λ b. b || guest_ok) bad))
        ]
      ]

module _ {W : Type 0} (P : Phone W) (K : KeepsMarker P.disk) (files_dir : String) where
  abbrev spec : RootfsSpec
  spec = alpine P.arm files_dir

  -- What the run did for the paths that are announced: the runtime started, the image was
  -- installed from there, and the probes were run in it from there.
  pub record IsProven (before : W) (lib_dir rootfs : String) : Type 0 where
    pub started : W
    pub is_started : P.runtime before ≡ (ok tt, started)
    pub installed : W
    pub fresh : Bool
    pub is_ensured :
        ensure (watched P.disk) spec (started, true) ≡ (fine rootfs, (installed, fresh))
    pub is_dest : rootfs ≡ spec.dest
    pub is_checked :
        (is_ready (watched P.disk) spec (started, true) ≡ true)
        ⊎ WasChecked (watched P.disk) spec (started, true) (fine rootfs, (installed, fresh))
    pub is_installed : is_ready P.disk spec installed ≡ true
    pub succeeds : OneSucceeds (guest P files_dir lib_dir rootfs installed) probes installed

  flagged :
      (b : Bool) (x y : String × String)
      → (if b then some x else none) ≡ some y
      → (b ≡ true) × (x ≡ y)
  flagged true x y h = (refl, cc h)
  flagged false x y h = cc

  complete-paths :
      (f : String → W → Ran Output × W) (lib_dir rootfs : String) (guest_ok fresh : Bool)
      (st : State P)
      → st.paths ≡ none
      → (complete P f lib_dir rootfs guest_ok fresh st).paths
        ≡ (if guest_ok then some (lib_dir, rootfs) else none)
  unfolding complete apply mark_ready
  complete-paths f lib_dir rootfs true true st e = rw e refl
  complete-paths f lib_dir rootfs true false st e = rw e refl
  complete-paths f lib_dir rootfs false true st e = e
  complete-paths f lib_dir rootfs false false st e = e

  announced_by_guest :
      (lib_dir rootfs l r : String) (fresh : Bool) (st : State P)
      → st.paths ≡ none
      → (with_guest P files_dir lib_dir rootfs fresh st).paths ≡ some (l, r)
      → (lib_dir ≡ l)
        × (rootfs ≡ r)
        × OneSucceeds (guest P files_dir lib_dir rootfs st.world) probes st.world
  unfolding with_guest
  announced_by_guest lib_dir rootfs l r fresh st e h =
      let sandbox = guest P files_dir lib_dir rootfs st.world in
      let (guest_ok, w) = probe sandbox probes false st.world in
      let (good, same) =
        flagged guest_ok (lib_dir, rootfs) (l, r)
          (sym (
              complete-paths (λ command. Front.run sandbox command none) lib_dir rootfs guest_ok
                fresh (record st { world = w }) e)
            ∙ h) in
      (
        ap (λ p. p.0) same,
        ap (λ p. p.1) same,
        elim (found_by_probe sandbox probes false st.world good) [
          | inl never ↦ cc
          | inr found ↦ found
        ],
      )

  announced_by_ensure :
      (before started w : W) (done : Done String) (fresh : Bool) (lib_dir l r : String)
      (st : State P)
      → P.runtime before ≡ (ok tt, started)
      → ensure (watched P.disk) spec (started, true) ≡ (done, (w, fresh))
      → IsInstalled (watched P.disk) spec (done, (w, fresh))
      → (is_ready (watched P.disk) spec (started, true) ≡ true)
        ⊎ WasChecked (watched P.disk) spec (started, true) (done, (w, fresh))
      → st.paths ≡ none
      → (on_installed P files_dir lib_dir st (done, (w, fresh))).paths ≡ some (l, r)
      → (lib_dir ≡ l) × IsProven before l r
  unfolding is_ready
  announced_by_ensure before started w (failed e) fresh lib_dir l r st b d i c none_yet h = cc
  announced_by_ensure before started w (fine rootfs) fresh lib_dir l r st b d i c none_yet h =
      let (same_lib, same_root, success) =
        announced_by_guest lib_dir rootfs l r fresh (record st { world = w }) none_yet h in
      (
        same_lib,
        rw (sym same_lib) (
            rw (sym same_root) (record {
              started = started;
              is_started = b;
              installed = w;
              fresh = fresh;
              is_ensured = d;
              is_dest = i.0;
              is_checked = c;
              is_installed = i.1;
              succeeds = success;
            })),
      )

  announced_by_runtime :
      (before : W) (built : Ran Unit) (w : W) (lib_dir l r : String) (st : State P)
      → P.runtime before ≡ (built, w)
      → st.paths ≡ none
      → (on_runtime P files_dir lib_dir st (built, w)).paths ≡ some (l, r)
      → (lib_dir ≡ l) × IsProven before l r
  announced_by_runtime before (err e) w lib_dir l r st b none_yet h = cc
  announced_by_runtime before (ok built) w lib_dir l r st b none_yet h =
      let (installed, checked) =
        ensure-IsInstalled (watched P.disk) (watched-KeepsMarker P.disk K) spec (w, true) in
      announced_by_ensure before w _ _ _ lib_dir l r st b refl installed checked none_yet h

  announced_by_lib_dir :
      (found : Option String) (l r : String) (st : State P)
      → st.paths ≡ none
      → (on_lib_dir P files_dir st found).paths ≡ some (l, r)
      → (found ≡ some l) × IsProven st.world l r
  announced_by_lib_dir none l r st none_yet h = cc
  announced_by_lib_dir (some lib_dir) l r st none_yet h =
      let (same, proven) = announced_by_runtime st.world _ _ lib_dir l r st refl none_yet h in
      (ap some same, proven)

  -- Where the disk keeps the marker and nothing was announced before, the paths that the first run
  -- announces are the directory of the native libraries and the destination of the image. The image
  -- is what the installation of this run answered: it was ready before, or what was downloaded was
  -- digested with its checksum right before it was installed, and it is ready. And one of the
  -- probes succeeded where this run started them, one behind the other, in that image.
  pub announced-IsProven :
      (l r : String) (st : State P)
      → st.paths ≡ none
      → (run P files_dir st).paths ≡ some (l, r)
      → (native_lib_dir (P.maps st.world) self_lib ≡ some l) × IsProven st.world l r
  unfolding run
  announced-IsProven l r st none_yet h =
      announced_by_lib_dir (native_lib_dir (P.maps st.world) self_lib) l r st none_yet h
