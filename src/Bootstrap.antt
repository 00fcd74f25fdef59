-- ===== src/Bootstrap.antt =====
-- The first run on the device (apps/android/src/bootstrap.rs), the name servers that the platform
-- pushes (network.rs), and the announcement that the sandbox is ready (agent_task.rs). The disk, the
-- processes and the thread's runtime are the outside; what is logged is left out.
pub mod Announced
use mobile_coder.Prelude.{
  ◌<>◌, String, Bool, true, false, not, ◌&&◌, ◌||◌, Option, none, some, List, [], ◌∷◌,
  if◌then◌else◌,
}
use mobile_coder.Sandbox.{Sandbox, Output, Ran, ok, err, is_ok}
use mobile_coder.Sandbox as Front
use mobile_coder.Maps.{native_lib_dir}
use mobile_coder.Rootfs.{Disk, Progress, Done, fine, failed, alpine, ensure}
use mobile_coder.Dns.{IpAddr, Conf, parse_servers, render, write_resolv_conf}
use mobile_coder.Launch.{from_native_lib_dir, with_tmp_dir}
use mobile_coder.Launch.Run.{Processes, proot}
use mobile_coder.Launch.Confined.{Others, sandbox_on}

abbrev pub self_lib : String
self_lib = "libmobile_coder.so"

abbrev is_already_ready : Progress → Bool
is_already_ready Progress.already_ready = true
is_already_ready _ = false

abbrev lift : {A W : Type 0} → (W → A × W) → W × Bool → A × (W × Bool)
lift f (w, fresh) = let (a, w') = f w in (a, (w', fresh))

-- The disk with the flag `fresh` beside it, which the report that all is there already clears.
abbrev pub watched : {W : Type 0} → Disk W → Disk (W × Bool)
watched D = record {
  progress = λ p (w, fresh). (D.progress p w, not (is_already_ready p) && fresh);
  marker = λ (w, fresh). D.marker w;
  archive_len = λ (w, fresh). D.archive_len w;
  create_archive_dir = lift D.create_archive_dir;
  get = λ range. lift (D.get range);
  remove_archive = lift D.remove_archive;
  open_archive = λ append. lift (D.open_archive append);
  write = λ bytes. lift (D.write bytes);
  flush = lift D.flush;
  digest = lift D.digest;
  remove_staging = λ (w, fresh). (D.remove_staging w, fresh);
  create_staging = lift D.create_staging;
  magic = lift D.magic;
  unpack = λ gzipped. lift (D.unpack gzipped);
  remove_dest = λ (w, fresh). (D.remove_dest w, fresh);
  create_dest_dir = lift D.create_dest_dir;
  rename = lift D.rename;
  write_marker = λ m. lift (D.write_marker m);
}

pub record Phone (W : Type 0) : Type 1 where
  pub arm : Bool
  -- the text of /proc/self/maps, and whether the loader is in a directory
  pub maps : W → Option String
  pub has_loader : String → W → Bool
  -- the runtime of the thread
  pub runtime : W → Ran Unit × W
  pub disk : Disk W
  pub conf : Conf W
  pub addresses : IpAddr
  pub processes : Processes W
  pub others : Others W

abbrev pub probes : List String
probes = "uname -a" ∷ "cat /etc/alpine-release" ∷ "id" ∷ []

abbrev pub has_succeeded : Ran Output → Bool
has_succeeded (ok out) = is_ok out
has_succeeded (err e) = false

module _ (S : Sandbox) where
  -- Whether any of the commands succeeded.
  unfoldable pub probe : List String → Bool → S.World → Bool × S.World
  probe [] guest_ok w = (guest_ok, w)
  probe (command ∷ commands) guest_ok w =
      let (ran, w') = Front.run S command none w in
      probe commands (has_succeeded ran || guest_ok) w'

abbrev pub configure_git : String
configure_git = "git config --global core.createObject rename"

abbrev pub install_git : String
install_git = "apk add --no-progress git"

module _ {W : Type 0} (P : Phone W) where
  -- The servers that were pushed last, and the paths, once the sandbox is ready: `DNS_SERVERS` and
  -- `SANDBOX_PATHS`.
  pub record State : Type 0 where
    pub servers : List P.addresses.Addr
    pub paths : Option (String × String)
    pub world : W

  unfoldable pub apply : State → State
  apply st =
      let (written, w) = write_resolv_conf P.conf (render P.addresses st.servers) st.world in
      record st { world = w }

  abbrev apply_if_ready : Option (String × String) → State → State
  apply_if_ready none st = st
  apply_if_ready (some paths) st = apply st

  unfoldable pub set_dns_servers : String → State → State
  set_dns_servers raw st =
      apply_if_ready st.paths (record st { servers = parse_servers P.addresses raw })

  -- A cell that is set keeps its value.
  abbrev set_once : String × String → Option (String × String) → Option (String × String)
  set_once paths none = some paths
  set_once paths (some before) = some before

  unfoldable pub mark_ready : String → String → State → State
  mark_ready lib_dir rootfs st =
      let applied = apply st in record applied { paths = set_once (lib_dir, rootfs) applied.paths }

  abbrev pub guest : String → String → String → W → Sandbox
  guest files_dir lib_dir rootfs w = sandbox_on P.processes P.others (
      proot (
        with_tmp_dir (files_dir <> "/proot-tmp")
          (from_native_lib_dir lib_dir (P.has_loader lib_dir w) rootfs)))

  -- A command whose failure is only logged.
  abbrev best_effort : (W → Ran Output × W) → State → State
  best_effort f st = let (ran, w) = f st.world in record st { world = w }

  -- What is done once the probes are through.
  unfoldable pub complete :
      (String → W → Ran Output × W) → String → String → (guest_ok fresh : Bool) → State → State
  complete guest_run lib_dir rootfs guest_ok fresh st =
      let applied = apply st in
      let configured =
        if guest_ok then best_effort (guest_run configure_git) applied else applied in
      let installed =
        if guest_ok && fresh then best_effort (guest_run install_git) configured else configured in
      if guest_ok then mark_ready lib_dir rootfs installed else installed

  unfoldable pub with_guest : String → String → String → Bool → State → State
  with_guest files_dir lib_dir rootfs fresh st =
      let sandbox = guest files_dir lib_dir rootfs st.world in
      let (guest_ok, w) = probe sandbox probes false st.world in
      complete (λ command. Front.run sandbox command none) lib_dir rootfs guest_ok fresh
        (record st { world = w })

  abbrev pub on_installed : String → String → State → Done String × (W × Bool) → State
  on_installed files_dir lib_dir st (failed e, (w, fresh)) = record st { world = w }
  on_installed files_dir lib_dir st (fine rootfs, (w, fresh)) =
      with_guest files_dir lib_dir rootfs fresh (record st { world = w })

  abbrev pub on_runtime : String → String → State → Ran Unit × W → State
  on_runtime files_dir lib_dir st (err e, w) = record st { world = w }
  on_runtime files_dir lib_dir st (ok built, w) =
      on_installed files_dir lib_dir st (ensure (watched P.disk) (alpine P.arm files_dir) (w, true))

  abbrev pub on_lib_dir : String → State → Option String → State
  on_lib_dir files_dir st none = st
  on_lib_dir files_dir st (some lib_dir) = on_runtime files_dir lib_dir st (P.runtime st.world)

  unfoldable pub run : String → State → State
  run files_dir st = on_lib_dir files_dir st (native_lib_dir (P.maps st.world) self_lib)
