-- ===== src/Tests/Boot.antt =====
-- The first run on the device at a concrete input: the world is the marker of the root file system.
use mobile_coder.Prelude.{◌≡◌, refl, String, true, false, Option, none, some, List, [], ◌∷◌}
use mobile_coder.Sandbox.{ok, err}
use mobile_coder.Dns.{Conf}
use mobile_coder.Maps.{native_lib_dir}
use mobile_coder.Rootfs.{alpine, marker_for, ensure, is_ready}
use mobile_coder.Launch.Run.{Processes, finished}
use mobile_coder.Launch.Confined.{Others}
use mobile_coder.Bootstrap.{Phone, State, self_lib, run}
use mobile_coder.Bootstrap.Announced.{IsProven, announced-IsProven}
use mobile_coder.Tests.Device.{texts, disk, disk-KeepsMarker}

abbrev processes : Processes (Option String)
processes = record {
  spawn = λ r w. (ok 7, w);
  race = λ child limit stops w. (finished (ok (some 0)), w);
  kill_group = λ child w. w;
  start_kill = λ child w. w;
  wait = λ child w. (some (some 0), w);
  stdout = λ child w. (some [], w);
  stderr = λ child w. (none, w);
  lossy = λ bytes. "";
  start_job = λ command r w. (ok "job-1", w);
}

abbrev others : Others (Option String)
others = record {
  is_cancelled = λ w. false;
  read_job = λ id w. (none, w);
  list_jobs = λ w. [];
  kill_job = λ id w. (none, w);
  kill_all = λ w. (0, w);
  encode = λ t. t;
  decode = λ t. some t;
}

abbrev conf : Conf (Option String)
conf = record {
  read = λ w. none;
  create_dir = λ w. (ok tt, w);
  write_staging = λ contents w. (ok tt, w);
  rename = λ w. (err "read-only", w);
}

abbrev phone : Phone (Option String)
phone = record {
  arm = true;
  maps = λ w. some "7f-80 r-xp 0 fd:03 5678 /lib/libmobile_coder.so";
  has_loader = λ dir w. true;
  runtime = λ w. (ok tt, w);
  disk = disk;
  conf = conf;
  addresses = texts;
  processes = processes;
  others = others;
}

abbrev start : State phone
start = record {
  servers = "9.9.9.9" ∷ [];
  paths = none;
  world = some (marker_for (alpine true "/f"));
}

announced-IsProven_example :
    (native_lib_dir (phone.maps start.world) self_lib ≡ some "/lib")
    × IsProven phone disk-KeepsMarker "/f" start.world "/lib" "/f/rootfs"
unfolding run ensure is_ready mobile_coder.Rootfs.is_ready_marker mobile_coder.Prelude.◌==◌
    marker_for alpine mobile_coder.Bootstrap.with_guest mobile_coder.Bootstrap.complete
    mobile_coder.Bootstrap.probe mobile_coder.Sandbox.run mobile_coder.Launch.Run.run_inner
    mobile_coder.Sandbox.is_ok mobile_coder.Launch.Run.drained mobile_coder.Bootstrap.mark_ready
    mobile_coder.Bootstrap.apply native_lib_dir mobile_coder.Maps.parse_maps
    mobile_coder.Prelude.Text.lines mobile_coder.Maps.library_in
    mobile_coder.Prelude.Text.Affix.split_whitespace mobile_coder.Prelude.Text.is_whitespace
    mobile_coder.Prelude.Text.Affix.strip_suffix mobile_coder.Maps.path_parent
    mobile_coder.Prelude.Text.Affix.trim_end_char
announced-IsProven_example =
    announced-IsProven phone disk-KeepsMarker "/f" "/lib" "/f/rootfs" start refl refl
