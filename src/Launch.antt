-- ===== src/Launch.antt =====
-- How a command is started (crates/mc-sandbox/src/exec.rs and backend.rs). Paths and arguments of the
-- host are texts; a path is absolute where it begins with a separator.
pub mod Confined
pub mod Guest
pub mod Run
use mobile_coder.Prelude.{
  ◌<>◌, String, Bool, Option, none, some, List, [], ◌∷◌, ◌++◌, flat_map, map, unwrap_or,
  if◌then◌else◌,
}
use mobile_coder.Prelude.Text.{is_prefix}
use mobile_coder.Sandbox.{Ran, ok, err}

abbrev pub system_linker_64 : String
system_linker_64 = "/system/bin/linker64"

abbrev pub system_linker_32 : String
system_linker_32 = "/system/bin/linker"

abbrev pub proc_self_exe_var : String
proc_self_exe_var = "MC_EXEC__PROC_SELF_EXE"

pub data ExecStrategy : Type 0 where
  direct : ExecStrategy
  system_linker : (linker : String) → ExecStrategy

pub record ResolvedCommand : Type 0 where
  pub program : String
  pub args : List String
  pub env : List (String × String)

-- The target and the width of its pointers are fixed when the program is built.
unfoldable pub detect : (android wide : Bool) → ExecStrategy
detect android wide =
    if android then system_linker (if wide then system_linker_64 else system_linker_32) else direct

-- The text of `ExecError::RelativePath`, with the debug form of the path as a parameter.
unfoldable pub resolve :
    (String → String) → String → List String → ExecStrategy → Ran ResolvedCommand
resolve debug program args direct = ok (record { program = program; args = args; env = [] })
resolve debug program args (system_linker linker) =
    if is_prefix "/" program
    then ok (record {
      program = linker;
      args = program ∷ args;
      env = (proc_self_exe_var, program) ∷ [];
    })
    else err (
        "the system linker needs an absolute program path, got "
        <> debug program
        <> "; resolve it against the rootfs before spawning")

-- `HostBackend::build`.
unfoldable pub host_build : String → String → ResolvedCommand
host_build shell command = record { program = shell; args = "-lc" ∷ command ∷ []; env = [] }

abbrev pub guest_path : String
guest_path = "/usr/local/sbin:/usr/local/bin:/usr/sbin:/usr/bin:/sbin:/bin"

abbrev pub guest_home : String
guest_home = "/root"

abbrev pub guest_term : String
guest_term = "xterm-256color"

abbrev pub guest_lang : String
guest_lang = "C.UTF-8"

pub record ProotBackend : Type 0 where
  pub proot : String
  pub loader : Option String
  pub lib_dir : Option String
  pub tmp_dir : Option String
  pub rootfs : String
  pub cwd : String
  pub shell : String
  pub root_id : Bool

unfoldable pub new : String → String → ProotBackend
new proot rootfs = record {
  proot = proot;
  loader = none;
  lib_dir = none;
  tmp_dir = none;
  rootfs = rootfs;
  cwd = guest_home;
  shell = "/bin/sh";
  root_id = Bool.true;
}

-- `Path::join` of a name, and whether the loader is there.
unfoldable pub from_native_lib_dir : String → (exists : Bool) → String → ProotBackend
from_native_lib_dir dir exists rootfs = record (new (dir <> "/libproot.so") rootfs) {
  loader = if exists then some (dir <> "/libproot-loader.so") else none;
  lib_dir = some dir;
}

-- The directory is made if it is not there; where that fails it is set all the same.
unfoldable pub with_tmp_dir : String → ProotBackend → ProotBackend
with_tmp_dir dir b = record b { tmp_dir = some dir }

abbrev pub env_entry : String → Option String → List (String × String)
env_entry key none = []
env_entry key (some value) = (key, value) ∷ []

unfoldable pub proot_env : ProotBackend → List (String × String)
proot_env b =
    env_entry "PROOT_LOADER" b.loader
    ++ env_entry "LD_LIBRARY_PATH" b.lib_dir
    ++ env_entry "PROOT_TMP_DIR" b.tmp_dir

abbrev pub guest_env : List String
guest_env =
    ("HOME=" <> guest_home)
    ∷ ("PATH=" <> guest_path)
    ∷ ("TERM=" <> guest_term)
    ∷ ("LANG=" <> guest_lang)
    ∷ []

abbrev pub bind_args : List String → List String
bind_args [] = []
bind_args (b ∷ bs) = "-b" ∷ b ∷ bind_args bs

unfoldable pub proot_args : ProotBackend → String → List String → List String
proot_args b cwd shell_args =
    "-r" ∷ b.rootfs ∷ (if b.root_id then "-0" ∷ [] else [])
    ++ ("--link2symlink" ∷ "--kill-on-exit" ∷ [])
    ++ bind_args ("/dev" ∷ "/proc" ∷ "/sys" ∷ [])
    ++ ("-w" ∷ cwd ∷ "/usr/bin/env" ∷ "-i" ∷ [])
    ++ guest_env
    ++ (b.shell ∷ shell_args)

unfoldable pub resolve_with : String → List String → ProotBackend → ResolvedCommand
resolve_with cwd shell_args b = record {
  program = b.proot;
  args = proot_args b cwd shell_args;
  env = proot_env b;
}

unfoldable pub interactive : ProotBackend → ResolvedCommand
interactive b = resolve_with b.cwd ("-l" ∷ []) b

unfoldable pub build : String → Option String → ProotBackend → ResolvedCommand
build command cwd b = resolve_with (unwrap_or b.cwd cwd) ("-lc" ∷ command ∷ []) b
