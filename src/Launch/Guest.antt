-- ===== src/Launch/Guest.antt =====
-- What the guest gets of a command line (`resolve_with` of crates/mc-sandbox/src/backend.rs).
use mobile_coder.Prelude.{
  ◌≡◌, refl, String, Bool, true, false, Option, none, some, List, [], ◌∷◌, ◌++◌, ◌==◌, ◌&&◌,
  if◌then◌else◌,
}
use mobile_coder.Prelude.Text.Parts.{has_char}
use mobile_coder.Launch.{ProotBackend, guest_env, proot_args, resolve_with}

-- What runs below proot: the options as its manual has them, and a command.
pub record Launched : Type 0 where
  pub root : Option String
  pub as_root : Bool
  pub links_emulated : Bool
  pub tree_killed : Bool
  pub bound : List String
  pub work_dir : Option String
  pub command : List String

abbrev plain : List String → Launched
plain command = record {
  root = none;
  as_root = false;
  links_emulated = false;
  tree_killed = false;
  bound = [];
  work_dir = none;
  command = command;
}

-- proot reads options up to the first word that is none; `-r`, `-b` and `-w` take the next word.
pub read_proot : List String → Launched
read_proot [] = plain []
read_proot (o ∷ []) =
    if o == "-0"
    then record (plain []) { as_root = true }
    else if o == "--link2symlink"
    then record (plain []) { links_emulated = true }
    else if o == "--kill-on-exit"
    then record (plain []) { tree_killed = true }
    else plain (o ∷ [])
read_proot (o ∷ v ∷ rest) =
    let behind = read_proot rest in
    let next = read_proot (v ∷ rest) in
    if o == "-r"
    then record behind { root = some v }
    else if o == "-b"
    then record behind { bound = v ∷ behind.bound }
    else if o == "-w"
    then record behind { work_dir = some v }
    else if o == "-0"
    then record next { as_root = true }
    else if o == "--link2symlink"
    then record next { links_emulated = true }
    else if o == "--kill-on-exit"
    then record next { tree_killed = true }
    else plain (o ∷ v ∷ rest)

pub record Started : Type 0 where
  pub env : List String
  pub argv : List String

-- `env -i`: nothing is inherited, the words with `=` are the environment, and the rest is run.
pub read_env : List String → Started
read_env [] = record { env = []; argv = [] }
read_env (w ∷ rest) =
    let behind = read_env rest in
    if has_char b'=' w
    then record behind { env = w ∷ behind.env }
    else record { env = []; argv = w ∷ rest }

abbrev pub read_command : List String → Option Started
read_command [] = none
read_command (w ∷ []) = none
read_command (w ∷ o ∷ rest) =
    if w == "/usr/bin/env" && o == "-i" then some (read_env rest) else none

-- The options that every command is started with.
abbrev pub launched : ProotBackend → String → List String → Launched
launched b cwd shell_args = record {
  root = some b.rootfs;
  as_root = b.root_id;
  links_emulated = true;
  tree_killed = true;
  bound = "/dev" ∷ "/proc" ∷ "/sys" ∷ [];
  work_dir = some cwd;
  command = ("/usr/bin/env" ∷ "-i" ∷ guest_env) ++ b.shell ∷ shell_args;
}

read_proot-args :
    (b : ProotBackend) (cwd : String) (shell_args : List String) (id : Bool)
    → b.root_id ≡ id
    → read_proot (proot_args b cwd shell_args) ≡ launched b cwd shell_args
unfolding read_proot proot_args ◌==◌
read_proot-args b cwd shell_args true e = rw e refl
read_proot-args b cwd shell_args false e = rw e refl

read_env-guest :
    (shell : String) (shell_args : List String)
    → has_char b'=' shell ≡ false
    → read_command (("/usr/bin/env" ∷ "-i" ∷ guest_env) ++ shell ∷ shell_args)
      ≡ some (record { env = guest_env; argv = shell ∷ shell_args })
unfolding read_env ◌==◌
read_env-guest shell shell_args plain = rw plain refl

-- Where the name of the shell has no equals sign, proot reads of the arguments the root, the
-- working directory, the three bound directories and the fixed options, whatever the paths are; and
-- the command that it reads is env, which clears the environment, sets exactly the four variables
-- of the guest, and runs the shell with exactly the arguments given.
pub guest_is_launched :
    (b : ProotBackend) (cwd : String) (shell_args : List String)
    → has_char b'=' b.shell ≡ false
    → (read_proot (resolve_with cwd shell_args b).args ≡ launched b cwd shell_args)
      × (read_command (launched b cwd shell_args).command
          ≡ some (record { env = guest_env; argv = b.shell ∷ shell_args }))
unfolding resolve_with
guest_is_launched b cwd shell_args plain =
    (read_proot-args b cwd shell_args b.root_id refl, read_env-guest b.shell shell_args plain)
