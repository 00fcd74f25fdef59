-- ===== src/Tests/Device.antt =====
-- The theorems on the launch of commands, the installer, replies and the Git pane at concrete inputs.
use mobile_coder.Prelude.{
  ◌≡◌, ◌⊎◌, refl, sym, ap, String, true, false, Option, none, some, List, [], ◌∷◌, ◌==◌, All,
}
use mobile_coder.Sandbox.{ok, err}
use mobile_coder.Dns.{IpAddr, render}
use mobile_coder.Dns.Servers.{nameservers, chosen, nameservers-render}
use mobile_coder.Rootfs.{RootfsSpec, Disk, ensure, is_ready}
use mobile_coder.Rootfs.Checked.{KeepsMarker, IsInstalled, WasChecked, ensure-IsInstalled}
use mobile_coder.Markdown.{
  Event, start_strong, end_strong, plain, code_span, end_paragraph, start_table, start_row,
  start_cell, parse,
}
use mobile_coder.Markdown.Runs.{HasRuns}
use mobile_coder.Markdown.Kept.{parse-All}
use mobile_coder.Github.{Answer}
use mobile_coder.GitPane.{Outside, Pane, sign_in}
use mobile_coder.GitPane.Commands.{run}
use mobile_coder.GitPane.Signed.{HoldsToken, run-HoldsToken}
use mobile_coder.Tests.Values.{data_json}
use mobile_coder.Tests.Scenario.{sandbox_with}
use mobile_coder.Tests.Hub.{network}

-- Addresses that are their texts.
abbrev pub texts : IpAddr
texts = record { Addr = String; equal = λ a b. a == b; parse = λ s. some s; display = λ s. s }

nameservers-render_example :
    nameservers (render texts ("1.1.1.1" ∷ "9.9.9.9" ∷ "8.8.8.8" ∷ "::1" ∷ []))
    ≡ chosen texts ("1.1.1.1" ∷ "9.9.9.9" ∷ "8.8.8.8" ∷ "::1" ∷ [])
nameservers-render_example =
    nameservers-render texts ("1.1.1.1" ∷ "9.9.9.9" ∷ "8.8.8.8" ∷ "::1" ∷ [])
      ((refl, refl), ((refl, refl), ((refl, refl), ((refl, refl), tt))))

-- The world is the marker.
abbrev pub disk : Disk (Option String)
disk = record {
  progress = λ p w. w;
  marker = λ w. w;
  archive_len = λ w. 0;
  create_archive_dir = λ w. (ok tt, w);
  get = λ range w. (ok (record { status = 200; content_length = none; chunks = [] }), w);
  remove_archive = λ w. (ok tt, w);
  open_archive = λ append w. (ok tt, w);
  write = λ bytes w. (ok tt, w);
  flush = λ w. (ok tt, w);
  digest = λ w. (ok (171 ∷ []), w);
  remove_staging = λ w. w;
  create_staging = λ w. (ok tt, w);
  magic = λ w. (ok [], w);
  unpack = λ gzipped w. (ok (true ∷ []), w);
  remove_dest = λ w. none;
  create_dest_dir = λ w. (ok tt, w);
  rename = λ w. (ok tt, w);
  write_marker = λ m w. (ok tt, some m);
}

pub disk-KeepsMarker : KeepsMarker disk
disk-KeepsMarker = record {
  progress = λ p w. refl;
  remove_archive = λ w. refl;
  write_marker = λ m w w' e. sym (ap (λ r. r.1) e);
}

abbrev image : RootfsSpec
image = record { url = "u"; sha256 = some "AB"; dest = "/d"; archive = "/a" }

ensure-IsInstalled_example :
    IsInstalled disk image (ensure disk image none)
    × ((is_ready disk image none ≡ true) ⊎ WasChecked disk image none (ensure disk image none))
ensure-IsInstalled_example = ensure-IsInstalled disk disk-KeepsMarker image none

abbrev reply : List Event
reply =
    plain "a"
    ∷ plain " b"
    ∷ start_strong
    ∷ plain "c"
    ∷ end_strong
    ∷ end_paragraph
    ∷ start_table
    ∷ start_row
    ∷ start_cell
    ∷ code_span "x"
    ∷ []

parse-All_example : All HasRuns (parse reply)
parse-All_example = parse-All reply

abbrev outside : Outside data_json (sandbox_with 9) network
outside = record {
  create_sandbox = λ w. (ok tt, w);
  projects_dir = "/root/projects";
  send = λ request w. (Answer.answered 200 "", w);
  read_viewer = λ body. ok (record { login = "octo"; name = none });
  read_repos = λ body. ok [];
  read_repo = λ body. err "none";
  unreachable = λ e. false;
}

abbrev empty : Pane data_json (sandbox_with 9) network
empty = record {
  state = record {
    signed_in = none;
    repos = [];
    projects = [];
    selected = none;
    busy = none;
    message = none;
  };
  token = none;
  forget = false;
  shown = none;
  version = 0;
  world = 0;
}

run-HoldsToken_example :
    let after = run data_json (sandbox_with 9) network outside (sign_in "ghp_1") empty in
    HoldsToken data_json (sandbox_with 9) network outside after
    × (after.state.busy ≡ none)
    × (after.shown ≡ some after.state)
run-HoldsToken_example =
    run-HoldsToken data_json (sandbox_with 9) network outside (sign_in "ghp_1") empty tt
