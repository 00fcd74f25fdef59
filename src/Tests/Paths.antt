-- ===== src/Tests/Paths.antt =====
-- The theorems on guest paths at concrete inputs.
use Prim.Native.String.{count}
use mobile_coder.Prelude.{
  ◌≤◌, ◌≡◌, refl, ap, String, Bool, true, false, ◌||◌, none, some, List, [], ◌∷◌, ◌==◌,
  if◌then◌else◌, arith,
}
use mobile_coder.Prelude.Text.{split, join as join_parts}
use mobile_coder.Files.{collect, visit, normalize}
use mobile_coder.Sandbox.{Ran, ok, err}
use mobile_coder.GuestFs.{
  HostPath, HostFs, DirEntry, dir, link, same_path, resolve, loop, step_at, enter, follow, checked,
  expand, components,
}
use mobile_coder.GuestFs.Inside.{Outcome, HasShortLinks}
use mobile_coder.GuestFs.Ends.{resolve-Outcome}

-- Below `/data` there is a link `sh` with an absolute text, and a link that leads to itself.
abbrev host_root : HostPath
host_root = "data" ∷ []

abbrev link_text : HostPath → Ran String
link_text p =
    if same_path p ("sh" ∷ host_root)
    then ok "/bin/busybox"
    else if same_path p ("loop" ∷ host_root)
    then ok "loop"
    else err "not a link"

abbrev links : HostPath → Ran Bool
links p = ok (same_path p ("sh" ∷ host_root) || same_path p ("loop" ∷ host_root))

abbrev entries : List DirEntry
entries =
    record { file_name = "sh"; entry_meta = none; file_type = some link }
    ∷ record { file_name = "bin"; entry_meta = none; file_type = some dir }
    ∷ record { file_name = ".l2s.x"; entry_meta = none; file_type = some link }
    ∷ []

abbrev host_fs : HostFs
host_fs = record {
  canonicalize = λ p. some p;
  is_symlink = links;
  read_link = link_text;
  metadata = λ p. ok (record { is_dir = true; is_file = false; len = 0 });
  read_dir = λ p. ok entries;
  read_start = λ p n. ok [];
  lossy = λ bytes. "";
  to_lowercase = λ t. t;
}

ok-injective : {s t : String} → ◌≡◌ {A = Ran String} (ok s) (ok t) → s ≡ t
ok-injective e = ap text_in e
  where
    text_in : Ran String → String
    text_in (ok s) = s
    text_in (err s) = s

short : HasShortLinks host_fs
short p t e = short_text (same_path p ("sh" ∷ host_root)) (same_path p ("loop" ∷ host_root)) t e
  where
    short_text :
        (a b : Bool) (t : String)
        → (if a then ok "/bin/busybox" else if b then ok "loop" else err "not a link") ≡ ok t
        → count t ≤ 4095
    short_text true b t e = rw (← ok-injective e) (omega arith)
    short_text false true t e = rw (← ok-injective e) (omega arith)
    short_text false false t e = cc

resolve-Outcome_example :
    (r : Ran HostPath) × (resolve host_fs host_root "/usr/../sh" ≡ some r)
    × Outcome host_fs host_root "/usr/../sh" r
resolve-Outcome_example = resolve-Outcome host_fs host_root "/usr/../sh" short

resolved : resolve host_fs host_root "/usr/../sh" ≡ some (ok ("busybox" ∷ "bin" ∷ "data" ∷ []))
unfolding resolve loop step_at enter follow checked expand normalize split join_parts collect visit
    components ◌==◌
resolved = refl

looped : resolve host_fs host_root "/loop" ≡ some (err "/loop: too many levels of symbolic links")
unfolding resolve loop step_at enter follow checked expand normalize split join_parts collect visit
    components ◌==◌
looped = refl
