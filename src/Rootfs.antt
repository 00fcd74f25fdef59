-- ===== src/Rootfs.antt =====
-- Getting the root file system (crates/mc-sandbox/src/rootfs.rs). The file system, the network, the
-- archive format and SHA-256 are the outside: `World` is its state, and each step may fail.
pub mod Checked
use mobile_coder.Prelude.{
  ℕ, ◌+◌, ◌<>◌, ◌/◌, ◌%◌, String, Bool, true, false, not, ◌&&◌, Option, none, some, List, [], ◌∷◌,
  eqb, ltb, ◌==◌, if◌then◌else◌, unwrap_or, length,
}
use mobile_coder.Prelude.Text.{lowered, take_chars, skip_chars}
use mobile_coder.Sandbox.{Ran, ok, err}

pub record RootfsSpec : Type 0 where
  pub url : String
  pub sha256 : Option String
  pub dest : String
  pub archive : String

pub data RootfsError : Type 0 where
  download : String → RootfsError
  io : (path source : String) → RootfsError
  checksum : (expected actual : String) → RootfsError

pub data Progress : Type 0 where
  already_ready verifying ready : Progress
  downloading : (downloaded : ℕ) (total : Option ℕ) → Progress
  extracting : (entries : ℕ) → Progress

abbrev pub alpine_version : String
alpine_version = "3.21.7"

abbrev pub alpine_branch : String
alpine_branch = "3.21"

-- The pinned image of an architecture.
unfoldable pub alpine : (arm : Bool) → String → RootfsSpec
alpine arm files_dir =
    let arch = if arm then "aarch64" else "x86_64" in
    record {
      url =
          "https://dl-cdn.alpinelinux.org/alpine/v" <> alpine_branch <> "/releases/" <> arch
          <> "/alpine-minirootfs-" <> alpine_version <> "-" <> arch <> ".tar.gz";
      sha256 = some (
          if arm
          then "d1d1a3fae5f4d6146e9742790a47fcb116199622cfb8439f218a4d5fbe5000da"
          else "8cba1ea3e8b500ea986a313d8eecf3d5952a2a0d23a69117bb81c023d9ceac05");
      dest = files_dir <> "/rootfs";
      archive = files_dir <> "/rootfs-download.tar.gz";
    }

unfoldable pub marker_for : RootfsSpec → String
marker_for spec = spec.url <> "\n" <> unwrap_or "no-checksum" spec.sha256 <> "\n"

-- What the server answers to a request: an error, or a status, a length, and the chunks of the body,
-- of which the last may be an error.
pub record Answer : Type 0 where
  pub status : ℕ
  pub content_length : Option ℕ
  pub chunks : List (Ran (List ℕ))

pub record Disk (W : Type 0) : Type 0 where
  pub progress : Progress → W → W
  -- what is in the marker of the destination
  pub marker : W → Option String
  pub archive_len : W → ℕ
  pub create_archive_dir : W → Ran Unit × W
  -- the request, with the bytes that are there already, and its status checked
  pub get : Option ℕ → W → Ran Answer × W
  pub remove_archive : W → Ran Unit × W
  -- appending, or from the start
  pub open_archive : Bool → W → Ran Unit × W
  pub write : List ℕ → W → Ran Unit × W
  pub flush : W → Ran Unit × W
  -- the SHA-256 of the archive
  pub digest : W → Ran (List ℕ) × W
  pub remove_staging : W → W
  pub create_staging : W → Ran Unit × W
  -- the first two bytes, where there are two, and the entries of the archive by its format: whether
  -- each was unpacked
  pub magic : W → Ran (List ℕ) × W
  pub unpack : Bool → W → Ran (List Bool) × W
  pub remove_dest : W → W
  pub create_dest_dir : W → Ran Unit × W
  pub rename : W → Ran Unit × W
  pub write_marker : String → W → Ran Unit × W

pub data Done (A : Type 0) : Type 0 where
  fine : A → Done A
  failed : RootfsError → Done A

-- `{:02x}`, a digit of four bits.
abbrev pub hex_digit : ℕ → String
hex_digit n = take_chars 1 (skip_chars n "0123456789abcdef")

unfoldable pub hex : List ℕ → String
hex [] = ""
hex (b ∷ bs) = hex_digit (b / 16) <> hex_digit (b % 16) <> hex bs

unfoldable pub is_ready_marker : RootfsSpec → Option String → Bool
is_ready_marker spec none = false
is_ready_marker spec (some found) = found == marker_for spec

module _ {W : Type 0} (D : Disk W) where
  unfoldable pub and_then : {A B : Type 0} → Done A × W → (A → W → Done B × W) → Done B × W
  and_then (fine a, w) f = f a w
  and_then (failed e, w) f = (failed e, w)

  -- `map_err(io(path))`
  abbrev pub on_disk : {A : Type 0} → String → Ran A × W → Done A × W
  on_disk path (ok a, w) = (fine a, w)
  on_disk path (err e, w) = (failed (io path e), w)

  abbrev pub on_net : {A : Type 0} → Ran A × W → Done A × W
  on_net (ok a, w) = (fine a, w)
  on_net (err e, w) = (failed (download e), w)

  unfoldable pub is_ready : RootfsSpec → W → Bool
  is_ready spec w = is_ready_marker spec (D.marker w)

  abbrev pub plus : ℕ → Option ℕ → Option ℕ
  plus n none = none
  plus n (some m) = some (m + n)

  -- A chunk that fails ends the download; what was written stays.
  unfoldable pub receive : String → List (Ran (List ℕ)) → ℕ → Option ℕ → W → Done Unit × W
  receive path [] downloaded total w = on_disk path (D.flush w)
  receive path (err e ∷ rest) downloaded total w = (failed (download e), w)
  receive path (ok chunk ∷ rest) downloaded total w =
      and_then (on_disk path (D.write chunk w)) (λ written w'.
        receive path rest (downloaded + length chunk) total
          (D.progress (downloading (downloaded + length chunk) total) w'))

  -- A server that ignores the range sends the whole file, so the part that is there goes.
  abbrev pub discard : Bool → String → W → Done Unit × W
  discard true path w = on_disk path (D.remove_archive w)
  discard false path w = (fine tt, w)

  unfoldable pub store_answer : RootfsSpec → ℕ → Answer → W → Done Unit × W
  store_answer spec have answer w =
      let resuming = ltb 0 have && eqb answer.status 206 in
      let already : ℕ = if resuming then have else 0 in
      and_then (discard (ltb 0 have && not resuming) spec.archive w) (λ gone w1.
        and_then (on_disk spec.archive (D.open_archive resuming w1)) (λ opened w2.
          receive spec.archive answer.chunks already (plus already answer.content_length) w2))

  unfoldable pub download_resumable : RootfsSpec → W → Done Unit × W
  download_resumable spec w = and_then (on_disk spec.archive (D.create_archive_dir w)) (λ made w1.
      let have = D.archive_len w1 in
      and_then (on_net (D.get (if ltb 0 have then some have else none) w1))
        (λ answer w2. store_answer spec have answer w2))

  -- Entries that cannot be unpacked are skipped. Each 256th that could is told.
  unfoldable pub count_entries : List Bool → ℕ → W → ℕ × W
  count_entries [] n w = (n, w)
  count_entries (false ∷ rest) n w = count_entries rest n w
  count_entries (true ∷ rest) n w =
      count_entries rest (n + 1)
        (if eqb ((n + 1) % 256) 0 then D.progress (extracting (n + 1)) w else w)

  abbrev pub told : ℕ × W → Done ℕ × W
  told (n, w) = (fine n, D.progress (extracting n) w)

  abbrev pub is_gzip : List ℕ → Bool
  is_gzip (a ∷ b ∷ []) = eqb a 31 && eqb b 139
  is_gzip other = false

  unfoldable pub extract : RootfsSpec → W → Done ℕ × W
  extract spec w = and_then (on_disk spec.dest (D.create_staging w)) (λ made w1.
      and_then (on_disk spec.archive (D.magic w1)) (λ bytes w2.
        and_then (on_disk spec.dest (D.unpack (is_gzip bytes) w2))
          (λ entries w3. told (count_entries entries 0 w3))))

  -- `eq_ignore_ascii_case`
  abbrev pub compared : String → (expected : String) → W → Done Unit × W
  compared actual expected w =
      if lowered actual == lowered expected
      then (fine tt, w)
      else (failed (checksum expected actual), (D.remove_archive w).1)

  unfoldable pub verify : RootfsSpec → Option String → W → Done Unit × W
  verify spec none w = (fine tt, w)
  verify spec (some expected) w =
      and_then (on_disk spec.archive (D.digest (D.progress verifying w)))
        (λ bytes w'. compared (hex bytes) expected w')

  -- Behind the marker all that is left is to discard the archive.
  abbrev pub finished : RootfsSpec → W → Done String × W
  finished spec w = (fine spec.dest, D.progress ready (D.remove_archive w).1)

  unfoldable pub install : RootfsSpec → W → Done String × W
  install spec w = and_then (extract spec (D.remove_staging w)) (λ entries w1.
      and_then (on_disk spec.dest (D.create_dest_dir (D.remove_dest w1))) (λ made w2.
        and_then (on_disk spec.dest (D.rename w2)) (λ renamed w3.
          and_then (on_disk spec.dest (D.write_marker (marker_for spec) w3))
            (λ marked w4. finished spec w4))))

  unfoldable pub ensure : RootfsSpec → W → Done String × W
  ensure spec w =
      if is_ready spec w
      then (fine spec.dest, D.progress already_ready w)
      else and_then (download_resumable spec w)
          (λ got w1. and_then (verify spec spec.sha256 w1) (λ verified w2. install spec w2))
