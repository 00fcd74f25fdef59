-- ===== src/Dns.antt =====
-- The guest's resolv.conf (crates/mc-sandbox/src/dns.rs). `IpAddr` of the standard library is a
-- parameter: a type with a test of equality, what is parsed, and how it is printed.
pub mod Servers
use Prim.Native.Char.{code}
use Prim.Native.String as Texts
use mobile_coder.Prelude.{
  ℕ, ◌<>◌, String, Bool, true, false, not, ◌||◌, Option, none, some, List, [], ◌∷◌, map, keep, take,
  filter_map, eqb, ◌==◌, if◌then◌else◌,
}
use mobile_coder.Prelude.Text.{trim, is_empty, push_front}
use mobile_coder.Prelude.Text.Affix.{trim_start_char}
use mobile_coder.Sandbox.{Ran, ok, err}

pub record IpAddr : Type 1 where
  pub Addr : Type 0
  pub equal : Addr → Addr → Bool
  pub parse : String → Option Addr
  pub display : Addr → String

abbrev pub fallback_servers : List String
fallback_servers = "1.1.1.1" ∷ "8.8.8.8" ∷ []

-- `split([',', ' ', '\n'])`
unfoldable pub split_list : String → List String
split_list Texts.[] = "" ∷ []
split_list (Texts.◌∷◌ c s) =
    let rest = split_list s in
    if eqb (code c) b',' || eqb (code c) 32 || eqb (code c) 10 then "" ∷ rest else push_front c rest

abbrev pub header : String
header = "# Written by mobile-coder from the device's current network.\n"

abbrev pub fallback_note : String
fallback_note = "# The platform reported no DNS servers; using public fallbacks.\n"

-- A line for each server.
unfoldable pub server_lines : List String → String
server_lines [] = ""
server_lines (s ∷ ss) = "nameserver " <> s <> "\n" <> server_lines ss

module _ (I : IpAddr) where
  open I use {Addr}

  -- `dedup`: the first of each run of equal neighbours is kept.
  unfoldable pub dedup_from : Addr → List Addr → List Addr
  dedup_from a [] = []
  dedup_from a (b ∷ bs) =
      let rest = dedup_from b bs in
      let same = dedup_from a bs in if I.equal a b then same else b ∷ rest

  unfoldable pub dedup : List Addr → List Addr
  dedup [] = []
  dedup (a ∷ rest) = a ∷ dedup_from a rest

  unfoldable pub parse_servers : String → List Addr
  parse_servers raw = dedup (
      filter_map I.parse
        (keep (λ s. not (is_empty s)) (map (λ s. trim_start_char b'/' (trim s)) (split_list raw))))

  unfoldable pub render : List Addr → String
  render [] = header <> fallback_note <> server_lines fallback_servers
  render (a ∷ rest) = header <> server_lines (map I.display (take 3 (a ∷ rest)))

-- The file system: what is in the file, and each of the three changes, which may fail.
pub record Conf (W : Type 0) : Type 0 where
  pub read : W → Option String
  pub create_dir : W → Ran Unit × W
  pub write_staging : String → W → Ran Unit × W
  pub rename : W → Ran Unit × W

module _ {W : Type 0} (C : Conf W) where
  abbrev pub if_ok : Ran Unit × W → (W → Ran Bool × W) → Ran Bool × W
  if_ok (ok done, w) f = f w
  if_ok (err e, w) f = (err e, w)

  abbrev pub same_contents : String → Option String → Bool
  same_contents contents none = false
  same_contents contents (some found) = found == contents

  -- Write and rename, so that the file is never half written. The answer is whether it changed.
  unfoldable pub write_resolv_conf : String → W → Ran Bool × W
  write_resolv_conf contents w =
      if same_contents contents (C.read w)
      then (ok false, w)
      else if_ok (C.create_dir w) (λ w1.
        if_ok (C.write_staging contents w1) (λ w2. if_ok (C.rename w2) (λ w3. (ok true, w3))))
