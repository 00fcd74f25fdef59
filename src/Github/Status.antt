-- ===== src/Github/Status.antt =====
-- The state of a repository (`Status`, `parse_status` and `repo_of` of crates/mc-github/src/git.rs).
pub mod Origin
use Prim.Native.Char.{char, code}
use Prim.Native.String as Texts
use mobile_coder.Prelude.{
  ℕ, ◌≡◌, refl, ◌<>◌, String, Bool, ◌||◌, Option, none, some, List, [], ◌∷◌, ◌++◌, eqb, ltb, length,
  if◌then◌else◌, unwrap_or, ◌>>=◌,
}
use mobile_coder.Prelude.Text.{lines, trim, split, is_empty, is_prefix, join, show, skip_chars}
use mobile_coder.Prelude.Text.Affix.{
  strip_prefix, strip_suffix, without, trim_end_char, trim_end_matches, split_whitespace, parse_u32,
}
use mobile_coder.Prelude as Shared
use mobile_coder.Github.{git_root}

pub record Status : Type 0 where
  pub branch : String
  pub changed : List String
  pub ahead : ℕ
  pub behind : ℕ
  pub repo : Option String

abbrev pub default : Status
default = record { branch = ""; changed = []; ahead = 0; behind = 0; repo = none }

abbrev pub is_nil : List String → Bool
is_nil [] = Shared.true
is_nil (p ∷ ps) = Shared.false

unfoldable pub is_clean : Status → Bool
is_clean s = is_nil s.changed

abbrev changes : ℕ → String
changes n = if eqb n 0 then "clean" else if eqb n 1 then "1 change" else show n <> " changes"

abbrev counted : ℕ → String → List String
counted n what = if ltb 0 n then (show n <> what) ∷ [] else []

unfoldable pub summary : Status → String
summary s = join " · " (
    (if is_empty s.branch then "(no branch)" else s.branch)
      ∷ changes (length s.changed)
      ∷ counted s.ahead " ahead"
    ++ counted s.behind " behind")

-- `part[1..]` is a value behind a sign.
abbrev pub count_part : String → Status → Status
count_part Texts.[] s = s
count_part (Texts.◌∷◌ c digits) s =
    let value = unwrap_or 0 (parse_u32 digits) in
    if eqb (code c) b'+'
    then record s { ahead = value }
    else if eqb (code c) b'-'
    then record s { behind = value }
    else s

abbrev pub count_parts : List String → Status → Status
count_parts [] s = s
count_parts (p ∷ ps) s = count_parts ps (count_part p s)

abbrev head_part : String → List String → String
head_part d [] = d
head_part d (p ∷ ps) = p

abbrev push_entry : Option String → Status → Status
push_entry none s = s
push_entry (some path) s = record s { changed = s.changed ++ head_part path (split 9 path) ∷ [] }

abbrev pub on_entry : String → Status → Status
on_entry line s =
    if is_prefix "1 " line || is_prefix "2 " line
    then push_entry (Shared.get_elem? (split_whitespace line) 8) s
    else s

abbrev pub on_untracked : Option String → String → Status → Status
on_untracked (some path) line s = record s { changed = s.changed ++ trim path ∷ [] }
on_untracked none line s = on_entry line s

abbrev pub on_counts : Option String → String → Status → Status
on_counts (some ab) line s = count_parts (split_whitespace ab) s
on_counts none line s = on_untracked (strip_prefix "? " line) line s

abbrev pub on_head : Option String → String → Status → Status
on_head (some head) line s = record s { branch = trim head }
on_head none line s = on_counts (strip_prefix "# branch.ab " line) line s

unfoldable pub parse_line : String → Status → Status
parse_line line s = on_head (strip_prefix "# branch.head " line) line s

unfoldable pub parse_lines : List String → Status → Status
parse_lines [] s = s
parse_lines (l ∷ ls) s = parse_lines ls (parse_line l s)

unfoldable pub parse_status : String → Status
parse_status porcelain = parse_lines (lines porcelain) default

-- `or_else`
abbrev pub or_strip : String → String → Option String → Option String
or_strip url prefix none = strip_prefix prefix url
or_strip url prefix (some rest) = some rest

unfoldable pub path_of : String → Option String
path_of url = or_strip url "ssh://git@github.com/" (
    or_strip url "git@github.com:"
      (or_strip url "http://github.com/" (strip_prefix "https://github.com/" url)))

abbrev pub owner_name : List String → Option String
owner_name [] = none
owner_name (owner ∷ []) = none
owner_name (owner ∷ name ∷ rest) =
    if is_empty owner || is_empty name then none else some (owner <> "/" <> name)

unfoldable pub repo_in : String → Option String
repo_in rest = owner_name (split b'/' (without rest (strip_suffix ".git" rest)))

unfoldable pub repo_of : String → Option String
repo_of url = path_of (trim_end_char b'/' (trim url)) >>= repo_in

-- The remote that a project is given (`url` in `set_origin` and `clone`).
unfoldable pub origin_url : String → String
origin_url repo = git_root <> "/" <> trim_end_matches ".git" repo <> ".git"

parse_status_test :
    parse_status "# branch.head main\n# branch.ab +1 -2\n? new.txt\n1 .M N... 1 2 3 a b src/x.rs\n"
    ≡ record {
      branch = "main";
      changed = "new.txt" ∷ "src/x.rs" ∷ [];
      ahead = 1;
      behind = 2;
      repo = none;
    }
unfolding parse_status parse_lines parse_line parse_u32 split_whitespace trim lines split
parse_status_test = refl
