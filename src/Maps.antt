-- ===== src/Maps.antt =====
-- crates/mc-sandbox/src/android.rs: the directory of the native libraries, from /proc/self/maps.
-- `Path::parent` is for paths without `.` among their names.
use Prim.Native.Char.{code}
use Prim.Native.String as Texts
use mobile_coder.Prelude.{
  String, Option, none, some, eqb, if◌then◌else◌, filter_map, first?, get_elem?, ◌>>=◌,
}
use mobile_coder.Prelude.Text.{lines, is_empty}
use mobile_coder.Prelude.Text.Affix.{strip_suffix, split_whitespace, trim_end_char}

-- What is before the last separator, where there is one.
abbrev before_last : String → Option String
before_last Texts.[] = none
before_last (Texts.◌∷◌ c s) = elim (before_last s) [
  | some rest ↦ some (Texts.◌∷◌ c rest)
  | none ↦ if eqb (code c) b'/' then some "" else none
]

-- The directory of a path that ends in a name.
abbrev directory : Option String → String
directory none = ""
directory (some front) =
    let trimmed = trim_end_char b'/' front in if is_empty trimmed then "/" else trimmed

unfoldable pub path_parent : String → Option String
path_parent path = if is_empty path then none else some (directory (before_last path))

abbrev named : String → String → Option String
named lib_name path = elim (strip_suffix lib_name path) [ none ↦ none | some front ↦ some path ]

-- The sixth field of a line, where it ends with the name of the library.
unfoldable pub library_in : String → String → Option String
library_in lib_name line = get_elem? (split_whitespace line) 5 >>= named lib_name

unfoldable pub parse_maps : String → String → Option String
parse_maps maps lib_name =
    first? (filter_map path_parent (filter_map (library_in lib_name) (lines maps)))

-- The text of the maps, where it can be read.
unfoldable pub native_lib_dir : Option String → String → Option String
native_lib_dir maps lib_name = maps >>= λ text. parse_maps text lib_name
