-- ===== src/Tests/Maps.antt =====
-- The search for the native libraries at concrete inputs.
use mobile_coder.Prelude.{◌≡◌, refl, String, none, some, ◌==◌}
use mobile_coder.Prelude.Text.{lines}
use mobile_coder.Prelude.Text.Affix.{strip_suffix, split_whitespace, trim_end_char}
use mobile_coder.Maps.{path_parent, library_in, parse_maps}

-- The tests of android.rs.
abbrev sample : String
sample =
    "7f8a1000-7f8a2000 r--p 00000000 fd:03 1234  /system/lib64/libc.so\n7f8b0000-7f8b9000 r-xp 00000000 fd:03 5678  /data/app/~~aB12cd==/net.example.app-Xy9z==/lib/arm64/libmobile_coder.so\n7f8c0000-7f8c1000 rw-p 00000000 00:00 0     [anon:.bss]\n"

finds_library :
    parse_maps sample "libmobile_coder.so"
    ≡ some "/data/app/~~aB12cd==/net.example.app-Xy9z==/lib/arm64"
unfolding parse_maps library_in path_parent split_whitespace trim_end_char lines strip_suffix
    mobile_coder.Prelude.Text.is_whitespace ◌==◌
finds_library = refl

ignores_unrelated : parse_maps sample "libnope.so" ≡ none
unfolding parse_maps library_in path_parent split_whitespace trim_end_char lines strip_suffix
    mobile_coder.Prelude.Text.is_whitespace ◌==◌
ignores_unrelated = refl
