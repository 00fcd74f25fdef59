-- ===== src/Prelude/Text/Affix.antt =====
-- What the source uses of Rust's `str` at the two ends of a text: `strip_prefix`, `strip_suffix`,
-- `trim_end_matches`, `split_whitespace`, and `parse` of a number.
pub mod Ends
use Prim.Native.Nat.{ℕ, zero, suc, ◌+◌, ◌-◌, ◌*◌}
use Prim.Native.Char.{Char, code}
use Prim.Native.String.{String, [], ◌∷◌, count}
use mathlib.Core.Bool.{not, ◌&&◌}
use mathlib.Core.Option.{Option, none, some}
use mathlib.Core.List.{List}
use mobile_coder.Prelude.Tests.{if◌then◌else◌, eqb, leb, ltb, ◌==◌}
use mobile_coder.Prelude.Lists.{keep}
use mobile_coder.Prelude.Text.{is_whitespace, is_empty, push_front}

-- `s.strip_prefix(p)` is `strip_prefix p s`, and so with the others.
abbrev pub strip_prefix : String → String → Option String
strip_prefix [] s = some s
strip_prefix (c ∷ p) [] = none
strip_prefix (c ∷ p) (d ∷ s) =
    let rest = strip_prefix p s in if eqb (code c) (code d) then rest else none

abbrev pub put_front : Char → Option String → Option String
put_front c none = none
put_front c (some s) = some (c ∷ s)

unfoldable pub strip_suffix : String → String → Option String
strip_suffix p [] = if [] == p then some [] else none
strip_suffix p (c ∷ s) =
    let rest = strip_suffix p s in if (c ∷ s) == p then some [] else put_front c rest

-- Ends with a text: `s.strip_suffix(p).unwrap_or(s)`.
abbrev pub without : String → Option String → String
without s none = s
without s (some rest) = rest

-- A round takes away at least a character, so there are enough.
trim_rounds : ℕ → String → String → String
trim_rounds zero p s = s
trim_rounds (suc n) p s = elim (strip_suffix p s) [ none ↦ s | some rest ↦ trim_rounds n p rest ]

unfoldable pub trim_end_matches : String → String → String
unfolding trim_rounds
trim_end_matches p s = trim_rounds (suc (count s)) p s

-- The same at one character, given by its number.
unfoldable pub trim_end_char : ℕ → String → String
trim_end_char d [] = []
trim_end_char d (c ∷ s) =
    let rest = trim_end_char d s in if is_empty rest && eqb (code c) d then [] else c ∷ rest

unfoldable pub trim_start_char : ℕ → String → String
trim_start_char d [] = []
trim_start_char d (c ∷ s) = let rest = trim_start_char d s in if eqb (code c) d then rest else c ∷ s

split_blank : String → List String
split_blank [] = List.◌∷◌ [] List.[]
split_blank (c ∷ s) =
    let rest = split_blank s in
    if is_whitespace (code c) then List.◌∷◌ [] rest else push_front c rest

unfoldable pub split_whitespace : String → List String
unfolding split_blank
split_whitespace s = keep (λ t. not (is_empty t)) (split_blank s)

-- The number behind the digits read so far.
digits_from : ℕ → String → Option ℕ
digits_from n [] = some n
digits_from n (c ∷ s) =
    let rest = digits_from (n * 10 + (code c - b'0')) s in
    if leb b'0' (code c) && leb (code c) b'9' then rest else none

abbrev in_u32 : Option ℕ → Option ℕ
in_u32 none = none
in_u32 (some n) = if ltb n 4294967296 then some n else none

abbrev unsigned : String → Option ℕ
unsigned [] = none
unsigned (c ∷ s) = in_u32 (digits_from 0 (c ∷ s))

-- `str::parse::<u32>`, which takes a plus sign.
unfoldable pub parse_u32 : String → Option ℕ
unfolding digits_from
parse_u32 [] = none
parse_u32 (c ∷ s) = if eqb (code c) b'+' then unsigned s else unsigned (c ∷ s)
