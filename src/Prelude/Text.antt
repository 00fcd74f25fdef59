-- ===== src/Prelude/Text.antt =====
-- What the source uses of Rust's `str`, over the native texts: lines, trimming, counting and
-- taking characters, searching, and the decimal form of a number.
pub mod Replaced
pub mod Affix
pub mod Counted
pub mod Parts
use Prim.Native.Nat.{ℕ, zero, suc, ◌+◌, ◌-◌, ◌/◌, ◌%◌, ◌≤◌}
use Prim.Native.Char.{Char, code}
use Prim.Native.String.{String, [], ◌∷◌, ◌++◌, count}
use Prim.Native.String.count as counting
use mathlib.Core.Path.{◌≡◌, refl}
use mathlib.Core.Bool.{Bool, true, false, ◌||◌, ◌&&◌}
use mathlib.Core.Logic.{inl, inr}
use mathlib.Core.List.{List}
use native.Mathlib.Omega.{arith}
use mobile_coder.Prelude.Tests.{if◌then◌else◌, eqb, leb, Bool-cases}

-- `char::is_whitespace`, the Unicode property White_Space.
unfoldable pub is_whitespace : ℕ → Bool
is_whitespace c =
    leb 9 c && leb c 13
    || eqb c 32
    || eqb c 0x85
    || eqb c 0xa0
    || eqb c 0x1680
    || leb 0x2000 c && leb c 0x200a
    || eqb c 0x2028
    || eqb c 0x2029
    || eqb c 0x202f
    || eqb c 0x205f
    || eqb c 0x3000

unfoldable pub trim_start : String → String
unfolding is_whitespace
trim_start [] = []
trim_start (c ∷ s) = let rest = trim_start s in if is_whitespace (code c) then rest else c ∷ s

-- A whitespace character is dropped where nothing is left behind it.
pub keep_end : Char → String → String
keep_end c [] = if is_whitespace (code c) then [] else c ∷ []
keep_end c (d ∷ s) = c ∷ d ∷ s

unfoldable pub trim_end : String → String
unfolding is_whitespace keep_end
trim_end [] = []
trim_end (c ∷ s) = keep_end c (trim_end s)

unfoldable pub trim : String → String
unfolding trim_start trim_end
trim s = trim_end (trim_start s)

abbrev pub is_empty : String → Bool
is_empty [] = true
is_empty (c ∷ s) = false

-- `chars().take(n)` and `chars().skip(n)`, collected.
unfoldable pub take_chars : ℕ → String → String
take_chars zero s = []
take_chars (suc n) [] = []
take_chars (suc n) (c ∷ s) = c ∷ take_chars n s

unfoldable pub skip_chars : ℕ → String → String
skip_chars zero s = s
skip_chars (suc n) [] = []
skip_chars (suc n) (c ∷ s) = skip_chars n s

abbrev starts_line : String → Bool
starts_line [] = false
starts_line (c ∷ s) = eqb (code c) 10

abbrev pub push_front : Char → List String → List String
push_front c List.[] = List.◌∷◌ (c ∷ []) List.[]
push_front c (List.◌∷◌ l ls) = List.◌∷◌ (c ∷ l) ls

-- `str::lines`: a line ends before `\n` or `\r\n`, and at the end of the text.
unfoldable pub lines : String → List String
lines [] = List.[]
lines (c ∷ s) =
    let rest = lines s in
    if eqb (code c) 10
    then List.◌∷◌ [] rest
    else if eqb (code c) 13 && starts_line s
    then rest
    else push_front c rest

-- `str::split` at one character, given by its number.
unfoldable pub split : ℕ → String → List String
split d [] = List.◌∷◌ [] List.[]
split d (c ∷ s) =
    let rest = split d s in if eqb (code c) d then List.◌∷◌ [] rest else push_front c rest

-- `[&str]::join`.
unfoldable pub join : String → List String → String
join sep List.[] = []
join sep (List.◌∷◌ s List.[]) = s
join sep (List.◌∷◌ s (List.◌∷◌ t ts)) = s ++ sep ++ join sep (List.◌∷◌ t ts)

abbrev pub is_prefix : String → String → Bool
is_prefix [] s = true
is_prefix (c ∷ p) [] = false
is_prefix (c ∷ p) (d ∷ s) = eqb (code c) (code d) && is_prefix p s

abbrev digit : ℕ → String
digit n =
    if eqb n 0
    then "0"
    else if eqb n 1
    then "1"
    else if eqb n 2
    then "2"
    else if eqb n 3
    then "3"
    else if eqb n 4
    then "4"
    else if eqb n 5
    then "5"
    else if eqb n 6
    then "6"
    else if eqb n 7
    then "7"
    else if eqb n 8
    then "8"
    else "9"

-- The fuel is above the number, and each round divides it by ten.
show_digits : ℕ → ℕ → String → String
show_digits zero n out = out
show_digits (suc fuel) n out =
    let out' = digit (n % 10) ++ out in
    let rest = show_digits fuel (n / 10) out' in if eqb (n / 10) 0 then out' else rest

-- `{}` of an unsigned number.
unfoldable pub show : ℕ → String
unfolding show_digits
show n = show_digits (suc n) n []

show_example : show 4096 ≡ "4096"
unfolding show
show_example = refl

lines_example :
    lines "a\r\nb\n\nc\r" ≡ List.◌∷◌ "a" (List.◌∷◌ "b" (List.◌∷◌ "" (List.◌∷◌ "c\r" List.[])))
unfolding lines
lines_example = refl

trim_example : trim " \t a b \n" ≡ "a b"
unfolding trim
trim_example = refl

pub count-take_chars : (n : ℕ) (s : String) → count (take_chars n s) ≤ n
unfolding take_chars
count-take_chars zero s = omega (arith, counting.nil)
count-take_chars (suc n) [] = omega (arith, counting.nil)
count-take_chars (suc n) (c ∷ s) =
    omega (arith, counting.cons c (take_chars n s), count-take_chars n s)

count-keep_end :
    (c : Char) (s t : String) → count t ≤ count s → count (keep_end c t) ≤ suc (count s)
unfolding keep_end
count-keep_end c s [] h = elim (Bool-cases (is_whitespace (code c))) [
  | inl blank ↦ rw blank (omega (arith, counting.nil))
  | inr full ↦ rw full (omega (arith, counting.nil, counting.cons c []))
]
count-keep_end c s (d ∷ t) h = omega (arith, counting.cons c (d ∷ t))

pub count-trim_end : (s : String) → count (trim_end s) ≤ count s
unfolding trim_end
count-trim_end [] = omega arith
count-trim_end (c ∷ s) =
    omega (arith, counting.cons c s, count-keep_end c s (trim_end s) (count-trim_end s))

-- `str::matches(p).count()`: the occurrences from the left that do not overlap. The first argument
-- is how many characters of the last one are still to pass.
pub matches_from : ℕ → String → String → ℕ
matches_from (suc k) p [] = 0
matches_from (suc k) p (c ∷ s) = matches_from k p s
matches_from zero p [] = if is_prefix p [] then 1 else 0
matches_from zero p (c ∷ s) =
    let hit = is_prefix p (c ∷ s) in
    let rest = matches_from (if hit then count p - 1 else 0) p s in if hit then rest + 1 else rest

unfoldable pub count_matches : String → String → ℕ
unfolding matches_from
count_matches p s = matches_from 0 p s

-- `str::replacen(p, new, 1)`.
unfoldable pub replace_first : String → String → String → String
replace_first p new [] = if is_prefix p [] then new else []
replace_first p new (c ∷ s) =
    let rest = replace_first p new s in
    if is_prefix p (c ∷ s) then new ++ skip_chars (count p) (c ∷ s) else c ∷ rest

-- `str::replace` of one character, given by its number, by a text.
unfoldable pub replace_char : ℕ → String → String → String
replace_char d new [] = []
replace_char d new (c ∷ s) =
    let rest = replace_char d new s in if eqb (code c) d then new ++ rest else c ∷ rest

-- `str::to_ascii_lowercase` of one character's number, and the search for a lower-case text in it.
abbrev lower : ℕ → ℕ
lower c = if leb b'A' c && leb c b'Z' then c + 32 else c

abbrev pub is_prefix_lower : String → String → Bool
is_prefix_lower [] s = true
is_prefix_lower (c ∷ p) [] = false
is_prefix_lower (c ∷ p) (d ∷ s) = eqb (code c) (lower (code d)) && is_prefix_lower p s

-- `s.to_ascii_lowercase().contains(p)`.
unfoldable pub contains_lower : String → String → Bool
contains_lower [] p = is_prefix_lower p []
contains_lower (c ∷ s) p = is_prefix_lower p (c ∷ s) || contains_lower s p

-- `str::to_ascii_lowercase`.
unfoldable pub lowered : String → String
lowered [] = []
lowered (c ∷ s) =
    let rest = lowered s in
    if leb b'A' (code c) && leb (code c) b'Z'
    then take_chars 1 (skip_chars (code c - b'A') "abcdefghijklmnopqrstuvwxyz") ++ rest
    else c ∷ rest
