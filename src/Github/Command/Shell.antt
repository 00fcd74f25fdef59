-- ===== src/Github/Command/Shell.antt =====
-- How a POSIX shell reads the words of a command line, as far as the git commands need it.
use Prim.Native.Char.{Char, code}
use Prim.Native.String.{◌∷◌ as put}
use Prim.Native.String as Texts
use mobile_coder.Prelude.{
  ℕ, ◌≡◌, refl, String, Bool, ◌&&◌, ◌||◌, Option, none, some, List, [], ◌∷◌, eqb, leb,
  if◌then◌else◌,
}

-- A word, or the `&&` between two commands.
pub data Token : Type 0 where
  word : String → Token
  and_if : Token

-- Where the shell stands: between words, behind one `&`, in a word, in quotes, behind a backslash.
pub data Mode : Type 0 where
  between amp bare quoted escaped stuck : Mode

abbrev pub is_letter : ℕ → Bool
is_letter n = leb b'a' n && leb n b'z'

-- Outside of quotes only letters, blanks, `&&`, quotes and backslashes are read. At anything else
-- the reading stops, so what is read is free of expansions, redirections and substitutions.
abbrev pub next_mode : Mode → ℕ → Mode
next_mode between n =
    if eqb n 32
    then between
    else if eqb n 38
    then amp
    else if eqb n 39
    then quoted
    else if eqb n 92
    then escaped
    else if is_letter n
    then bare
    else stuck
next_mode amp n = if eqb n 38 then between else stuck
next_mode bare n =
    if eqb n 32
    then between
    else if eqb n 39
    then quoted
    else if eqb n 92
    then escaped
    else if is_letter n
    then bare
    else stuck
next_mode quoted n = if eqb n 39 then bare else quoted
next_mode escaped n = bare
next_mode stuck n = stuck

-- The rest of the word that is being read, and the tokens behind it.
abbrev pub Read : Type 0
Read = Option (String × List Token)

abbrev pub push : Char → Read → Read
push c none = none
push c (some (w, ts)) = some (put c w, ts)

abbrev pub open_word : Read → Read
open_word none = none
open_word (some (w, ts)) = some ("", word w ∷ ts)

abbrev pub emit_and : Read → Read
emit_and none = none
emit_and (some (w, ts)) = some (w, and_if ∷ ts)

abbrev pub is_quote : ℕ → Bool
is_quote n = eqb n 39 || eqb n 92

abbrev pub emit : Mode → Char → Read → Read
emit between c r =
    if eqb (code c) 32 || eqb (code c) 38
    then r
    else if is_quote (code c)
    then open_word r
    else open_word (push c r)
emit amp c r = emit_and r
emit bare c r = if eqb (code c) 32 || is_quote (code c) then r else push c r
emit quoted c r = if eqb (code c) 39 then r else push c r
emit escaped c r = push c r
emit stuck c r = none

abbrev pub at_end : Mode → Read
at_end between = some ("", [])
at_end bare = some ("", [])
at_end other = none

unfoldable pub lex : Mode → String → Read
lex m Texts.[] = at_end m
lex m (Texts.◌∷◌ c s) = emit m c (lex (next_mode m (code c)) s)

abbrev pub tokens_of : Read → Option (List Token)
tokens_of none = none
tokens_of (some (w, ts)) = some ts

-- The tokens of a command line, where it can be read.
unfoldable pub tokens : String → Option (List Token)
unfolding lex
tokens line = tokens_of (lex between line)

tokens_test :
    tokens "cd 'a b' && git '-c'"
    ≡ some (word "cd" ∷ word "a b" ∷ and_if ∷ word "git" ∷ word "-c" ∷ [])
unfolding tokens lex
tokens_test = refl
