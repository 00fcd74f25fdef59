-- ===== src/Tools/Quote.antt =====
-- The quoting of arguments for the shell (`shq` of crates/mc-agent/src/tools.rs).
use Prim.Native.Char.{Char, char, code}
use Prim.Native.String.{[], ◌∷◌}
use Prim.Native.String.append as appending
use text.Mathlib.TextEquality.{Char-path}
use text.Mathlib.TextLemmas.{append_assoc as text_assoc}
use mobile_coder.Prelude.{
  ◌≡◌, refl, ap, sym, ◌<>◌, String, inl, inr, Option, none, some, Bool-cases, eqb, eqb→eq,
  if◌then◌else◌,
}
use mobile_coder.Prelude.Text.{replace_char}
use mobile_coder.Tools.Commands.{shq}

-- Where the shell stands in a word.
pub data Mode : Type 0 where
  bare quoted escaped : Mode

abbrev prepend : Char → Option String → Option String
prepend c none = none
prepend c (some s) = some (c ∷ s)

-- How a POSIX shell reads one word: between single quotes all characters stand for themselves, a
-- backslash outside of them makes the next one do so. Anything else outside of quotes, and a quote
-- that is not closed, is no word here, so what is read is free of expansions and separators.
pub read_word : Mode → String → Option String
read_word bare [] = some []
read_word quoted [] = none
read_word escaped [] = none
read_word bare (c ∷ s) =
    let quote = read_word quoted s in
    let escape = read_word escaped s in
    if eqb (code c) 39 then quote else if eqb (code c) 92 then escape else none
read_word quoted (c ∷ s) =
    let close = read_word bare s in
    let rest = read_word quoted s in if eqb (code c) 39 then close else prepend c rest
read_word escaped (c ∷ s) = prepend c (read_word bare s)

abbrev quote : Char
quote = char 39 tt

abbrev backslash : Char
backslash = char 92 tt

-- What a quote in the text becomes, character by character.
unrolled : (s : String) → "'\\''" <> s ≡ quote ∷ backslash ∷ quote ∷ quote ∷ s
unrolled s =
    rw
      (
        appending.cons quote "\\''" s,
        appending.cons backslash "''" s,
        appending.cons quote "'" s,
        appending.cons quote "" s,
        appending.nil s,
      )
      refl

read_escaped_quote :
    (s : String) → read_word quoted ("'\\''" <> s) ≡ prepend quote (read_word quoted s)
unfolding read_word
read_escaped_quote s = rw (unrolled s) refl

read_replaced : (raw : String) → read_word quoted (replace_char 39 "'\\''" raw <> "'") ≡ some raw
unfolding read_word replace_char
read_replaced [] = refl
read_replaced (c ∷ s) =
    let rest = replace_char 39 "'\\''" s in
    elim (Bool-cases (eqb (code c) 39)) [
      | inl e ↦
          rw (e, text_assoc "'\\''" rest "'", read_escaped_quote (rest <> "'"), read_replaced s)
            (ap (λ d. some (d ∷ s)) (Char-path quote c (sym (eqb→eq (code c) 39 e))))
      | inr e ↦ rw (e, appending.cons c rest "'", e, read_replaced s) refl
    ]

-- A POSIX shell reads what shq quotes as one word, which is the text itself, whatever quotes,
-- expansions or separators are in it.
pub read_word-shq : (raw : String) → read_word bare (shq raw) ≡ some raw
unfolding shq read_word
read_word-shq raw =
    let body = replace_char 39 "'\\''" raw <> "'" in
    rw (appending.cons quote "" body, appending.nil body) (read_replaced raw)
