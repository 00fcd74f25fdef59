-- ===== src/Github/Command/Words.antt =====
-- What a shell reads of a git command (`git` of crates/mc-github/src/git.rs).
use Prim.Native.Char.{Char, char, code}
use Prim.Native.String as Texts
use Prim.Native.String.append as appending
use text.Mathlib.TextEquality.{Char-path}
use text.Mathlib.TextLemmas.{append-nil as text_append-nil, append_assoc as text_assoc}
use mobile_coder.Prelude.{
  ◌≡◌, refl, ap, sym, ◌∙◌, ◌<>◌, String, inl, inr, some, List, [], ◌∷◌, ◌++◌, map, eqb, eqb→eq,
  Bool-cases,
}
use mobile_coder.Prelude.Text.{replace_char, join}
use mobile_coder.Github.Command.{shell_quote, git_command, git_settings}
use mobile_coder.Github.Command.Shell.{
  Token, word, and_if, between, bare, quoted, push, lex, tokens,
}

abbrev quote : Char
quote = char 39 tt

-- What a quote in the text becomes is read as a quote.
lex_escaped_quote : (s : String) → lex quoted ("'\\''" <> s) ≡ push quote (lex quoted s)
unfolding lex
lex_escaped_quote s =
    rw
      (
        appending.cons quote "\\''" s,
        appending.cons (char 92 tt) "''" s,
        appending.cons quote "'" s,
        appending.cons quote "" s,
        appending.nil s,
      )
      refl

lex_quoted :
    (raw rest : String) (ts : List Token)
    → lex bare rest ≡ some ("", ts)
    → lex quoted (replace_char 39 "'\\''" raw <> "'" <> rest) ≡ some (raw, ts)
unfolding lex replace_char
lex_quoted Texts.[] rest ts e =
    rw (appending.nil ("'" <> rest), appending.cons quote "" rest, appending.nil rest) e
lex_quoted (Texts.◌∷◌ c s) rest ts e =
    let body = replace_char 39 "'\\''" s in
    elim (Bool-cases (eqb (code c) 39)) [
      | inl q ↦
          rw
            (
              q,
              text_assoc "'\\''" body ("'" <> rest),
              lex_escaped_quote (body <> "'" <> rest),
              lex_quoted s rest ts e,
            )
            (ap (λ d. some (Texts.◌∷◌ d s, ts)) (Char-path quote c (sym (eqb→eq (code c) 39 q))))
      | inr q ↦ rw (q, appending.cons c body ("'" <> rest), q, lex_quoted s rest ts e) refl
    ]

lex_word :
    (raw rest : String) (ts : List Token)
    → lex bare rest ≡ some ("", ts)
    → lex between (shell_quote raw <> rest) ≡ some ("", word raw ∷ ts)
unfolding lex shell_quote
lex_word raw rest ts e =
    let body = replace_char 39 "'\\''" raw in
    rw
      (
        text_assoc "'" (body <> "'") rest,
        text_assoc body "'" rest,
        appending.cons quote "" (body <> "'" <> rest),
        appending.nil (body <> "'" <> rest),
        lex_quoted raw rest ts e,
      )
      refl

-- The arguments, each behind a blank.
spaced : List String → String
spaced [] = ""
spaced (a ∷ l) = " " <> shell_quote a <> spaced l

join-spaced : (s : String) (l : List String) → join " " (s ∷ map shell_quote l) ≡ s <> spaced l
unfolding join spaced
join-spaced s [] = sym (text_append-nil s)
join-spaced s (a ∷ l) = ap (λ t. s <> " " <> t) (join-spaced (shell_quote a) l)

lex_blank : (s : String) → lex bare (" " <> s) ≡ lex between s
unfolding lex
lex_blank s = rw (appending.cons (char 32 tt) "" s, appending.nil s) refl

lex-spaced : (l : List String) → lex bare (spaced l) ≡ some ("", map word l)
unfolding spaced lex
lex-spaced [] = refl
lex-spaced (a ∷ l) =
    lex_blank (shell_quote a <> spaced l) ∙ lex_word a (spaced l) (map word l) (lex-spaced l)

lex_cd :
    (s : String) (ts : List Token)
    → lex between s ≡ some ("", ts)
    → lex between ("cd " <> s) ≡ some ("", word "cd" ∷ ts)
unfolding lex
lex_cd s ts e =
    rw
      (
        appending.cons (char b'c' tt) "d " s,
        appending.cons (char b'd' tt) " " s,
        appending.cons (char 32 tt) "" s,
        appending.nil s,
        e,
      )
      refl

lex_git :
    (s : String) (ts : List Token)
    → lex bare s ≡ some ("", ts)
    → lex bare (" && git" <> s) ≡ some ("", and_if ∷ word "git" ∷ ts)
unfolding lex
lex_git s ts e =
    rw
      (
        appending.cons (char 32 tt) "&& git" s,
        appending.cons (char 38 tt) "& git" s,
        appending.cons (char 38 tt) " git" s,
        appending.cons (char 32 tt) "git" s,
        appending.cons (char b'g' tt) "it" s,
        appending.cons (char b'i' tt) "t" s,
        appending.cons (char b't' tt) "" s,
        appending.nil s,
        e,
      )
      refl

-- Whatever the directory and the arguments of a git command hold, a shell that reads the command
-- line finds a change to exactly that directory, and behind it git with the fixed settings and
-- exactly those arguments, a word each.
pub tokens-git_command :
    (dir : String) (args : List String)
    → tokens (git_command dir args)
      ≡ some (word "cd" ∷ word dir ∷ and_if ∷ word "git" ∷ map word (git_settings ++ args))
unfolding tokens git_command
tokens-git_command dir args =
    let line = spaced (git_settings ++ args) in
    let arguments = lex-spaced (git_settings ++ args) in
    rw
      (
        join-spaced "git" (git_settings ++ args),
        sym (text_assoc " && " "git" line),
        lex_cd (shell_quote dir <> " && git" <> line) _
            (lex_word dir (" && git" <> line) _ (lex_git line _ arguments)),
      )
      refl
