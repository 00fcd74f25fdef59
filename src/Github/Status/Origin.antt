-- ===== src/Github/Status/Origin.antt =====
-- The remote that is written is the one that is read (`set_origin` and `repo_of` of
-- crates/mc-github/src/git.rs).
use Prim.Native.Char.{char}
use Prim.Native.String as Texts
use Prim.Native.String.append as appending
use text.Mathlib.TextLemmas.{append_assoc as text_assoc}
use mobile_coder.Prelude.{◌≡◌, refl, sym, ◌∙◌, ap, ◌<>◌, String, false, none, some, [], ◌∷◌}
use mobile_coder.Prelude.Text.{is_empty, is_whitespace, trim, trim_start, trim_end, split}
use mobile_coder.Prelude.Text.Parts.{has_char, split-append, split-plain}
use mobile_coder.Prelude.Text.Affix.{strip_suffix, trim_end_char}
use mobile_coder.Prelude.Text.Affix.Ends.{
  strip_prefix-append, strip_suffix-append, trim_end-append, trim_end_char-append,
  trim_end_matches-none,
}
use mobile_coder.Github.Status.{path_of, repo_in, repo_of, origin_url}

-- An owner, or a name: not empty, and with no separator.
abbrev pub IsName : String → Type 0
IsName s = (is_empty s ≡ false) × (has_char b'/' s ≡ false)

trim_start_url : (s : String) → trim_start ("https://github.com/" <> s) ≡ "https://github.com/" <> s
unfolding trim_start is_whitespace
trim_start_url s = rw (appending.cons (char b'h' tt) "ttps://github.com/" s) refl

trim_url :
    (s : String)
    → trim ("https://github.com/" <> s <> ".git") ≡ "https://github.com/" <> s <> ".git"
unfolding trim trim_end is_whitespace
trim_url s =
    rw (trim_start_url (s <> ".git"), sym (text_assoc "https://github.com/" s ".git"))
      (trim_end-append ("https://github.com/" <> s) ".git" refl refl)

trim_slash_url :
    (s : String)
    → trim_end_char b'/' ("https://github.com/" <> s <> ".git")
      ≡ "https://github.com/" <> s <> ".git"
unfolding trim_end_char
trim_slash_url s =
    rw (sym (text_assoc "https://github.com/" s ".git"))
      (trim_end_char-append b'/' ("https://github.com/" <> s) ".git" refl refl)

path_of-url : (s : String) → path_of ("https://github.com/" <> s) ≡ some s
unfolding path_of
path_of-url s = rw (strip_prefix-append "https://github.com/" s) refl

repo_in-git :
    (owner name : String)
    → IsName owner
    → IsName name
    → repo_in (owner <> "/" <> name <> ".git") ≡ some (owner <> "/" <> name)
unfolding repo_in
repo_in-git owner name (o, o') (n, n') =
    let whole = owner <> "/" <> name in
    let assoc : owner <> "/" <> name <> ".git" ≡ whole <> ".git" =
      ap (λ t. owner <> t) (sym (text_assoc "/" name ".git"))
      ∙ sym (text_assoc owner ("/" <> name) ".git") in
    let slash : "/" <> name ≡ Texts.◌∷◌ (char b'/' tt) name =
      appending.cons (char b'/' tt) "" name ∙ ap (Texts.◌∷◌ (char b'/' tt)) (appending.nil name) in
    let parts : split b'/' whole ≡ owner ∷ name ∷ [] =
      ap (λ t. split b'/' (owner <> t)) slash
      ∙ split-append b'/' (char b'/' tt) owner name refl
      ∙ (rw (split-plain b'/' owner o', split-plain b'/' name n') refl) in
    rw (assoc, strip_suffix-append ".git" whole, parts, o, n) refl

-- For an owner and a name that are not empty and hold no separator, where the two do not end in
-- .git, the remote that a project is given reads back as that repository.
pub repo_of-origin_url :
    (owner name : String)
    → IsName owner
    → IsName name
    → strip_suffix ".git" (owner <> "/" <> name) ≡ none
    → repo_of (origin_url (owner <> "/" <> name)) ≡ some (owner <> "/" <> name)
unfolding repo_of origin_url
repo_of-origin_url owner name o n plain =
    let whole = owner <> "/" <> name in
    rw
      (
        trim_end_matches-none ".git" whole plain,
        sym (text_assoc "https://github.com" "/" (whole <> ".git")),
        trim_url whole,
        trim_slash_url whole,
        path_of-url (whole <> ".git"),
        text_assoc owner ("/" <> name) ".git",
        text_assoc "/" name ".git",
      )
      (repo_in-git owner name o n)
