-- ===== src/Session/Title.antt =====
-- The titles of chats (crates/mc-core/src/session.rs).
use Prim.Native.String.{count}
use text.Mathlib.TextLemmas.{length-append}
use mobile_coder.Prelude.{
  ◌≤◌, ◌<>◌, ◌≡◌, refl, String, inl, inr, arith, Bool-cases, leb, leb→le, if◌then◌else◌,
}
use mobile_coder.Prelude.Text.{lines, trim, trim_end, take_chars, count-take_chars, count-trim_end}
use mobile_coder.Session.{first_full, clip_title, title_chars}

clip-bound :
    (line : String)
    → count (if leb (count line) 48 then line else trim_end (take_chars 47 line) <> "…") ≤ 48
clip-bound line = elim (Bool-cases (leb (count line) 48)) [
  | inl short ↦ rw short (leb→le _ _ short)
  | inr long ↦ rw long (
      omega (
        arith,
        length-append (trim_end (take_chars 47 line)) "…",
        count-trim_end (take_chars 47 line),
        count-take_chars 47 line,
        mark,
      ))
]
  where
    mark : count "…" ≡ 1
    mark = refl

-- Whatever was typed, the title made of it has at most 48 characters.
pub clip_title-bound : (text : String) → count (clip_title text) ≤ title_chars
unfolding clip_title
clip_title-bound text = clip-bound (trim (first_full (lines text)))
