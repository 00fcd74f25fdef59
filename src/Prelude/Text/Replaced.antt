-- ===== src/Prelude/Text/Replaced.antt =====
-- What it means that a text occurs in another, and what `replacen(old, new, 1)` does then.
use Prim.Native.Nat.{ℕ, zero, suc}
use Prim.Native.Char.{Char, code}
use Prim.Native.String.{String, [], ◌∷◌, ◌++◌, count}
use Prim.Native.String.count as counting
use Prim.Native.String.append as appending
use mathlib.Core.Path.{◌≡◌, refl, sym, ap, ◌∙◌}
use mathlib.Core.Bool.{Bool, true, false, ◌&&◌}
use mathlib.Core.Logic.{inl, inr}
use text.Mathlib.TextEquality.{Char-path}
use text.Mathlib.TextLemmas.{append-nil}
use mobile_coder.Prelude.Tests.{eqb, eqb→eq, Bool-cases}
use mobile_coder.Prelude.Text.{is_prefix, skip_chars, matches_from, count_matches, replace_first}

and_left : (a b : Bool) → a && b ≡ true → a ≡ true
and_left true b h = refl
and_left false b h = h

and_right : (a b : Bool) → a && b ≡ true → b ≡ true
and_right true b h = h
and_right false b h = cc

pub is_prefix-splits : (p s : String) → is_prefix p s ≡ true → s ≡ p ++ skip_chars (count p) s
unfolding skip_chars
is_prefix-splits [] s h = sym (appending.nil s)
is_prefix-splits (c ∷ p) [] h = cc
is_prefix-splits (c ∷ p) (d ∷ s) h =
    let same = Char-path d c (sym (eqb→eq (code c) (code d) (and_left _ (is_prefix p s) h))) in
    let rest = is_prefix-splits p s (and_right (eqb (code c) (code d)) _ h) in
    rw (counting.cons c p, appending.cons c p (skip_chars (count p) s), same) (ap (λ t. c ∷ t) rest)

-- An occurrence of `old` that is replaced, and what stands before and behind it.
abbrev pub IsEdit : (old new before after : String) → Type 0
IsEdit old new s t = (a b : String) × (s ≡ a ++ (old ++ b)) × (t ≡ a ++ (new ++ b))

skip_chars-nil : (n : ℕ) → skip_chars n [] ≡ []
unfolding skip_chars
skip_chars-nil zero = refl
skip_chars-nil (suc n) = refl

at_front :
    (old new s : String)
    → is_prefix old s ≡ true
    → IsEdit old new s (new ++ skip_chars (count old) s)
at_front old new s h = (
  [],
  skip_chars (count old) s,
  is_prefix-splits old s h ∙ sym (appending.nil _),
  sym (appending.nil _),
)

behind : (c : Char) (old new s t : String) → IsEdit old new s t → IsEdit old new (c ∷ s) (c ∷ t)
behind c old new s t (a, b, e, f) = (
  c ∷ a,
  b,
  ap (λ u. c ∷ u) e ∙ sym (appending.cons c a _),
  ap (λ u. c ∷ u) f ∙ sym (appending.cons c a _),
)

matches_from-miss :
    (old : String) (c : Char) (s : String)
    → is_prefix old (c ∷ s) ≡ false
    → matches_from 0 old (c ∷ s) ≡ matches_from 0 old s
unfolding matches_from
matches_from-miss old c s miss = rw (matches_from, miss) refl

matches_from-nil_miss :
    (old : String) → is_prefix old [] ≡ false → eqb (matches_from 0 old []) 0 ≡ true
unfolding matches_from
matches_from-nil_miss old miss = rw miss refl

hit_in_nil : (old new : String) → is_prefix old [] ≡ true → IsEdit old new [] new
hit_in_nil old new hit = (
  [],
  [],
  is_prefix-splits old [] hit
      ∙ (ap (λ t. old ++ t) (skip_chars-nil (count old)) ∙ sym (appending.nil (old ++ []))),
  sym (appending.nil (new ++ []) ∙ append-nil new),
)

matches_from-IsEdit :
    (old new s : String)
    → eqb (matches_from 0 old s) 0 ≡ false
    → IsEdit old new s (replace_first old new s)
unfolding replace_first
matches_from-IsEdit old new [] h = elim (Bool-cases (is_prefix old [])) [
  | inl hit ↦ rw hit (hit_in_nil old new hit)
  | inr miss ↦ cc (matches_from-nil_miss old miss)
]
matches_from-IsEdit old new (c ∷ s) h = elim (Bool-cases (is_prefix old (c ∷ s))) [
  | inl hit ↦ rw hit (at_front old new (c ∷ s) hit)
  | inr miss ↦ rw miss (
      behind c old new s _ (
        matches_from-IsEdit old new s
          (sym (ap (λ n. eqb n 0) (matches_from-miss old c s miss)) ∙ h)))
]

-- Where a text occurs, `replacen` replaces one occurrence and keeps all else.
pub replace_first-IsEdit :
    (old new s : String)
    → eqb (count_matches old s) 0 ≡ false
    → IsEdit old new s (replace_first old new s)
unfolding count_matches
replace_first-IsEdit old new s h = matches_from-IsEdit old new s h
