-- ===== src/Prelude/Text/Affix/Ends.antt =====
-- What stays when the ends of a text are taken away.
use Prim.Native.Nat.{ℕ, ◌+◌}
use Prim.Native.Char.{Char, code}
use Prim.Native.String.{String, [], ◌∷◌, ◌++◌, count}
use Prim.Native.String.count as counting
use Prim.Native.String.append as appending
use mathlib.Core.Path.{◌≡◌, refl, sym, ap, ◌∙◌}
use mathlib.Core.Bool.{false}
use mathlib.Core.Logic.{inl, inr}
use mathlib.Core.Option.{none, some, some-injective}
use text.Mathlib.TextEquality.{Char-path}
use native.Mathlib.Omega.{arith}
use mobile_coder.Prelude.Tests.{eqb, eqb→eq, eqb_refl, ◌==◌, ==_iff, ==_refl, Bool-cases}
use mobile_coder.Prelude.Text.{is_empty, trim_end, keep_end}
use mobile_coder.Prelude.Text.Affix.{
  strip_prefix, strip_suffix, put_front, trim_end_char, trim_end_matches, trim_rounds,
}

pub strip_prefix-append : (p s : String) → strip_prefix p (p ++ s) ≡ some s
strip_prefix-append [] s = rw (appending.nil s) refl
strip_prefix-append (c ∷ p) s =
    rw (appending.cons c p s, eqb_refl (code c)) (strip_prefix-append p s)

-- What stands behind a prefix.
pub strip_prefix-splits : (p s rest : String) → strip_prefix p s ≡ some rest → s ≡ p ++ rest
strip_prefix-splits [] s rest e = some-injective _ _ e ∙ sym (appending.nil rest)
strip_prefix-splits (c ∷ p) [] rest e = cc
strip_prefix-splits (c ∷ p) (d ∷ s) rest e = elim (Bool-cases (eqb (code c) (code d))) [
  | inl same ↦
      let h : strip_prefix p s ≡ some rest = rw (← e, same) refl in
      let front = Char-path d c (sym (eqb→eq (code c) (code d) same)) in
      rw (appending.cons c p rest, front) (ap (λ t. c ∷ t) (strip_prefix-splits p s rest h))
  | inr differ ↦ ground (arith, differ)
]

pub count-append : (s t : String) → count (s ++ t) ≡ count s + count t
count-append [] t = rw (appending.nil t, counting.nil) (omega arith)
count-append (c ∷ s) t =
    rw (appending.cons c s t, counting.cons c (s ++ t), counting.cons c s, count-append s t)
      (omega arith)

longer : (c : Char) (s p : String) → ((c ∷ (s ++ p)) == p) ≡ false
longer c s p = elim (Bool-cases ((c ∷ (s ++ p)) == p)) [
  | inl same ↦
      let e = ap count ((==_iff (c ∷ (s ++ p)) p).0 same) in
      absurd (omega (arith, e, counting.cons c (s ++ p), count-append s p))
  | inr other ↦ other
]

strip_suffix-all : (p : String) → strip_suffix p p ≡ some []
unfolding strip_suffix
strip_suffix-all [] = rw (==_refl []) refl
strip_suffix-all (c ∷ p) = rw (==_refl (c ∷ p)) refl

pub strip_suffix-append : (p s : String) → strip_suffix p (s ++ p) ≡ some s
unfolding strip_suffix
strip_suffix-append p [] = rw (appending.nil p) (strip_suffix-all p)
strip_suffix-append p (c ∷ s) =
    rw (appending.cons c s p, longer c s p) (ap (put_front c) (strip_suffix-append p s))

full_append : (s t : String) → is_empty t ≡ false → is_empty (s ++ t) ≡ false
full_append [] t h = rw (appending.nil t) h
full_append (d ∷ s) t h = rw (appending.cons d s t) refl

keep_end-full : (c : Char) (s : String) → is_empty s ≡ false → keep_end c s ≡ c ∷ s
unfolding keep_end
keep_end-full c [] h = cc
keep_end-full c (d ∷ s) h = refl

-- What ends in a character that stays is left alone.
pub trim_end-append :
    (s t : String) → is_empty t ≡ false → trim_end t ≡ t → trim_end (s ++ t) ≡ s ++ t
unfolding trim_end
trim_end-append [] t full e = rw (appending.nil t) e
trim_end-append (c ∷ s) t full e =
    rw (appending.cons c s t, trim_end-append s t full e)
      (keep_end-full c (s ++ t) (full_append s t full))

pub trim_end_char-append :
    (d : ℕ) (s t : String)
    → is_empty t ≡ false
    → trim_end_char d t ≡ t
    → trim_end_char d (s ++ t) ≡ s ++ t
unfolding trim_end_char
trim_end_char-append d [] t full e = rw (appending.nil t) e
trim_end_char-append d (c ∷ s) t full e =
    rw (appending.cons c s t, trim_end_char-append d s t full e, full_append s t full) refl

pub trim_end_matches-none : (p s : String) → strip_suffix p s ≡ none → trim_end_matches p s ≡ s
unfolding trim_end_matches trim_rounds
trim_end_matches-none p s e = rw (trim_rounds, e) refl
