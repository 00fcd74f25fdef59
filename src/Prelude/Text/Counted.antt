-- ===== src/Prelude/Text/Counted.antt =====
-- How often a text counts as occurring: not at all where it does not occur, and twice at least where
-- it occurs in two places that do not overlap.
use Prim.Native.Nat.{ℕ, zero, suc, ◌+◌, ◌-◌, ◌≤◌}
use Prim.Native.Char.{Char, code}
use Prim.Native.String.{String, [], ◌∷◌, ◌++◌, count}
use Prim.Native.String.count as counting
use Prim.Native.String.append as appending
use mathlib.Core.Path.{◌≡◌, refl, sym, ap, ◌∙◌}
use mathlib.Core.Bool.{true, false}
use mathlib.Core.Logic.{inl, inr}
use text.Mathlib.TextLemmas.{append_assoc}
use native.Mathlib.Omega.{arith}
use mobile_coder.Prelude.Tests.{eqb_refl, Bool-cases}
use mobile_coder.Prelude.Text.{is_empty, is_prefix, matches_from, count_matches}
use mobile_coder.Prelude.Text.Affix.Ends.{count-append}

is_prefix-append : (p s : String) → is_prefix p (p ++ s) ≡ true
is_prefix-append [] s = refl
is_prefix-append (c ∷ p) s = rw (appending.cons c p s, eqb_refl (code c)) (is_prefix-append p s)

-- A hit counts one, and its other characters are passed.
matches_from-hit :
    (c : Char) (p : String) (d : Char) (s : String)
    → is_prefix (c ∷ p) (d ∷ s) ≡ true
    → matches_from 0 (c ∷ p) (d ∷ s) ≡ matches_from (count p) (c ∷ p) s + 1
unfolding matches_from
matches_from-hit c p d s hit =
    let passed : count (c ∷ p) - 1 ≡ count p = omega (arith, counting.cons c p) in
    rw (matches_from, hit) (ap (λ n. matches_from n (c ∷ p) s + 1) passed)

matches_from-miss :
    (p : String) (d : Char) (s : String)
    → is_prefix p (d ∷ s) ≡ false
    → matches_from 0 p (d ∷ s) ≡ matches_from 0 p s
unfolding matches_from
matches_from-miss p d s miss = rw (matches_from, miss) refl

module _ (c : Char) (p : String) where
  abbrev old : String
  old = c ∷ p

  matches_from-front :
      (s : String) → matches_from 0 old (old ++ s) ≡ matches_from (count p) old (p ++ s) + 1
  matches_from-front s =
      let hit : is_prefix old (c ∷ (p ++ s)) ≡ true =
        sym (ap (is_prefix old) (appending.cons c p s)) ∙ is_prefix-append old s in
      rw (appending.cons c p s) (matches_from-hit c p c (p ++ s) hit)

  -- An occurrence that is not passed is counted, or one that overlaps it.
  occurs_once : (k : ℕ) (x s : String) → k ≤ count x → 1 ≤ matches_from k old (x ++ (old ++ s))
  unfolding matches_from
  occurs_once zero [] s h = rw (appending.nil (old ++ s)) (omega (arith, matches_from-front s))
  occurs_once (suc k) [] s h = absurd (omega (arith, counting.nil))
  occurs_once (suc k) (d ∷ x) s h =
      rw (appending.cons d x (old ++ s)) (occurs_once k x s (omega (arith, counting.cons d x)))
  occurs_once zero (d ∷ x) s h =
      let t = x ++ (old ++ s) in
      rw (appending.cons d x (old ++ s)) (elim (Bool-cases (is_prefix old (d ∷ t))) [
        | inl hit ↦ omega (arith, matches_from-hit c p d t hit)
        | inr miss ↦ omega (arith, matches_from-miss old d t miss, occurs_once 0 x s (omega arith))
      ])

  occurs_twice :
      (k : ℕ) (a b s : String)
      → k ≤ count a
      → 2 ≤ matches_from k old (a ++ (old ++ (b ++ (old ++ s))))
  unfolding matches_from
  occurs_twice zero [] b s h =
      let t = b ++ (old ++ s) in
      let passed = append_assoc p b (old ++ s) in
      let same : matches_from (count p) old (p ++ t)
          ≡ matches_from (count p) old ((p ++ b) ++ (old ++ s)) =
        ap (matches_from (count p) old) (sym passed) in
      let later = occurs_once (count p) (p ++ b) s (omega (arith, count-append p b)) in
      rw (appending.nil (old ++ t)) (omega (arith, matches_from-front t, same, later))
  occurs_twice (suc k) [] b s h = absurd (omega (arith, counting.nil))
  occurs_twice (suc k) (d ∷ a) b s h =
      rw (appending.cons d a (old ++ (b ++ (old ++ s))))
        (occurs_twice k a b s (omega (arith, counting.cons d a)))
  occurs_twice zero (d ∷ a) b s h =
      let t = a ++ (old ++ (b ++ (old ++ s))) in
      let front = a ++ (old ++ b) in
      let regrouped : t ≡ front ++ (old ++ s) =
        ap (λ u. a ++ u) (sym (append_assoc old b (old ++ s)))
        ∙ sym (append_assoc a (old ++ b) (old ++ s)) in
      let same : matches_from (count p) old t ≡ matches_from (count p) old (front ++ (old ++ s)) =
        ap (matches_from (count p) old) regrouped in
      let later =
        occurs_once (count p) front s
          (omega (arith, count-append a (old ++ b), count-append old b, counting.cons c p)) in
      rw (appending.cons d a (old ++ (b ++ (old ++ s))))
        (elim (Bool-cases (is_prefix old (d ∷ t))) [
          | inl hit ↦ omega (arith, matches_from-hit c p d t hit, same, later)
          | inr miss ↦
              omega (arith, matches_from-miss old d t miss, occurs_twice 0 a b s (omega arith))
        ])

-- A text that is not empty counts twice at least where it occurs in two places that do not overlap.
pub count_matches-twice :
    (old a b s : String)
    → is_empty old ≡ false
    → 2 ≤ count_matches old (a ++ (old ++ (b ++ (old ++ s))))
unfolding count_matches
count_matches-twice [] a b s h = cc
count_matches-twice (c ∷ p) a b s h = occurs_twice c p 0 a b s (omega arith)
