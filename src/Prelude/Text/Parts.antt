-- ===== src/Prelude/Text/Parts.antt =====
-- Splitting a text at a character and joining the parts again.
use Prim.Native.Nat.{ℕ, suc, ◌≤◌}
use Prim.Native.Char.{Char, code}
use Prim.Native.String.{String, [], ◌∷◌, ◌++◌, count}
use Prim.Native.String.count as counting
use Prim.Native.String.append as appending
use mathlib.Core.Path.{◌≡◌, refl, ap, ◌∙◌}
use mathlib.Core.Bool.{Bool, true, false, ◌||◌}
use mathlib.Core.Logic.{inl, inr}
use mathlib.Core.List.{List}
use mathlib.Core.List as Lists
use native.Mathlib.Omega.{arith}
use mobile_coder.Prelude.Tests.{eqb, Bool-cases}
use mobile_coder.Prelude.Lists.{All, length}
use mobile_coder.Prelude.Text.{split, join, push_front}

-- Whether the character with this number occurs.
abbrev pub has_char : ℕ → String → Bool
has_char d [] = false
has_char d (c ∷ s) = eqb (code c) d || has_char d s

pub or_left : (a b : Bool) → a || b ≡ false → a ≡ false
or_left true b h = h
or_left false b h = refl

pub or_right : (a b : Bool) → a || b ≡ false → b ≡ false
or_right true b h = cc
or_right false b h = h

split-cons : (d : ℕ) (s : String) → (l : String) × (ls : List String) × (split d s ≡ List.◌∷◌ l ls)
unfolding split
split-cons d [] = ([], List.[], refl)
split-cons d (c ∷ s) =
    let (l, ls, e) = split-cons d s in
    elim (Bool-cases (eqb (code c) d)) [
      | inl h ↦ rw h ([], split d s, refl)
      | inr h ↦ rw (h, e) (c ∷ l, ls, refl)
    ]

push_front-append :
    (d : ℕ) (c : Char) (s : String) (r : List String)
    → push_front c (Lists.◌++◌ (split d s) r) ≡ Lists.◌++◌ (push_front c (split d s)) r
push_front-append d c s r = let (l, ls, e) = split-cons d s in rw e refl

-- A separator splits a text into what stands before it and what stands behind.
pub split-append :
    (d : ℕ) (sep : Char) (a b : String)
    → eqb (code sep) d ≡ true
    → split d (a ++ (sep ∷ b)) ≡ Lists.◌++◌ (split d a) (split d b)
unfolding split
split-append d sep [] b h = rw (appending.nil (sep ∷ b), h) refl
split-append d sep (c ∷ a) b h = elim (Bool-cases (eqb (code c) d)) [
  | inl e ↦
      rw (appending.cons c a (sep ∷ b), e) (ap (λ l. List.◌∷◌ [] l) (split-append d sep a b h))
  | inr e ↦
      rw (appending.cons c a (sep ∷ b), e)
        (ap (push_front c) (split-append d sep a b h) ∙ push_front-append d c a (split d b))
]

pub split-plain : (d : ℕ) (s : String) → has_char d s ≡ false → split d s ≡ List.◌∷◌ s List.[]
unfolding split
split-plain d [] h = refl
split-plain d (c ∷ s) h =
    rw (or_left (eqb (code c) d) _ h, split-plain d s (or_right (eqb (code c) d) _ h)) refl

-- What is joined from parts without the separator splits into the same parts.
pub split-join :
    (d : ℕ) (sep : Char) (p : String) (ps : List String)
    → eqb (code sep) d ≡ true
    → has_char d p ≡ false
    → All (λ s. has_char d s ≡ false) ps
    → split d (join (sep ∷ []) (List.◌∷◌ p ps)) ≡ List.◌∷◌ p ps
unfolding join
split-join d sep p List.[] h plain rest = split-plain d p plain
split-join d sep p (List.◌∷◌ q qs) h plain (here, rest) =
    rw
      (
        appending.cons sep [] (join (sep ∷ []) (List.◌∷◌ q qs)),
        appending.nil (join (sep ∷ []) (List.◌∷◌ q qs)),
        split-append d sep p (join (sep ∷ []) (List.◌∷◌ q qs)) h,
        split-plain d p plain,
        split-join d sep q qs h here rest,
      )
      refl

-- No part holds the separator.
pub split-All : (d : ℕ) (s : String) → All (λ p. has_char d p ≡ false) (split d s)
unfolding split
split-All d [] = (refl, tt)
split-All d (c ∷ s) = elim (Bool-cases (eqb (code c) d)) [
  | inl e ↦ rw e (refl, split-All d s)
  | inr e ↦ rw e (front (split d s) e (split-All d s))
]
  where
    front :
        (l : List String)
        → eqb (code c) d ≡ false
        → All (λ p. has_char d p ≡ false) l
        → All (λ p. has_char d p ≡ false) (push_front c l)
    front List.[] e h = (rw e refl, tt)
    front (List.◌∷◌ p ps) e (here, rest) = (rw e here, rest)

push_front-full :
    (d : ℕ) (c : Char) (s : String) → length (push_front c (split d s)) ≡ length (split d s)
push_front-full d c s = let (l, ls, e) = split-cons d s in rw e refl

pub length-split : (d : ℕ) (s : String) → length (split d s) ≤ suc (count s)
unfolding split
length-split d [] = omega (arith, counting.nil)
length-split d (c ∷ s) = elim (Bool-cases (eqb (code c) d)) [
  | inl e ↦ rw e (omega (arith, counting.cons c s, length-split d s))
  | inr e ↦ rw e (omega (arith, counting.cons c s, push_front-full d c s, length-split d s))
]

pub has_char-append :
    (d : ℕ) (s t : String)
    → has_char d s ≡ false
    → has_char d t ≡ false
    → has_char d (s ++ t) ≡ false
has_char-append d [] t h k = rw (appending.nil t) k
has_char-append d (c ∷ s) t h k =
    rw
      (
        appending.cons c s t,
        or_left (eqb (code c) d) _ h,
        has_char-append d s t (or_right (eqb (code c) d) _ h) k,
      )
      refl
