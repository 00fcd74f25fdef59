-- ===== src/Tests/Decoding.antt =====
-- The theorem on the decoding of a job's output at a concrete input, with an encoding of two numbers
-- for each character: its code and 0.
use Prim.Native.Nat.{Ordering, compare}
use Prim.Native.Char.{Char, char, code, IsLt, IsScalar}
use Prim.Native.String as Texts
use text.Mathlib.TextEquality.{Char-path}
use mobile_coder.Prelude.{
  ℕ, suc, ◌≡◌, refl, ap, ◌∙◌, String, Option, none, some, inl, inr, List, [], ◌∷◌, ◌++◌, length,
  arith,
}
use mobile_coder.Jobs.Decoded.{Utf8, IsUtf8, IsCut, bytes_of, joined, pump, pump_pieces_join}

abbrev Both : Ordering → Ordering → Type 0
Both Ordering.lt o = IsLt o
Both Ordering.eq _ = ⊥
Both Ordering.gt _ = ⊥

abbrev Scalar : Ordering → Ordering → Ordering → Type 0
Scalar Ordering.lt _ _ = Unit
Scalar Ordering.eq o p = Both o p
Scalar Ordering.gt o p = Both o p

abbrev is_less : (o : Ordering) → Dec (IsLt o)
is_less Ordering.lt = yes tt
is_less Ordering.eq = no (λ h. h)
is_less Ordering.gt = no (λ h. h)

abbrev are_both : (o p : Ordering) → Dec (Both o p)
are_both Ordering.lt p = is_less p
are_both Ordering.eq _ = no (λ h. h)
are_both Ordering.gt _ = no (λ h. h)

abbrev is_scalar : (o p q : Ordering) → Dec (Scalar o p q)
is_scalar Ordering.lt _ _ = yes tt
is_scalar Ordering.eq p q = are_both p q
is_scalar Ordering.gt p q = are_both p q

abbrev of_scalar : (n : ℕ) → Dec (IsScalar n) → Option Char
of_scalar n (yes h) = some (char n h)
of_scalar n (no _) = none

abbrev of_code : ℕ → Option Char
of_code n = of_scalar n (is_scalar (compare n 55296) (compare 57343 n) (compare n 1114112))

of_code-code : (c : Char) → of_code (code c) ≡ some c
of_code-code (char n h) =
    from_decision (is_scalar (compare n 55296) (compare 57343 n) (compare n 1114112))
  where
    from_decision : (d : Dec (IsScalar n)) → of_scalar n d ≡ some (char n h)
    from_decision (yes k) = ap some (Char-path (char n k) (char n h) refl)
    from_decision (no k) = absurd (k h)

abbrev behind_char : Option Char → List ℕ → String × List ℕ → String × List ℕ
behind_char none bytes _ = ("", bytes)
behind_char (some c) _ (s, rest) = (Texts.◌∷◌ c s, rest)

abbrev decoded : List ℕ → String × List ℕ
decoded [] = ("", [])
decoded (n ∷ []) = ("", n ∷ [])
decoded (n ∷ z ∷ bytes) = behind_char (of_code n) (n ∷ z ∷ bytes) (decoded bytes)

abbrev pairs : Utf8
pairs = record { encode = λ c. code c ∷ 0 ∷ []; valid = decoded }

decoded-cut :
    (s : String) (tail : List ℕ) → IsCut pairs tail → decoded (bytes_of pairs s ++ tail) ≡ (s, tail)
unfolding bytes_of
decoded-cut Texts.[] [] cut = refl
decoded-cut Texts.[] (n ∷ []) cut = refl
decoded-cut Texts.[] (n ∷ m ∷ l) (inl e) = cc
decoded-cut Texts.[] (n ∷ m ∷ l) (inr (c, b, r, e)) =
    let sizes : 2 ≡ length (n ∷ m ∷ (l ++ b ∷ r)) = ap length e in absurd (too_long l b r sizes)
  where
    too_long : (l : List ℕ) (b : ℕ) (r : List ℕ) → ¬ (2 ≡ suc (suc (length (l ++ b ∷ r))))
    too_long [] b r e = ground arith
    too_long (x ∷ l) b r e = ground arith
decoded-cut (Texts.◌∷◌ c s) tail cut =
    ap
      (λ o.
        behind_char o (code c ∷ 0 ∷ (bytes_of pairs s ++ tail))
          (decoded (bytes_of pairs s ++ tail)))
      (of_code-code c)
    ∙ ap (λ p. (Texts.◌∷◌ c p.0, p.1)) (decoded-cut s tail cut)

pairs-IsUtf8 : IsUtf8 pairs
pairs-IsUtf8 = record { short = λ c. omega arith; valid-cut = decoded-cut }

-- The first read ends inside of a character.
pump_pieces_join_example : joined (pump pairs [] ((104 ∷ []) ∷ (0 ∷ 105 ∷ 0 ∷ []) ∷ [])) ≡ "hi"
unfolding bytes_of
pump_pieces_join_example =
    pump_pieces_join pairs pairs-IsUtf8 "hi" [] ((104 ∷ []) ∷ (0 ∷ 105 ∷ 0 ∷ []) ∷ []) (inl refl)
      refl
