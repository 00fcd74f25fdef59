-- ===== src/Prelude/Sublists.antt =====
-- What is left of a list when some of its elements are taken out.
use mathlib.Core.List.{Sublistᴰ, List, [], ◌∷◌, ◌++◌}

module _ {ℓ} {A : Type ℓ} where
  abbrev pub Within : List A → List A → Type ℓ
  Within xs ys = Sublistᴰ xs ys

  pub within_nil : (xs : List A) → Within [] xs
  within_nil [] = Sublistᴰ.slnil
  within_nil (x ∷ xs) = Sublistᴰ.cons (within_nil xs)

  pub within_behind : (front xs ys : List A) → Within xs ys → Within xs (front ++ ys)
  within_behind [] xs ys h = h
  within_behind (x ∷ front) xs ys h = Sublistᴰ.cons (within_behind front xs ys h)

  pub within_insert :
      (front xs ys : List A) (y : A) → Within xs (front ++ ys) → Within xs (front ++ y ∷ ys)
  within_insert [] xs ys y h = Sublistᴰ.cons h
  within_insert (z ∷ front) xs ys y (Sublistᴰ.cons h) =
      Sublistᴰ.cons (within_insert front xs ys y h)
  within_insert (z ∷ front) (x ∷ xs) ys y (Sublistᴰ.cons-cons e h) =
      Sublistᴰ.cons-cons e (within_insert front xs ys y h)

  pub within_self : (xs : List A) → Within xs xs
  within_self [] = Sublistᴰ.slnil
  within_self (x ∷ xs) = Sublistᴰ.cons-cons (λ i. x) (within_self xs)
