-- ===== src/Jobs/Decoded.antt =====
-- The output of a job, read in pieces (`pump` of crates/mc-sandbox/src/jobs.rs). The UTF-8 of the
-- standard library is a parameter.
use Prim.Native.Char.{Char}
use Prim.Native.String as Texts
use Prim.Native.String.append as appending
use mobile_coder.Prelude.{
  ℕ, ◌≤◌, ◌≡◌, ◌⊎◌, refl, sym, ap, ◌∙◌, ◌<>◌, String, true, inl, inr, List, [], ◌∷◌, ◌++◌,
  append-nil, append_assoc, length, length-append, ltb, if◌then◌else◌, Bool-cases, arith,
}
use mobile_coder.Prelude.Text.{is_empty}

pub record Utf8 : Type 0 where
  pub encode : Char → List ℕ
  -- the text of the longest prefix that is UTF-8 (`valid_up_to`), and the bytes behind it
  pub valid : List ℕ → String × List ℕ

module _ (U : Utf8) where
  -- What is held back: the bytes of a character that is not there as a whole, four at most.
  abbrev pub held : List ℕ → List ℕ
  held rest = if ltb 4 (length rest) then [] else rest

  abbrev pub push_text : String → List String → List String
  push_text text texts = if is_empty text then texts else text ∷ texts

  -- The texts that are pushed to the buffer for the pieces that are read, with what is pending.
  unfoldable pub pump : List ℕ → List (List ℕ) → List String
  pump pending [] = []
  pump pending (read ∷ reads) =
      let (text, rest) = U.valid (pending ++ read) in push_text text (pump (held rest) reads)

  unfoldable pub bytes_of : String → List ℕ
  bytes_of Texts.[] = []
  bytes_of (Texts.◌∷◌ c s) = U.encode c ++ bytes_of s

  -- The start of a character that is not there as a whole.
  abbrev pub IsCut : List ℕ → Type 0
  IsCut tail = (tail ≡ []) ⊎ ((c : Char) × (b : ℕ) × (r : List ℕ) × (U.encode c ≡ tail ++ b ∷ r))

-- What is relied on: a character has four bytes at most, and bytes that are a text and the start of a
-- character are taken apart so.
pub record IsUtf8 (U : Utf8) : Type 0 where
  pub short : (c : Char) → length (U.encode c) ≤ 4
  pub valid-cut :
      (s : String) (tail : List ℕ) → IsCut U tail → U.valid (bytes_of U s ++ tail) ≡ (s, tail)

abbrev pub concat : List (List ℕ) → List ℕ
concat [] = []
concat (x ∷ xs) = x ++ concat xs

abbrev pub joined : List String → String
joined [] = ""
joined (t ∷ ts) = t <> joined ts

-- Two ways to cut one list: the first cut is not behind the second, or it is.
append-cases :
    (a b x y : List ℕ)
    → a ++ b ≡ x ++ y
    → ((m : List ℕ) × (x ≡ a ++ m) × (b ≡ m ++ y))
      ⊎ ((e : ℕ) × (m : List ℕ) × (a ≡ x ++ e ∷ m) × (y ≡ (e ∷ m) ++ b))
append-cases [] b x y h = inl (x, refl, h)
append-cases (n ∷ a) b [] y h = inr (n, a, refl, sym h)
append-cases (n ∷ a) b (k ∷ x) y h = elim (append-cases a b x y (ap tail_of h)) [
  | inl (m, e, f) ↦ inl (m, cc (h, e), f)
  | inr (d, m, e, f) ↦ inr (d, m, cc (h, e), f)
]
  where
    tail_of : List ℕ → List ℕ
    tail_of [] = []
    tail_of (z ∷ zs) = zs

module _ (U : Utf8) (V : IsUtf8 U) where
  held-cut : (tail : List ℕ) → IsCut U tail → held U tail ≡ tail
  held-cut tail h = elim (Bool-cases (ltb 4 (length tail))) [
    | inl over ↦ absurd (too_long tail h over)
    | inr under ↦ rw under refl
  ]
    where
      too_long : (l : List ℕ) → IsCut U l → ¬ (ltb 4 (length l) ≡ true)
      too_long l (inl e) over = let none : length l ≡ 0 = ap length e in ground arith
      too_long l (inr (c, b, r, e)) over =
          let whole : length (U.encode c) ≡ length (l ++ b ∷ r) = ap length e in
          ground (arith, V.short c, length-append {0} l (b ∷ r))

  -- Where the bytes of a text are cut, there is a text, the start of a character, and the rest.
  Split : String → List ℕ → List ℕ → Type 0
  Split s x y =
      (s1 : String) × (s2 : String) × (tail : List ℕ) × (s ≡ s1 <> s2)
      × (x ≡ bytes_of U s1 ++ tail)
      × IsCut U tail
      × (tail ++ y ≡ bytes_of U s2)

  cut_bytes : (s : String) (x y : List ℕ) → x ++ y ≡ bytes_of U s → Split s x y
  unfolding Split bytes_of
  cut_bytes Texts.[] [] y e = ("", "", [], sym (appending.nil ""), refl, inl refl, e)
  cut_bytes Texts.[] (b ∷ x) y e = cc
  cut_bytes (Texts.◌∷◌ c s) x y e = elim (append-cases (U.encode c) (bytes_of U s) x y (sym e)) [
    | inl (m, front, rest) ↦
        let (s1, s2, tail, whole, before, cut, behind) = cut_bytes s m y (sym rest) in
        (
          Texts.◌∷◌ c s1,
          s2,
          tail,
          ap (Texts.◌∷◌ c) whole ∙ sym (appending.cons c s1 s2),
          front
              ∙ ap (λ l. U.encode c ++ l) before
              ∙ sym (append_assoc (U.encode c) (bytes_of U s1) tail),
          cut,
          behind,
        )
    | inr (b, m, whole, rest) ↦
        ("", Texts.◌∷◌ c s, x, sym (appending.nil (Texts.◌∷◌ c s)), refl, inr (c, b, m, whole), e)
  ]

  joined-push_text : (t : String) (ts : List String) → joined (push_text U t ts) ≡ t <> joined ts
  joined-push_text Texts.[] ts = sym (appending.nil (joined ts))
  joined-push_text (Texts.◌∷◌ c t) ts = refl

  -- Where what is pending is the start of a character or nothing, and it and the reads behind it
  -- are together the bytes of a text, the texts that are pushed to the buffer of the job join to
  -- that text, however the bytes are cut into reads.
  pub pump_pieces_join :
      (s : String) (pending : List ℕ) (reads : List (List ℕ))
      → IsCut U pending
      → pending ++ concat reads ≡ bytes_of U s
      → joined (pump U pending reads) ≡ s
  unfolding Split pump bytes_of
  pump_pieces_join s pending [] cut e =
      ap (λ p. p.0)
        (sym (V.valid-cut "" pending cut)
          ∙ ap (U.valid) (sym (append-nil pending) ∙ e ∙ sym (append-nil (bytes_of U s)))
          ∙ V.valid-cut s [] (inl refl))
  pump_pieces_join s pending (read ∷ reads) cut e =
      let (s1, s2, tail, whole, before, start, behind) =
        cut_bytes s (pending ++ read) (concat reads)
          (append_assoc pending read (concat reads) ∙ e) in
      ap (λ b. joined (push_text U (U.valid b).0 (pump U (held U (U.valid b).1) reads))) before
      ∙ ap (λ r. joined (push_text U r.0 (pump U (held U r.1) reads))) (V.valid-cut s1 tail start)
      ∙ joined-push_text s1 (pump U (held U tail) reads)
      ∙ ap (λ t. s1 <> joined (pump U t reads)) (held-cut tail start)
      ∙ ap (λ t. s1 <> t) (pump_pieces_join s2 tail reads start behind)
      ∙ sym whole
