-- ===== src/Markdown/Runs.antt =====
-- The runs of a reply (`push_text` of crates/mc-ui/src/markdown.rs).
use Prim.Native.String as Texts
use Prim.Native.String.append as appending
use mobile_coder.Prelude.{
  ◌≡◌, refl, ◌<>◌, String, Bool, false, inl, inr, Option, none, some, List, [], ◌∷◌, Bool-cases,
  All,
}
use mobile_coder.Prelude.Text.{is_empty}
use mobile_coder.Markdown.{
  Inline, Block, paragraph, heading, code_block, list_item, quote, table, rule, State, same_style,
  merge, styled, push_text, at_last,
}

-- A run has a text, and not the style of the one behind it.
abbrev pub IsNext : Inline → List Inline → Type 0
IsNext i [] = Unit
IsNext i (j ∷ l) = same_style i j ≡ false

abbrev pub IsMerged : List Inline → Type 0
IsMerged [] = Unit
IsMerged (i ∷ l) = (is_empty i.text ≡ false) × IsNext i l × IsMerged l

abbrev pub HasRuns : Block → Type 0
HasRuns (paragraph l) = IsMerged l
HasRuns (heading n l) = IsMerged l
HasRuns (code_block language text) = Unit
HasRuns (list_item marker depth l) = IsMerged l
HasRuns (quote l) = IsMerged l
HasRuns (table rows) = All (All IsMerged) rows
HasRuns rule = Unit

full_longer : (s t : String) → is_empty s ≡ false → is_empty (s <> t) ≡ false
full_longer Texts.[] t h = cc
full_longer (Texts.◌∷◌ c s) t h = rw (appending.cons c s t) refl

merge-IsNext :
    (i x y : Inline) (l : List Inline) → same_style x y ≡ false → IsNext x (merge i (y ∷ l))
unfolding same_style
merge-IsNext i x y [] h = elim (Bool-cases (same_style y i)) [
  | inl same ↦ rw same h
  | inr other ↦ rw other h
]
merge-IsNext i x y (z ∷ l) h = h

merge-IsMerged :
    (i : Inline) (l : List Inline) → is_empty i.text ≡ false → IsMerged l → IsMerged (merge i l)
merge-IsMerged i [] full h = (full, tt, tt)
merge-IsMerged i (x ∷ []) full (here, next, rest) = elim (Bool-cases (same_style x i)) [
  | inl same ↦ rw same (full_longer x.text i.text here, tt, tt)
  | inr other ↦ rw other (here, other, (full, tt, tt))
]
merge-IsMerged i (x ∷ y ∷ l) full (here, next, rest) =
    (here, merge-IsNext i x y l next, merge-IsMerged i (y ∷ l) full rest)

pub push_text-IsMerged :
    (s : State) (text : String) (code : Bool) (l : List Inline)
    → IsMerged l
    → IsMerged (push_text s text code l)
unfolding push_text styled
push_text-IsMerged s text code l h = elim (Bool-cases (is_empty text)) [
  | inl empty ↦ rw empty h
  | inr full ↦ rw full (merge-IsMerged (styled s text code) l full h)
]

pub at_last-All {κ} :
    {A : Type 0} (P : A → Type κ) (f : A → A) (l : List A)
    → ((x : A) → P x → P (f x))
    → All P l
    → All P (at_last f l)
at_last-All P f [] keep h = tt
at_last-All P f (x ∷ []) keep (here, rest) = (keep x here, tt)
at_last-All P f (x ∷ y ∷ l) keep (here, rest) = (here, at_last-All P f (y ∷ l) keep rest)

abbrev pub RowsMerged : Option (List (List (List Inline))) → Type 0
RowsMerged none = Unit
RowsMerged (some rows) = All (All IsMerged) rows

abbrev pub IsGood : State → Type 0
IsGood s = IsMerged s.inlines × All HasRuns s.blocks × RowsMerged s.rows
