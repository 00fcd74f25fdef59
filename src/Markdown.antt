-- ===== src/Markdown.antt =====
-- Markdown of the replies (crates/mc-ui/src/markdown.rs). The events of pulldown_cmark are a parameter:
-- `parse` is a function of their list.
pub mod Inlines
pub mod Kept
pub mod Runs
use mobile_coder.Prelude.{
  ℕ, zero, suc, ◌+◌, ◌-◌, ◌<>◌, String, Bool, true, false, not, ◌&&◌, ◌||◌, Option, none, some,
  List, [], ◌∷◌, ◌++◌, all, leb, ltb, length, if◌then◌else◌,
}
use mobile_coder.Prelude.Text.{trim, is_empty, show}
use mobile_coder.Prelude.Text.Affix.{trim_end_char}
unfoldable pub use mobile_coder.Markdown.Inlines.*

abbrev pub at_last : {A : Type 0} → (A → A) → List A → List A
at_last f [] = []
at_last f (x ∷ []) = f x ∷ []
at_last f (x ∷ y ∷ rest) = x ∷ at_last f (y ∷ rest)

abbrev pub is_nil : {A : Type 0} → List A → Bool
is_nil [] = true
is_nil (x ∷ xs) = false

-- A style begins or ends.
abbrev pub on_style : Event → State → State
on_style start_strong s = record s { bold = s.bold + 1 }
on_style end_strong s = record s { bold = s.bold - 1 }
on_style start_emphasis s = record s { italic = s.italic + 1 }
on_style end_emphasis s = record s { italic = s.italic - 1 }
on_style start_strike s = record s { strike = s.strike + 1 }
on_style end_strike s = record s { strike = s.strike - 1 }
on_style other s = s

abbrev pub push_table : List (List (List Inline)) → State → State
push_table rows s =
    if is_nil rows
    then record s { rows = none }
    else record s { rows = none; blocks = s.blocks ++ table rows ∷ [] }

-- Inside a table text goes to the last cell of the last row.
unfoldable pub in_table : Event → List (List (List Inline)) → State → State
in_table end_table rows s = push_table rows s
in_table start_row rows s = record s { rows = some (rows ++ [] ∷ []) }
in_table start_cell rows s = record s { rows = some (at_last (λ row. row ++ [] ∷ []) rows) }
in_table (plain text) rows s = record s {
  rows = some (at_last (at_last (push_text s text false)) rows);
}
in_table (code_span text) rows s = record s {
  rows = some (at_last (at_last (push_text s text true)) rows);
}
in_table other rows s = s

abbrev pub push_code : Option String → String → State → State
push_code language text s = record s {
  fence = none;
  blocks = s.blocks ++ code_block language (trim_end_char 10 text) ∷ [];
}

-- Inside a fence only its text and its end count.
unfoldable pub in_code : Event → Option String → String → State → State
in_code (plain text) language buffer s = record s { fence = some (language, buffer <> text) }
in_code end_code language buffer s = push_code language buffer s
in_code other language buffer s = s

abbrev pub level_of : ℕ → ℕ
level_of n = if leb n 2 then n else 3

-- The marker of the next item of the innermost list, which counts on where it is numbered.
abbrev pub marker_of : List (Option ℕ) → String
marker_of (some n ∷ lists) = show n <> "."
marker_of other = "•"

abbrev pub counted : List (Option ℕ) → List (Option ℕ)
counted (some n ∷ lists) = some (n + 1) ∷ lists
counted other = other

abbrev pub tail : List (Option ℕ) → List (Option ℕ)
tail [] = []
tail (l ∷ ls) = ls

abbrev pub language_of : Option String → Option String
language_of none = none
language_of (some lang) = if is_empty (trim lang) then none else some (trim lang)

abbrev pub begin_item : State → State
begin_item s = record s { item_marker = some (marker_of s.lists); lists = counted s.lists }

abbrev pub with_text : String → Bool → State → State
with_text text code s = record s { inlines = push_text s text code s.inlines }

unfoldable pub in_block : Event → State → State
in_block (start_heading level) s = record (flush s) { heading_level = some (level_of level) }
in_block end_heading s = record (flush s) { heading_level = none }
in_block start_quote s = record s { quote_depth = s.quote_depth + 1 }
in_block end_quote s = record (flush s) { quote_depth = s.quote_depth - 1 }
in_block (start_list first) s = record (flush s) { lists = first ∷ s.lists }
in_block end_list s = record (flush s) { lists = tail s.lists }
in_block start_item s = begin_item (flush s)
in_block end_item s = flush s
in_block start_table s = record (flush s) { rows = some [] }
in_block (start_code kind) s = record (flush s) { fence = some (language_of kind, "") }
in_block end_paragraph s = if is_set s.item_marker then s else flush s
in_block (plain text) s = with_text text false s
in_block (code_span text) s = with_text text true s
in_block soft_break s = with_text " " false s
in_block hard_break s = with_text "\n" false s
in_block rule_line s = record (flush s) { blocks = (flush s).blocks ++ rule ∷ [] }
in_block (html text) s = with_text text false s
in_block other s = on_style other s

abbrev pub is_style : Event → Bool
is_style start_strong = true
is_style end_strong = true
is_style start_emphasis = true
is_style end_emphasis = true
is_style start_strike = true
is_style end_strike = true
is_style other = false

abbrev pub on_fence : Event → Option (Option String × String) → State → State
on_fence e none s = in_block e s
on_fence e (some (language, buffer)) s = in_code e language buffer s

abbrev pub on_table : Event → Option (List (List (List Inline))) → State → State
on_table e none s = on_fence e s.fence s
on_table e (some rows) s = if is_style e then on_fence e s.fence s else in_table e rows s

unfoldable pub step : Event → State → State
step e s = on_table e s.rows s

unfoldable pub run : List Event → State → State
run [] s = s
run (e ∷ es) s = run es (step e s)

abbrev pub close_table : Option (List (List (List Inline))) → State → State
close_table none s = s
close_table (some rows) s = push_table rows s

abbrev pub close_fence : Option (Option String × String) → State → State
close_fence none s = s
close_fence (some (language, text)) s = push_code language text s

-- A stream can stop anywhere: what is open is shown as far as it came.
unfoldable pub close : State → State
close s = let s1 = close_table s.rows s in flush (close_fence s1.fence s1)

unfoldable pub parse : List Event → List Block
parse events = (close (run events start)).blocks
