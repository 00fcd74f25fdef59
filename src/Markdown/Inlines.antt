-- ===== src/Markdown/Inlines.antt =====
-- The data of crates/mc-ui/src/markdown.rs, and how runs of text are gathered.
use mobile_coder.Prelude.{
  ℕ, ◌-◌, ◌<>◌, String, Bool, true, false, not, ◌&&◌, Option, none, some, List, [], ◌∷◌, ◌++◌, all,
  ltb, length, if◌then◌else◌,
}
use mobile_coder.Prelude.Text.{trim, is_empty}

pub record Inline : Type 0 where
  pub text : String
  pub bold : Bool
  pub italic : Bool
  pub code : Bool
  pub strike : Bool

pub data Block : Type 0 where
  paragraph : List Inline → Block
  heading : (level : ℕ) → List Inline → Block
  code_block : (language : Option String) (text : String) → Block
  list_item : (marker : String) (depth : ℕ) → List Inline → Block
  quote : List Inline → Block
  table : List (List (List Inline)) → Block
  rule : Block

-- The events that the source tells apart. A fence has the text behind it.
pub data Event : Type 0 where
  start_strong end_strong start_emphasis end_emphasis start_strike end_strike : Event
  start_heading : (level : ℕ) → Event
  end_heading start_quote end_quote : Event
  start_list : Option ℕ → Event
  end_list start_item end_item : Event
  start_table end_table start_row start_cell : Event
  start_code : Option String → Event
  end_code end_paragraph soft_break hard_break rule_line : Event
  plain : String → Event
  code_span : String → Event
  html : String → Event
  -- any other
  unknown : Event

-- What the loop keeps. The open lists are kept from the innermost on.
pub record State : Type 0 where
  pub blocks : List Block
  pub inlines : List Inline
  pub bold : ℕ
  pub italic : ℕ
  pub strike : ℕ
  pub heading_level : Option ℕ
  pub quote_depth : ℕ
  pub fence : Option (Option String × String)
  pub lists : List (Option ℕ)
  pub item_marker : Option String
  pub rows : Option (List (List (List Inline)))

abbrev pub start : State
start = record {
  blocks = [];
  inlines = [];
  bold = 0;
  italic = 0;
  strike = 0;
  heading_level = none;
  quote_depth = 0;
  fence = none;
  lists = [];
  item_marker = none;
  rows = none;
}

abbrev pub same_bool : Bool → Bool → Bool
same_bool true b = b
same_bool false b = not b

unfoldable pub same_style : Inline → Inline → Bool
same_style a b =
    same_bool a.bold b.bold
    && same_bool a.italic b.italic
    && same_bool a.code b.code
    && same_bool a.strike b.strike

-- `push_text`: the last run grows where it has the style, and otherwise a new one begins.
abbrev pub merge : Inline → List Inline → List Inline
merge i [] = i ∷ []
merge i (last ∷ []) =
    if same_style last i then record last { text = last.text <> i.text } ∷ [] else last ∷ i ∷ []
merge i (x ∷ y ∷ rest) = x ∷ merge i (y ∷ rest)

unfoldable pub styled : State → String → Bool → Inline
styled s text code = record {
  text = text;
  bold = ltb 0 s.bold;
  italic = ltb 0 s.italic;
  code = code;
  strike = ltb 0 s.strike;
}

unfoldable pub push_text : State → String → Bool → List Inline → List Inline
push_text s text code runs = if is_empty text then runs else merge (styled s text code) runs

abbrev pub is_blank : Inline → Bool
is_blank i = is_empty (trim i.text)

abbrev pub is_set : {A : Type 0} → Option A → Bool
is_set none = false
is_set (some a) = true

abbrev pub taken : State → Option String → Option ℕ → Block
taken s (some marker) level = list_item marker (length s.lists - 1) s.inlines
taken s none (some level) = heading level s.inlines
taken s none none = if ltb 0 s.quote_depth then quote s.inlines else paragraph s.inlines

unfoldable pub flush : State → State
flush s =
    if all is_blank s.inlines && not (is_set s.item_marker)
    then record s { inlines = [] }
    else record s {
      blocks = s.blocks ++ taken s s.item_marker s.heading_level ∷ [];
      inlines = [];
      item_marker = none;
    }
