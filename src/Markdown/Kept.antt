-- ===== src/Markdown/Kept.antt =====
-- The runs stay merged in every event of a reply (`parse` of crates/mc-ui/src/markdown.rs).
use mobile_coder.Prelude.{
  ℕ, ◌≡◌, refl, subst, String, Bool, true, false, not, ◌&&◌, inl, inr, Option, none, some, List, [],
  ◌∷◌, ◌++◌, all, ltb, Bool-cases, if◌then◌else◌, All, All-append,
}
use mobile_coder.Markdown.{
  Inline, rule, Event, start_strong, end_strong, start_emphasis, end_emphasis, start_strike,
  end_strike, start_heading, end_heading, start_quote, end_quote, start_list, end_list, start_item,
  end_item, start_table, end_table, start_row, start_cell, start_code, end_code, end_paragraph,
  soft_break, hard_break, rule_line, plain, code_span, html, State, start, push_text, taken, flush,
  at_last, push_table, in_table, push_code, in_code, in_block, on_fence, on_table, is_style, step,
  run, close_table, close_fence, close, parse, is_blank, is_set, with_text,
}
use mobile_coder.Markdown.Runs.{
  IsMerged, HasRuns, RowsMerged, IsGood, push_text-IsMerged, at_last-All,
}

taken-HasRuns :
    (s : State) (marker : Option String) (level : Option ℕ)
    → IsMerged s.inlines
    → HasRuns (taken s marker level)
taken-HasRuns s (some m) level h = h
taken-HasRuns s none (some n) h = h
taken-HasRuns s none none h = elim (Bool-cases (ltb 0 s.quote_depth)) [
  | inl inside ↦ rw inside h
  | inr outside ↦ rw outside h
]

flush-IsGood : (s : State) → IsGood s → IsGood (flush s)
unfolding flush
flush-IsGood s (h, b, r) =
    elim (Bool-cases (all is_blank s.inlines && not (is_set s.item_marker))) [
      | inl blank ↦ rw blank (tt, b, r)
      | inr full ↦ rw full (
        tt,
        All-append HasRuns s.blocks _ b (taken-HasRuns s s.item_marker s.heading_level h, tt),
        r,
      )
    ]

push_table-IsGood :
    (rows : List (List (List Inline))) (s : State)
    → All (All IsMerged) rows
    → IsGood s
    → IsGood (push_table rows s)
push_table-IsGood [] s m (h, b, r) = (h, b, tt)
push_table-IsGood (row ∷ rows) s m (h, b, r) = (h, All-append HasRuns s.blocks _ b (m, tt), tt)

-- A cell takes the text.
cell-All :
    (s : State) (text : String) (code : Bool) (row : List (List Inline))
    → All IsMerged row
    → All IsMerged (at_last (push_text s text code) row)
cell-All s text code row h =
    at_last-All IsMerged (push_text s text code) row (push_text-IsMerged s text code) h

in_table-IsGood :
    (e : Event) (rows : List (List (List Inline))) (s : State)
    → All (All IsMerged) rows
    → IsGood s
    → s.rows ≡ some rows
    → IsGood (in_table e rows s)
unfolding in_table
in_table-IsGood end_table rows s m g e = push_table-IsGood rows s m g
in_table-IsGood start_row rows s m (h, b, r) e = (h, b, All-append (All IsMerged) rows _ m (tt, tt))
in_table-IsGood start_cell rows s m (h, b, r) e =
    (h, b, at_last-All (All IsMerged) _ rows (λ row k. All-append IsMerged row _ k (tt, tt)) m)
in_table-IsGood (plain text) rows s m (h, b, r) e =
    (h, b, at_last-All (All IsMerged) _ rows (cell-All s text false) m)
in_table-IsGood (code_span text) rows s m (h, b, r) e =
    (h, b, at_last-All (All IsMerged) _ rows (cell-All s text true) m)
in_table-IsGood other rows s m g e = g

push_code-IsGood :
    (language : Option String) (text : String) (s : State)
    → IsGood s
    → IsGood (push_code language text s)
push_code-IsGood language text s (h, b, r) = (h, All-append HasRuns s.blocks _ b (tt, tt), r)

in_code-IsGood :
    (e : Event) (language : Option String) (buffer : String) (s : State)
    → IsGood s
    → IsGood (in_code e language buffer s)
unfolding in_code
in_code-IsGood (plain text) language buffer s g = g
in_code-IsGood end_code language buffer s g = push_code-IsGood language buffer s g
in_code-IsGood other language buffer s g = g

with_text-IsGood :
    (text : String) (code : Bool) (s : State) → IsGood s → IsGood (with_text text code s)
with_text-IsGood text code s (h, b, r) = (push_text-IsMerged s text code s.inlines h, b, r)

end_paragraph-IsGood : (s : State) (b : Bool) → IsGood s → IsGood (if b then s else flush s)
end_paragraph-IsGood s true g = g
end_paragraph-IsGood s false g = flush-IsGood s g

rule-IsGood : (s : State) → IsGood s → IsGood (record s { blocks = s.blocks ++ rule ∷ [] })
rule-IsGood s (h, b, r) = (h, All-append HasRuns s.blocks _ b (tt, tt), r)

in_block-IsGood : (e : Event) (s : State) → IsGood s → IsGood (in_block e s)
unfolding in_block
in_block-IsGood (start_heading level) s g = flush-IsGood s g
in_block-IsGood end_heading s g = flush-IsGood s g
in_block-IsGood start_quote s g = g
in_block-IsGood end_quote s g = flush-IsGood s g
in_block-IsGood (start_list first) s g = flush-IsGood s g
in_block-IsGood end_list s g = flush-IsGood s g
in_block-IsGood start_item s g = flush-IsGood s g
in_block-IsGood end_item s g = flush-IsGood s g
in_block-IsGood start_table s g = let (h, b, r) = flush-IsGood s g in (h, b, tt)
in_block-IsGood (start_code kind) s g = flush-IsGood s g
in_block-IsGood end_paragraph s g = end_paragraph-IsGood s (is_set s.item_marker) g
in_block-IsGood (plain text) s g = with_text-IsGood text false s g
in_block-IsGood (code_span text) s g = with_text-IsGood text true s g
in_block-IsGood soft_break s g = with_text-IsGood " " false s g
in_block-IsGood hard_break s g = with_text-IsGood "\n" false s g
in_block-IsGood rule_line s g = rule-IsGood (flush s) (flush-IsGood s g)
in_block-IsGood (html text) s g = with_text-IsGood text false s g
in_block-IsGood start_strong s g = g
in_block-IsGood end_strong s g = g
in_block-IsGood start_emphasis s g = g
in_block-IsGood end_emphasis s g = g
in_block-IsGood start_strike s g = g
in_block-IsGood end_strike s g = g
in_block-IsGood other s g = g

on_fence-IsGood :
    (e : Event) (fence : Option (Option String × String)) (s : State)
    → IsGood s
    → IsGood (on_fence e fence s)
on_fence-IsGood e none s g = in_block-IsGood e s g
on_fence-IsGood e (some (language, buffer)) s g = in_code-IsGood e language buffer s g

on_table-IsGood :
    (e : Event) (rows : Option (List (List (List Inline)))) (s : State)
    → s.rows ≡ rows
    → IsGood s
    → IsGood (on_table e rows s)
on_table-IsGood e none s at g = on_fence-IsGood e s.fence s g
on_table-IsGood e (some rows) s at (h, b, r) = elim (Bool-cases (is_style e)) [
  | inl style ↦ rw style (on_fence-IsGood e s.fence s (h, b, r))
  | inr other ↦
      let m : RowsMerged (some rows) = subst RowsMerged at r in
      rw other (in_table-IsGood e rows s m (h, b, r) at)
]

run-IsGood : (es : List Event) (s : State) → IsGood s → IsGood (run es s)
unfolding run step
run-IsGood [] s g = g
run-IsGood (e ∷ es) s g = run-IsGood es (step e s) (on_table-IsGood e s.rows s refl g)

close_table-IsGood :
    (rows : Option (List (List (List Inline)))) (s : State)
    → RowsMerged rows
    → IsGood s
    → IsGood (close_table rows s)
close_table-IsGood none s m g = g
close_table-IsGood (some rows) s m g = push_table-IsGood rows s m g

close_fence-IsGood :
    (fence : Option (Option String × String)) (s : State) → IsGood s → IsGood (close_fence fence s)
close_fence-IsGood none s g = g
close_fence-IsGood (some (language, text)) s g = push_code-IsGood language text s g

-- Whatever the events of a reply are, in each block and each cell of the result no run of text is
-- empty, and no two neighbours have the same style.
pub parse-All : (events : List Event) → All HasRuns (parse events)
unfolding parse close
parse-All events =
    let (h, b, r) = run-IsGood events start (tt, tt, tt) in
    let s = run events start in
    let s1 = close_table s.rows s in
    let (h2, b2, r2) =
      flush-IsGood (close_fence s1.fence s1)
        (close_fence-IsGood s1.fence s1 (close_table-IsGood s.rows s r (h, b, r))) in
    b2
