-- ===== src/Wire/Calls.antt =====
-- The tool calls of a message that was rebuilt from its stream (crates/mc-agent/src/wire.rs): every
-- block of the type `tool_use` in it is a call that the agent sees.
use mobile_coder.Prelude.{
  ℕ, zero, suc, ◌+◌, ◌≡◌, refl, subst, ap, String, true, false, inl, inr, Option, none, some, List,
  [], ◌∷◌, map, All, length, get_elem?, set, leb, unwrap_or, Bool-cases, ◌==◌,
}
use mathlib.Core.Option.{some-injective}
use mobile_coder.Json.{Json, IsLawful, get_str, get_str-object}
use mobile_coder.Transcript.{ids_in}
use mobile_coder.Wire.{
  ToolUse, Block, text, thinking, tool_use, passthrough, StreamAccumulator, EventKind,
  message_start, block_start, block_delta, message_delta, message_stop, event_kind, block_kind,
  DeltaKind, text_delta, thinking_delta, signature_delta, input_json_delta, delta_kind, resize, put,
  present, has_type, as_tool_use, tool_uses, start_of, start_block, delta_step, delta_at,
  on_message_start, on_block_start, on_block_delta, on_message_delta, dispatch, push, render,
  finish,
}

-- Every place of a list after a write, if it held at all places before and holds of what is written.
module _ {A : Type 0} (P : Option A → Type 0) where
  All-set : (xs : List (Option A)) (i : ℕ) (v : Option A) → All P xs → P v → All P (set xs i v)
  All-set [] i v h p = tt
  All-set (x ∷ xs) zero v (q, h) p = (p, h)
  All-set (x ∷ xs) (suc i) v (q, h) p = (q, All-set xs i v h p)

  All-resize : (n : ℕ) (xs : List (Option A)) → P none → All P xs → All P (resize n xs)
  unfolding resize
  All-resize zero xs p h = h
  All-resize (suc n) [] p h = (p, All-resize n [] p tt)
  All-resize (suc n) (x ∷ xs) p (q, h) = (q, All-resize n xs p h)

  All-put :
      (i : ℕ) (v : A) (xs : List (Option A)) → P none → P (some v) → All P xs → All P (put i v xs)
  unfolding put
  All-put i v xs n p h = elim (Bool-cases (leb (length xs) i)) [
    | inl e ↦ rw e (All-set (resize (i + 1) xs) i (some v) (All-resize (i + 1) xs n h) p)
    | inr e ↦ rw e (All-set xs i (some v) h p)
  ]

  All-get_elem? :
      (xs : List (Option A)) (i : ℕ) {v : Option A} → All P xs → get_elem? xs i ≡ some v → P v
  All-get_elem? [] i h e = cc
  All-get_elem? (x ∷ xs) zero (p, h) e = subst P (some-injective _ _ e) p
  All-get_elem? (x ∷ xs) (suc i) (p, h) e = All-get_elem? xs i h e

module _ (J : Json) where
  open J use {Value}

  -- A block that was kept as it came is no tool call.
  abbrev pub IsProper : Option (Block Value) → Type 0
  IsProper (some (passthrough v)) = has_type J "tool_use" v ≡ false
  IsProper _ = Unit

  -- A block whose type is none of the three that are modelled is kept as it came.
  start_of-IsProper :
      (raw : Value) (kind : Option String)
      → get_str J raw "type" ≡ kind
      → IsProper (some (start_of J (block_kind kind) raw))
  unfolding start_of block_kind has_type
  start_of-IsProper raw none e = rw e
  start_of-IsProper raw (some kind) e = elim (Bool-cases (kind == "text")) [
    | inl t ↦ rw t tt
    | inr t ↦ elim (Bool-cases (kind == "thinking")) [
      | inl u ↦ rw (t, u) tt
      | inr u ↦ elim (Bool-cases (kind == "tool_use")) [
        | inl v ↦ rw (t, u, v) tt
        | inr v ↦ rw (t, u, v) (rw e v)
      ]
    ]
  ]

  start_block-IsProper : (raw : Value) → IsProper (some (start_block J raw))
  unfolding start_block
  start_block-IsProper raw = start_of-IsProper raw (get_str J raw "type") refl

  delta_step-IsProper :
      (k : DeltaKind) (delta : Value) (b : Block Value)
      → IsProper (some b)
      → IsProper (some (delta_step J k delta b).0)
  unfolding delta_step
  delta_step-IsProper text_delta delta (text t) h = tt
  delta_step-IsProper thinking_delta delta (thinking t s) h = tt
  delta_step-IsProper signature_delta delta (thinking t s) h = tt
  delta_step-IsProper input_json_delta delta (tool_use i n j) h = tt
  delta_step-IsProper _ delta b h = h

  delta_at-IsProper :
      (i : ℕ) (delta : Value) (slot : Option (Option (Block Value))) (a : StreamAccumulator Value)
      → get_elem? a.blocks i ≡ slot
      → All IsProper a.blocks
      → All IsProper (delta_at J i delta slot a).0.blocks
  unfolding delta_at
  delta_at-IsProper i delta none a e h = h
  delta_at-IsProper i delta (some none) a e h = h
  delta_at-IsProper i delta (some (some b)) a e h =
      All-set IsProper a.blocks i (some _) h
        (delta_step-IsProper (delta_kind _) delta b (All-get_elem? IsProper a.blocks i h e))

  pub push-IsProper :
      (event : Value) (a : StreamAccumulator Value)
      → All IsProper a.blocks
      → All IsProper (push J event a).0.blocks
  unfolding push dispatch on_message_start on_block_start on_block_delta on_message_delta
  push-IsProper event a h = by_kind (event_kind (get_str J event "type"))
    where
      by_kind : (kind : EventKind) → All IsProper (dispatch J kind event a).0.blocks
      by_kind message_start = h
      by_kind block_start =
          All-put IsProper _ (start_block J _) a.blocks tt (start_block-IsProper _) h
      by_kind block_delta = delta_at-IsProper _ _ (get_elem? a.blocks _) a refl h
      by_kind message_delta = h
      by_kind message_stop = h
      by_kind EventKind.other = h

  -- The calls that the agent sees in a content are all its blocks of the type `tool_use`.
  abbrev pub IsNamed : List Value → Type 0
  IsNamed content =
      map (λ (u : ToolUse Value). u.id) (tool_uses J content) ≡ ids_in J "tool_use" "id" content

  skip-IsNamed :
      (v : Value) (vs : List Value)
      → has_type J "tool_use" v ≡ false
      → IsNamed vs
      → IsNamed (v ∷ vs)
  unfolding tool_uses ids_in
  skip-IsNamed v vs e h = rw e h

  call-IsNamed :
      (v : Value) (vs : List Value) (u : ToolUse Value)
      → has_type J "tool_use" v ≡ true
      → as_tool_use J v ≡ some u
      → get_str J v "id" ≡ some u.id
      → IsNamed vs
      → IsNamed (v ∷ vs)
  unfolding tool_uses ids_in
  call-IsNamed v vs u e call id h = rw (e, call, id) (ap (λ l. u.id ∷ l) h)

  module _ (L : IsLawful J) where
    render-IsNamed :
        (b : Block Value) (vs : List Value)
        → IsProper (some b)
        → IsNamed vs
        → IsNamed (render J b ∷ vs)
    unfolding render has_type as_tool_use ◌==◌
    render-IsNamed (text t) vs p h = skip-IsNamed _ vs (rw (get_str-object J L _ "type" refl)) h
    render-IsNamed (thinking t s) vs p h =
        skip-IsNamed _ vs (rw (get_str-object J L _ "type" refl)) h
    render-IsNamed (passthrough v) vs p h = skip-IsNamed v vs p h
    render-IsNamed (tool_use id name json) vs p h =
        let v = render J (tool_use id name json) in
        call-IsNamed v vs
          (record { id = id; name = name; input = unwrap_or (J.object []) (J.get v "input") })
          (rw (get_str-object J L _ "type" refl))
          (rw (get_str-object J L _ "id" refl, get_str-object J L _ "name" refl))
          (get_str-object J L _ "id" refl) h

    rendered-IsNamed :
        (bs : List (Option (Block Value))) → All IsProper bs → IsNamed (map (render J) (present bs))
    unfolding present tool_uses ids_in
    rendered-IsNamed [] h = refl
    rendered-IsNamed (none ∷ bs) (p, h) = rendered-IsNamed bs h
    rendered-IsNamed (some b ∷ bs) (p, h) =
        render-IsNamed b (map (render J) (present bs)) p (rendered-IsNamed bs h)

    -- In a message that was rebuilt from any stream, every block of the type `tool_use` is a call
    -- with the id of the block.
    pub finish-IsNamed :
        (a : StreamAccumulator Value) → All IsProper a.blocks → IsNamed (finish J a).content
    unfolding finish
    finish-IsNamed a h = rendered-IsNamed a.blocks h
