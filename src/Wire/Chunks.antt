-- ===== src/Wire/Chunks.antt =====
-- The input of a tool call comes in pieces (crates/mc-agent/src/wire.rs): however it is cut, the
-- accumulator holds the same.
use text.Mathlib.TextLemmas.{append-nil, append_assoc as text_assoc}
use mobile_coder.Prelude.{
  some-injective, ℕ, zero, suc, ◌≡◌, refl, ap, sym, ◌∙◌, ◌<>◌, String, Option, none, some, List, [],
  ◌∷◌, map, get_elem?, set, ◌==◌,
}
use mobile_coder.Json.{Json, IsLawful, get_str-object}
use mobile_coder.Wire.{
  Block, thinking, tool_use, passthrough, StreamAccumulator, input_json_delta, event_kind,
  delta_kind, index_of, delta_step, delta_at, on_block_delta, dispatch, push,
}

module _ {A : Type 0} where
  -- A change of the entry at a place, where there is one.
  abbrev pub modify : ℕ → (A → A) → List (Option A) → List (Option A)
  modify i f [] = []
  modify zero f (none ∷ xs) = none ∷ xs
  modify zero f (some x ∷ xs) = some (f x) ∷ xs
  modify (suc i) f (x ∷ xs) = x ∷ modify i f xs

  abbrev written : ℕ → (A → A) → List (Option A) → Option (Option A) → List (Option A)
  written i f xs (some (some x)) = set xs i (some (f x))
  written i f xs _ = xs

  modify-written :
      (i : ℕ) (f : A → A) (xs : List (Option A)) (e : Option (Option A))
      → get_elem? xs i ≡ e
      → written i f xs e ≡ modify i f xs
  modify-written i f [] none h = refl
  modify-written i f [] (some none) h = refl
  modify-written i f [] (some (some y)) h = refl
  modify-written zero f (none ∷ xs) none h = refl
  modify-written zero f (none ∷ xs) (some none) h = refl
  modify-written zero f (none ∷ xs) (some (some y)) h = cc
  modify-written zero f (some x ∷ xs) none h = cc
  modify-written zero f (some x ∷ xs) (some none) h = cc
  modify-written zero f (some x ∷ xs) (some (some y)) h =
      ap (λ z. some (f z) ∷ xs) (sym (some-injective _ _ (some-injective _ _ h)))
  modify-written (suc i) f (x ∷ xs) none h = ap (λ l. x ∷ l) (modify-written i f xs none h)
  modify-written (suc i) f (x ∷ xs) (some none) h =
      ap (λ l. x ∷ l) (modify-written i f xs (some none) h)
  modify-written (suc i) f (x ∷ xs) (some (some y)) h =
      ap (λ l. x ∷ l) (modify-written i f xs (some (some y)) h)

  modify-modify :
      (i : ℕ) (f g h : A → A) (xs : List (Option A))
      → ((x : A) → g (f x) ≡ h x)
      → modify i g (modify i f xs) ≡ modify i h xs
  modify-modify i f g h [] e = refl
  modify-modify zero f g h (none ∷ xs) e = refl
  modify-modify zero f g h (some x ∷ xs) e = ap (λ y. some y ∷ xs) (e x)
  modify-modify (suc i) f g h (x ∷ xs) e = ap (λ l. x ∷ l) (modify-modify i f g h xs e)

  modify-same :
      (i : ℕ) (f g : A → A) (xs : List (Option A))
      → ((x : A) → f x ≡ g x)
      → modify i f xs ≡ modify i g xs
  modify-same i f g [] e = refl
  modify-same zero f g (none ∷ xs) e = refl
  modify-same zero f g (some x ∷ xs) e = ap (λ y. some y ∷ xs) (e x)
  modify-same (suc i) f g (x ∷ xs) e = ap (λ l. x ∷ l) (modify-same i f g xs e)

module _ (J : Json) where
  open J use {Value}

  -- What a piece of input does to a block, without regard to the stream.
  abbrev pub append_input : String → Block Value → Block Value
  append_input chunk (tool_use id name json) = tool_use id name (json <> chunk)
  append_input chunk block = block

  abbrev input_delta : String → Value
  input_delta chunk =
      J.object (("type", J.string "input_json_delta") ∷ ("partial_json", J.string chunk) ∷ [])

  abbrev input_fields : ℕ → String → List (String × Value)
  input_fields i chunk =
      ("type", J.string "content_block_delta")
      ∷ ("index", J.number i)
      ∷ ("delta", input_delta chunk)
      ∷ []

  -- The event of a piece of the input of the block at an index.
  abbrev pub input_event : ℕ → String → Value
  input_event i chunk = J.object (input_fields i chunk)

  -- The accumulator behind some events.
  abbrev pub feed : List Value → StreamAccumulator Value → StreamAccumulator Value
  feed [] a = a
  feed (e ∷ es) a = feed es (push J e a).0

  abbrev pub joined : List String → String
  joined [] = ""
  joined (c ∷ cs) = c <> joined cs

  module _ (L : IsLawful J) where
    delta_step-input :
        (chunk : String) (b : Block Value)
        → (delta_step J input_json_delta (input_delta chunk) b).0 ≡ append_input chunk b
    unfolding delta_step ◌==◌
    delta_step-input chunk (tool_use id name json) =
        rw
          (get_str-object J L
            (("type", J.string "input_json_delta") ∷ ("partial_json", J.string chunk) ∷ [])
            "partial_json" refl)
          refl
    delta_step-input chunk (Block.text t) = refl
    delta_step-input chunk (thinking t signature) = refl
    delta_step-input chunk (passthrough v) = refl

    -- The piece reaches the block at its index, if there is one, and nothing else.
    delta_at-input :
        (i : ℕ) (chunk : String) (a : StreamAccumulator Value) (e : Option (Option (Block Value)))
        → get_elem? a.blocks i ≡ e
        → (delta_at J i (input_delta chunk) e a).0
          ≡ record a { blocks = written i (append_input chunk) a.blocks e }
    unfolding delta_at delta_kind ◌==◌
    delta_at-input i chunk a none h = refl
    delta_at-input i chunk a (some none) h = refl
    delta_at-input i chunk a (some (some b)) h =
        rw
          (get_str-object J L
            (("type", J.string "input_json_delta") ∷ ("partial_json", J.string chunk) ∷ []) "type"
            refl)
          (ap (λ c. record a { blocks = set a.blocks i (some c) }) (delta_step-input chunk b))

    index_of-input : (i : ℕ) (chunk : String) → index_of J (input_event i chunk) ≡ i
    unfolding ◌==◌ index_of
    index_of-input i chunk =
        rw (index_of, L.get-object (input_fields i chunk) "index", L.as_u64-number i) refl

    on_block_delta-input :
        (i : ℕ) (chunk : String) (a : StreamAccumulator Value)
        → on_block_delta J (input_event i chunk) a
          ≡ delta_at J i (input_delta chunk) (get_elem? a.blocks i) a
    unfolding on_block_delta ◌==◌
    on_block_delta-input i chunk a =
        rw (index_of-input i chunk, L.get-object (input_fields i chunk) "delta") refl

    push-block_delta :
        (i : ℕ) (chunk : String) (a : StreamAccumulator Value)
        → push J (input_event i chunk) a ≡ on_block_delta J (input_event i chunk) a
    unfolding push dispatch event_kind ◌==◌
    push-block_delta i chunk a = rw (get_str-object J L (input_fields i chunk) "type" refl) refl

    push-input :
        (i : ℕ) (chunk : String) (a : StreamAccumulator Value)
        → (push J (input_event i chunk) a).0
          ≡ record a { blocks = modify i (append_input chunk) a.blocks }
    push-input i chunk a =
        ap (λ p. p.0) (push-block_delta i chunk a ∙ on_block_delta-input i chunk a)
        ∙ (delta_at-input i chunk a _ refl
            ∙ ap (λ l. record a { blocks = l })
                (modify-written i (append_input chunk) a.blocks _ refl))

    append_input-twice :
        (c d : String) (b : Block Value)
        → append_input d (append_input c b) ≡ append_input (c <> d) b
    append_input-twice c d (tool_use id name json) = ap (tool_use id name) (text_assoc json c d)
    append_input-twice c d (Block.text t) = refl
    append_input-twice c d (thinking t signature) = refl
    append_input-twice c d (passthrough v) = refl

    -- Two pieces do what their concatenation does.
    push_two-input :
        (i : ℕ) (c d : String) (a : StreamAccumulator Value)
        → (push J (input_event i d) (push J (input_event i c) a).0).0
          ≡ (push J (input_event i (c <> d)) a).0
    push_two-input i c d a =
        ap (λ q. (push J (input_event i d) q).0) (push-input i c a)
        ∙ (push-input i d (record a { blocks = modify i (append_input c) a.blocks })
            ∙ (ap (λ l. record a { blocks = l })
                  (modify-modify i (append_input c) (append_input d) (append_input (c <> d))
                    a.blocks (append_input-twice c d))
                ∙ sym (push-input i (c <> d) a)))

    -- However the input of a tool call is cut into pieces, the accumulator behind their events is
    -- what it is when the input comes whole.
    pub input_chunks_join :
        (i : ℕ) (chunk : String) (chunks : List String) (a : StreamAccumulator Value)
        → feed (map (input_event i) (chunk ∷ chunks)) a
          ≡ (push J (input_event i (joined (chunk ∷ chunks))) a).0
    input_chunks_join i chunk [] a = rw append-nil refl
    input_chunks_join i chunk (c ∷ cs) a =
        ap (feed (map (input_event i) cs)) (push_two-input i chunk c a)
        ∙ (input_chunks_join i (chunk <> c) cs a
            ∙ ap (λ t. (push J (input_event i t) a).0) (text_assoc chunk c (joined cs)))
