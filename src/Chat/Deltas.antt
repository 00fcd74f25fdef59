-- ===== src/Chat/Deltas.antt =====
-- Streamed deltas in `ChatLog::apply`, and what a retry throws away (crates/mc-core/src/chat.rs).
use text.Mathlib.TextLemmas.{append-nil, append_assoc as text_assoc}
use mobile_coder.Prelude.{
  ℕ, ◌≡◌, refl, ap, ◌∙◌, String, ◌<>◌, true, false, inl, inr, some, List, [], ◌∷◌, ◌++◌, map, All,
  get_last?, arith, Bool-cases,
}
use mobile_coder.Prelude.Text.{show}
use mobile_coder.Json.{Json}
use mobile_coder.Session.{SessionId}
use mobile_coder.Event.{Event, text_delta, thinking_delta, stream_retrying}
use mobile_coder.Chat.{
  ChatItem, user, assistant, thinking, tool, error, notice, ChatLog, extend_text, extend_thinking,
  is_streamed, keep_last, pop_streamed, apply, apply_all,
}

extend_text-cons :
    (t : String) (y : ChatItem) (ys : List ChatItem)
    → (z : ChatItem) × (zs : List ChatItem) × (extend_text t (y ∷ ys) ≡ z ∷ zs)
unfolding extend_text
extend_text-cons t y (z ∷ zs) = (y, extend_text t (z ∷ zs), refl)
extend_text-cons t (assistant b) [] = (assistant (b <> t), [], refl)
extend_text-cons t (user b) [] = (user b, assistant t ∷ [], refl)
extend_text-cons t (thinking b) [] = (thinking b, assistant t ∷ [], refl)
extend_text-cons t (tool i n s st) [] = (tool i n s st, assistant t ∷ [], refl)
extend_text-cons t (error b) [] = (error b, assistant t ∷ [], refl)
extend_text-cons t (notice b) [] = (notice b, assistant t ∷ [], refl)

extend_text-behind :
    (t : String) (x : ChatItem) {l : List ChatItem} {z : ChatItem} {zs : List ChatItem}
    → l ≡ z ∷ zs
    → extend_text t (x ∷ l) ≡ x ∷ extend_text t l
unfolding extend_text
extend_text-behind t x e = rw e

-- Two deltas in a row are one delta with both texts.
extend_text-extend_text :
    (a b : String) (items : List ChatItem)
    → extend_text b (extend_text a items) ≡ extend_text (a <> b) items
unfolding extend_text
extend_text-extend_text a b [] = refl
extend_text-extend_text a b (assistant t ∷ []) = rw text_assoc
extend_text-extend_text a b (_ ∷ []) = refl
extend_text-extend_text a b (x ∷ y ∷ ys) =
    extend_text-behind b x (extend_text-cons a y ys).2
    ∙ ap (λ l. x ∷ l) (extend_text-extend_text a b (y ∷ ys))

pop_streamed-extend_text :
    (t : String) (items : List ChatItem) → pop_streamed (extend_text t items) ≡ pop_streamed items
unfolding extend_text pop_streamed
pop_streamed-extend_text t [] = refl
pop_streamed-extend_text t (assistant b ∷ []) = refl
pop_streamed-extend_text t (_ ∷ []) = refl
pop_streamed-extend_text t (x ∷ y ∷ ys) = ap (keep_last x) (pop_streamed-extend_text t (y ∷ ys))

pop_streamed-extend_thinking :
    (t : String) (items : List ChatItem)
    → pop_streamed (extend_thinking t items) ≡ pop_streamed items
unfolding extend_thinking pop_streamed
pop_streamed-extend_thinking t [] = refl
pop_streamed-extend_thinking t (thinking b ∷ []) = refl
pop_streamed-extend_thinking t (_ ∷ []) = refl
pop_streamed-extend_thinking t (x ∷ y ∷ ys) =
    ap (keep_last x) (pop_streamed-extend_thinking t (y ∷ ys))

-- `items` without its last streamed items, and those.
pop_streamed-parts :
    (items : List ChatItem)
    → (cut : List ChatItem) × (items ≡ pop_streamed items ++ cut)
      × All (λ i. is_streamed i ≡ true) cut
unfolding pop_streamed
pop_streamed-parts [] = ([], refl, tt)
pop_streamed-parts (x ∷ xs) = put_back x xs (pop_streamed xs) (pop_streamed-parts xs)
  where
    put_back :
        (x : ChatItem) (xs kept : List ChatItem)
        → ((cut : List ChatItem) × (xs ≡ kept ++ cut) × All (λ i. is_streamed i ≡ true) cut)
        → (cut : List ChatItem) × (x ∷ xs ≡ keep_last x kept ++ cut)
          × All (λ i. is_streamed i ≡ true) cut
    put_back x xs (y ∷ ys) (cut, e, streamed) = (cut, ap (λ l. x ∷ l) e, streamed)
    put_back x xs [] (cut, e, streamed) = elim (Bool-cases (is_streamed x)) [
      | inl s ↦ (x ∷ cut, rw s (ap (λ l. x ∷ l) e), (s, streamed))
      | inr k ↦ (cut, rw k (ap (λ l. x ∷ l) e), streamed)
    ]

-- What is left does not end in a streamed item.
pop_streamed-settled :
    (items : List ChatItem) (x : ChatItem)
    → get_last? (pop_streamed items) ≡ some x
    → is_streamed x ≡ false
unfolding pop_streamed
pop_streamed-settled [] x h = cc
pop_streamed-settled (y ∷ ys) x h = settled y (pop_streamed ys) (pop_streamed-settled ys) h
  where
    settled :
        (y : ChatItem) (kept : List ChatItem)
        → ((x : ChatItem) → get_last? kept ≡ some x → is_streamed x ≡ false)
        → get_last? (keep_last y kept) ≡ some x
        → is_streamed x ≡ false
    settled y [] ih h = ground arith
    settled y (z ∷ zs) ih h = ih x h

module _ (J : Json) where
  open J use {Value}

  abbrev pub IsDelta : Event Value → Type 0
  IsDelta (text_delta s t) = Unit
  IsDelta (thinking_delta s t) = Unit
  IsDelta _ = ⊥

  pop_streamed-apply :
      (log : ChatLog) (e : Event Value) (session : SessionId) (attempt : ℕ) (reason : String)
      → IsDelta e
      → apply J (apply J log e) (stream_retrying session attempt reason)
        ≡ apply J log (stream_retrying session attempt reason)
  unfolding apply
  pop_streamed-apply log (text_delta s t) session attempt reason d =
      rw (pop_streamed-extend_text t log.items)
  pop_streamed-apply log (thinking_delta s t) session attempt reason d =
      rw (pop_streamed-extend_thinking t log.items)
  pop_streamed-apply log _ session attempt reason d = absurd d

  -- However many deltas of text and thinking an attempt streamed, after the event of its retry the
  -- log is what it would be without them.
  pub retry_discards_attempt :
      (log : ChatLog) (attempt_deltas : List (Event Value)) (session : SessionId) (attempt : ℕ)
      (reason : String)
      → All IsDelta attempt_deltas
      → apply J (apply_all J log attempt_deltas) (stream_retrying session attempt reason)
        ≡ apply J log (stream_retrying session attempt reason)
  unfolding apply_all
  retry_discards_attempt log [] session attempt reason h = refl
  retry_discards_attempt log (e ∷ es) session attempt reason (d, h) =
      retry_discards_attempt (apply J log e) es session attempt reason h
      ∙ pop_streamed-apply log e session attempt reason d

  -- The event of a retry removes exactly the streamed items at the end of the log and adds one
  -- notice: what it keeps does not end in a streamed item and all that it drops was streamed.
  pub retry_removes_streamed_tail :
      (log : ChatLog) (session : SessionId) (attempt : ℕ) (reason : String)
      → (kept dropped : List ChatItem) × (log.items ≡ kept ++ dropped)
        × All (λ i. is_streamed i ≡ true) dropped
        × ((x : ChatItem) → get_last? kept ≡ some x → is_streamed x ≡ false)
        × ((apply J log (stream_retrying session attempt reason)).items
            ≡ kept
              ++ notice (
                  "Connection interrupted ("
                  <> reason
                  <> "). Retrying, attempt "
                  <> show attempt
                  <> ".")
                ∷ [])
  unfolding apply
  retry_removes_streamed_tail log session attempt reason =
      let (cut, e, streamed) = pop_streamed-parts log.items in
      (pop_streamed log.items, cut, e, streamed, pop_streamed-settled log.items, refl)

  abbrev pub concat : List String → String
  concat [] = ""
  concat (c ∷ cs) = c <> concat cs

  text_deltas_join :
      (log : ChatLog) (session : SessionId) (a : String) (chunks : List String)
      → apply_all J
          (record log { items = extend_text a log.items })
          (map (text_delta session) chunks)
        ≡ record log { items = extend_text (a <> concat chunks) log.items }
  unfolding apply apply_all
  text_deltas_join log session a [] = rw append-nil
  text_deltas_join log session a (c ∷ cs) =
      ap (λ l. apply_all J (record log { items = l }) (map (text_delta session) cs))
        (extend_text-extend_text a c log.items)
      ∙ (text_deltas_join log session (a <> c) cs
          ∙ ap (λ t. record log { items = extend_text t log.items }) (text_assoc a c (concat cs)))

  -- However a text is cut into deltas, the log is as if it had come in one.
  pub text_chunks_join :
      (log : ChatLog) (session : SessionId) (chunk : String) (chunks : List String)
      → apply_all J log (map (text_delta session) (chunk ∷ chunks))
        ≡ apply J log (text_delta session (concat (chunk ∷ chunks)))
  unfolding apply apply_all
  text_chunks_join log session chunk chunks = text_deltas_join log session chunk chunks
