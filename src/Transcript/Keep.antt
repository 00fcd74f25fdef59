-- ===== src/Transcript/Keep.antt =====
-- What keeps a transcript valid: another valid piece behind it, a cut at a typed message, and the
-- turns that the agent builds (crates/mc-core/src/session.rs).
use mobile_coder.Prelude.{
  ℕ, zero, suc, ◌≡◌, refl, sym, subst, ap, ◌∙◌, inl, inr, Bool-cases, String, Bool, true, false,
  not, Option, none, some, List, [], ◌∷◌, ◌++◌, All, All-append, drop, ◌==◌, ==_iff,
}
use mobile_coder.Json.{Json, IsLawful, get_str, blocks_of, get_str-object, blocks_of-array}
use mobile_coder.Session.{
  Turn, is_typed, is_text_type, user_text, assistant, tool_results, is_prompt,
}
use mobile_coder.Wire.{has_type, is_some_text}
use mobile_coder.Transcript.{
  ids_in, request_ids, result_ids, Answers, IsShaped, IsPiece, IsValid, Asks, ends_asked,
  is_assistant,
}

result_is_no_text :
    (kind : Option String) → is_some_text "tool_result" kind ≡ true → is_text_type kind ≡ false
unfolding ◌==◌
result_is_no_text none h = refl
result_is_no_text (some kind) h = rw ((==_iff kind "tool_result").0 h) refl

module _ (J : Json) where
  open J use {Value}

  Answers-append :
      (due : List String) (xs ys : List (Turn Value))
      → Answers J due xs
      → Answers J [] ys
      → Answers J due (xs ++ ys)
  Answers-append due [] ys h k = subst (λ d. Answers J d ys) (sym h) k
  Answers-append due (x ∷ xs) ys (same, h) k = (same, Answers-append (request_ids J x) xs ys h k)

  Asks-append :
      (asked : Bool) (xs ys : List (Turn Value))
      → Asks J asked xs
      → Asks J (ends_asked J asked xs) ys
      → Asks J asked (xs ++ ys)
  Asks-append asked [] ys h k = k
  Asks-append asked (x ∷ xs) ys (p, h) k = (p, Asks-append (not (is_assistant J x)) xs ys h k)

  pub ends_asked-append :
      (asked : Bool) (xs ys : List (Turn Value))
      → ends_asked J asked (xs ++ ys) ≡ ends_asked J (ends_asked J asked xs) ys
  ends_asked-append asked [] ys = refl
  ends_asked-append asked (x ∷ xs) ys = ends_asked-append (not (is_assistant J x)) xs ys

  pub IsPiece-append :
      (asked : Bool) (xs ys : List (Turn Value))
      → IsPiece J asked xs
      → IsPiece J (ends_asked J asked xs) ys
      → IsPiece J asked (xs ++ ys)
  IsPiece-append asked xs ys h k = record {
    answered = Answers-append [] xs ys h.answered k.answered;
    shaped = All-append (IsShaped J) xs ys h.shaped k.shaped;
    asked = Asks-append asked xs ys h.asked k.asked;
  }

  All-drop : (n : ℕ) (ts : List (Turn Value)) → All (IsShaped J) ts → All (IsShaped J) (drop n ts)
  All-drop zero ts h = h
  All-drop (suc n) [] h = tt
  All-drop (suc n) (t ∷ ts) (p, h) = All-drop n ts h

  -- At a typed turn nothing is due.
  Answers-drop :
      (due : List String) (i : ℕ) (ts : List (Turn Value))
      → All (IsShaped J) ts
      → is_prompt J ts i ≡ true
      → Answers J due ts
      → Answers J [] (drop i ts)
  unfolding is_prompt
  Answers-drop due i [] s h k = cc
  Answers-drop due zero (t ∷ ts) (p, s) h (same, k) = (p h, k)
  Answers-drop due (suc i) (t ∷ ts) (p, s) h (same, k) = Answers-drop (request_ids J t) i ts s h k

  typed-is_assistant : (t : Turn Value) → is_typed J t ≡ true → is_assistant J t ≡ false
  unfolding is_typed
  typed-is_assistant t h = elim (Bool-cases (t.role == "user")) [
    | inl e ↦ ap (λ r. r == "assistant") ((==_iff t.role "user").0 e) ∙ unfold ◌==◌ in refl
    | inr e ↦ cc
  ]

  Asks-drop :
      (asked : Bool) (i : ℕ) (ts : List (Turn Value))
      → is_prompt J ts i ≡ true
      → Asks J asked ts
      → Asks J false (drop i ts)
  unfolding is_prompt
  Asks-drop asked i [] h k = cc
  Asks-drop asked zero (t ∷ ts) h (p, k) = ((λ e. cc (typed-is_assistant t h)), k)
  Asks-drop asked (suc i) (t ∷ ts) h (p, k) = Asks-drop (not (is_assistant J t)) i ts h k

  -- A cut at a typed message leaves the last turn.
  pub ends_asked-drop :
      (asked : Bool) (i : ℕ) (ts : List (Turn Value))
      → is_prompt J ts i ≡ true
      → ends_asked J false (drop i ts) ≡ ends_asked J asked ts
  unfolding is_prompt
  ends_asked-drop asked i [] h = cc
  ends_asked-drop asked zero (t ∷ ts) h = refl
  ends_asked-drop asked (suc i) (t ∷ ts) h = ends_asked-drop (not (is_assistant J t)) i ts h

  -- A cut at a typed message leaves a valid transcript.
  pub IsValid-drop :
      (i : ℕ) (ts : List (Turn Value))
      → is_prompt J ts i ≡ true
      → IsValid J ts
      → IsValid J (drop i ts)
  IsValid-drop i ts h v = record {
    answered = Answers-drop [] i ts v.shaped h v.answered;
    shaped = All-drop i ts v.shaped;
    asked = Asks-drop false i ts h v.asked;
  }

  module _ (L : IsLawful J) where
    pub user_text-result_ids : (text : String) → result_ids J (user_text J text) ≡ []
    unfolding user_text result_ids ids_in has_type ◌==◌
    user_text-result_ids text = rw (
      blocks_of-array J L,
      get_str-object J L (("type", J.string "text") ∷ ("text", J.string text) ∷ []) "type" refl,
    )

    pub user_text-IsPiece : (asked : Bool) (text : String) → IsPiece J asked (user_text J text ∷ [])
    unfolding user_text request_ids ◌==◌
    user_text-IsPiece asked text = record {
      answered = (user_text-result_ids text, refl);
      shaped = ((λ _. user_text-result_ids text), tt);
      asked = ((λ e. cc), tt);
    }

    tool_results-is_typed :
        (results : List Value)
        → All (λ r. has_type J "tool_result" r ≡ true) results
        → is_typed J (tool_results J results) ≡ false
    unfolding tool_results is_typed has_type ◌==◌
    tool_results-is_typed [] h = rw L.as_array-array
    tool_results-is_typed (r ∷ rs) (h, hs) =
        rw L.as_array-array (result_is_no_text (get_str J r "type") h)

    -- An assistant turn whose calls are all answered by one turn of results.
    pub exchange-IsPiece :
        (content : Value) (results : List Value)
        → ids_in J "tool_result" "tool_use_id" results
          ≡ ids_in J "tool_use" "id" (blocks_of J content)
        → All (λ r. has_type J "tool_result" r ≡ true) results
        → IsPiece J true (assistant J content ∷ tool_results J results ∷ [])
    unfolding assistant tool_results request_ids result_ids is_typed ◌==◌
    exchange-IsPiece content results h k = record {
      answered = (refl, (rw (blocks_of-array J L) h, refl));
      shaped = (λ _. refl, ((λ e. cc (tool_results-is_typed results k)), tt));
      asked = ((λ e. refl), ((λ e. cc), tt));
    }

    -- An assistant turn without calls.
    pub assistant-IsPiece :
        (content : Value)
        → ids_in J "tool_use" "id" (blocks_of J content) ≡ []
        → IsPiece J true (assistant J content ∷ [])
    unfolding assistant request_ids result_ids ◌==◌
    assistant-IsPiece content h = record {
      answered = (refl, h);
      shaped = ((λ _. refl), tt);
      asked = ((λ e. refl), tt);
    }
