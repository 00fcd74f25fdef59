-- ===== src/Screen/Synced.antt =====
-- How far the two receivers of the chat are apart, and what an event does to it.
use mobile_coder.Prelude.{
  ℕ, suc, ◌+◌, ◌≤◌, ◌<◌, ◌≡◌, ◌⊎◌, inl, inr, refl, sym, ap, ◌∙◌, Bool, true, false, List, [], ◌∷◌,
  ◌++◌, append_assoc, arith,
}
use mobile_coder.Json.{Json}
use mobile_coder.Session.{SessionId}
use mobile_coder.Event.{Event, session_opened}
use mobile_coder.Chat.{ChatLog, apply}
use mobile_coder.Library.{ChatFile}
use mobile_coder.Screen.{restore, follow_event}

module _ {V : Type 0} where
  abbrev pub is_opening : Event V → Bool
  is_opening (session_opened id) = true
  is_opening _ = false

  -- How many chats are opened in the events.
  abbrev pub openings : List (Event V) → ℕ
  openings [] = 0
  openings (session_opened id ∷ es) = suc (openings es)
  openings (_ ∷ es) = openings es

  abbrev pub starts_open : List (Event V) → Bool
  starts_open [] = false
  starts_open (e ∷ es) = is_opening e

  pub openings-append : (xs ys : List (Event V)) → openings (xs ++ ys) ≡ openings xs + openings ys
  openings-append [] ys = omega arith
  openings-append (session_opened id ∷ xs) ys = omega (arith, openings-append xs ys)
  openings-append (e ∷ xs) ys = openings-append xs ys

module _ (J : Json) (files : List (ChatFile J.Value)) where
  open J use {Value}

  -- What is to be seen: the chat that was opened last, and the events behind it.
  unfoldable pub shown : ChatLog → List (Event Value) → ChatLog
  shown log [] = log
  shown log (session_opened id ∷ es) = shown (restore J files id) es
  shown log (e ∷ es) = shown (apply J log e) es

  -- How far the two receivers are apart.
  pub data Sync (target log : ChatLog) (c f : List (Event Value)) : Type 0 where
    ahead :
        (a : List (Event Value))
        → openings a ≡ 0
        → f ≡ a ++ c
        → shown log c ≡ target
        → Sync target log c f
    behind :
        (a : List (Event Value))
        → openings a ≡ 0
        → c ≡ a ++ f
        → shown log c ≡ target
        → Sync target log c f
    opening :
        (a : List (Event Value)) (id : SessionId)
        → openings a ≡ 0
        → f ≡ a ++ session_opened id ∷ c
        → shown (restore J files id) c ≡ target
        → Sync target log c f

  -- An event that opens no chat.
  record IsPlain (e : Event Value) : Type 0 where
    quiet : (es : List (Event Value)) → openings (e ∷ es) ≡ openings es
    still : (log : ChatLog) → follow_event J files e log ≡ log
    shows :
        (log : ChatLog) (es : List (Event Value)) → shown log (e ∷ es) ≡ shown (apply J log e) es

  view_event : (e : Event Value) → IsPlain e ⊎ ((id : SessionId) × (e ≡ session_opened id))
  unfolding shown follow_event
  view_event (session_opened id) = inr (id, refl)
  view_event e = inl (record { quiet = λ es. refl; still = λ log. refl; shows = λ log es. refl })

  first_of_quiet :
      (x : Event Value) (a : List (Event Value))
      → openings (x ∷ a) ≡ 0
      → IsPlain x × (openings a ≡ 0)
  first_of_quiet x a none = elim (view_event x) [
    | inl p ↦ (p, sym (p.quiet a) ∙ none)
    | inr (id, o) ↦ absurd (opens (ap (λ y. openings (y ∷ a)) o) none)
  ]
    where
      opens : {n m : ℕ} → n ≡ suc m → ¬ (n ≡ 0)
      opens e z = omega arith

  abbrev tail : List (Event Value) → List (Event Value)
  tail [] = []
  tail (e ∷ es) = es

  abbrev head_or : Event Value → List (Event Value) → Event Value
  head_or d [] = d
  head_or d (e ∷ es) = e

  -- The collector takes an event from where the two are.
  collect_ahead :
      (target log : ChatLog) (e : Event Value) (c f a : List (Event Value))
      → openings a ≡ 0
      → f ≡ a ++ e ∷ c
      → shown log (e ∷ c) ≡ target
      → Sync target (apply J log e) c f
  unfolding shown
  collect_ahead target log e c f a none g s = elim (view_event e) [
    | inr (id, o) ↦ Sync.opening a id none (cc (g, o)) (cc (s, o))
    | inl p ↦
        Sync.ahead (a ++ e ∷ []) (ground (arith, openings-append a (e ∷ []), none, p.quiet []))
          (g ∙ sym (append_assoc a (e ∷ []) c)) (sym (p.shows log c) ∙ s)
  ]

  pub collect-Sync :
      (target log : ChatLog) (e : Event Value) (c f : List (Event Value))
      → openings f ≤ openings (e ∷ c)
      → Sync target log (e ∷ c) f
      → Sync target (apply J log e) c f
  collect-Sync target log e c f h (ahead a none g s) = collect_ahead target log e c f a none g s
  collect-Sync target log e c f h (behind [] none g s) =
      collect_ahead target log e c f [] refl (sym g) s
  collect-Sync target log e c f h (behind (x ∷ a) none g s) =
      let (p, rest) = first_of_quiet x a none in
      let same : e ≡ x = ap (head_or e) g in
      Sync.behind a rest (ap tail g) (
        ap (λ y. shown (apply J log y) c) same
        ∙ sym (p.shows log c)
        ∙ sym (ap (λ y. shown log (y ∷ c)) same)
        ∙ s)
  collect-Sync target log e c f h (opening a id none g s) =
      absurd (too_many (ap openings g ∙ openings-append a (session_opened id ∷ e ∷ c)) none h)
    where
      too_many : {n m k : ℕ} → n ≡ k + suc m → k ≡ 0 → ¬ (n ≤ m)
      too_many e z h = omega arith

  follow_level :
      (target log : ChatLog) (e : Event Value) (c f a : List (Event Value))
      → (is_opening e ≡ true → openings c < openings (e ∷ f))
      → openings a ≡ 0
      → c ≡ a ++ e ∷ f
      → shown log c ≡ target
      → Sync target (follow_event J files e log) c f
  follow_level target log e c f a h none g s = elim (view_event e) [
    | inr (id, o) ↦
        absurd (too_few (ap openings g ∙ openings-append a (e ∷ f)) none (h (ap is_opening o)))
    | inl p ↦
        Sync.behind (a ++ e ∷ []) (ground (arith, openings-append a (e ∷ []), none, p.quiet []))
          (g ∙ sym (append_assoc a (e ∷ []) f)) (ap (λ l. shown l c) (p.still log) ∙ s)
  ]
    where
      too_few : {n m k : ℕ} → n ≡ k + m → k ≡ 0 → ¬ (n < m)
      too_few e z h = omega arith

  pub follow-Sync :
      (target log : ChatLog) (e : Event Value) (c f : List (Event Value))
      → (is_opening e ≡ true → openings c < openings (e ∷ f))
      → Sync target log c (e ∷ f)
      → Sync target (follow_event J files e log) c f
  unfolding follow_event
  follow-Sync target log e c f h (ahead [] none g s) =
      follow_level target log e c f [] h refl (sym g) s
  follow-Sync target log e c f h (ahead (x ∷ a) none g s) =
      let (p, rest) = first_of_quiet x a none in
      let same : e ≡ x = ap (head_or e) g in
      let still : follow_event J files e log ≡ log =
        ap (λ y. follow_event J files y log) same ∙ p.still log in
      Sync.ahead a rest (ap tail g) (ap (λ l. shown l c) still ∙ s)
  follow-Sync target log e c f h (behind a none g s) = follow_level target log e c f a h none g s
  follow-Sync target log e c f h (opening [] id none g s) =
      let same : e ≡ session_opened id = ap (head_or e) g in
      Sync.ahead [] refl (ap tail g) (ap (λ y. shown (follow_event J files y log) c) same ∙ s)
  follow-Sync target log e c f h (opening (x ∷ a) id none g s) =
      let (p, rest) = first_of_quiet x a none in Sync.opening a id rest (ap tail g) s
