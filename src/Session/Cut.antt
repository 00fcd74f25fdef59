-- ===== src/Session/Cut.antt =====
-- Compaction of a session (crates/mc-core/src/session.rs): where the cut falls and what it leaves.
use mobile_coder.Prelude.{
  ℕ, zero, suc, ◌+◌, ◌-◌, ◌≤◌, ◌<◌, min, ◌≡◌, refl, String, true, false, inl, inr, Option, none,
  some, List, ◌++◌, length, arith, Bool-cases, length-drop, take, take-append-drop, sym, subst,
  lt→ltb, not_lt→ltb,
}
use native.Mathlib.Decide.{dec_le, dec_lt}
use mobile_coder.Json.{Json}
use mobile_coder.Session.{Turn, Session, is_prompt, last_prompt, compaction_cut, compact}

module _ (J : Json) where
  open J use {Value}

  -- The last prompt up to a turn, the first turn of all left out.
  abbrev IsLastPrompt : List (Turn Value) → ℕ → Option ℕ → Type 0
  IsLastPrompt ts latest none = (j : ℕ) → 0 < j → j ≤ latest → is_prompt J ts j ≡ false
  IsLastPrompt ts latest (some i) =
      (0 < i)
      × (i ≤ latest)
      × (is_prompt J ts i ≡ true)
      × ((j : ℕ) → i < j → j ≤ latest → is_prompt J ts j ≡ false)

  not_at_next :
      (ts : List (Turn Value)) (n j : ℕ)
      → is_prompt J ts (suc n) ≡ false
      → j ≤ suc n
      → (j ≤ n → is_prompt J ts j ≡ false)
      → is_prompt J ts j ≡ false
  not_at_next ts n j last le below = elim (dec_le j n) [
    | yes p ↦ below p
    | no p ↦ let e : j ≡ suc n = omega arith in subst (λ k. is_prompt J ts k ≡ false) (sym e) last
  ]

  IsLastPrompt-suc :
      (ts : List (Turn Value)) (n : ℕ) (r : Option ℕ)
      → is_prompt J ts (suc n) ≡ false
      → IsLastPrompt ts n r
      → IsLastPrompt ts (suc n) r
  IsLastPrompt-suc ts n none last h =
      λ j pos le. not_at_next ts n j last le (λ below. h j pos below)
  IsLastPrompt-suc ts n (some i) last (pos, le, prompt, later) = (
    pos,
    omega arith,
    prompt,
    λ j above le'. not_at_next ts n j last le' (λ below. later j above below),
  )

  last_prompt-IsLastPrompt :
      (ts : List (Turn Value)) (latest : ℕ) → IsLastPrompt ts latest (last_prompt J ts latest)
  unfolding last_prompt
  last_prompt-IsLastPrompt ts zero = λ j pos le. absurd (omega arith)
  last_prompt-IsLastPrompt ts (suc n) = elim (Bool-cases (is_prompt J ts (suc n))) [
    | inl e ↦ rw e (omega arith, omega arith, e, λ j above le. absurd (omega arith))
    | inr e ↦ rw e (IsLastPrompt-suc ts n (last_prompt J ts n) e (last_prompt-IsLastPrompt ts n))
  ]

  -- Where a session may be cut so that `keep_recent` turns stay: at the last message behind the
  -- first that the user typed, or nowhere.
  abbrev pub IsBestCut : List (Turn Value) → ℕ → Option ℕ → Type 0
  IsBestCut ts keep_recent none =
      (j : ℕ) → 0 < j → j + keep_recent ≤ length ts → is_prompt J ts j ≡ false
  IsBestCut ts keep_recent (some i) =
      (0 < i)
      × (i + keep_recent ≤ length ts)
      × (is_prompt J ts i ≡ true)
      × ((j : ℕ) → i < j → j + keep_recent ≤ length ts → is_prompt J ts j ≡ false)

  best_of_last :
      (ts : List (Turn Value)) (k : ℕ) (r : Option ℕ)
      → k ≤ length ts
      → IsLastPrompt ts (length ts - k) r
      → IsBestCut ts k r
  best_of_last ts k none fits h = λ j pos le. h j pos (omega arith)
  best_of_last ts k (some i) fits (pos, le, prompt, later) =
      (pos, omega arith, prompt, λ j above le'. later j above (omega arith))

  -- The cut of a session keeps at least the turns asked for, drops at least one, lies at a typed
  -- message and is the last such place; there is no cut exactly where there is no such place.
  pub compaction_cut-IsBestCut :
      (s : Session Value) (keep_recent : ℕ)
      → IsBestCut s.transcript keep_recent (compaction_cut J s keep_recent)
  unfolding compaction_cut
  compaction_cut-IsBestCut s k = elim (dec_lt (length s.transcript) k) [
    | yes p ↦ rw (lt→ltb _ _ p) (λ j pos le. absurd (omega arith))
    | no p ↦ rw (not_lt→ltb _ _ p) (
        best_of_last s.transcript k (last_prompt J s.transcript (length s.transcript - k))
          (omega arith) (last_prompt-IsLastPrompt s.transcript (length s.transcript - k)))
  ]

  -- A compaction at the cut of a session reports and drops exactly the turns before it, at least
  -- one, keeps the rest unchanged and at least the turns asked for, and stores the summary.
  pub compact_at_cut :
      (s : Session Value) (keep_recent : ℕ) (summary : String) {cut : ℕ}
      → compaction_cut J s keep_recent ≡ some cut
      → ((compact J cut summary s).1 ≡ cut)
        × (0 < cut)
        × (keep_recent ≤ length (compact J cut summary s).0.transcript)
        × (s.transcript ≡ take cut s.transcript ++ (compact J cut summary s).0.transcript)
        × ((compact J cut summary s).0.summary ≡ some summary)
  unfolding compact
  compact_at_cut s k summary {cut} e =
      let best : IsBestCut s.transcript k (some cut) =
        subst (IsBestCut s.transcript k) e (compaction_cut-IsBestCut s k) in
      let within : min cut (length s.transcript) ≡ cut = omega (arith, best.1) in
      rw within (
        refl,
        best.0,
        omega (arith, best.1, length-drop cut s.transcript),
        sym (take-append-drop cut s.transcript),
        refl,
      )
