-- ===== src/Agent/Summary/Kept.antt =====
-- Compaction in crates/mc-agent/src/lib.rs keeps a conversation one that can be sent.
use mobile_coder.Prelude.{
  ℕ, ◌≤◌, ◌≡◌, ◌∙◌, String, true, false, List, drop, inl, inr, Option, none, some, arith,
  Bool-cases, leb, min, length,
}
use mobile_coder.Json.{Json}
use mobile_coder.Session.{Session, Turn, compact, is_prompt}
use mobile_coder.Session.Cut.{compaction_cut-IsBestCut, IsBestCut}
use mobile_coder.Transcript.{IsValid, ends_asked}
use mobile_coder.Transcript.Keep.{IsValid-drop, ends_asked-drop}
use mobile_coder.Agent.{Res, ok, err, AgentConfig, Host}
use mobile_coder.Agent.Summary.{compact_with, compact_at, compact_now, compact_if_full, summarize}

module _ (J : Json) (H : Host J) where
  open J use {Value}
  open H use {sandbox}

  abbrev pub HasValid : Session Value → Type 0
  HasValid s = IsValid J s.transcript

  -- A valid transcript behind which an answer of the model may stand.
  abbrev pub HasAsked : Session Value → Type 0
  HasAsked s = HasValid s × (ends_asked J false s.transcript ≡ true)

  module _ (config : AgentConfig) (P : List (Turn Value) → Type 0)
      (K : (i : ℕ) (ts : List (Turn Value)) → is_prompt J ts i ≡ true → P ts → P (drop i ts)) where
    -- Dropping the turns before a typed message keeps a predicate that a cut at one keeps.
    compact-keeps :
        (s : Session Value) (cut : ℕ) (summary : String)
        → cut ≤ length s.transcript
        → is_prompt J s.transcript cut ≡ true
        → P s.transcript
        → P (compact J cut summary s).0.transcript
    unfolding compact
    compact-keeps s cut summary fits typed v =
        let e : min cut (length s.transcript) ≡ cut = omega arith in
        rw e (K cut s.transcript typed v)

    compact_with-keeps :
        (s : Session Value) (cut : ℕ) (r : Res String) (w : sandbox.World)
        → cut ≤ length s.transcript
        → is_prompt J s.transcript cut ≡ true
        → P s.transcript
        → P (compact_with J H config s cut (r, w)).session.transcript
    unfolding compact_with
    compact_with-keeps s cut (err e) w fits typed v = v
    compact_with-keeps s cut (ok summary) w fits typed v = compact-keeps s cut summary fits typed v

    compact_at-keeps :
        (s : Session Value) (w : sandbox.World) (cut : Option ℕ)
        → IsBestCut J s.transcript config.keep_recent_turns cut
        → P s.transcript
        → P (compact_at J H config s w cut).session.transcript
    unfolding compact_at
    compact_at-keeps s w none best v = v
    compact_at-keeps s w (some cut) (pos, fits, typed, last) v =
        let (r, w') = summarize J H config s cut w in
        compact_with-keeps s cut r w' (omega arith) typed v

    compact_now-keeps :
        (s : Session Value) (w : sandbox.World)
        → P s.transcript
        → P (compact_now J H config s w).session.transcript
    unfolding compact_now
    compact_now-keeps s w v =
        compact_at-keeps s w _ (compaction_cut-IsBestCut J s config.keep_recent_turns) v

  module _ (config : AgentConfig) where
    -- A compaction of a valid transcript, whether the summary came or not, leaves a valid one.
    pub compact_now-HasValid :
        (s : Session Value) (w : sandbox.World)
        → HasValid s
        → HasValid (compact_now J H config s w).session
    compact_now-HasValid s w v = compact_now-keeps config (IsValid J) (IsValid-drop J) s w v

    -- The last turn stays.
    pub compact_now-HasAsked :
        (s : Session Value) (w : sandbox.World)
        → HasAsked s
        → HasAsked (compact_now J H config s w).session
    compact_now-HasAsked s w (v, asked) = (
      compact_now-HasValid s w v,
      compact_now-keeps config (λ ts. ends_asked J false ts ≡ true)
          (λ i ts typed h. ends_asked-drop J false i ts typed ∙ h) s w asked,
    )

    pub compact_if_full-HasValid :
        (s : Session Value) (used : Option ℕ) (w : sandbox.World)
        → HasValid s
        → HasValid (compact_if_full J H config s used w).session
    unfolding compact_if_full
    compact_if_full-HasValid s none w v = v
    compact_if_full-HasValid s (some n) w v = elim (Bool-cases (leb config.compact_at_tokens n)) [
      | inl e ↦ rw e (compact_now-HasValid s w v)
      | inr e ↦ rw e v
    ]
