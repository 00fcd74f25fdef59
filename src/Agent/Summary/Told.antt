-- ===== src/Agent/Summary/Told.antt =====
-- What a compaction tells (crates/mc-agent/src/lib.rs): its events neither begin nor end a turn.
use mobile_coder.Prelude.{
  ℕ, ◌≡◌, refl, String, false, inl, inr, Option, none, some, Bool-cases, leb,
}
use mobile_coder.Json.{Json}
use mobile_coder.Session.{Session, compaction_cut}
use mobile_coder.Event.Protocol.{busy_after, Paired}
use mobile_coder.Agent.{Res, ok, err, AgentConfig, Host}
use mobile_coder.Agent.Summary.{compact_with, compact_at, compact_now, compact_if_full, summarize}

module _ (J : Json) (H : Host J) where
  open J use {Value}
  open H use {sandbox}

  module _ (config : AgentConfig) where
    -- The events of a compaction: none, or the notice of it.
    compact_with-events :
        (s : Session Value) (cut : ℕ) (r : Res String) (w : sandbox.World)
        → Paired (compact_with J H config s cut (r, w)).events
          × (busy_after false (compact_with J H config s cut (r, w)).events ≡ false)
    unfolding compact_with
    compact_with-events s cut (err e) w = (tt, refl)
    compact_with-events s cut (ok summary) w = (tt, refl)

    compact_at-events :
        (s : Session Value) (w : sandbox.World) (cut : Option ℕ)
        → Paired (compact_at J H config s w cut).events
          × (busy_after false (compact_at J H config s w cut).events ≡ false)
    unfolding compact_at
    compact_at-events s w none = (tt, refl)
    compact_at-events s w (some cut) =
        let (r, w') = summarize J H config s cut w in compact_with-events s cut r w'

    pub compact_now-events :
        (s : Session Value) (w : sandbox.World)
        → Paired (compact_now J H config s w).events
          × (busy_after false (compact_now J H config s w).events ≡ false)
    unfolding compact_now
    compact_now-events s w = compact_at-events s w (compaction_cut J s config.keep_recent_turns)

    pub compact_if_full-events :
        (s : Session Value) (used : Option ℕ) (w : sandbox.World)
        → Paired (compact_if_full J H config s used w).events
          × (busy_after false (compact_if_full J H config s used w).events ≡ false)
    unfolding compact_if_full
    compact_if_full-events s none w = (tt, refl)
    compact_if_full-events s (some n) w = elim (Bool-cases (leb config.compact_at_tokens n)) [
      | inl e ↦ rw e (compact_now-events s w)
      | inr e ↦ rw e (tt, refl)
    ]
