-- ===== src/Device/Awake.antt =====
-- The flag of the device, its summary of the work and the chat on the screen agree.
use Prim.Native.String as Texts
use Prim.Native.String.append as appending
use mobile_coder.Prelude.{
  ℕ, String, ◌<>◌, Bool, true, false, not, ◌&&◌, List, [], ◌∷◌, map, ◌≡◌, refl, sym, ap, ◌∙◌, subst,
  eqb, inl, inr, Bool-cases,
}
use mobile_coder.Prelude.Text.{show, join, is_empty}
use mobile_coder.Json.{Json}
use mobile_coder.Event.{Event, turn_started, session_opened, turn_ended}
use mobile_coder.Event.Protocol.{busy_after}
use mobile_coder.Chat.{ChatLog, apply_all}
use mobile_coder.Chat.Tools.{apply_all-busy}
use mobile_coder.Device.{Mirror, received, mirror, mirror_all, job_parts, work_summary}

is_empty-front : (s t : String) → is_empty s ≡ false → is_empty (s <> t) ≡ false
is_empty-front Texts.[] t h = cc
is_empty-front (Texts.◌∷◌ c s) t h = ap is_empty (appending.cons c s t)

is_empty-join :
    (s : String) (ts : List String) → is_empty s ≡ false → is_empty (join " · " (s ∷ ts)) ≡ false
unfolding join
is_empty-join s [] h = h
is_empty-join s (t ∷ ts) h = is_empty-front s (" · " <> join " · " (t ∷ ts)) h

is_empty-behind : (s : String) → is_empty (s <> " background jobs") ≡ false
is_empty-behind Texts.[] = ap is_empty (appending.nil " background jobs")
is_empty-behind (Texts.◌∷◌ c s) = ap is_empty (appending.cons c s " background jobs")

work_summary-is_empty :
    (jobs : ℕ) (turn : Bool) → is_empty (work_summary jobs turn) ≡ (not turn && eqb jobs 0)
unfolding work_summary join
work_summary-is_empty jobs true = is_empty-join "Working on a turn" (job_parts jobs) refl
work_summary-is_empty jobs false = elim (Bool-cases (eqb jobs 0)) [
  | inl none ↦ rw none refl
  | inr some_jobs ↦ elim (Bool-cases (eqb jobs 1)) [
    | inl one ↦ rw some_jobs (rw one refl)
    | inr many ↦ rw some_jobs (rw many (is_empty-behind (show jobs)))
  ]
]

-- A chat is opened only where no turn runs.
abbrev pub IsOpenedIdle : {V : Type 0} → Bool → List (Event V) → Type 0
IsOpenedIdle busy [] = Unit
IsOpenedIdle busy (session_opened s ∷ es) = (busy ≡ false) × IsOpenedIdle false es
IsOpenedIdle busy (turn_started s p ∷ es) = IsOpenedIdle true es
IsOpenedIdle busy (turn_ended s r ∷ es) = IsOpenedIdle false es
IsOpenedIdle busy (Event.failed s m ∷ es) = IsOpenedIdle false es
IsOpenedIdle busy (e ∷ es) = IsOpenedIdle busy es

module _ (J : Json) where
  open J use {Value}

  mirror_all-busy :
      (es : List (Event Value)) (m : Mirror)
      → IsOpenedIdle m.busy es
      → (mirror_all J (map received es) m).1.busy ≡ busy_after m.busy es
  unfolding mirror mirror_all
  mirror_all-busy [] m h = refl
  mirror_all-busy (session_opened s ∷ es) m (idle, h) =
      mirror_all-busy es m (subst (λ b. IsOpenedIdle b es) (sym idle) h)
      ∙ ap (λ b. busy_after b es) idle
  mirror_all-busy (e ∷ es) m h = mirror_all-busy es (mirror J e m).1 h

  -- Where the flag of the device and the chat log agree on whether a turn runs, no receiver lags,
  -- the log is written by the collector of events alone, not by the task that restores chats, and a
  -- chat is opened only while none runs, they agree behind any events that both have taken, and the
  -- summary of the work is empty exactly where no turn runs in that log and no job is counted.
  pub work_is_told :
      (log : ChatLog) (m : Mirror) (es : List (Event Value)) (jobs : ℕ)
      → m.busy ≡ log.busy
      → IsOpenedIdle m.busy es
      → ((mirror_all J (map received es) m).1.busy ≡ (apply_all J log es).busy)
        × (is_empty (work_summary jobs (mirror_all J (map received es) m).1.busy)
            ≡ (not (apply_all J log es).busy && eqb jobs 0))
  work_is_told log m es jobs e h =
      let same : (mirror_all J (map received es) m).1.busy ≡ (apply_all J log es).busy =
        mirror_all-busy es m h ∙ ap (λ b. busy_after b es) e ∙ sym (apply_all-busy J log es) in
      (same, work_summary-is_empty jobs _ ∙ ap (λ b. not b && eqb jobs 0) same)
