-- ===== src/Screen/Ordered.antt =====
-- What the two tasks of the chat show, in the orders in which they may take their steps.
use mobile_coder.Prelude.{
  ℕ, suc, ◌+◌, ◌≤◌, ◌<◌, ◌≡◌, refl, sym, ap, ◌∙◌, true, List, [], ◌∷◌, arith,
}
use mobile_coder.Json.{Json}
use mobile_coder.Event.{Event, session_opened}
use mobile_coder.Chat.{ChatLog}
use mobile_coder.Library.{ChatFile}
use mobile_coder.Screen.{
  Step, collects, follows, collector_lags, follower_lags, Tasks, collect, follow, step, run,
}
use mobile_coder.Screen.Synced.{
  openings, starts_open, openings-append, shown, Sync, ahead, behind, opening, collect-Sync,
  follow-Sync,
}

module _ (J : Json) (files : List (ChatFile J.Value)) where
  open J use {Value}

  -- An opening is followed only behind its collection, and nothing is collected between the two. No
  -- receiver lags.
  abbrev pub IsAllowed : Step → Tasks J → Type 0
  IsAllowed collects t = openings t.following ≤ openings t.collecting
  IsAllowed follows t =
      starts_open t.following ≡ true → openings t.collecting < openings t.following
  IsAllowed collector_lags t = ⊥
  IsAllowed follower_lags t = ⊥

  unfoldable pub IsOrdered : List Step → Tasks J → Type 0
  IsOrdered [] t = Unit
  IsOrdered (s ∷ steps) t = IsAllowed s t × IsOrdered steps (step J files s t)

  IsSynced : ChatLog → Tasks J → Type 0
  IsSynced target t = Sync J files target t.log t.collecting t.following

  collected-IsSynced :
      (target log : ChatLog) (c f : List (Event Value))
      → openings f ≤ openings c
      → Sync J files target log c f
      → IsSynced target (collect J c (record { log = log; collecting = c; following = f }))
  unfolding collect IsSynced
  collected-IsSynced target log [] f h y = y
  collected-IsSynced target log (e ∷ c) f h y = collect-Sync J files target log e c f h y

  followed-IsSynced :
      (target log : ChatLog) (c f : List (Event Value))
      → (starts_open f ≡ true → openings c < openings f)
      → Sync J files target log c f
      → IsSynced target (follow J files f (record { log = log; collecting = c; following = f }))
  unfolding follow IsSynced
  followed-IsSynced target log c [] h y = y
  followed-IsSynced target log c (e ∷ f) h y = follow-Sync J files target log e c f h y

  run-IsSynced :
      (target : ChatLog) (steps : List Step) (t : Tasks J)
      → IsOrdered steps t
      → IsSynced target t
      → IsSynced target (run J files steps t)
  unfolding IsOrdered run step IsSynced
  run-IsSynced target [] t o y = y
  run-IsSynced target (collects ∷ steps) t (h, o) y =
      run-IsSynced target steps _ o (collected-IsSynced target t.log t.collecting t.following h y)
  run-IsSynced target (follows ∷ steps) t (h, o) y =
      run-IsSynced target steps _ o (followed-IsSynced target t.log t.collecting t.following h y)
  run-IsSynced target (collector_lags ∷ steps) t (h, o) y = absurd h
  run-IsSynced target (follower_lags ∷ steps) t (h, o) y = absurd h

  finished :
      (target log : ChatLog) (c f : List (Event Value))
      → c ≡ []
      → f ≡ []
      → Sync J files target log c f
      → log ≡ target
  unfolding shown
  finished target log c f i j (ahead a none g s) = ap (shown J files log) (sym i) ∙ s
  finished target log c f i j (behind a none g s) = ap (shown J files log) (sym i) ∙ s
  finished target log c f i j (opening a id none g s) = absurd (
      some_left (openings a) (openings c)
        (sym (openings-append a (session_opened id ∷ c)) ∙ sym (ap openings g) ∙ ap openings j))
    where
      some_left : (k m : ℕ) → ¬ (k + suc m ≡ 0)
      some_left k m z = omega arith

  -- On a disk that does not change, where no receiver lags, the follower takes an opening only when
  -- the collector has, and the collector takes nothing between the two, the steps of the two tasks
  -- in any such order leave, once both have taken all events, the log of the chat that was opened
  -- last with the events behind it.
  pub ordered_tasks_show_chat :
      (log : ChatLog) (es : List (Event Value)) (steps : List Step)
      → IsOrdered steps (record { log = log; collecting = es; following = es })
      → (run J files steps (record { log = log; collecting = es; following = es })).collecting ≡ []
      → (run J files steps (record { log = log; collecting = es; following = es })).following ≡ []
      → (run J files steps (record { log = log; collecting = es; following = es })).log
        ≡ shown J files log es
  unfolding IsSynced
  ordered_tasks_show_chat log es steps o c f =
      let end =
        run-IsSynced (shown J files log es) steps
          (record { log = log; collecting = es; following = es }) o
          (Sync.ahead [] refl refl refl) in
      finished (shown J files log es) _ _ _ c f end
