-- ===== src/Cancel/Woken.antt =====
-- No stop is missed (`cancelled` of crates/mc-core/src/cancel.rs).
use mobile_coder.Prelude.{ℕ, ◌+◌, ◌-◌, ◌<◌, ◌≡◌, refl, Bool, true, false, if◌then◌else◌, arith}
use mobile_coder.Cancel.{
  Place, looking, registering, rechecking, waiting, returned, State, start, store, notify_waiters,
  reset, advance, is_cancelled, task, stores, notifies, resets, Reach, here, on, next_place,
  next_woken, is_registered,
}

-- A task that sleeps, where a stop was asked for, is woken or will be.
abbrev IsHeard : Place → Bool → Bool → ℕ → Type 0
IsHeard waiting true false owed = 0 < owed
IsHeard p flagged woken owed = Unit

abbrev pub HearsStop : State → Type 0
HearsStop s = IsHeard s.place s.flagged s.woken s.owed

store-HearsStop : (p : Place) (w : Bool) (n : ℕ) → IsHeard p true w (n + 1)
store-HearsStop looking w n = tt
store-HearsStop registering w n = tt
store-HearsStop rechecking w n = tt
store-HearsStop waiting true n = tt
store-HearsStop waiting false n = omega arith
store-HearsStop returned w n = tt

reset-HearsStop : (p : Place) (w : Bool) (n : ℕ) → IsHeard p false w n
reset-HearsStop looking w n = tt
reset-HearsStop registering w n = tt
reset-HearsStop rechecking w n = tt
reset-HearsStop waiting w n = tt
reset-HearsStop returned w n = tt

notify-HearsStop :
    (p : Place) (f w : Bool) (n : ℕ) → IsHeard p f (if is_registered p then true else w) n
notify-HearsStop looking f w n = tt
notify-HearsStop registering f w n = tt
notify-HearsStop rechecking f w n = tt
notify-HearsStop waiting true w n = tt
notify-HearsStop waiting false w n = tt
notify-HearsStop returned f w n = tt

advance-HearsStop :
    (p : Place) (f w : Bool) (n : ℕ)
    → IsHeard p f w n
    → IsHeard (next_place p f w) f (next_woken p w) n
advance-HearsStop looking true w n h = tt
advance-HearsStop looking false w n h = tt
advance-HearsStop registering f w n h = tt
advance-HearsStop rechecking true w n h = tt
advance-HearsStop rechecking false w n h = tt
advance-HearsStop waiting f true n h = tt
advance-HearsStop waiting f false n h = h
advance-HearsStop returned f w n h = tt

pub Reach-HearsStop : {s : State} → Reach s → HearsStop s
unfolding start store notify_waiters reset advance is_cancelled
Reach-HearsStop here = tt
Reach-HearsStop (on r (task s)) =
    advance-HearsStop s.place s.flagged s.woken s.owed (Reach-HearsStop r)
Reach-HearsStop (on r (stores s)) = store-HearsStop s.place s.woken s.owed
Reach-HearsStop (on r (notifies s due)) = notify-HearsStop s.place s.flagged s.woken (s.owed - 1)
Reach-HearsStop (on r (resets s)) = reset-HearsStop s.place s.woken s.owed

settled :
    (p : Place) (w : Bool)
    → IsHeard p true w 0
    → next_place (next_place p true w) true (next_woken p w) ≡ returned
settled looking w h = refl
settled registering w h = refl
settled rechecking w h = refl
settled waiting true h = refl
settled waiting false h = absurd (omega arith)
settled returned w h = refl

-- However the two halves of any calls of cancel, the resets and the steps of a waiting task were
-- interleaved, once the flag is set and no call of cancel is under way the task returns within two
-- steps of its own.
pub stop_is_heard :
    (s : State) → Reach s → s.flagged ≡ true → s.owed ≡ 0 → (advance (advance s)).place ≡ returned
unfolding advance is_cancelled
stop_is_heard s r asked told =
    let h : IsHeard s.place true s.woken 0 = rw (← asked, ← told) (Reach-HearsStop r) in
    rw asked (settled s.place s.woken h)
