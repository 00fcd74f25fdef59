-- ===== src/Cancel.antt =====
-- Stopping a turn (crates/mc-core/src/cancel.rs): the flag, the notification, and one task that waits
-- in `cancelled`. tokio's `Notify` is the parameter of this model: `notify_waiters` wakes every
-- `notified()` that was made before it, and no other.
pub mod Woken
use mobile_coder.Prelude.{ℕ, ◌+◌, ◌-◌, ◌<◌, ◌≡◌, Bool, true, false, if◌then◌else◌}

-- Where the waiting task stands: before the first look at the flag, before it makes its
-- `notified()`, before the second look, in the `await`, and behind the loop.
pub data Place : Type 0 where
  looking registering rechecking waiting returned : Place

pub record State : Type 0 where
  pub flagged : Bool
  pub place : Place
  -- whether its `notified()` was notified
  pub woken : Bool
  -- the calls of `cancel` that have set the flag and not notified yet
  pub owed : ℕ

abbrev pub is_registered : Place → Bool
is_registered rechecking = true
is_registered waiting = true
is_registered other = false

unfoldable pub start : State
start = record { flagged = false; place = looking; woken = false; owed = 0 }

-- The two halves of `cancel`.
unfoldable pub store : State → State
store s = record s { flagged = true; owed = s.owed + 1 }

unfoldable pub notify_waiters : State → State
notify_waiters s = record s {
  woken = if is_registered s.place then true else s.woken;
  owed = s.owed - 1;
}

unfoldable pub reset : State → State
reset s = record s { flagged = false }

unfoldable pub is_cancelled : State → Bool
is_cancelled s = s.flagged

-- What the task does next in `cancelled`. In the `await` it stays until it is woken.
abbrev pub next_place : Place → Bool → Bool → Place
next_place looking flag woken = if flag then returned else registering
next_place registering flag woken = rechecking
next_place rechecking flag woken = if flag then returned else waiting
next_place waiting flag woken = if woken then looking else waiting
next_place returned flag woken = returned

abbrev next_woken : Place → Bool → Bool
next_woken registering woken = false
next_woken other woken = woken

unfoldable pub advance : State → State
unfolding is_cancelled
advance s = record s {
  place = next_place s.place (is_cancelled s) s.woken;
  woken = next_woken s.place s.woken;
}

-- Any thread may take the next step, between any two of the task.
pub data Step : State → State → Type 0 where
  task : (s : State) → Step s (advance s)
  stores : (s : State) → Step s (store s)
  notifies : (s : State) → 0 < s.owed → Step s (notify_waiters s)
  resets : (s : State) → Step s (reset s)

pub data Reach : State → Type 0 where
  here : Reach start
  on : {s t : State} → Reach s → Step s t → Reach t
