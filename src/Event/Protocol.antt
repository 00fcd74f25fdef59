-- ===== src/Event/Protocol.antt =====
-- What the sequence of events of a turn promises to the screens.
use mobile_coder.Prelude.{◌≡◌, refl, Bool, true, false, List, [], ◌∷◌, ◌++◌}
use mobile_coder.Event.{
  Event, turn_started, tool_requested, tool_completed, session_opened, turn_ended, failed,
}

module _ {V : Type 0} where
  -- Whether a turn is in progress after the events, given whether one was before.
  abbrev pub busy_after : Bool → List (Event V) → Bool
  busy_after b [] = b
  busy_after b (turn_started s p ∷ es) = busy_after true es
  busy_after b (turn_ended s r ∷ es) = busy_after false es
  busy_after b (failed s m ∷ es) = busy_after false es
  busy_after b (session_opened s ∷ es) = busy_after false es
  busy_after b (_ ∷ es) = busy_after b es

  -- A request of a tool is followed at once by the completion of the same call, and there is no
  -- other completion.
  abbrev pub Paired : List (Event V) → Type 0
  Paired [] = Unit
  Paired (tool_requested s id n i ∷ tool_completed s' id' e o ∷ es) = (id ≡ id') × Paired es
  Paired (tool_requested s id n i ∷ _) = ⊥
  Paired (tool_completed s id e o ∷ _) = ⊥
  Paired (_ ∷ es) = Paired es

  pub busy_after-append :
      (b : Bool) (xs ys : List (Event V))
      → busy_after b (xs ++ ys) ≡ busy_after (busy_after b xs) ys
  busy_after-append b [] ys = refl
  busy_after-append b (turn_started s p ∷ es) ys = busy_after-append true es ys
  busy_after-append b (turn_ended s r ∷ es) ys = busy_after-append false es ys
  busy_after-append b (failed s m ∷ es) ys = busy_after-append false es ys
  busy_after-append b (session_opened s ∷ es) ys = busy_after-append false es ys
  busy_after-append b (_ ∷ es) ys = busy_after-append b es ys

  pub Paired-append : (xs ys : List (Event V)) → Paired xs → Paired ys → Paired (xs ++ ys)
  Paired-append [] ys h k = k
  Paired-append (tool_requested s id n i ∷ tool_completed s' id' e o ∷ es) ys (same, h) k =
      (same, Paired-append es ys h k)
  Paired-append (tool_requested s id n i ∷ _) ys h k = absurd h
  Paired-append (tool_completed s id e o ∷ _) ys h k = absurd h
  Paired-append (_ ∷ es) ys h k = Paired-append es ys h k
