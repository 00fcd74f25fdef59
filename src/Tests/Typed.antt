-- ===== src/Tests/Typed.antt =====
-- The input of the terminal at a concrete input.
use mobile_coder.Prelude.{◌≡◌, refl, List, [], ◌∷◌, ◌++◌, arith}
use mobile_coder.Prelude.Sublists.{Within}
use mobile_coder.Terminal.{Terminal, not_started, started, send_input, deliver_input}
use mobile_coder.Terminal.Delivered.{
  Step, sends, delivers, starts, exits, step, run, sent, held, IsBounded, sent_is_delivered,
  smooth_held,
}

abbrev idle : Terminal
idle = record { queue = []; session = not_started }

abbrev typed : List Step
typed =
    sends (97 ∷ [])
    ∷ delivers
    ∷ starts 1
    ∷ sends (98 ∷ [])
    ∷ delivers
    ∷ sends (99 ∷ [])
    ∷ exits 2
    ∷ []

-- What was sent before the shell is gone, and the rest is there.
once_started : held (run typed idle) ≡ (98 ∷ []) ∷ (99 ∷ []) ∷ []
unfolding run step send_input deliver_input mobile_coder.Terminal.watch_exit
once_started = refl

sent_is_delivered_example :
    IsBounded (run typed idle) × Within (held (run typed idle)) (held idle ++ sent typed)
sent_is_delivered_example = sent_is_delivered typed idle (omega arith)

-- A shell that runs gets all that was sent.
abbrev awake : Terminal
awake = record { queue = []; session = started (record { id = 1; written = [] }) }

nothing_lost :
    held (run (sends (97 ∷ []) ∷ delivers ∷ sends (98 ∷ []) ∷ []) awake)
    ≡ (97 ∷ []) ∷ (98 ∷ []) ∷ []
unfolding step send_input deliver_input
nothing_lost =
    smooth_held (sends (97 ∷ []) ∷ delivers ∷ sends (98 ∷ []) ∷ []) awake
      (omega arith, ((record { id = 1; written = [] }, refl), (omega arith, tt)))
