-- ===== src/Terminal/Delivered.antt =====
-- What reaches a shell of what was sent, over any steps of terminal.rs in any order.
use mobile_coder.Prelude.{
  ℕ, ◌≤◌, ◌<◌, ◌≡◌, ◌∙◌, refl, sym, subst, ap, Bool, true, false, inl, inr, Bool-cases, List, [],
  ◌∷◌, ◌++◌, append-nil, append_assoc, length, length-append, ltb, eqb, if◌then◌else◌, arith,
}
use mobile_coder.Prelude.Sublists.{Within, within_behind, within_insert, within_self}
use mobile_coder.Terminal.{
  Handle, ShellSession, not_started, started, ended, Terminal, max_queued, send_input, write_all,
  deliver_input, exit_of, watch_exit,
}

abbrev pub Bytes : Type 0
Bytes = List ℕ

-- A shell is started with the next handle, or it could not be.
pub data Step : Type 0 where
  sends : Bytes → Step
  delivers : Step
  starts : (id : ℕ) → Step
  cannot_start : Step
  exits : (id : ℕ) → Step

unfoldable pub step : Step → Terminal → Terminal
step (sends bytes) t = send_input bytes t
step delivers t = deliver_input t
step (starts id) t = record t { session = started (record { id = id; written = [] }) }
step cannot_start t = record t { session = ended "Could not start the shell." }
step (exits id) t = watch_exit id t

unfoldable pub run : List Step → Terminal → Terminal
run [] t = t
run (s ∷ steps) t = run steps (step s t)

abbrev pub sent : List Step → List Bytes
sent [] = []
sent (sends bytes ∷ steps) = bytes ∷ sent steps
sent (_ ∷ steps) = sent steps

abbrev pub written_in : ShellSession → List Bytes
written_in (started h) = h.written
written_in _ = []

-- What the shell that runs was written, and what is queued for it.
abbrev pub held : Terminal → List Bytes
held t = written_in t.session ++ t.queue

abbrev pub IsBounded : Terminal → Type 0
IsBounded t = length t.queue ≤ max_queued

step-IsBounded : (s : Step) (t : Terminal) → IsBounded t → IsBounded (step s t)
unfolding step send_input deliver_input watch_exit
step-IsBounded (sends bytes) t h = elim (Bool-cases (ltb (length t.queue) 256)) [
  | inl room ↦ rw room (ground (arith, length-append {0} t.queue (bytes ∷ [])))
  | inr full ↦ rw full h
]
step-IsBounded delivers t h = omega arith
step-IsBounded (starts id) t h = h
step-IsBounded cannot_start t h = h
step-IsBounded (exits id) t h = h

-- The shell that was running is gone.
without_shell : (w q rest xs : List Bytes) → Within xs (q ++ rest) → Within xs ((w ++ q) ++ rest)
without_shell w q rest xs h =
    subst (Within xs) (sym (append_assoc w q rest)) (within_behind w xs (q ++ rest) h)

send_within :
    (room : Bool) (bytes : Bytes) (t : Terminal) (rest xs : List Bytes)
    → Within xs (held (if room then record t { queue = t.queue ++ bytes ∷ [] } else t) ++ rest)
    → Within xs (held t ++ bytes ∷ rest)
send_within true bytes t rest xs h =
    let w = written_in t.session in
    subst (Within xs)
      (ap (λ l. l ++ rest) (sym (append_assoc w t.queue (bytes ∷ [])))
        ∙ append_assoc (w ++ t.queue) (bytes ∷ []) rest)
      h
send_within false bytes t rest xs h = within_insert (held t) xs rest bytes h

deliver_within :
    (session : ShellSession) (q rest xs : List Bytes)
    → Within xs ((written_in (write_all q session) ++ []) ++ rest)
    → Within xs ((written_in session ++ q) ++ rest)
deliver_within (started s) q rest xs h =
    subst (λ l. Within xs (l ++ rest)) (append-nil (s.written ++ q)) h
deliver_within not_started q rest xs h = without_shell [] q rest xs (within_behind q xs rest h)
deliver_within (ended reason) q rest xs h = without_shell [] q rest xs (within_behind q xs rest h)

exit_within :
    (id : ℕ) (session : ShellSession) (q rest xs : List Bytes)
    → Within xs ((written_in (exit_of id session) ++ q) ++ rest)
    → Within xs ((written_in session ++ q) ++ rest)
exit_within id (started s) q rest xs h = closed (eqb s.id id) h
  where
    closed :
        (same : Bool)
        → Within xs
            ((written_in (if same then ended "The shell exited." else started s) ++ q) ++ rest)
        → Within xs ((s.written ++ q) ++ rest)
    closed true h = without_shell s.written q rest xs h
    closed false h = h
exit_within id not_started q rest xs h = h
exit_within id (ended reason) q rest xs h = h

step_within :
    (s : Step) (t : Terminal) (rest xs : List Bytes)
    → Within xs (held (step s t) ++ rest)
    → Within xs (held t ++ (sent (s ∷ []) ++ rest))
unfolding step send_input deliver_input watch_exit
step_within (sends bytes) t rest xs h =
    send_within (ltb (length t.queue) max_queued) bytes t rest xs h
step_within delivers t rest xs h = deliver_within t.session t.queue rest xs h
step_within (starts id) t rest xs h = without_shell (written_in t.session) t.queue rest xs h
step_within cannot_start t rest xs h = without_shell (written_in t.session) t.queue rest xs h
step_within (exits id) t rest xs h = exit_within id t.session t.queue rest xs h

sent-split : (s : Step) (steps : List Step) → sent (s ∷ steps) ≡ sent (s ∷ []) ++ sent steps
sent-split (sends bytes) steps = refl
sent-split s steps = refl

run_within : (steps : List Step) (t : Terminal) → Within (held (run steps t)) (held t ++ sent steps)
unfolding run
run_within [] t = subst (Within (held t)) (sym (append-nil (held t))) (within_self (held t))
run_within (s ∷ steps) t =
    subst (λ l. Within (held (run steps (step s t))) (held t ++ l)) (sym (sent-split s steps))
      (step_within s t (sent steps) _ (run_within steps (step s t)))

run-IsBounded : (steps : List Step) (t : Terminal) → IsBounded t → IsBounded (run steps t)
unfolding run
run-IsBounded [] t h = h
run-IsBounded (s ∷ steps) t h = run-IsBounded steps (step s t) (step-IsBounded s t h)

-- A shell runs, and each chunk that is sent finds room.
abbrev pub IsSmooth : List Step → Terminal → Type 0
IsSmooth [] t = Unit
IsSmooth (sends bytes ∷ steps) t =
    (length t.queue < max_queued) × IsSmooth steps (step (sends bytes) t)
IsSmooth (delivers ∷ steps) t =
    ((h : Handle) × (t.session ≡ started h)) × IsSmooth steps (step delivers t)
IsSmooth (_ ∷ steps) t = ⊥

held_send :
    (bytes : Bytes) (t : Terminal)
    → ltb (length t.queue) max_queued ≡ true
    → held (send_input bytes t) ≡ held t ++ bytes ∷ []
unfolding send_input
held_send bytes t room = rw room (sym (append_assoc (written_in t.session) t.queue (bytes ∷ [])))

held_deliver : (t : Terminal) (h : Handle) → t.session ≡ started h → held (deliver_input t) ≡ held t
unfolding deliver_input
held_deliver t h e =
    ap (λ z. written_in (write_all t.queue z) ++ []) e
    ∙ append-nil (h.written ++ t.queue)
    ∙ ap (λ z. written_in z ++ t.queue) (sym e)

-- Nothing is lost then: all that was sent is written or queued, in order.
pub smooth_held :
    (steps : List Step) (t : Terminal)
    → IsSmooth steps t
    → held (run steps t) ≡ held t ++ sent steps
unfolding run step send_input deliver_input
smooth_held [] t h = sym (append-nil (held t))
smooth_held (sends bytes ∷ steps) t (room, h) =
    smooth_held steps (step (sends bytes) t) h
    ∙ ap (λ l. l ++ sent steps) (held_send bytes t (ground (arith, room)))
    ∙ append_assoc (held t) (bytes ∷ []) (sent steps)
smooth_held (delivers ∷ steps) t ((s, e), h) =
    smooth_held steps (step delivers t) h ∙ ap (λ l. l ++ sent steps) (held_deliver t s e)
smooth_held (starts id ∷ steps) t h = absurd h
smooth_held (cannot_start ∷ steps) t h = absurd h
smooth_held (exits id ∷ steps) t h = absurd h

-- Where at most 256 chunks are queued before, that is so behind any sends, deliveries, starts and
-- exits of shells in any order, and what the shell that runs was written and what is queued are
-- chunks that were there before or were sent, in their order and each once.
pub sent_is_delivered :
    (steps : List Step) (t : Terminal)
    → IsBounded t
    → IsBounded (run steps t) × Within (held (run steps t)) (held t ++ sent steps)
sent_is_delivered steps t h = (run-IsBounded steps t h, run_within steps t)
