-- ===== src/Prompt/Delivered.antt =====
-- Which answers reach which screen, over any calls of prompt.rs in any order.
use mathlib.Core.List.{Sublistᴰ}
use mobile_coder.Prelude.{
  ◌≡◌, refl, ap, ◌∙◌, ℕ, String, Bool, true, false, Option, none, some, List, [], ◌∷◌, ◌++◌, inl,
  inr, Bool-cases, if◌then◌else◌,
}
use mobile_coder.Prelude.Sublists.{Within, within_nil, within_behind}
use mobile_coder.Prelude.Text.{trim, is_empty}
use mobile_coder.Prompt.{
  Prompt, github_token, repo_name, commit_message, Prompts, request, take_request, answer,
  take_answer, same,
}

pub data Step : Type 0 where
  requests : Prompt → Step
  takes_request : Step
  answers : Prompt → String → Step
  takes_answer : Prompt → Step

abbrev pub behind : Step → Prompts → Prompts
behind (requests p) s = request p s
behind takes_request s = (take_request s).1
behind (answers p text) s = answer p text s
behind (takes_answer p) s = (take_answer p s).1

abbrev pub got : Option String → List String
got none = []
got (some text) = text ∷ []

-- What a step gives to those who wait for an answer to a prompt.
abbrev pub received : Prompt → Step → Prompts → List String
received p (takes_answer q) s = if same q p then got (take_answer q s).0 else []
received p _ s = []

-- What a step answers to a prompt, where it is not blank.
abbrev pub given : Prompt → Step → List String
given p (answers q text) = if same q p then (if is_empty (trim text) then [] else text ∷ []) else []
given p _ = []

unfoldable pub all_received : Prompt → List Step → Prompts → List String
all_received p [] s = []
all_received p (step ∷ steps) s = received p step s ++ all_received p steps (behind step s)

unfoldable pub all_given : Prompt → List Step → List String
all_given p [] = []
all_given p (step ∷ steps) = given p step ++ all_given p steps

-- The answer to a prompt that nobody took yet.
abbrev pub waiting : Prompt → Option (Prompt × String) → List String
waiting p none = []
waiting p (some (kind, text)) = if same kind p then text ∷ [] else []

same_eq : (a b : Prompt) → same a b ≡ true → a ≡ b
same_eq github_token github_token h = refl
same_eq github_token repo_name h = cc
same_eq github_token commit_message h = cc
same_eq repo_name github_token h = cc
same_eq repo_name repo_name h = refl
same_eq repo_name commit_message h = cc
same_eq commit_message github_token h = cc
same_eq commit_message repo_name h = cc
same_eq commit_message commit_message h = refl

answered :
    (b : Bool) (p q : Prompt) (text : String) (s : Prompts) (rest later : List String)
    → Within rest (waiting p (if b then s else record s { slot = some (q, text) }).slot ++ later)
    → Within rest
        (waiting p s.slot ++ ((if same q p then (if b then [] else text ∷ []) else []) ++ later))
answered true p q text s rest later h = elim (Bool-cases (same q p)) [
  | inl e ↦ rw e h
  | inr e ↦ rw e h
]
answered false p q text s rest later h =
    within_behind (waiting p s.slot) rest ((if same q p then text ∷ [] else []) ++ later) h

abbrev outcome : Bool → Prompt → String → ℕ → Option String × Prompts
outcome e kind text n =
    if e
    then (some text, record { pending = n; slot = none })
    else (none, record { pending = n; slot = some (kind, text) })

taken :
    (m e : Bool) (p q kind : Prompt) (text : String) (n : ℕ) (rest later : List String)
    → same q p ≡ m
    → same kind q ≡ e
    → Within rest (waiting p (outcome e kind text n).1.slot ++ later)
    → Within
        ((if m then got (outcome e kind text n).0 else []) ++ rest)
        (waiting p (some (kind, text)) ++ later)
taken true false p q kind text n rest later f g h = h
taken false false p q kind text n rest later f g h = h
taken true true p q kind text n rest later f g h =
    let mine : same kind p ≡ true = ap (λ k. same k p) (same_eq kind q g) ∙ f in
    rw mine (Sublistᴰ.cons-cons refl h)
taken false true p q kind text n rest later f g h =
    within_behind (waiting p (some (kind, text))) rest later h

taken_from :
    (p q : Prompt) (n : ℕ) (slot : Option (Prompt × String)) (rest later : List String)
    → Within rest (waiting p (take_answer q (record { pending = n; slot = slot })).1.slot ++ later)
    → Within
        (received p (takes_answer q) (record { pending = n; slot = slot }) ++ rest)
        (waiting p slot ++ later)
unfolding take_answer
taken_from p q n none rest later h = elim (Bool-cases (same q p)) [
  | inl e ↦ rw e h
  | inr e ↦ rw e h
]
taken_from p q n (some (kind, text)) rest later h =
    taken (same q p) (same kind q) p q kind text n rest later refl refl h

-- One step: what it gives, and what is given behind it, is within what waited and is answered.
step_within :
    (p : Prompt) (step : Step) (s : Prompts) (rest later : List String)
    → Within rest (waiting p (behind step s).slot ++ later)
    → Within (received p step s ++ rest) (waiting p s.slot ++ (given p step ++ later))
unfolding answer
step_within p (requests q) s rest later h = h
step_within p takes_request s rest later h = h
step_within p (answers q text) s rest later h =
    answered (is_empty (trim text)) p q text s rest later h
step_within p (takes_answer q) s rest later h = taken_from p q s.pending s.slot rest later h

-- Whatever is requested, answered and taken in any order, the answers that are received for a
-- prompt are among the one that waited for it and those that were given to it and are not blank, in
-- their order and each once.
pub answers_reach_asker :
    (p : Prompt) (steps : List Step) (s : Prompts)
    → Within (all_received p steps s) (waiting p s.slot ++ all_given p steps)
unfolding all_received all_given
answers_reach_asker p [] s = within_nil (waiting p s.slot ++ [])
answers_reach_asker p (step ∷ steps) s =
    step_within p step s (all_received p steps (behind step s)) (all_given p steps)
      (answers_reach_asker p steps (behind step s))
