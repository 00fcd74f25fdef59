-- ===== src/Prompt.antt =====
-- crates/mc-ui/src/prompt.rs: the requests for a line of text, and the answers. The two statics are
-- the record `Prompts`. No lock is ever poisoned.
pub mod Delivered
use mobile_coder.Prelude.{ℕ, String, Bool, true, false, Option, none, some, eqb, if◌then◌else◌}
use mobile_coder.Prelude.Text.{trim, is_empty}

pub data Prompt : Type 0 where
  github_token : Prompt
  repo_name : Prompt
  commit_message : Prompt

-- `prompt as u8`
abbrev pub code_of : Prompt → ℕ
code_of github_token = 1
code_of repo_name = 2
code_of commit_message = 3

abbrev pub from_code : ℕ → Option Prompt
from_code code =
    if eqb code 1
    then some github_token
    else if eqb code 2
    then some repo_name
    else if eqb code 3
    then some commit_message
    else none

abbrev pub title : Prompt → String
title github_token = "GitHub token"
title repo_name = "New repository"
title commit_message = "Commit message"

abbrev pub hint : Prompt → String
hint github_token = "github_pat_…"
hint repo_name = "my-project"
hint commit_message = "What changed and why"

abbrev pub is_secret : Prompt → Bool
is_secret github_token = true
is_secret _ = false

-- `PENDING` and `ANSWER`
pub record Prompts : Type 0 where
  pub pending : ℕ
  pub slot : Option (Prompt × String)

abbrev pub request : Prompt → Prompts → Prompts
request prompt s = record s { pending = code_of prompt }

abbrev pub take_request : Prompts → Option Prompt × Prompts
take_request s = (from_code s.pending, record s { pending = 0 })

unfoldable pub answer : Prompt → String → Prompts → Prompts
answer prompt text s = if is_empty (trim text) then s else record s { slot = some (prompt, text) }

abbrev pub same : Prompt → Prompt → Bool
same a b = eqb (code_of a) (code_of b)

abbrev take_slot : Prompt → Option (Prompt × String) → Prompts → Option String × Prompts
take_slot prompt none s = (none, s)
take_slot prompt (some (kind, text)) s =
    if same kind prompt then (some text, record s { slot = none }) else (none, s)

unfoldable pub take_answer : Prompt → Prompts → Option String × Prompts
take_answer prompt s = take_slot prompt s.slot s
