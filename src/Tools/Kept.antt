-- ===== src/Tools/Kept.antt =====
-- What every call of a tool keeps of the world (crates/mc-agent/src/tools.rs), over any sandbox.
use mobile_coder.Prelude.{
  ℕ, String, Bool, true, false, Option, none, some, eqb, ◌==◌, if◌then◌else◌,
}
use mobile_coder.Prelude.Text.{count_matches}
use mobile_coder.Json.{Json, get_str}
use mobile_coder.Sandbox.{Sandbox, Ran, ok, err, run, run_with_timeout, run_cancellable}
use mobile_coder.Tools.{
  execute_cancellable, dispatch, on_read_file, on_write_file, write_file_at, replace_in,
  on_edit_file, edit_file_at, edit_arguments, on_search,
}
use mobile_coder.Tools.Shell.{
  on_bash, run_command, start_job, on_job_kill, kill_one, kill_every, on_job_output, read_job,
}
use mobile_coder.Tools.Commands.{
  ToolOutcome, failure, load_command, ToolName, bash, job_output, job_kill, read_file, write_file,
  edit_file, search, unknown, tool_name,
}

-- A predicate on the world that the operations of the sandbox keep.
pub record Keeps (S : Sandbox) (I : S.World → Type 0) : Type 0 where
  pub run_inner :
      (command : String) (cwd : Option String) (limit : Option ℕ) (stops : Bool) (w : S.World)
      → I w
      → I (S.run_inner command cwd limit stops w).1
  pub start_background :
      (command : String) (cwd : Option String) (w : S.World)
      → I w
      → I (S.start_background command cwd w).1
  pub read_job : (id : String) (w : S.World) → I w → I (S.read_job id w).1
  pub kill_job : (id : String) (w : S.World) → I w → I (S.kill_job id w).1
  pub kill_all : (w : S.World) → I w → I (S.kill_all w).1

module _ (J : Json) (S : Sandbox) (I : S.World → Type 0) (K : Keeps S I) where
  open J use {Value}
  open S use {World}

  kept_if : (b : Bool) (r s : ToolOutcome × World) → I r.1 → I s.1 → I (if b then r else s).1
  kept_if true r s p q = p
  kept_if false r s p q = q

  kept_option :
      {A : Type 0} (o : Option A) (r : ToolOutcome × World) (f : A → ToolOutcome × World)
      → I r.1
      → ((a : A) → I (f a).1)
      → I (elim o as (λ x. ToolOutcome × World) [ none ↦ r | some a ↦ f a ]).1
  kept_option none r f p q = p
  kept_option (some a) r f p q = q a

  on_bash-keeps : (input : Value) (w : World) → I w → I (on_bash J S input w).1
  unfolding on_bash run_command start_job run_cancellable
  on_bash-keeps input w h = kept_option (get_str J input "command") _ _ h (λ command.
      kept_if _ _ _ (K.start_background command _ w h) (K.run_inner command _ _ true w h))

  on_job_kill-keeps : (input : Value) (w : World) → I w → I (on_job_kill J S input w).1
  unfolding on_job_kill kill_one kill_every
  on_job_kill-keeps input w h =
      kept_option (get_str J input "id") _ _ h
        (λ id. kept_if (id == "all") _ _ (K.kill_all w h) (K.kill_job id w h))

  on_job_output-keeps : (input : Value) (w : World) → I w → I (on_job_output J S input w).1
  unfolding on_job_output read_job
  on_job_output-keeps input w h = kept_option (get_str J input "id") _ _ h (λ id. K.read_job id w h)

  on_read_file-keeps : (input : Value) (w : World) → I w → I (on_read_file J S input w).1
  unfolding on_read_file run_with_timeout
  on_read_file-keeps input w h =
      kept_option (get_str J input "path") _ _ h (λ path. K.run_inner _ none _ false w h)

  on_write_file-keeps : (input : Value) (w : World) → I w → I (on_write_file J S input w).1
  unfolding on_write_file write_file_at run run_with_timeout
  on_write_file-keeps input w h = kept_option (get_str J input "path") _ _ h (λ path.
      kept_option (get_str J input "content") _ _ h (λ content. K.run_inner _ none none false w h))

  replace_in-keeps :
      (path old new current : String) (w : World)
      → I w
      → I (replace_in J S path old new current w).1
  unfolding replace_in run run_with_timeout
  replace_in-keeps path old new current w h =
      kept_if (eqb (count_matches old current) 0) _ _ h
        (kept_if (eqb (count_matches old current) 1) _ _ (K.run_inner _ none none false w h) h)

  edited-keeps :
      (path old new : String) (r : Ran String) (w : World)
      → I w
      → I
          (elim r as (λ x. ToolOutcome × World) [
            | err e ↦ (failure e, w)
            | ok current ↦ replace_in J S path old new current w
          ]).1
  edited-keeps path old new (err e) w h = h
  edited-keeps path old new (ok current) w h = replace_in-keeps path old new current w h

  on_edit_file-keeps : (input : Value) (w : World) → I w → I (on_edit_file J S input w).1
  unfolding on_edit_file edit_file_at run run_with_timeout
  on_edit_file-keeps input w h = kept_option (edit_arguments J S input) _ _ h (λ (path, old, new).
      edited-keeps path old new _ _ (K.run_inner (load_command path) none none false w h))

  on_search-keeps : (input : Value) (w : World) → I w → I (on_search J S input w).1
  unfolding on_search run_with_timeout
  on_search-keeps input w h =
      kept_option (get_str J input "pattern") _ _ h (λ pattern. K.run_inner _ none _ false w h)

  dispatch-keeps :
      (tool : ToolName) (name : String) (input : Value) (w : World)
      → I w
      → I (dispatch J S tool name input w).1
  unfolding dispatch
  dispatch-keeps bash name input w h = on_bash-keeps input w h
  dispatch-keeps job_output name input w h = on_job_output-keeps input w h
  dispatch-keeps job_kill name input w h = on_job_kill-keeps input w h
  dispatch-keeps read_file name input w h = on_read_file-keeps input w h
  dispatch-keeps write_file name input w h = on_write_file-keeps input w h
  dispatch-keeps edit_file name input w h = on_edit_file-keeps input w h
  dispatch-keeps search name input w h = on_search-keeps input w h
  dispatch-keeps unknown name input w h = h

  -- What the operations of the sandbox keep is kept by each call of a tool.
  pub execute_cancellable-keeps :
      (name : String) (input : Value) (w : World) → I w → I (execute_cancellable J S name input w).1
  unfolding execute_cancellable
  execute_cancellable-keeps name input w h = dispatch-keeps (tool_name name) name input w h
