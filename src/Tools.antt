-- ===== src/Tools.antt =====
-- crates/mc-agent/src/tools.rs: the tools of the agent and their dispatch into the sandbox.
pub mod Commands
pub mod Definitions
pub mod Edit
pub mod Kept
pub mod Offered
pub mod Quote
pub mod Shell
use Prim.Native.String.{count, len}
use mobile_coder.Prelude.{
  ℕ, suc, zero, ◌+◌, ◌-◌, ◌*◌, ◌/◌, ◌%◌, ◌^◌, min, max, ◌<>◌, String, Bool, true, false, Option,
  none, some, List, [], ◌∷◌, map, leb, eqb, ltb, ◌==◌, if◌then◌else◌, ◌>>=◌,
}
use mobile_coder.Prelude.Text.{
  show, trim, trim_end, take_chars, skip_chars, is_empty, join, count_matches, replace_first,
  replace_char,
}
use mobile_coder.Json.{Json, get_str}
use mobile_coder.Jobs.{JobSummary, JobRead, describe, describe_status}
use mobile_coder.Sandbox.{
  Sandbox, Output, Ran, ok, err, is_ok, is_status, run, run_with_timeout, run_cancellable,
}
use mobile_coder.Tools.Commands.{
  default_read_limit, default_timeout_secs, max_timeout_secs, clamp_output, ToolOutcome, stopped,
  success, failure, shq, describe_output, unknown_job, ToolName, bash, job_output, job_kill,
  read_file, write_file, edit_file, search, unknown, tool_name, or_else, read_command,
  write_command, load_command, store_command, search_command, max_tool_output, clamp_to, combined,
  exit_text,
}
use mobile_coder.Tools.Shell.{on_bash, on_job_output, on_job_kill}

module _ (J : Json) (S : Sandbox) where
  open J use {Value}
  open S use {World}

  read_outcome : String → Ran Output → ToolOutcome
  read_outcome path (err e) = failure e
  read_outcome path (ok out) =
      if is_ok out
      then success (clamp_output out.stdout)
      else failure ("cannot read " <> path <> ": " <> trim out.stderr)

  on_read_file : Value → World → ToolOutcome × World
  on_read_file input w = elim (get_str J input "path") [
    | none ↦ (failure "read_file requires a `path`", w)
    | some path ↦
        let offset = max 1 (or_else 1 (J.get input "offset" >>= J.as_u64)) in
        let limit = or_else default_read_limit (J.get input "limit" >>= J.as_u64) in
        let (ran, w') =
          run_with_timeout S (read_command path offset limit) none (some default_timeout_secs) w in
        (read_outcome path ran, w')
  ]

  write_outcome : String → String → Ran Output → ToolOutcome
  write_outcome path done (err e) = failure e
  write_outcome path done (ok out) =
      if is_ok out
      then success done
      else failure ("cannot write " <> path <> ": " <> trim out.stderr)

  write_file_at : String → String → World → ToolOutcome × World
  write_file_at path content w =
      let (ran, w') = run S (write_command path (S.encode content)) none w in
      (write_outcome path ("wrote " <> show (len content) <> " bytes to " <> path) ran, w')

  on_write_file : Value → World → ToolOutcome × World
  on_write_file input w = elim (get_str J input "path") [
    | none ↦ (failure "write_file requires `path` and `content`", w)
    | some path ↦ elim (get_str J input "content") [
      | none ↦ (failure "write_file requires `path` and `content`", w)
      | some content ↦ write_file_at path content w
    ]
  ]

  -- What was read, or why the file cannot be edited. 10 and 13 are the ends of a line.
  unfoldable pub loaded : String → Ran Output → Ran String
  loaded path (err e) = err e
  loaded path (ok out) =
      if is_ok out
      then elim (S.decode (replace_char 13 "" (replace_char 10 "" out.stdout))) [
        | none ↦ err (path <> " is not valid UTF-8")
        | some text ↦ ok text
      ]
      else err ("cannot read " <> path <> ": " <> trim out.stderr)

  -- The tail of the handler, from the text of the file on.
  unfoldable pub replace_in : String → String → String → String → World → ToolOutcome × World
  unfolding write_outcome
  replace_in path old new current w =
      let n = count_matches old current in
      let updated = replace_first old new current in
      let (ran, w') = run S (store_command path (S.encode updated)) none w in
      if eqb n 0
      then (failure ("`old` does not appear in " <> path), w)
      else if eqb n 1
      then (write_outcome path ("edited " <> path) ran, w')
      else (
        failure (
            "`old` appears "
            <> show n
            <> " times in "
            <> path
            <> "; include more surrounding context so the match is unique"),
        w,
      )

  unfoldable pub edit_file_at : String → String → String → World → ToolOutcome × World
  edit_file_at path old new w =
      let (ran, w') = run S (load_command path) none w in
      elim (loaded path ran) [
        | err e ↦ (failure e, w')
        | ok current ↦ replace_in path old new current w'
      ]

  edit_arguments : Value → Option (String × String × String)
  edit_arguments input = get_str J input "path" >>= λ path.
      get_str J input "old" >>= λ old. get_str J input "new" >>= λ new. some (path, old, new)

  on_edit_file : Value → World → ToolOutcome × World
  on_edit_file input w = elim (edit_arguments input) [
    | none ↦ (failure "edit_file requires `path`, `old` and `new`", w)
    | some (path, old, new) ↦ edit_file_at path old new w
  ]

  search_outcome : Ran Output → ToolOutcome
  search_outcome (err e) = failure e
  search_outcome (ok out) =
      if is_ok out
      then success (clamp_output out.stdout)
      else if is_status 1 out.status
      then success "no matches"
      else failure out.stderr

  text_or : String → Option String → String
  text_or d none = d
  text_or d (some s) = s

  on_search : Value → World → ToolOutcome × World
  on_search input w = elim (get_str J input "pattern") [
    | none ↦ (failure "search requires a `pattern`", w)
    | some pattern ↦
        let path = text_or "." (get_str J input "path") in
        let mode = text_or "content" (get_str J input "mode") in
        let (ran, w') =
          run_with_timeout S (search_command mode pattern path) none (some default_timeout_secs)
            w in
        (search_outcome ran, w')
  ]

  dispatch : ToolName → String → Value → World → ToolOutcome × World
  unfolding on_read_file read_outcome on_write_file write_file_at write_outcome on_edit_file
      edit_arguments on_search search_outcome text_or
  dispatch bash name input w = on_bash J S input w
  dispatch job_output name input w = on_job_output J S input w
  dispatch job_kill name input w = on_job_kill J S input w
  dispatch read_file name input w = on_read_file input w
  dispatch write_file name input w = on_write_file input w
  dispatch edit_file name input w = on_edit_file input w
  dispatch search name input w = on_search input w
  dispatch unknown name input w = (failure ("unknown tool `" <> name <> "`"), w)

  unfoldable pub execute_cancellable : String → Value → World → ToolOutcome × World
  unfolding dispatch tool_name
  execute_cancellable name input w = dispatch (tool_name name) name input w
