-- ===== src/Tools/Commands.antt =====
-- The limits, the outcomes, the quoting and the command lines of crates/mc-agent/src/tools.rs.
use Prim.Native.String.{count}
use mobile_coder.Prelude.{
  ℕ, ◌+◌, ◌-◌, ◌*◌, ◌/◌, ◌%◌, ◌^◌, ◌<>◌, String, Bool, true, false, Option, none, some, leb, ◌==◌,
  if◌then◌else◌,
}
use mobile_coder.Prelude.Text.{show, trim_end, take_chars, skip_chars, is_empty, replace_char}
use mobile_coder.Sandbox.{Output, is_ok}

abbrev pub default_read_limit : ℕ
default_read_limit = 2000

abbrev pub default_timeout_secs : ℕ
default_timeout_secs = 300

abbrev pub max_timeout_secs : ℕ
max_timeout_secs = 3600

abbrev pub max_tool_output : ℕ
max_tool_output = 30000

-- The ceiling is a parameter of the model; `clamp_output` is the call with the constant.
unfoldable pub clamp_to : ℕ → String → String
clamp_to most text =
    let n = count text in
    if leb n most
    then text
    else (let head = take_chars (most * 2 / 3) text in
        let tail = skip_chars (n - most / 3) text in
        head
        <> "\n\n… "
        <> show (n - count head - count tail)
        <> " characters trimmed from the middle …\n\n"
        <> tail)

unfoldable pub clamp_output : String → String
clamp_output text = clamp_to max_tool_output text

pub record ToolOutcome : Type 0 where
  pub text : String
  pub is_error : Bool

abbrev pub stopped : ToolOutcome
stopped = record { text = "Not run: the user stopped the turn."; is_error = true }

abbrev pub success : String → ToolOutcome
success text = record { text = text; is_error = false }

abbrev pub failure : String → ToolOutcome
failure text = record { text = text; is_error = true }

-- `raw.replace('\'', r"'\''")` between quotes; 39 is the quote.
unfoldable pub shq : String → String
shq raw = "'" <> replace_char 39 "'\\''" raw <> "'"

abbrev pub combined : Output → String
combined out =
    if is_empty out.stderr
    then out.stdout
    else if is_empty out.stdout
    then out.stderr
    else out.stdout <> "\n" <> out.stderr

abbrev pub exit_text : Option ℕ → String
exit_text none = "signal"
exit_text (some code) = show code

-- The arm of `run_command` for a command that ran and was not stopped.
unfoldable pub describe_output : ℕ → Output → ToolOutcome
describe_output timeout out =
    let text = combined out in
    let shown = clamp_output (if is_empty text then "(no output)" else text) in
    if out.timed_out
    then failure (
        "timed out after "
        <> show timeout
        <> "s and was killed. Any output before that:\n"
        <> clamp_output (trim_end text)
        <> "\n\nRun something shorter, or pass a larger timeout_seconds.")
    else if is_ok out
    then success shown
    else failure ("exit status " <> exit_text out.status <> "\n" <> shown)

unfoldable pub unknown_job : String → String
unknown_job id =
    "no job " <> id
    <> ". Jobs live in the running app, so one started before the app restarted is gone. Use job_output with no id to see what is running."

pub data ToolName : Type 0 where
  bash job_output job_kill read_file write_file edit_file search unknown : ToolName

unfoldable pub tool_name : String → ToolName
tool_name name =
    if name == "bash"
    then bash
    else if name == "job_output"
    then job_output
    else if name == "job_kill"
    then job_kill
    else if name == "read_file"
    then read_file
    else if name == "write_file"
    then write_file
    else if name == "edit_file"
    then edit_file
    else if name == "search"
    then search
    else unknown

abbrev pub or_else : ℕ → Option ℕ → ℕ
or_else d none = d
or_else d (some n) = n

-- The command that reads `limit` lines from `offset` on. The sum is one of `u64`, which wraps.
unfoldable pub read_command : String → ℕ → ℕ → String
read_command path offset limit =
    "sed -n "
    <> show offset
    <> ","
    <> show ((offset + limit + 2 ^ 64 - 1) % 2 ^ 64)
    <> "p -- "
    <> shq path

unfoldable pub write_command : String → String → String
write_command path encoded =
    "mkdir -p -- \"$(dirname -- "
    <> shq path
    <> ")\" && printf %s "
    <> shq encoded
    <> " | base64 -d > "
    <> shq path

unfoldable pub load_command : String → String
load_command path = "base64 -w0 -- " <> shq path <> " 2>/dev/null || base64 -- " <> shq path

unfoldable pub store_command : String → String → String
store_command path encoded = "printf %s " <> shq encoded <> " | base64 -d > " <> shq path

unfoldable pub search_command : String → String → String → String
search_command mode pattern path =
    if mode == "filename"
    then "find " <> shq path <> " -name " <> shq pattern <> " -type f"
    else "grep -rnI -e " <> shq pattern <> " -- " <> shq path
