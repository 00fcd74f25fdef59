-- ===== src/Tools/Definitions.antt =====
-- `definitions` of crates/mc-agent/src/tools.rs: the schemas that are sent with each request.
pub mod Demanded
pub mod Files
pub mod Shell
use mobile_coder.Prelude.{List, [], ◌∷◌}
use mobile_coder.Json.{Json}
use mobile_coder.Tools.Definitions.Files.{
  read_file_tool, write_file_tool, edit_file_tool, search_tool,
}
use mobile_coder.Tools.Definitions.Shell.{bash_tool, job_output_tool, job_kill_tool}

module _ (J : Json) where
  open J use {Value}

  -- `tools.last_mut()` gets the cache breakpoint.
  unfoldable pub mark_last : List Value → List Value
  mark_last [] = []
  mark_last (t ∷ []) =
      J.insert t "cache_control" (J.object (("type", J.string "ephemeral") ∷ [])) ∷ []
  mark_last (t ∷ u ∷ ts) = t ∷ mark_last (u ∷ ts)

  unfoldable pub definitions : List Value
  unfolding mark_last bash_tool job_output_tool job_kill_tool read_file_tool write_file_tool
      edit_file_tool search_tool
  definitions = mark_last (
      bash_tool J
      ∷ job_output_tool J
      ∷ job_kill_tool J
      ∷ read_file_tool J
      ∷ write_file_tool J
      ∷ edit_file_tool J
      ∷ search_tool J
      ∷ [])
