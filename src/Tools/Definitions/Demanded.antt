-- ===== src/Tools/Definitions/Demanded.antt =====
-- What the schemas of crates/mc-agent/src/tools.rs require, by the name of the tool.
use mobile_coder.Prelude.{
  ◌≡◌, refl, String, Bool, true, false, Option, none, some, List, [], ◌∷◌, map, filter_map, ◌==◌,
  if◌then◌else◌, ◌>>=◌, unwrap_or,
}
use mobile_coder.Json.{Json, IsLawful, get_str, entry}
use mobile_coder.Tools.Commands.{
  ToolName, bash, job_output, job_kill, read_file, write_file, edit_file, search, unknown,
  tool_name,
}
use mobile_coder.Tools.Definitions.{definitions, mark_last}
use mobile_coder.Tools.Definitions.Files.{
  read_file_tool, write_file_tool, edit_file_tool, search_tool,
}
use mobile_coder.Tools.Definitions.Shell.{bash_tool, job_output_tool, job_kill_tool}

module _ (J : Json) where
  open J use {Value}

  -- What a schema says: the name of its tool, and the arguments that are required.
  abbrev pub name_of : Value → String
  name_of tool = unwrap_or "" (get_str J tool "name")

  abbrev pub required_of : Value → List String
  required_of tool = filter_map J.as_str (
      unwrap_or [] (J.get tool "input_schema" >>= λ schema. J.get schema "required" >>= J.as_array))

  -- What is required where a tool of that name is offered.
  abbrev pub demanded_by : String → List Value → Option (List String)
  demanded_by name [] = none
  demanded_by name (tool ∷ tools) =
      let rest = demanded_by name tools in
      if name == name_of tool then some (required_of tool) else rest

  abbrev pub table : ToolName → Option (List String)
  table bash = some ("command" ∷ [])
  table job_output = some []
  table job_kill = some ("id" ∷ [])
  table read_file = some ("path" ∷ [])
  table write_file = some ("path" ∷ "content" ∷ [])
  table edit_file = some ("path" ∷ "old" ∷ "new" ∷ [])
  table search = some ("pattern" ∷ [])
  table unknown = none

  -- What one schema says.
  record Says (tool : Value) (name : String) (keys : List String) : Type 0 where
    named : name_of tool ≡ name
    requires : required_of tool ≡ keys

  first :
      (b : Bool) (tool other : ToolName) (rest : Option (List String))
      → rest ≡ table other
      → (if b then table tool else rest) ≡ table (if b then tool else other)
  first true tool other rest e = refl
  first false tool other rest e = e

  module _ (L : IsLawful J) where
    texts : (keys : List String) → filter_map J.as_str (map J.string keys) ≡ keys
    texts [] = refl
    texts (key ∷ keys) = rw (L.as_str-string key, texts keys) refl

    says :
        (tool : Value) (name : String) (schema : List (String × Value)) (keys : List String)
        → J.get tool "name" ≡ some (J.string name)
        → J.get tool "input_schema" ≡ some (J.object schema)
        → entry "required" schema ≡ some (J.array (map J.string keys))
        → Says tool name keys
    says tool name schema keys n s r = record {
      named = rw (n, L.as_str-string name) refl;
      requires =
          rw (s, L.get-object schema "required", r, L.as_array-array (map J.string keys))
            (texts keys);
    }

    bash-Says : Says (bash_tool J) "bash" ("command" ∷ [])
    unfolding bash_tool ◌==◌
    bash-Says =
        says _ "bash" _ ("command" ∷ []) (L.get-object _ "name") (L.get-object _ "input_schema")
          refl

    job_output-Says : Says (job_output_tool J) "job_output" []
    unfolding job_output_tool ◌==◌
    job_output-Says = record {
      named = rw (L.get-object _ "name") (rw (L.as_str-string "job_output") refl);
      requires = rw (L.get-object _ "input_schema") (rw (L.get-object _ "required") refl);
    }

    job_kill-Says : Says (job_kill_tool J) "job_kill" ("id" ∷ [])
    unfolding job_kill_tool ◌==◌
    job_kill-Says =
        says _ "job_kill" _ ("id" ∷ []) (L.get-object _ "name") (L.get-object _ "input_schema") refl

    read_file-Says : Says (read_file_tool J) "read_file" ("path" ∷ [])
    unfolding read_file_tool ◌==◌
    read_file-Says =
        says _ "read_file" _ ("path" ∷ []) (L.get-object _ "name") (L.get-object _ "input_schema")
          refl

    write_file-Says : Says (write_file_tool J) "write_file" ("path" ∷ "content" ∷ [])
    unfolding write_file_tool ◌==◌
    write_file-Says =
        says _ "write_file" _ ("path" ∷ "content" ∷ []) (L.get-object _ "name")
          (L.get-object _ "input_schema") refl

    edit_file-Says : Says (edit_file_tool J) "edit_file" ("path" ∷ "old" ∷ "new" ∷ [])
    unfolding edit_file_tool ◌==◌
    edit_file-Says =
        says _ "edit_file" _ ("path" ∷ "old" ∷ "new" ∷ []) (L.get-object _ "name")
          (L.get-object _ "input_schema") refl

    search-Says :
        Says
          (J.insert
            (search_tool J)
            "cache_control"
            (J.object (("type", J.string "ephemeral") ∷ [])))
          "search"
          ("pattern" ∷ [])
    unfolding search_tool ◌==◌
    search-Says =
        says _ "search" _ ("pattern" ∷ []) (L.get-insert _ "cache_control" _ "name")
          (L.get-insert _ "cache_control" _ "input_schema") refl

    pub demanded : (name : String) → demanded_by name (definitions J) ≡ table (tool_name name)
    unfolding definitions mark_last tool_name
    demanded name =
        rw (bash-Says.named, bash-Says.requires, job_output-Says.named, job_output-Says.requires)
          (rw
            (
              job_kill-Says.named, job_kill-Says.requires, read_file-Says.named,
              read_file-Says.requires,
            )
            (rw
              (
                write_file-Says.named, write_file-Says.requires, edit_file-Says.named,
                edit_file-Says.requires,
              )
              (rw (search-Says.named, search-Says.requires)
                (first (name == "bash") bash _ _ (
                  first (name == "job_output") job_output _ _ (
                    first (name == "job_kill") job_kill _ _ (
                      first (name == "read_file") read_file _ _ (
                        first (name == "write_file") write_file _ _ (
                          first (name == "edit_file") edit_file _ _
                            (first (name == "search") search _ _ refl))))))))))
