-- ===== src/Tools/Definitions/Files.antt =====
-- The schemas of the tools on files (`definitions` of crates/mc-agent/src/tools.rs).
use mobile_coder.Prelude.{true, false, [], ◌∷◌}
use mobile_coder.Json.{Json}

module _ (J : Json) where
  open J use {Value}

  unfoldable pub read_file_tool : Value
  read_file_tool = J.object (
      ("name", J.string "read_file")
      ∷ (
        "description",
        J.string
            "Read a text file. Prefer this over `cat` so large files can be paged rather than dumped whole.",
      )
      ∷ (
        "input_schema",
        J.object (
            ("type", J.string "object")
            ∷ (
              "properties",
              J.object (
                  ("path", J.object (("type", J.string "string") ∷ []))
                  ∷ (
                    "offset",
                    J.object (
                        ("type", J.string "integer")
                        ∷ ("description", J.string "First line, 1-indexed.")
                        ∷ []),
                  )
                  ∷ (
                    "limit",
                    J.object (
                        ("type", J.string "integer")
                        ∷ ("description", J.string "How many lines to read.")
                        ∷ []),
                  )
                  ∷ []),
            )
            ∷ ("required", J.array (J.string "path" ∷ []))
            ∷ ("additionalProperties", J.boolean false)
            ∷ []),
      )
      ∷ [])

  unfoldable pub write_file_tool : Value
  write_file_tool = J.object (
      ("name", J.string "write_file")
      ∷ (
        "description",
        J.string "Write a file in full, creating it if needed. Overwrites existing content.",
      )
      ∷ (
        "input_schema",
        J.object (
            ("type", J.string "object")
            ∷ (
              "properties",
              J.object (
                  ("path", J.object (("type", J.string "string") ∷ []))
                  ∷ ("content", J.object (("type", J.string "string") ∷ []))
                  ∷ []),
            )
            ∷ ("required", J.array (J.string "path" ∷ J.string "content" ∷ []))
            ∷ ("additionalProperties", J.boolean false)
            ∷ []),
      )
      ∷ ("strict", J.boolean true)
      ∷ [])

  unfoldable pub edit_file_tool : Value
  edit_file_tool = J.object (
      ("name", J.string "edit_file")
      ∷ (
        "description",
        J.string
            "Replace an exact string in a file. `old` must appear exactly once, or the edit is refused - this is intentional, so an ambiguous edit fails loudly rather than changing the wrong line.",
      )
      ∷ (
        "input_schema",
        J.object (
            ("type", J.string "object")
            ∷ (
              "properties",
              J.object (
                  ("path", J.object (("type", J.string "string") ∷ []))
                  ∷ (
                    "old",
                    J.object (
                        ("type", J.string "string")
                        ∷ (
                          "description",
                          J.string "Exact text to replace. Must be unique in the file.",
                        )
                        ∷ []),
                  )
                  ∷ (
                    "new",
                    J.object (
                        ("type", J.string "string")
                        ∷ ("description", J.string "Replacement text.")
                        ∷ []),
                  )
                  ∷ []),
            )
            ∷ ("required", J.array (J.string "path" ∷ J.string "old" ∷ J.string "new" ∷ []))
            ∷ ("additionalProperties", J.boolean false)
            ∷ []),
      )
      ∷ ("strict", J.boolean true)
      ∷ [])

  unfoldable pub search_tool : Value
  search_tool = J.object (
      ("name", J.string "search")
      ∷ (
        "description",
        J.string
            "Search file contents (regex) or find files by name, without spending a bash turn.",
      )
      ∷ (
        "input_schema",
        J.object (
            ("type", J.string "object")
            ∷ (
              "properties",
              J.object (
                  ("pattern", J.object (("type", J.string "string") ∷ []))
                  ∷ (
                    "path",
                    J.object (
                        ("type", J.string "string")
                        ∷ (
                          "description",
                          J.string "Directory to search. Defaults to the project root.",
                        )
                        ∷ []),
                  )
                  ∷ (
                    "mode",
                    J.object (
                        ("type", J.string "string")
                        ∷ ("enum", J.array (J.string "content" ∷ J.string "filename" ∷ []))
                        ∷ []),
                  )
                  ∷ []),
            )
            ∷ ("required", J.array (J.string "pattern" ∷ []))
            ∷ ("additionalProperties", J.boolean false)
            ∷ []),
      )
      ∷ [])
