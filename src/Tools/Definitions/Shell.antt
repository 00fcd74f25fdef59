-- ===== src/Tools/Definitions/Shell.antt =====
-- The schemas of the tools on commands and jobs (`definitions` of crates/mc-agent/src/tools.rs).
use mobile_coder.Prelude.{false, [], ◌∷◌}
use mobile_coder.Json.{Json}

module _ (J : Json) where
  open J use {Value}

  unfoldable pub bash_tool : Value
  bash_tool = J.object (
      ("name", J.string "bash")
      ∷ (
        "description",
        J.string
            "Run a shell command inside the project's Linux sandbox. Use for building, running tests, git, and package management. Output is captured and returned. For anything that does not end on its own - a dev server, a watcher, `tail -f` - pass run_in_background instead of raising the timeout.",
      )
      ∷ (
        "input_schema",
        J.object (
            ("type", J.string "object")
            ∷ (
              "properties",
              J.object (
                  (
                    "command",
                    J.object (
                        ("type", J.string "string")
                        ∷ ("description", J.string "The command to run.")
                        ∷ []),
                  )
                  ∷ (
                    "cwd",
                    J.object (
                        ("type", J.string "string")
                        ∷ (
                          "description",
                          J.string "Working directory. Defaults to the project root.",
                        )
                        ∷ []),
                  )
                  ∷ (
                    "timeout_seconds",
                    J.object (
                        ("type", J.string "integer")
                        ∷ (
                          "description",
                          J.string
                              "Kill the command after this long. Defaults to 300. Raise it for a long build; the command is killed and reported if it overruns.",
                        )
                        ∷ []),
                  )
                  ∷ (
                    "run_in_background",
                    J.object (
                        ("type", J.string "boolean")
                        ∷ (
                          "description",
                          J.string
                              "Start the command and return a job id immediately, instead of waiting for it. The job keeps running between turns, with no timeout. Read what it has printed with job_output, and end it with job_kill - always kill a job once it is no longer needed.",
                        )
                        ∷ []),
                  )
                  ∷ []),
            )
            ∷ ("required", J.array (J.string "command" ∷ []))
            ∷ ("additionalProperties", J.boolean false)
            ∷ []),
      )
      ∷ [])

  unfoldable pub job_output_tool : Value
  job_output_tool = J.object (
      ("name", J.string "job_output")
      ∷ (
        "description",
        J.string
            "Read what a background job has printed since the last read. Also reports whether it is still running. Call it with no id to list every job.",
      )
      ∷ (
        "input_schema",
        J.object (
            ("type", J.string "object")
            ∷ (
              "properties",
              J.object (
                  (
                    "id",
                    J.object (
                        ("type", J.string "string")
                        ∷ (
                          "description",
                          J.string "A job id from bash run_in_background, e.g. job-1.",
                        )
                        ∷ []),
                  )
                  ∷ []),
            )
            ∷ ("additionalProperties", J.boolean false)
            ∷ []),
      )
      ∷ [])

  unfoldable pub job_kill_tool : Value
  job_kill_tool = J.object (
      ("name", J.string "job_kill")
      ∷ (
        "description",
        J.string "Stop a background job and everything it started. Use \"all\" to stop every job.",
      )
      ∷ (
        "input_schema",
        J.object (
            ("type", J.string "object")
            ∷ (
              "properties",
              J.object (
                  (
                    "id",
                    J.object (
                        ("type", J.string "string")
                        ∷ ("description", J.string "A job id, or \"all\".")
                        ∷ []),
                  )
                  ∷ []),
            )
            ∷ ("required", J.array (J.string "id" ∷ []))
            ∷ ("additionalProperties", J.boolean false)
            ∷ []),
      )
      ∷ [])
