-- ===== src/Tools/Shell.antt =====
-- The handlers of the tools on commands and jobs (crates/mc-agent/src/tools.rs).
use mobile_coder.Prelude.{
  ℕ, min, max, ◌<>◌, String, Bool, false, Option, none, some, [], ◌∷◌, map, ltb, ◌==◌,
  if◌then◌else◌, ◌>>=◌,
}
use mobile_coder.Prelude.Text.{show, is_empty, join}
use mobile_coder.Json.{Json, get_str}
use mobile_coder.Jobs.{JobRead, describe, describe_status}
use mobile_coder.Sandbox.{Sandbox, ok, err, run_cancellable}
use mobile_coder.Tools.Commands.{
  default_timeout_secs, max_timeout_secs, clamp_output, ToolOutcome, stopped, success, failure,
  describe_output, unknown_job, or_else,
}

module _ (J : Json) (S : Sandbox) where
  open J use {Value}
  open S use {World}

  unfoldable pub run_command : String → Option String → ℕ → World → ToolOutcome × World
  run_command command cwd timeout w =
      let (ran, w') = run_cancellable S command cwd (some timeout) w in
      (
        elim ran [
          | err e ↦ failure e
          | ok out ↦ if S.is_cancelled w' then stopped else describe_output timeout out
        ],
        w',
      )

  unfoldable pub start_job : String → Option String → World → ToolOutcome × World
  start_job command cwd w =
      let (started, w') = S.start_background command cwd w in
      (
        elim started [
          | err e ↦ failure e
          | ok id ↦ success (
              "started " <> id <> " in the background. Read it with job_output {\"id\": \"" <> id
              <> "\"}, and stop it with job_kill when it is no longer needed.")
        ],
        w',
      )

  unfoldable pub read_text : JobRead → String
  read_text r =
      describe r.summary
      <> "\n"
      <> (if ltb 0 r.dropped
          then "… "
            <> show r.dropped
            <> " characters dropped from the start; this job prints more than is kept …\n"
          else "")
      <> (if is_empty r.output then "(nothing new since the last read)" else r.output)

  unfoldable pub read_job : String → World → ToolOutcome × World
  read_job id w =
      let (found, w') = S.read_job id w in
      (
        elim found [
          | none ↦ failure (unknown_job id)
          | some r ↦ success (clamp_output (read_text r))
        ],
        w',
      )

  unfoldable pub list_jobs : World → ToolOutcome
  list_jobs w = elim (S.list_jobs w) [
    | [] ↦ success "no background jobs"
    | j ∷ js ↦ success (join "\n" (map describe (j ∷ js)))
  ]

  unfoldable pub on_bash : Value → World → ToolOutcome × World
  on_bash input w = elim (get_str J input "command") [
    | none ↦ (failure "bash requires a `command`", w)
    | some command ↦
        let cwd : Option String = get_str J input "cwd" in
        let background : Bool = elim (J.get input "run_in_background" >>= J.as_bool) [
          | none ↦ false
          | some b ↦ b
        ] in
        let seconds =
          min (max 1 (or_else default_timeout_secs (J.get input "timeout_seconds" >>= J.as_u64)))
            max_timeout_secs in
        if background then start_job command cwd w else run_command command cwd seconds w
  ]

  unfoldable pub on_job_output : Value → World → ToolOutcome × World
  on_job_output input w = elim (get_str J input "id") [
    | none ↦ (list_jobs w, w)
    | some id ↦ read_job id w
  ]

  unfoldable pub kill_one : String → World → ToolOutcome × World
  kill_one id w =
      let (found, w') = S.kill_job id w in
      (
        elim found [
          | none ↦ failure (unknown_job id)
          | some job ↦ success (id <> " " <> describe_status job.status)
        ],
        w',
      )

  unfoldable pub kill_every : World → ToolOutcome × World
  kill_every w = let (n, w') = S.kill_all w in (success ("killed " <> show n <> " job(s)"), w')

  unfoldable pub on_job_kill : Value → World → ToolOutcome × World
  on_job_kill input w = elim (get_str J input "id") [
    | none ↦ (failure "job_kill requires an `id` (or \"all\")", w)
    | some id ↦ if id == "all" then kill_every w else kill_one id w
  ]
