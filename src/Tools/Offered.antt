-- ===== src/Tools/Offered.antt =====
-- The schemas that are offered to the model and the handlers of crates/mc-agent/src/tools.rs.
use mobile_coder.Prelude.{
  ◌≡◌, refl, String, Bool, true, false, ◌&&◌, inl, inr, Option, none, some, List, [], ◌∷◌, all,
  Option-cases, ◌⊎◌,
}
use mobile_coder.Json.{Json, IsLawful, get_str}
use mobile_coder.Sandbox.{Sandbox}
use mobile_coder.Tools.{
  execute_cancellable, dispatch, on_read_file, on_write_file, on_edit_file, edit_arguments,
  on_search,
}
use mobile_coder.Tools.Shell.{on_bash, on_job_kill}
use mobile_coder.Tools.Commands.{
  ToolOutcome, ToolName, bash, job_output, job_kill, read_file, write_file, edit_file, search,
  unknown, tool_name,
}
use mobile_coder.Tools.Definitions.{definitions}
use mobile_coder.Tools.Definitions.Demanded.{demanded_by, table, demanded}

module _ (J : Json) where
  open J use {Value}

  abbrev pub has_text : Value → String → Bool
  has_text input key = elim (get_str J input key) [ none ↦ false | some text ↦ true ]

  -- The call is one of an offered tool, with a text for all that its schema requires.
  abbrev pub is_met : Value → Option (List String) → Bool
  is_met input none = false
  is_met input (some keys) = all (has_text input) keys

  module _ (S : Sandbox) where
    open S use {World}

    abbrev IsRefused : World → ToolOutcome × World → Type 0
    IsRefused w (outcome, w') = (outcome.is_error ≡ true) × (w' ≡ w)

    -- What becomes of a call, by whether it meets the schemas.
    abbrev pub IsHandled : Bool → String → Value → World → Type 0
    IsHandled false name input w = IsRefused w (execute_cancellable J S name input w)
    IsHandled true name input w = ¬ (tool_name name ≡ unknown)

  text_cases :
      (input : Value) (key : String)
      → ((text : String) × (get_str J input key ≡ some text) × (has_text input key ≡ true))
        ⊎ ((get_str J input key ≡ none) × (has_text input key ≡ false))
  text_cases input key = elim (Option-cases (get_str J input key)) [
    | inl e ↦ inr (e, rw (e, has_text) refl)
    | inr (text, e) ↦ inl (text, e, rw (e, has_text) refl)
  ]

  rest_fails : (b c : Bool) → b ≡ true → (b && c) ≡ false → c ≡ false
  rest_fails true c e h = h
  rest_fails false c e h = cc

  -- Where one text is required, and is missing.
  alone :
      (input : Value) (key : String)
      → all (has_text input) (key ∷ []) ≡ false
      → get_str J input key ≡ none
  alone input key h = elim (text_cases input key) [
    | inr e ↦ e.0
    | inl (text, e, t) ↦ absurd (cc (rest_fails _ _ t h))
  ]

  module _ (L : IsLawful J) where
    module _ (S : Sandbox) where
      open S use {World}

      write-IsRefused :
          (input : Value) (w : World)
          → all (has_text input) ("path" ∷ "content" ∷ []) ≡ false
          → IsRefused S w (on_write_file J S input w)
      unfolding on_write_file
      write-IsRefused input w h = elim (text_cases input "path") [
        | inr e ↦ rw (e.0, on_write_file) (refl, refl)
        | inl (path, e, t) ↦
            rw (e, alone input "content" (rest_fails _ _ t h), on_write_file) (refl, refl)
      ]

      edit-IsRefused :
          (input : Value) (w : World)
          → all (has_text input) ("path" ∷ "old" ∷ "new" ∷ []) ≡ false
          → IsRefused S w (on_edit_file J S input w)
      unfolding on_edit_file edit_arguments
      edit-IsRefused input w h = elim (text_cases input "path") [
        | inr e ↦ rw (e.0, on_edit_file, edit_arguments) (refl, refl)
        | inl (path, e, t) ↦ elim (text_cases input "old") [
          | inr f ↦ rw (e, f.0, on_edit_file, edit_arguments) (refl, refl)
          | inl (old, f, u) ↦
              rw
                (
                  e,
                  f,
                  alone input "new" (rest_fails _ _ u (rest_fails _ _ t h)),
                  on_edit_file,
                  edit_arguments,
                )
                (refl, refl)
        ]
      ]

      dispatch-IsRefused :
          (tool : ToolName) (name : String) (input : Value) (w : World)
          → is_met input (table J tool) ≡ false
          → IsRefused S w (dispatch J S tool name input w)
      unfolding dispatch on_bash on_job_kill on_read_file on_search
      dispatch-IsRefused bash name input w h = rw (alone input "command" h, on_bash) (refl, refl)
      dispatch-IsRefused job_output name input w h = cc
      dispatch-IsRefused job_kill name input w h = rw (alone input "id" h, on_job_kill) (refl, refl)
      dispatch-IsRefused read_file name input w h =
          rw (alone input "path" h, on_read_file) (refl, refl)
      dispatch-IsRefused write_file name input w h = write-IsRefused input w h
      dispatch-IsRefused edit_file name input w h = edit-IsRefused input w h
      dispatch-IsRefused search name input w h =
          rw (alone input "pattern" h, on_search) (refl, refl)
      dispatch-IsRefused unknown name input w h = (refl, refl)

      handled :
          (tool : ToolName) (b : Bool) (name : String) (input : Value) (w : World)
          → tool_name name ≡ tool
          → is_met input (table J tool) ≡ b
          → IsHandled S b name input w
      unfolding execute_cancellable
      handled tool false name input w n h = rw n (dispatch-IsRefused tool name input w h)
      handled unknown true name input w n h = cc
      handled tool true name input w n h = λ u. cc

      -- With a lawful JSON, a call by a name that no offered schema has, or without a text for each
      -- argument that the schema of its name requires, is answered by an error and leaves the world
      -- as it is, and the name of every other call is one of the tools that are dispatched.
      pub offered-IsHandled :
          (name : String) (input : Value) (w : World)
          → IsHandled S (is_met input (demanded_by J name (definitions J))) name input w
      offered-IsHandled name input w =
          rw (demanded J L name) (handled (tool_name name) _ name input w refl refl)
