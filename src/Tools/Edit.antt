-- ===== src/Tools/Edit.antt =====
-- The `edit_file` tool (crates/mc-agent/src/tools.rs): what it writes, and when it writes nothing.
use mobile_coder.Prelude.{
  ◌≡◌, refl, ap, ◌<>◌, String, true, false, inl, inr, none, Bool-cases, eqb, eqb→eq, ◌⊎◌, arith,
}
use mobile_coder.Prelude.Text.{count_matches, is_empty}
use mobile_coder.Prelude.Text.Counted.{count_matches-twice}
use mobile_coder.Prelude.Text.Replaced.{replace_first-IsEdit}
use mobile_coder.Json.{Json}
use mobile_coder.Sandbox.{Sandbox, run}
use mobile_coder.Tools.{replace_in}
use mobile_coder.Tools.Commands.{store_command}

module _ (J : Json) (S : Sandbox) where
  open S use {World}

  -- Where the old text occurs once in the file, what the edit runs is the command that writes the
  -- file back with that one occurrence replaced and all else kept.
  pub edit_replaces_match :
      (path old new current : String) (w : World)
      → count_matches old current ≡ 1
      → (a b : String) × (current ≡ a <> (old <> b))
        × ((replace_in J S path old new current w).1
            ≡ (run S (store_command path (S.encode (a <> (new <> b)))) none w).1)
  unfolding replace_in
  edit_replaces_match path old new current w once =
      let (a, b, e, f) = replace_first-IsEdit old new current (ap (λ n. eqb n 0) once) in
      (a, b, e, rw once (ap (λ t. (run S (store_command path (S.encode t)) none w).1) f))

  -- An edit that does not count the old text once fails and runs nothing.
  refused_count :
      (path old new current : String) (w : World)
      → eqb (count_matches old current) 1 ≡ false
      → ((replace_in J S path old new current w).1 ≡ w)
        × ((replace_in J S path old new current w).0.is_error ≡ true)
  unfolding replace_in
  refused_count path old new current w other =
      elim (Bool-cases (eqb (count_matches old current) 0)) [
        | inl z ↦ rw z (refl, refl)
        | inr z ↦ rw (z, other) (refl, refl)
      ]

  -- A file in which the old text stands nowhere, or, where it is not empty, in two places that do not
  -- overlap.
  abbrev pub IsAmbiguous : (old current : String) → Type 0
  IsAmbiguous old current =
      ((a b : String) → ¬ (current ≡ a <> (old <> b)))
      ⊎ ((is_empty old ≡ false)
          × (a : String) × (b : String) × (c : String) × (current
              ≡ a <> (old <> (b <> (old <> c)))))

  not_once : (old current : String) → IsAmbiguous old current → ¬ (count_matches old current ≡ 1)
  not_once old current (inl nowhere) once =
      let (a, b, e, f) = replace_first-IsEdit old "" current (ap (λ n. eqb n 0) once) in
      nowhere a b e
  not_once old current (inr (full, a, b, c, e)) once =
      let twice = count_matches-twice old a b c full in
      let same = ap (count_matches old) e in omega (arith, twice, same, once)

  -- Where the old text stands nowhere in the file, or is not empty and stands in two places of it
  -- that do not overlap, the edit runs nothing and fails.
  pub edit_refuses_ambiguity :
      (path old new current : String) (w : World)
      → IsAmbiguous old current
      → ((replace_in J S path old new current w).1 ≡ w)
        × ((replace_in J S path old new current w).0.is_error ≡ true)
  edit_refuses_ambiguity path old new current w h =
      elim (Bool-cases (eqb (count_matches old current) 1)) [
        | inl once ↦ absurd (not_once old current h (eqb→eq _ _ once))
        | inr other ↦ refused_count path old new current w other
      ]
