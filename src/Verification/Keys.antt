-- ===== src/Verification/Keys.antt =====
-- How a run of a planned command is matched with its step.
use aether_fx.Base.{
  ℕ, ◌≤◌, ◌<◌, Bool, true, false, List, [], ◌∷◌, ◌++◌, map, any, ◌⊎◌, Bytes, bytes_eq, bytes_eq_iff,
  length, leb, ==_iff, Bool-cases, inl, inr, ◌≡◌, ◌∙◌, refl, sym, ap, arith,
}
use aether_fx.BoundedText.{new}
use aether_fx.BoundedText.Limits.{new_limit, new_fits}
use aether_fx.Workflow.{max_workflow_field_bytes}
use aether_fx.Workflow.State.{WorkflowState, VerificationStep, text_field, new_step}
use aether_fx.Workflow.Checks.{awaits, record_verification_command}
use aether_fx.Verification.{PlannedCommand, workflow_key, workflow_step}

-- A text is stored as it is exactly when it fits in a field.
text_field-fits :
    (t : Bytes) → bytes_eq (text_field t).text t ≡ leb (length t) max_workflow_field_bytes
unfolding text_field
text_field-fits t = elim (Bool-cases (leb (length t) max_workflow_field_bytes)) [
  | inl e ↦
      let same : (new t max_workflow_field_bytes).text ≡ t =
        ap (λ b. b.text) (new_fits t max_workflow_field_bytes (ground (arith, e))) in
      rw e ((bytes_eq_iff (new t max_workflow_field_bytes).text t).1 same)
  | inr e ↦
      let short = (new_limit t max_workflow_field_bytes).0 in
      elim (Bool-cases (bytes_eq (new t max_workflow_field_bytes).text t)) [
        | inl f ↦
            let same = ap length ((bytes_eq_iff (new t max_workflow_field_bytes).text t).0 f) in
            absurd (ground (arith, e, short, same))
        | inr f ↦ f ∙ sym e
      ]
]

awaits-workflow_step :
    (c : PlannedCommand) (revision : ℕ)
    → awaits revision (workflow_key c) (workflow_step c revision)
      ≡ leb (length (workflow_key c)) max_workflow_field_bytes
unfolding workflow_step new_step
awaits-workflow_step c revision =
    rw ((==_iff revision revision).1 refl) (text_field-fits (workflow_key c))

abbrev pub planned_steps : ℕ → List PlannedCommand → List VerificationStep
planned_steps revision = map (λ c. workflow_step c revision)

-- A key that is too long for a field is that of no step.
awaits-long :
    (key : Bytes) (revision : ℕ) (d : PlannedCommand) (now : ℕ)
    → leb (length key) max_workflow_field_bytes ≡ false
    → awaits now key (workflow_step d revision) ≡ false
unfolding workflow_step new_step text_field
awaits-long key revision d now long =
    let short = (new_limit (workflow_key d) max_workflow_field_bytes).0 in
    elim (Bool-cases (bytes_eq (new (workflow_key d) max_workflow_field_bytes).text key)) [
      | inl e ↦
          let same = ap length ((bytes_eq_iff _ key).0 e) in
          absurd (ground (arith, long, short, same))
      | inr e ↦ ground (arith, e)
    ]

any-awaits-long :
    (key : Bytes) (revision now : ℕ) (ds : List PlannedCommand)
    → leb (length key) max_workflow_field_bytes ≡ false
    → any (awaits now key) (planned_steps revision ds) ≡ false
any-awaits-long key revision now [] long = refl
any-awaits-long key revision now (d ∷ ds) long =
    rw (awaits-long key revision d now long) (any-awaits-long key revision now ds long)

any-awaits-short :
    (c : PlannedCommand) (revision : ℕ) (before after : List PlannedCommand)
    → leb (length (workflow_key c)) max_workflow_field_bytes ≡ true
    → any (awaits revision (workflow_key c)) (planned_steps revision (before ++ c ∷ after)) ≡ true
any-awaits-short c revision [] after short =
    let here = awaits-workflow_step c revision ∙ short in ground (arith, here)
any-awaits-short c revision (d ∷ before) after short =
    let there = any-awaits-short c revision before after short in ground (arith, there)

-- Where the steps of a state are those planned for some commands at its revision, recording the
-- outcome of one of these commands finds a step exactly when the key of the command has at most 256
-- bytes. With a longer key nothing changes: the step that was planned for it stays as it is.
pub record_verification_command-planned :
    (s : WorkflowState) (before : List PlannedCommand) (c : PlannedCommand)
    (after : List PlannedCommand) (passed : Bool)
    → s.verification_steps ≡ planned_steps s.workspace_revision (before ++ c ∷ after)
    → ((length (workflow_key c) ≤ max_workflow_field_bytes)
        × ((record_verification_command (workflow_key c) passed s).1 ≡ true))
      ⊎ ((max_workflow_field_bytes < length (workflow_key c))
          × (record_verification_command (workflow_key c) passed s ≡ (s, false)))
unfolding record_verification_command
record_verification_command-planned s before c after passed e =
    let found = ap (any (awaits s.workspace_revision (workflow_key c))) e in
    elim (Bool-cases (leb (length (workflow_key c)) max_workflow_field_bytes)) [
      | inl short ↦
          let hit = found ∙ any-awaits-short c s.workspace_revision before after short in
          inl (ground (arith, short), rw hit refl)
      | inr long ↦
          let miss =
            found
            ∙ any-awaits-long (workflow_key c) s.workspace_revision s.workspace_revision
                (before ++ c ∷ after) long in
          inr (ground (arith, long), rw miss refl)
    ]
