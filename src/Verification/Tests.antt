-- ===== src/Verification/Tests.antt =====
-- A command with a quote and a space in an argument.
use aether_fx.Base.{false, ◌≤◌, ◌<◌, ◌⊎◌, true, none, some, refl, [], ◌∷◌, codes, length, ◌≡◌}
use aether_fx.Workflow.{max_workflow_field_bytes}
use aether_fx.Workflow.Checks.{record_verification_command}
use aether_fx.Workflow.State.{WorkflowState}
use aether_fx.Workflow.Tests.{new_workflow}
use aether_fx.Verification.{PlannedCommand, command_owned, display, workflow_key, workflow_step}
use aether_fx.Verification.Words.{Mode, split, split-display}
use aether_fx.Verification.Keys.{record_verification_command-planned}

abbrev pytest : PlannedCommand
pytest =
    command_owned (codes "python") (codes "-m" ∷ codes "pytest" ∷ codes "it's new.py" ∷ [])
      (codes "api") (codes "python package")

split-display_example :
    split true Mode.plain none (display pytest) ≡ some (pytest.program ∷ pytest.args)
split-display_example = split-display pytest refl

abbrev planned : WorkflowState
planned = record new_workflow {
  verification_steps = workflow_step pytest new_workflow.workspace_revision ∷ [];
}

record_verification_command-planned_example :
    ((length (workflow_key pytest) ≤ max_workflow_field_bytes)
      × ((record_verification_command (workflow_key pytest) true planned).1 ≡ true))
    ⊎ ((max_workflow_field_bytes < length (workflow_key pytest))
        × (record_verification_command (workflow_key pytest) true planned ≡ (planned, false)))
record_verification_command-planned_example =
    record_verification_command-planned planned [] pytest [] true refl
