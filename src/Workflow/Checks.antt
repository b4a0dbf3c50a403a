-- ===== src/Workflow/Checks.antt =====
-- crates/aether-core/src/workflow.rs: the verification plan and the outcomes of its commands.
use aether_fx.Base.{
  ℕ, ◌-◌, Bool, true, false, ◌&&◌, ◌||◌, List, [], ◌∷◌, ◌++◌, map, Bytes, bytes_eq, is_empty,
  length, drop, any, all, filter, modify_first, ◌==◌, if◌then◌else◌,
}
use aether_fx.BoundedText.{BoundedText, text_eq}
use aether_fx.Work.{WorkState}
use aether_fx.Work.Verify
use aether_fx.Workflow.{
  VerificationStatus, WorkflowPhase, WorkflowVerification, is_passed, is_pending,
  max_workflow_verifications,
}
use aether_fx.Workflow.State.{
  WorkflowState, WorkflowDiagnostic, VerificationStep, note_verification,
}
use aether_fx.Workflow.Director.{sync_director, is_required}

abbrev pub planned : ℕ → VerificationStep → VerificationStep
planned revision step = record step { revision = revision; status = VerificationStatus.pending }

abbrev pub same_step : ℕ → BoundedText → VerificationStep → Bool
same_step revision command existing =
    existing.revision == revision && text_eq existing.command command

-- The loop of `set_verification_plan`.
pub add_steps : ℕ → List VerificationStep → List VerificationStep → List VerificationStep
add_steps revision [] steps = steps
add_steps revision (step ∷ rest) steps = add_steps revision rest (
    if is_empty step.command.text || any (same_step revision step.command) steps
    then steps
    else steps ++ planned revision step ∷ [])

unfoldable pub set_verification_plan : List VerificationStep → WorkflowState → WorkflowState
unfolding add_steps
set_verification_plan plan s =
    let steps = add_steps s.workspace_revision plan s.verification_steps in
    record s { verification_steps = drop (length steps - max_workflow_verifications) steps }

abbrev pub awaits : ℕ → Bytes → VerificationStep → Bool
awaits revision command step =
    step.revision == revision && is_pending step.status && bytes_eq step.command.text command

abbrev pub outcome : Bool → VerificationStatus
outcome true = VerificationStatus.passed
outcome false = VerificationStatus.failed

abbrev pub with_outcome : Bool → VerificationStep → VerificationStep
with_outcome passed step = record step { status = outcome passed }

abbrev pub all_required_passed : ℕ → List VerificationStep → Bool
all_required_passed revision steps =
    all (λ step. is_passed step.status)
      (filter (λ step. is_required step && step.revision == revision) steps)

abbrev pub command_outcome : Bool → Bool → WorkflowVerification
command_outcome true passed = WorkflowVerification.passed
command_outcome false true = WorkflowVerification.pending
command_outcome false false = WorkflowVerification.failed

unfoldable pub record_verification_command : Bytes → Bool → WorkflowState → WorkflowState × Bool
record_verification_command command passed s =
    let awaited = awaits s.workspace_revision command in
    let steps = modify_first awaited (with_outcome passed) s.verification_steps in
    let all_passed = all_required_passed s.workspace_revision steps in
    if any awaited s.verification_steps
    then (
      sync_director [] false (record s {
        verification_steps = steps;
        verification = command_outcome all_passed passed;
        progress = if all_passed then note_verification s.progress else s.progress;
        phase = WorkflowPhase.verify;
      }),
      true,
    )
    else (s, false)

abbrev pub details : List WorkflowDiagnostic → List Bytes
details = map (λ diagnostic. diagnostic.detail.text)

abbrev pub check_work :
    Bool → Bytes → List Bytes → List WorkflowDiagnostic → WorkflowState → WorkState
check_work passed command affected_paths diagnostics s =
    Verify.record_verification s.work command s.decision.verification_scope.text passed
      s.workspace_revision (details diagnostics) affected_paths

abbrev pub scope_outcome : Bool → WorkflowVerification
scope_outcome true = WorkflowVerification.passed
scope_outcome false = WorkflowVerification.failed

unfoldable pub record_verification_scope :
    Bool → Bytes → List Bytes → List WorkflowDiagnostic → WorkflowState → WorkflowState
record_verification_scope passed command affected_paths diagnostics s =
    sync_director affected_paths false (record s {
      progress = if passed then note_verification s.progress else s.progress;
      verification = scope_outcome passed;
      phase = WorkflowPhase.verify;
      work = check_work passed command affected_paths diagnostics s;
    })

unfoldable pub record_work_verification :
    Bool → Bytes → List Bytes → List WorkflowDiagnostic → WorkflowState → WorkflowState
record_work_verification passed command affected_paths diagnostics s =
    sync_director affected_paths false
      (record s { work = check_work passed command affected_paths diagnostics s })
