-- ===== src/Workflow/History.antt =====
-- crates/aether-core/src/workflow.rs: the operations on a workflow state, in any order.
pub mod Gate
pub mod Debt
pub mod Bounds
use aether_fx.Base.{ℕ, Bool, List, [], ◌∷◌, Bytes}
use aether_fx.Tools.Action.{EvidenceProvenance}
use aether_fx.Workflow.State.{WorkflowState, WorkflowFailure, WorkflowDiagnostic, VerificationStep}
use aether_fx.Workflow.Update.{
  clear_recovery, record_relevant_file_with_provenance, record_inspection_with_provenance,
  begin_modification, record_mutation_scope, reset_for_workspace_change,
}
use aether_fx.Workflow.Checks.{
  set_verification_plan, record_verification_command, record_verification_scope,
  record_work_verification,
}
use aether_fx.Workflow.Failures.{record_failure, clear_failure}
use aether_fx.Workflow.Completion.{complete_if_ready_with_evidence}
use aether_fx.Workflow.Restore.{enforce_bounds}

-- A call of one of the methods, with its arguments.
pub data Operation : Type 0 where
  clears_recovery : Operation
  records_relevant_file : (provenance : EvidenceProvenance) (path : Bytes) → Operation
  records_inspection : (provenance : EvidenceProvenance) → Operation
  begins_modification : Operation
  records_mutation : (operation : Bytes) (paths : List Bytes) → Operation
  resets : Operation
  plans : (plan : List VerificationStep) → Operation
  records_command : (command : Bytes) (passed : Bool) → Operation
  records_verification :
      (passed : Bool) (command : Bytes) (paths : List Bytes) (diagnostics : List WorkflowDiagnostic)
      → Operation
  records_work_verification :
      (passed : Bool) (command : Bytes) (paths : List Bytes) (diagnostics : List WorkflowDiagnostic)
      → Operation
  records_failure : (failure : WorkflowFailure) → Operation
  clears_failure : (key : Bytes) → Operation
  completes : (modified : List Bytes) (evidence_current preserved : Bool) → Operation
  restores : Operation

pub apply : WorkflowState → Operation → WorkflowState
apply s clears_recovery = clear_recovery s
apply s (records_relevant_file provenance path) =
    record_relevant_file_with_provenance provenance path s
apply s (records_inspection provenance) = record_inspection_with_provenance provenance s
apply s begins_modification = begin_modification s
apply s (records_mutation operation paths) = record_mutation_scope operation paths s
apply s resets = reset_for_workspace_change s
apply s (plans plan) = set_verification_plan plan s
apply s (records_command command passed) = (record_verification_command command passed s).0
apply s (records_verification passed command paths diagnostics) =
    record_verification_scope passed command paths diagnostics s
apply s (records_work_verification passed command paths diagnostics) =
    record_work_verification passed command paths diagnostics s
apply s (records_failure failure) = record_failure failure s
apply s (clears_failure key) = clear_failure key s
apply s (completes modified evidence_current preserved) =
    (complete_if_ready_with_evidence modified evidence_current preserved s).0
apply s restores = enforce_bounds s

pub run : WorkflowState → List Operation → WorkflowState
unfolding apply
run s [] = s
run s (o ∷ os) = run (apply s o) os
