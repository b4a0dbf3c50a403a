-- ===== src/Workflow.antt =====
-- crates/aether-core/src/workflow.rs: the enumerations and the limits of the workflow state.
pub mod State
pub mod Director
pub mod Update
pub mod Checks
pub mod Failures
pub mod Completion
pub mod Restore
pub mod Limits
pub mod History
pub mod Tests
use aether_fx.Base.{ℕ, Bool, true, false}

abbrev pub max_workflow_relevant_files : ℕ
max_workflow_relevant_files = 32

abbrev pub max_workflow_failures : ℕ
max_workflow_failures = 8

abbrev pub max_workflow_field_bytes : ℕ
max_workflow_field_bytes = 256

abbrev pub max_workflow_verifications : ℕ
max_workflow_verifications = 16

abbrev pub max_workflow_diagnostics : ℕ
max_workflow_diagnostics = 8

abbrev pub max_workflow_recovery_paths : ℕ
max_workflow_recovery_paths = 8

abbrev pub max_completion_review_reasons : ℕ
max_completion_review_reasons = 8

pub data WorkflowFailureCategory : Type 0 where
  tool compiler test patch_conflict command verification verification_mismatch stale_evidence
        permission environment backend :
      WorkflowFailureCategory

pub data RecoveryAction : Type 0 where
  refresh_evidence retry_equivalent request_new_decision record_blocker no_action : RecoveryAction

pub data TurnPhase : Type 0 where
  discover understand implement recover verify review done : TurnPhase

pub data VerificationStatus : Type 0 where
  pending passed failed stale : VerificationStatus

pub data WorkflowPhase : Type 0 where
  discover inspect modify verify complete : WorkflowPhase

pub data WorkflowVerification : Type 0 where
  not_required pending passed failed : WorkflowVerification

-- The derived `==` of the enumerations.
abbrev pub phase_eq : WorkflowPhase → WorkflowPhase → Bool
phase_eq WorkflowPhase.discover WorkflowPhase.discover = true
phase_eq WorkflowPhase.inspect WorkflowPhase.inspect = true
phase_eq WorkflowPhase.modify WorkflowPhase.modify = true
phase_eq WorkflowPhase.verify WorkflowPhase.verify = true
phase_eq WorkflowPhase.complete WorkflowPhase.complete = true
phase_eq _ _ = false

abbrev pub turn_phase_eq : TurnPhase → TurnPhase → Bool
turn_phase_eq TurnPhase.discover TurnPhase.discover = true
turn_phase_eq TurnPhase.understand TurnPhase.understand = true
turn_phase_eq TurnPhase.implement TurnPhase.implement = true
turn_phase_eq TurnPhase.recover TurnPhase.recover = true
turn_phase_eq TurnPhase.verify TurnPhase.verify = true
turn_phase_eq TurnPhase.review TurnPhase.review = true
turn_phase_eq TurnPhase.done TurnPhase.done = true
turn_phase_eq _ _ = false

abbrev pub is_passed : VerificationStatus → Bool
is_passed VerificationStatus.passed = true
is_passed VerificationStatus.pending = false
is_passed VerificationStatus.failed = false
is_passed VerificationStatus.stale = false

abbrev pub is_pending : VerificationStatus → Bool
is_pending VerificationStatus.pending = true
is_pending VerificationStatus.passed = false
is_pending VerificationStatus.failed = false
is_pending VerificationStatus.stale = false

-- Pending or failed.
abbrev pub is_owed : WorkflowVerification → Bool
is_owed WorkflowVerification.pending = true
is_owed WorkflowVerification.failed = true
is_owed WorkflowVerification.not_required = false
is_owed WorkflowVerification.passed = false

abbrev pub has_passed : WorkflowVerification → Bool
has_passed WorkflowVerification.passed = true
has_passed WorkflowVerification.not_required = false
has_passed WorkflowVerification.pending = false
has_passed WorkflowVerification.failed = false
