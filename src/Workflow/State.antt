-- ===== src/Workflow/State.antt =====
-- crates/aether-core/src/workflow.rs: the records of the workflow state and its counters.
use aether_fx.Base.{ℕ, Bool, ◌&&◌, Option, List, Bytes, codes, saturating_add, u16_max}
use aether_fx.BoundedText.{BoundedText, new}
use aether_fx.Decision.{DecisionState}
use aether_fx.Work.{WorkState}
use aether_fx.Workflow.{
  WorkflowFailureCategory, RecoveryAction, TurnPhase, VerificationStatus, WorkflowPhase,
  WorkflowVerification, max_workflow_field_bytes,
}

-- A field of the workflow state.
unfoldable pub text_field : Bytes → BoundedText
text_field value = new value max_workflow_field_bytes

pub category_name : WorkflowFailureCategory → Bytes
category_name WorkflowFailureCategory.tool = codes "tool"
category_name WorkflowFailureCategory.compiler = codes "compiler"
category_name WorkflowFailureCategory.test = codes "test"
category_name WorkflowFailureCategory.patch_conflict = codes "patch_conflict"
category_name WorkflowFailureCategory.command = codes "command"
category_name WorkflowFailureCategory.verification = codes "verification"
category_name WorkflowFailureCategory.verification_mismatch = codes "verification_mismatch"
category_name WorkflowFailureCategory.stale_evidence = codes "stale_evidence"
category_name WorkflowFailureCategory.permission = codes "permission"
category_name WorkflowFailureCategory.environment = codes "environment"
category_name WorkflowFailureCategory.backend = codes "backend"

pub record RecoveryState : Type 0 where
  pub active : Bool
  pub category : WorkflowFailureCategory
  pub action : RecoveryAction
  pub attempts : ℕ
  pub revision : ℕ
  pub affected_paths : List BoundedText

pub record TurnDirectorState : Type 0 where
  pub phase : TurnPhase
  pub revision : ℕ
  pub transitions : ℕ
  pub last_reason : BoundedText

pub record CompletionReview : Type 0 where
  pub objective_present : Bool
  pub acceptance_criteria_satisfied : Bool
  pub work_complete : Bool
  pub blockers_clear : Bool
  pub evidence_current : Bool
  pub verification_current : Bool
  pub user_changes_preserved : Bool
  pub workspace_revision : ℕ
  pub task_revision : ℕ
  pub reasons : List BoundedText

pub record WorkflowDiagnostic : Type 0 where
  pub path : BoundedText
  pub line : ℕ
  pub column : Option ℕ
  pub code : BoundedText
  pub symbol : BoundedText
  pub detail : BoundedText

pub record VerificationStep : Type 0 where
  pub command : BoundedText
  pub scope : BoundedText
  pub revision : ℕ
  pub required : Bool
  pub status : VerificationStatus

pub record WorkflowProgress : Type 0 where
  pub discoveries : ℕ
  pub inspections : ℕ
  pub mutations : ℕ
  pub verifications : ℕ
  pub tool_results : ℕ
  pub automatic_evidence_reactions : ℕ
  pub diagnostic_hydrations : ℕ
  pub mutation_refreshes : ℕ
  pub stale_invalidations : ℕ
  pub verification_escalations : ℕ
  pub completion_rejections : ℕ
  pub consecutive_no_progress : ℕ
  pub stall_recovery_events : ℕ

pub record WorkflowFailure : Type 0 where
  pub key : BoundedText
  pub tool : BoundedText
  pub code : BoundedText
  pub message : BoundedText
  pub category : WorkflowFailureCategory
  pub attempts : ℕ
  pub revision : ℕ
  pub diagnostics : List WorkflowDiagnostic

pub record WorkflowState : Type 0 where
  pub phase : WorkflowPhase
  pub relevant_files : List Bytes
  pub work : WorkState
  pub verification : WorkflowVerification
  pub unresolved_failures : List WorkflowFailure
  pub progress : WorkflowProgress
  pub workspace_revision : ℕ
  pub verification_steps : List VerificationStep
  pub decision : DecisionState
  pub recovery : RecoveryState
  pub director : TurnDirectorState
  pub task_revision : ℕ
  pub completed_task_revision : Option ℕ

-- `WorkflowProgress::increment`.
abbrev pub increment : ℕ → ℕ
increment counter = saturating_add u16_max counter 1

abbrev pub note_discovery : WorkflowProgress → WorkflowProgress
note_discovery p = record p { discoveries = increment p.discoveries }

abbrev pub note_inspection : WorkflowProgress → WorkflowProgress
note_inspection p = record p { inspections = increment p.inspections }

abbrev pub note_mutation : WorkflowProgress → WorkflowProgress
note_mutation p = record p { mutations = increment p.mutations }

abbrev pub note_verification : WorkflowProgress → WorkflowProgress
note_verification p = record p { verifications = increment p.verifications }

abbrev pub note_completion_rejection : WorkflowProgress → WorkflowProgress
note_completion_rejection p = record p { completion_rejections = increment p.completion_rejections }

unfoldable pub new_step : Bytes → Bytes → ℕ → VerificationStep
new_step command scope revision = record {
  command = text_field command;
  scope = text_field scope;
  revision = revision;
  required = Bool.true;
  status = VerificationStatus.pending;
}

pub new_at_revision :
    Bytes
    → Bytes
    → Bytes
    → Bytes
    → WorkflowFailureCategory
    → ℕ
    → List WorkflowDiagnostic
    → WorkflowFailure
new_at_revision key tool code message category revision diagnostics = record {
  key = text_field key;
  tool = text_field tool;
  code = text_field code;
  message = text_field message;
  category = category;
  attempts = 1;
  revision = revision;
  diagnostics = diagnostics;
}

-- `CompletionReview::ready`.
abbrev pub ready : CompletionReview → Bool
ready r =
    r.objective_present && r.acceptance_criteria_satisfied && r.work_complete && r.blockers_clear
    && r.evidence_current && r.verification_current && r.user_changes_preserved
