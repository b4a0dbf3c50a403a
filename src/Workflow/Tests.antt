-- ===== src/Workflow/Tests.antt =====
-- A workflow that inspects, fails, modifies and completes.
use aether_fx.Base.{
  true, false, none, some, List, [], ◌∷◌, Bytes, codes, ◌≡◌, ◌⊎◌, ◌↔◌, refl, ap, arith, length,
}
use aether_fx.BoundedText.{empty_text}
use aether_fx.BoundedText.Limits.{whole}
use aether_fx.Tools.Action.{EvidenceProvenance}
use aether_fx.Decision.Tests.{no_decision, repeated}
use aether_fx.Work.Tests.{no_work}
use aether_fx.Workflow.{
  WorkflowPhase, WorkflowVerification, WorkflowFailureCategory, RecoveryAction, TurnPhase, phase_eq,
}
use aether_fx.Workflow.State.{WorkflowState, WorkflowFailure, VerificationStep, new_step}
use aether_fx.Workflow.Update.{record_mutation_scope}
use aether_fx.Workflow.Failures.{record_failure, clear_failure}
use aether_fx.Workflow.Failures.Long.{clear_failure-long}
use aether_fx.Workflow.Completion.{complete_if_ready_with_evidence}
use aether_fx.Workflow.Completion.Ready.{Ready, complete_if_ready_lem}
use aether_fx.Workflow.Restore.{enforce_bounds}
use aether_fx.Workflow.Limits.{IsLimited}
use aether_fx.Workflow.Limits.Checks.{enforce_bounds-IsLimited}
use aether_fx.Workflow.History.{
  Operation, records_relevant_file, records_inspection, records_mutation, records_failure,
  clears_failure, plans, records_command, completes, restores, run,
}
use aether_fx.Workflow.History.Gate.{Gated, run_open-Gated}
use aether_fx.Workflow.History.Debt.{complete-mutation}
use aether_fx.Workflow.History.Bounds.{run_restored-IsLimited}

-- `WorkflowState::default()`.
abbrev pub new_workflow : WorkflowState
new_workflow = record {
  phase = WorkflowPhase.discover;
  relevant_files = [];
  work = no_work;
  verification = WorkflowVerification.not_required;
  unresolved_failures = [];
  progress = record {
    discoveries = 0;
    inspections = 0;
    mutations = 0;
    verifications = 0;
    tool_results = 0;
    automatic_evidence_reactions = 0;
    diagnostic_hydrations = 0;
    mutation_refreshes = 0;
    stale_invalidations = 0;
    verification_escalations = 0;
    completion_rejections = 0;
    consecutive_no_progress = 0;
    stall_recovery_events = 0;
  };
  workspace_revision = 0;
  verification_steps = [];
  decision = no_decision;
  recovery = record {
    active = false;
    category = WorkflowFailureCategory.tool;
    action = RecoveryAction.no_action;
    attempts = 0;
    revision = 0;
    affected_paths = [];
  };
  director = record {
    phase = TurnPhase.discover;
    revision = 0;
    transitions = 0;
    last_reason = empty_text;
  };
  task_revision = 0;
  completed_task_revision = none;
}

-- One relevant file was inspected, and the objective is known.
abbrev inspected : WorkflowState
inspected = record new_workflow {
  relevant_files = codes "a.rs" ∷ [];
  work = record no_work { objective = whole (codes "explain") };
  progress = record new_workflow.progress { inspections = 1 };
}

abbrev failed_edit : Bytes → WorkflowFailure
failed_edit key = record {
  key = whole key;
  tool = whole (codes "edit");
  code = whole (codes "io");
  message = whole (codes "no such file");
  category = WorkflowFailureCategory.tool;
  attempts = 1;
  revision = 0;
  diagnostics = [];
}

abbrev plan : List VerificationStep
plan = new_step (codes "cargo test") (codes "all") 1 ∷ []

abbrev history : List Operation
history =
    records_relevant_file EvidenceProvenance.repository (codes "a.rs")
    ∷ records_inspection EvidenceProvenance.repository
    ∷ records_failure (failed_edit (codes "edit:a.rs"))
    ∷ clears_failure (codes "edit:a.rs")
    ∷ records_mutation (codes "edit") (codes "a.rs" ∷ [])
    ∷ plans plan
    ∷ records_command (codes "cargo test") true
    ∷ completes (codes "a.rs" ∷ []) true true
    ∷ restores
    ∷ []

complete_if_ready_lem_example :
    let r = complete_if_ready_with_evidence [] true true inspected in
    ((r.1 ≡ true) ↔ Ready [] true true inspected)
    × (phase_eq r.0.phase WorkflowPhase.complete ≡ r.1)
    × ((r.1 ≡ false) ⊎ (r.0.completed_task_revision ≡ some r.0.task_revision))
complete_if_ready_lem_example = complete_if_ready_lem [] true true inspected

run_open-Gated_example : Gated (run inspected history)
run_open-Gated_example = run_open-Gated inspected history refl refl

abbrev unverified : List Operation
unverified =
    records_inspection EvidenceProvenance.repository
    ∷ completes (codes "a.rs" ∷ []) true true
    ∷ restores
    ∷ []

complete-mutation_example :
    (complete_if_ready_with_evidence
      (codes "a.rs" ∷ [])
      true
      true
      (run (record_mutation_scope (codes "edit") (codes "a.rs" ∷ []) inspected) unverified)).1
    ≡ false
complete-mutation_example =
    complete-mutation inspected (codes "edit") (codes "a.rs" ∷ []) unverified (codes "a.rs" ∷ [])
      true true (refl, (refl, (refl, tt))) (λ e. absurd (omega (arith, ap length e)))

run_restored-IsLimited_example : IsLimited (run (enforce_bounds inspected) history)
run_restored-IsLimited_example = run_restored-IsLimited inspected history

clear_failure-long_example :
    (complete_if_ready_with_evidence [] true true (
      clear_failure
        (repeated 200)
        (record_failure (failed_edit (repeated 200)) (enforce_bounds inspected)))).1
    ≡ false
clear_failure-long_example =
    clear_failure-long (failed_edit (repeated 200)) (enforce_bounds inspected) [] true true
      (enforce_bounds-IsLimited inspected) (omega arith)
