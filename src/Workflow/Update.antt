-- ===== src/Workflow/Update.antt =====
-- crates/aether-core/src/workflow.rs: discovery, inspection, mutation and workspace drift.
use aether_fx.Base.{
  true, false, ◌||◌, none, List, [], ◌∷◌, ◌++◌, map, min, Bytes, bytes_eq, codes, is_empty, length,
  drop, any, ltb, saturating_add, u32_max, if◌then◌else◌,
}
use aether_fx.BoundedText.{is_truncated}
use aether_fx.Tools.Action.{EvidenceProvenance}
use aether_fx.Decision.{DecisionState, DecisionEvidenceKind}
use aether_fx.Decision.Update
use aether_fx.Work.Record
use aether_fx.Work.Verify
use aether_fx.Workflow.{
  WorkflowFailureCategory, RecoveryAction, VerificationStatus, WorkflowPhase, WorkflowVerification,
  max_workflow_relevant_files,
}
use aether_fx.Workflow.State.{
  WorkflowState, VerificationStep, text_field, note_discovery, note_inspection, note_mutation,
}
use aether_fx.Workflow.Director.{is_nil, begin, clear, sync_director}

unfoldable pub clear_recovery : WorkflowState → WorkflowState
clear_recovery s =
    let cleared = record s { recovery = clear s.recovery } in
    if is_nil s.unresolved_failures then sync_director [] false cleared else cleared

-- A discovery leads from discovery, or from a completed task, to inspection.
abbrev pub after_discovery : WorkflowPhase → WorkflowPhase
after_discovery WorkflowPhase.discover = WorkflowPhase.inspect
after_discovery WorkflowPhase.complete = WorkflowPhase.inspect
after_discovery WorkflowPhase.inspect = WorkflowPhase.inspect
after_discovery WorkflowPhase.modify = WorkflowPhase.modify
after_discovery WorkflowPhase.verify = WorkflowPhase.verify

abbrev pub add_relevant : Bytes → List Bytes → List Bytes
add_relevant path files =
    let pushed = files ++ path ∷ [] in
    if ltb max_workflow_relevant_files (length pushed) then drop 1 pushed else pushed

unfoldable pub record_relevant_file_with_provenance :
    EvidenceProvenance → Bytes → WorkflowState → WorkflowState
record_relevant_file_with_provenance provenance path s =
    let p = text_field path in
    if is_truncated p
      || is_empty p.text
      || any (λ existing. bytes_eq existing p.text) s.relevant_files
    then s
    else sync_director [] false (record s {
      decision =
          Update.record_evidence_with_provenance provenance DecisionEvidenceKind.discovery p.text
            (codes "relevant path observed") 24 s.workspace_revision s.decision;
      work =
          Record.record_evidence s.work (codes "discovery") p.text (codes "relevant path observed")
            s.workspace_revision;
      relevant_files = add_relevant p.text s.relevant_files;
      progress = note_discovery s.progress;
      phase = after_discovery s.phase;
    })

-- Outside verification, `phase`.
abbrev pub unless_verifying : WorkflowPhase → WorkflowPhase → WorkflowPhase
unless_verifying phase WorkflowPhase.verify = WorkflowPhase.verify
unless_verifying phase WorkflowPhase.discover = phase
unless_verifying phase WorkflowPhase.inspect = phase
unless_verifying phase WorkflowPhase.modify = phase
unless_verifying phase WorkflowPhase.complete = phase

unfoldable pub record_inspection_with_provenance :
    EvidenceProvenance → WorkflowState → WorkflowState
record_inspection_with_provenance provenance s = sync_director [] false (record s {
  progress = note_inspection s.progress;
  decision =
      Update.record_evidence_with_provenance provenance DecisionEvidenceKind.inspection []
        (codes "targeted inspection completed") 36 s.workspace_revision s.decision;
  work =
      Record.record_evidence s.work (codes "inspection") [] (codes "targeted inspection completed")
        s.workspace_revision;
  phase = unless_verifying WorkflowPhase.inspect s.phase;
})

unfoldable pub begin_modification : WorkflowState → WorkflowState
begin_modification s =
    sync_director [] false (record s { phase = unless_verifying WorkflowPhase.modify s.phase })

abbrev pub as_stale : VerificationStep → VerificationStep
as_stale step = record step { status = VerificationStatus.stale }

abbrev pub less_confident : DecisionState → DecisionState
less_confident d = record d { progress_confidence = min d.progress_confidence 80 }

unfoldable pub record_mutation_scope : Bytes → List Bytes → WorkflowState → WorkflowState
record_mutation_scope operation paths s =
    let revision = saturating_add u32_max s.workspace_revision 1 in
    sync_director paths false (record s {
      progress = note_mutation s.progress;
      workspace_revision = revision;
      verification_steps = map as_stale s.verification_steps;
      phase = WorkflowPhase.verify;
      verification = WorkflowVerification.pending;
      completed_task_revision = none;
      decision = less_confident s.decision;
      work = Record.record_mutation s.work operation paths revision;
    })

unfoldable pub reset_for_workspace_change : WorkflowState → WorkflowState
reset_for_workspace_change s = sync_director [] true (record s {
  phase = WorkflowPhase.discover;
  relevant_files = [];
  verification = WorkflowVerification.not_required;
  verification_steps = map as_stale s.verification_steps;
  decision = Update.reset_for_workspace_change s.decision;
  work = Verify.invalidate_for_workspace_change s.work s.workspace_revision;
  recovery =
      begin WorkflowFailureCategory.stale_evidence RecoveryAction.refresh_evidence
        s.workspace_revision s.relevant_files s.recovery;
})
