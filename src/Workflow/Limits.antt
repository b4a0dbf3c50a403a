-- ===== src/Workflow/Limits.antt =====
-- The sizes of a workflow state, and the updates of Update.antt.
pub mod Checks
use aether_fx.Base.{
  ℕ, ◌-◌, ◌≤◌, suc, Bool, true, false, not, ◌&&◌, ◌||◌, List, [], ◌∷◌, ◌++◌, map, min, Bytes,
  bytes_eq, is_empty, any, filter, take, drop, length, Held, Held-mapped, Held-filter, All-append,
  All-tail, length-tail, length-append, length-take, length-drop, modify_first, length-map,
  length-filter-le, length-modify_first, if◌then◌else◌, Bool-cases, ltb, Option, none, ◌≡◌, inl,
  inr, refl, arith,
}
use aether_fx.BoundedText.{BoundedText, is_truncated}
use aether_fx.BoundedText.Limits.{new_limit}
use aether_fx.Tools.Action.{EvidenceProvenance}
use aether_fx.Work.Bounds as WorkBounds
use aether_fx.Work.Record.Bounds as RecordBounds
use aether_fx.Work.Verify.Bounds as CheckBounds
use aether_fx.Work.Verify.BlockerBounds as BlockerBounds
use aether_fx.Work.Restore.Bounds as RestoreBounds
use aether_fx.Decision.{DecisionState}
use aether_fx.Decision.Update.Bounds as DecisionBounds
use aether_fx.Decision.Update.ScopeBounds as ScopeBounds
use aether_fx.Workflow.{
  WorkflowFailureCategory, RecoveryAction, WorkflowPhase, phase_eq, max_workflow_relevant_files,
  max_workflow_failures, max_workflow_verifications, max_workflow_recovery_paths,
  max_workflow_field_bytes,
}
use aether_fx.Workflow.State.{
  WorkflowDiagnostic, WorkflowState, WorkflowFailure, VerificationStep, RecoveryState, text_field,
}
use aether_fx.Workflow.Director.{
  phase_when_incomplete, clear, is_nil, is_recovery_path, begin, transition, sync_director,
}
use aether_fx.Workflow.Update.{
  clear_recovery, record_relevant_file_with_provenance, record_inspection_with_provenance,
  begin_modification, record_mutation_scope, reset_for_workspace_change, add_relevant,
  less_confident, as_stale,
}
use aether_fx.Workflow.Checks.{
  awaits, with_outcome, check_work, record_verification_command, add_steps, set_verification_plan,
}
use aether_fx.Workflow.Failures.{
  record_failure, clear_failure, has_failure, fail_again, same_key, add_failure,
}
use aether_fx.Workflow.Completion.{complete_if_ready_with_evidence, is_ready, completing, reviewing}
use aether_fx.Workflow.Restore.{enforce_bounds, bound_path, bound_failure, bound_step, retext}

abbrev pub Short : Bytes → Type 0
Short t = length t ≤ max_workflow_field_bytes

abbrev pub ShortText : BoundedText → Type 0
ShortText t = Short t.text

-- The relevant files, failures, planned steps, recovery paths and the director's reason; work and
-- decisions have bounds of their own.
abbrev pub IsLimited : WorkflowState → Type 0
IsLimited s =
    Held max_workflow_relevant_files Short s.relevant_files
    × (length s.unresolved_failures ≤ max_workflow_failures)
    × (length s.verification_steps ≤ max_workflow_verifications)
    × Held max_workflow_recovery_paths ShortText s.recovery.affected_paths
    × ShortText s.director.last_reason
    × WorkBounds.IsBounded s.work
    × DecisionBounds.IsBounded s.decision

pub text_field-Short : (value : Bytes) → ShortText (text_field value)
unfolding text_field
text_field-Short value = (new_limit value max_workflow_field_bytes).0

pub sync_director-IsLimited :
    (modified : List Bytes) (stale : Bool) (s : WorkflowState)
    → IsLimited s
    → IsLimited (sync_director modified stale s)
unfolding sync_director transition
sync_director-IsLimited modified stale s
      (files, failures, steps, recovery, reason, work, decision) =
    (files, failures, steps, recovery, text_field-Short _, work, decision)

Held-add_relevant :
    (path : Bytes) (files : List Bytes)
    → Short path
    → Held max_workflow_relevant_files Short files
    → Held max_workflow_relevant_files Short (add_relevant path files)
Held-add_relevant path files short h =
    let pushed = files ++ path ∷ [] in
    let all = All-append Short files (path ∷ []) h.1 (short, tt) in
    let tail = All-tail Short pushed all in
    (
      ground
          (arith, length-append files (path ∷ []), length-tail pushed max_workflow_relevant_files),
      elim (Bool-cases (ltb max_workflow_relevant_files (length pushed))) [
        | inl e ↦ rw e tail
        | inr e ↦ rw e all
      ],
    )

pub begin-Held :
    (category : WorkflowFailureCategory) (chosen : RecoveryAction) (revision : ℕ)
    (paths : List Bytes) (r : RecoveryState)
    → Held max_workflow_recovery_paths ShortText
        (begin category chosen revision paths r).affected_paths
unfolding begin
begin-Held category chosen revision paths r =
    Held-filter ShortText max_workflow_recovery_paths is_recovery_path _
      (Held-mapped ShortText max_workflow_recovery_paths text_field paths text_field-Short)

pub IsLimited-either :
    (c : Bool) (x y : WorkflowState) → IsLimited x → IsLimited y → IsLimited (if c then x else y)
IsLimited-either true x y a b = a
IsLimited-either false x y a b = b

less_confident-IsBounded :
    (d : DecisionState) → DecisionBounds.IsBounded d → DecisionBounds.IsBounded (less_confident d)
less_confident-IsBounded d b = record {
  evidence = b.evidence;
  questions = b.questions;
  candidates = b.candidates;
  ranked = b.ranked;
  scope = b.scope;
  verification = b.verification;
  confidence = omega (arith, b.confidence);
  target = b.target;
  reason = b.reason;
}

pub clear_recovery-IsLimited : (s : WorkflowState) → IsLimited s → IsLimited (clear_recovery s)
unfolding clear_recovery
clear_recovery-IsLimited s (files, failures, steps, recovery, reason, work, decision) =
    let kept : IsLimited (record s { recovery = clear s.recovery }) =
      (files, failures, steps, (omega arith, tt), reason, work, decision) in
    IsLimited-either _ _ _ (sync_director-IsLimited [] false _ kept) kept

pub record_relevant_file-IsLimited :
    (provenance : EvidenceProvenance) (path : Bytes) (s : WorkflowState)
    → IsLimited s
    → IsLimited (record_relevant_file_with_provenance provenance path s)
unfolding record_relevant_file_with_provenance
record_relevant_file-IsLimited provenance path s b =
    let (files, failures, steps, recovery, reason, work, decision) = b in
    IsLimited-either _ _ _ b (
      sync_director-IsLimited [] false _ (
        Held-add_relevant _ s.relevant_files (text_field-Short path) files,
        failures,
        steps,
        recovery,
        reason,
        RecordBounds.record_evidence-IsBounded s.work _ _ _ _ work,
        DecisionBounds.record_evidence-IsBounded _ _ _ _ _ _ s.decision decision,
      ))

pub record_inspection-IsLimited :
    (provenance : EvidenceProvenance) (s : WorkflowState)
    → IsLimited s
    → IsLimited (record_inspection_with_provenance provenance s)
unfolding record_inspection_with_provenance
record_inspection-IsLimited provenance s
      (files, failures, steps, recovery, reason, work, decision) =
    sync_director-IsLimited [] false _ (
      files,
      failures,
      steps,
      recovery,
      reason,
      RecordBounds.record_evidence-IsBounded s.work _ _ _ _ work,
      DecisionBounds.record_evidence-IsBounded _ _ _ _ _ _ s.decision decision,
    )

pub record_mutation-IsLimited :
    (operation : Bytes) (paths : List Bytes) (s : WorkflowState)
    → IsLimited s
    → IsLimited (record_mutation_scope operation paths s)
unfolding record_mutation_scope
record_mutation-IsLimited operation paths s
      (files, failures, steps, recovery, reason, work, decision) =
    sync_director-IsLimited paths false _ (
      files,
      failures,
      omega (arith, length-map as_stale s.verification_steps),
      recovery,
      reason,
      RecordBounds.record_mutation-IsBounded s.work operation paths _ work,
      less_confident-IsBounded s.decision decision,
    )

pub reset-IsLimited : (s : WorkflowState) → IsLimited s → IsLimited (reset_for_workspace_change s)
unfolding reset_for_workspace_change
reset-IsLimited s (files, failures, steps, recovery, reason, work, decision) =
    sync_director-IsLimited [] true _ (
      (omega arith, tt),
      failures,
      omega (arith, length-map as_stale s.verification_steps),
      begin-Held _ _ _ s.relevant_files s.recovery,
      reason,
      BlockerBounds.invalidate-IsBounded s.work s.workspace_revision work,
      ScopeBounds.reset-IsBounded s.decision,
    )
