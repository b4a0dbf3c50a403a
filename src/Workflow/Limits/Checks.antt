-- ===== src/Workflow/Limits/Checks.antt =====
-- The sizes of a workflow state after checks, failures, completion and a restore.
use aether_fx.Base.{
  ◌-◌, ◌≤◌, Bool, true, false, not, List, [], ◌∷◌, ◌++◌, Bytes, is_empty, any, filter, take, length,
  Held, Held-mapped, Held-filter, length-append, length-take, length-drop, modify_first, length-map,
  length-filter-le, length-modify_first, if◌then◌else◌, Bool-cases, none, inl, inr, arith,
}
use aether_fx.Work.Bounds as WorkBounds
use aether_fx.Work.Verify.Bounds as CheckBounds
use aether_fx.Work.Verify.BlockerBounds as BlockerBounds
use aether_fx.Work.Restore.Bounds as RestoreBounds
use aether_fx.Decision.Update.Bounds as DecisionBounds
use aether_fx.Decision.Update.ScopeBounds as ScopeBounds
use aether_fx.Workflow.{
  WorkflowPhase, phase_eq, max_workflow_relevant_files, max_workflow_failures,
  max_workflow_verifications, max_workflow_recovery_paths,
}
use aether_fx.Workflow.State.{
  WorkflowDiagnostic, WorkflowState, WorkflowFailure, VerificationStep, RecoveryState,
}
use aether_fx.Workflow.Director.{phase_when_incomplete, clear, is_nil, is_recovery_path, transition}
use aether_fx.Workflow.Checks.{
  awaits, with_outcome, check_work, record_verification_command, add_steps, set_verification_plan,
}
use aether_fx.Workflow.Failures.{
  record_failure, clear_failure, has_failure, fail_again, same_key, add_failure,
}
use aether_fx.Workflow.Completion.{complete_if_ready_with_evidence, is_ready, completing, reviewing}
use aether_fx.Workflow.Restore.{enforce_bounds, bound_path, bound_failure, bound_step, retext}
use aether_fx.Workflow.Limits.{
  IsLimited, Short, ShortText, text_field-Short, sync_director-IsLimited, begin-Held,
  IsLimited-either,
}

length-add_failure :
    (failure : WorkflowFailure) (failures : List WorkflowFailure)
    → length failures ≤ max_workflow_failures
    → length (add_failure failure failures) ≤ max_workflow_failures
length-add_failure failure failures h =
    let known = same_key failure.key in
    ground (
      arith,
      length-modify_first known (fail_again failure) failures,
      length-append failures (failure ∷ []),
      length-drop 1 (modify_first known (fail_again failure) failures),
      length-drop 1 (failures ++ failure ∷ []),
    )

pub set_verification_plan-IsLimited :
    (plan : List VerificationStep) (s : WorkflowState)
    → IsLimited s
    → IsLimited (set_verification_plan plan s)
unfolding set_verification_plan
set_verification_plan-IsLimited plan s (files, failures, steps, recovery, reason, work, decision) =
    let all = add_steps s.workspace_revision plan s.verification_steps in
    (
      files,
      failures,
      omega (arith, length-drop (length all - max_workflow_verifications) all),
      recovery,
      reason,
      work,
      decision,
    )

pub record_command-IsLimited :
    (command : Bytes) (passed : Bool) (s : WorkflowState)
    → IsLimited s
    → IsLimited (record_verification_command command passed s).0
unfolding record_verification_command
record_command-IsLimited command passed s b =
    let (files, failures, steps, recovery, reason, work, decision) = b in
    let awaited = awaits s.workspace_revision command in
    let same = length-modify_first awaited (with_outcome passed) s.verification_steps in
    elim (Bool-cases (any awaited s.verification_steps)) [
      | inl e ↦ rw e (
          sync_director-IsLimited [] false _
            (files, failures, omega (arith, same), recovery, reason, work, decision))
      | inr e ↦ rw e b
    ]

pub check_work-IsLimited :
    (passed : Bool) (command : Bytes) (paths : List Bytes) (diagnostics : List WorkflowDiagnostic)
    (s : WorkflowState)
    → IsLimited s
    → WorkBounds.IsBounded (check_work passed command paths diagnostics s)
check_work-IsLimited passed command paths diagnostics s (_, _, _, _, _, work, _) =
    CheckBounds.record_verification-IsBounded s.work command _ passed _ _ paths work

pub record_failure-IsLimited :
    (failure : WorkflowFailure) (s : WorkflowState)
    → IsLimited s
    → IsLimited (record_failure failure s)
unfolding record_failure
record_failure-IsLimited failure s (files, failures, steps, recovery, reason, work, decision) =
    sync_director-IsLimited [] false _ (
      files,
      length-add_failure failure s.unresolved_failures failures,
      steps,
      begin-Held failure.category _ _ _ s.recovery,
      reason,
      BlockerBounds.record_blocker-IsBounded s.work _ _ _ _ work,
      DecisionBounds.record_question-IsBounded _ _ s.decision decision,
    )

Held-cleared :
    (c : Bool) (r : RecoveryState)
    → Held max_workflow_recovery_paths ShortText r.affected_paths
    → Held max_workflow_recovery_paths ShortText (if c then clear r else r).affected_paths
Held-cleared true r h = (omega arith, tt)
Held-cleared false r h = h

pub clear_failure-IsLimited :
    (key : Bytes) (s : WorkflowState) → IsLimited s → IsLimited (clear_failure key s)
unfolding clear_failure
clear_failure-IsLimited key s (files, failures, steps, recovery, reason, work, decision) =
    let left : WorkflowFailure → Bool = λ failure. not (has_failure key failure) in
    sync_director-IsLimited [] false _ (
      files,
      omega (arith, length-filter-le left s.unresolved_failures),
      steps,
      Held-cleared (is_nil (filter left s.unresolved_failures)) s.recovery recovery,
      reason,
      BlockerBounds.clear_blocker-IsBounded s.work key work,
      DecisionBounds.clear_question-IsBounded _ s.decision decision,
    )

pub complete-IsLimited :
    (modified : List Bytes) (evidence_current preserved : Bool) (s : WorkflowState)
    → IsLimited s
    → IsLimited (complete_if_ready_with_evidence modified evidence_current preserved s).0
unfolding complete_if_ready_with_evidence transition
complete-IsLimited modified evidence_current preserved s b =
    let (files, failures, steps, recovery, reason, work, decision) = b in
    let reviewed : IsLimited (reviewing s) =
      (files, failures, steps, recovery, text_field-Short _, work, decision) in
    let done : IsLimited (completing (reviewing s)) =
      (files, failures, steps, recovery, text_field-Short _, work, decision) in
    let reopened =
      IsLimited-either (phase_eq s.phase WorkflowPhase.complete) _ _
        (sync_director-IsLimited modified (not evidence_current)
          (record (reviewing s) {
            phase = phase_when_incomplete (reviewing s);
            completed_task_revision = none;
          })
          reviewed)
        reviewed in
    elim (Bool-cases (is_ready modified evidence_current preserved s)) [
      | inl e ↦ rw e done
      | inr e ↦ rw e reopened
    ]

pub enforce_bounds-IsLimited : (s : WorkflowState) → IsLimited (enforce_bounds s)
unfolding enforce_bounds
enforce_bounds-IsLimited s = (
  Held-filter Short max_workflow_relevant_files (λ path. not (is_empty path)) _
      (Held-mapped Short max_workflow_relevant_files bound_path s.relevant_files text_field-Short),
  omega (
    arith,
    length-map bound_failure (take max_workflow_failures s.unresolved_failures),
    length-take max_workflow_failures s.unresolved_failures,
  ),
  omega (
    arith,
    length-map bound_step (take max_workflow_verifications s.verification_steps),
    length-take max_workflow_verifications s.verification_steps,
  ),
  Held-filter ShortText max_workflow_recovery_paths is_recovery_path _ (
      Held-mapped ShortText max_workflow_recovery_paths retext s.recovery.affected_paths
        (λ t. text_field-Short t.text)),
  text_field-Short s.director.last_reason.text,
  RestoreBounds.enforce_bounds-IsBounded s.work,
  ScopeBounds.enforce_bounds-IsBounded s.decision,
)
