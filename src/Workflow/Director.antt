-- ===== src/Workflow/Director.antt =====
-- crates/aether-core/src/workflow.rs: the phase of the turn, recovery, and the completion review.
use aether_fx.Base.{
  ℕ, Bool, true, false, not, ◌&&◌, ◌||◌, Option, none, some, List, [], ◌∷◌, ◌++◌, map, Bytes, codes,
  is_empty, length, take, all, filter, ltb, saturating_add, u16_max, ◌==◌, if◌then◌else◌,
}
use aether_fx.BoundedText.{BoundedText, is_truncated}
use aether_fx.Work.{WorkVerification}
use aether_fx.Work.Verify.{criteria_satisfied, blocks_completion}
use aether_fx.Workflow.{
  WorkflowFailureCategory, RecoveryAction, TurnPhase, WorkflowPhase, phase_eq, turn_phase_eq,
  is_passed, is_owed, has_passed, max_workflow_recovery_paths, max_completion_review_reasons,
}
use aether_fx.Workflow.State.{
  WorkflowState, RecoveryState, TurnDirectorState, CompletionReview, VerificationStep, text_field,
}

-- `is_empty` on a list.
abbrev pub is_nil : {A : Type 0} → List A → Bool
is_nil [] = true
is_nil (x ∷ xs) = false

abbrev pub is_recovery_path : BoundedText → Bool
is_recovery_path path = not (is_empty path.text) && not (is_truncated path)

-- `RecoveryState::begin`.
unfoldable pub begin :
    WorkflowFailureCategory → RecoveryAction → ℕ → List Bytes → RecoveryState → RecoveryState
begin category action revision affected_paths r = record {
  active = true;
  category = category;
  action = action;
  attempts = saturating_add u16_max r.attempts 1;
  revision = revision;
  affected_paths =
      filter is_recovery_path (map text_field (take max_workflow_recovery_paths affected_paths));
}

-- `RecoveryState::clear`.
abbrev pub clear : RecoveryState → RecoveryState
clear r = record r { active = false; action = RecoveryAction.no_action; affected_paths = [] }

-- `TurnDirectorState::transition`.
unfoldable pub transition : TurnPhase → ℕ → Bytes → TurnDirectorState → TurnDirectorState
transition phase revision reason d = record {
  phase = phase;
  revision = revision;
  transitions =
      if not (turn_phase_eq d.phase phase) || not (d.revision == revision)
      then saturating_add u16_max d.transitions 1
      else d.transitions;
  last_reason = text_field reason;
}

abbrev pub is_revision : Option ℕ → ℕ → Bool
is_revision none n = false
is_revision (some m) n = m == n

-- The phase and the reason that `sync_director` chooses.
abbrev pub choose_phase : WorkflowState → Bool → Bool → TurnPhase × Bytes
choose_phase s is_modified stale_evidence =
    if s.recovery.active || not (is_nil s.unresolved_failures)
    then (TurnPhase.recover, codes "an actionable failure needs bounded recovery")
    else if is_revision s.completed_task_revision s.task_revision
        && phase_eq s.phase WorkflowPhase.complete
    then (TurnPhase.done, codes "current-revision completion review passed")
    else if stale_evidence
    then (TurnPhase.recover, codes "observed evidence is stale and must be refreshed")
    else if is_owed s.verification
    then (TurnPhase.verify, codes "current mutations require scoped verification")
    else if phase_eq s.phase WorkflowPhase.verify && is_modified
    then (TurnPhase.review, codes "verification passed; review the affected scope before finishing")
    else if phase_eq s.phase WorkflowPhase.modify
    then (TurnPhase.implement, codes "an authorized implementation action is in progress")
    else if is_nil s.relevant_files
    then (TurnPhase.discover, codes "no relevant repository path has been observed")
    else (TurnPhase.understand, codes "relevant repository evidence is the next decision input")

unfoldable pub sync_director : List Bytes → Bool → WorkflowState → WorkflowState
sync_director modified stale_evidence s =
    let chosen = choose_phase s (not (is_nil modified)) stale_evidence in
    record s { director = transition chosen.0 s.workspace_revision chosen.1 s.director }

abbrev pub is_current_step : WorkflowState → VerificationStep → Bool
is_current_step s step = step.revision == s.workspace_revision && is_passed step.status

abbrev pub is_required : VerificationStep → Bool
is_required step = step.required

abbrev pub is_current_check : WorkflowState → WorkVerification → Bool
is_current_check s v = v.revision == s.workspace_revision

abbrev pub check_passed : WorkVerification → Bool
check_passed v = is_passed v.status

-- `verification_current` of the review.
abbrev pub verification_current : WorkflowState → Bool → Bool
verification_current s verification_required =
    all (is_current_step s) (filter is_required s.verification_steps)
    && all check_passed (filter (is_current_check s) s.work.verifications)
    && (not verification_required || has_passed s.verification)

-- The reasons of the review whose conditions fail, at most eight.
abbrev pub add_reason : Bool → Bytes → List BoundedText → List BoundedText
add_reason holds reason reasons =
    if holds
    then reasons
    else if ltb (length reasons) max_completion_review_reasons
    then reasons ++ text_field reason ∷ []
    else reasons

abbrev pub review_reasons : CompletionReview → List BoundedText
review_reasons r =
    add_reason r.user_changes_preserved (codes "agent-owned paths overlap user-owned dirty paths") (
      add_reason r.verification_current
        (codes "verification is missing, failed, stale, or scoped to an older revision")
        (add_reason r.evidence_current (codes "required repository evidence is stale") (
          add_reason r.blockers_clear (codes "unresolved runtime blockers remain") (
            add_reason r.work_complete
              (codes "structured work contains unresolved subgoals or blockers")
              (add_reason r.acceptance_criteria_satisfied
                (codes "one or more acceptance criteria remain unsatisfied")
                (add_reason r.objective_present
                  (codes "objective is missing from the current task state") []))))))

unfoldable pub completion_review : List Bytes → Bool → Bool → WorkflowState → CompletionReview
completion_review modified evidence_current user_changes_preserved s =
    let review : CompletionReview = record {
      objective_present = not (is_empty s.work.objective.text);
      acceptance_criteria_satisfied = criteria_satisfied s.work;
      work_complete = not (blocks_completion s.work);
      blockers_clear = is_nil s.unresolved_failures && is_nil s.work.blockers;
      evidence_current = evidence_current;
      verification_current =
          verification_current s (not (is_nil modified) || is_owed s.verification);
      user_changes_preserved = user_changes_preserved;
      workspace_revision = s.workspace_revision;
      task_revision = s.task_revision;
      reasons = [];
    } in
    record review { reasons = review_reasons review }

unfoldable pub phase_when_incomplete : WorkflowState → WorkflowPhase
phase_when_incomplete s =
    if is_owed s.verification
    then WorkflowPhase.verify
    else if is_nil s.relevant_files
    then WorkflowPhase.discover
    else WorkflowPhase.inspect
