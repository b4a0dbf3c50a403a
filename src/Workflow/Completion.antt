-- ===== src/Workflow/Completion.antt =====
-- crates/aether-core/src/workflow.rs: the gate of completion.
pub mod Ready
use aether_fx.Base.{
  Bool, true, false, not, ◌&&◌, ◌||◌, none, some, List, Bytes, codes, ltb, if◌then◌else◌,
}
use aether_fx.Workflow.{TurnPhase, WorkflowPhase, phase_eq}
use aether_fx.Workflow.State.{WorkflowState, note_completion_rejection, ready}
use aether_fx.Workflow.Director.{
  is_nil, transition, sync_director, completion_review, phase_when_incomplete,
}

-- What the review is asked about, beyond the review itself.
abbrev pub is_ready : List Bytes → Bool → Bool → WorkflowState → Bool
is_ready modified evidence_current user_changes_preserved s =
    not (is_nil s.relevant_files)
    && (not (is_nil modified) || ltb 0 s.progress.inspections)
    && ready (completion_review modified evidence_current user_changes_preserved s)

abbrev pub reviewing : WorkflowState → WorkflowState
reviewing s = record s {
  director =
      transition TurnPhase.review s.workspace_revision
        (codes "runtime completion review is evaluating current evidence") s.director;
}

abbrev pub completing : WorkflowState → WorkflowState
completing s = record s {
  phase = WorkflowPhase.complete;
  completed_task_revision = some s.task_revision;
  director =
      transition TurnPhase.done s.workspace_revision
        (codes "current-revision completion review passed") s.director;
}

abbrev pub reopening : List Bytes → Bool → WorkflowState → WorkflowState
reopening modified evidence_current s =
    if phase_eq s.phase WorkflowPhase.complete
    then sync_director modified (not evidence_current)
        (record s { phase = phase_when_incomplete s; completed_task_revision = none })
    else s

abbrev pub rejecting : WorkflowState → WorkflowState
rejecting s = record s { progress = note_completion_rejection s.progress }

unfoldable pub complete_if_ready_with_evidence :
    List Bytes → Bool → Bool → WorkflowState → WorkflowState × Bool
complete_if_ready_with_evidence modified evidence_current user_changes_preserved s =
    if is_ready modified evidence_current user_changes_preserved s
    then (completing (reviewing s), true)
    else (rejecting (reopening modified evidence_current (reviewing s)), false)

abbrev pub complete_if_ready : List Bytes → WorkflowState → WorkflowState × Bool
complete_if_ready modified = complete_if_ready_with_evidence modified true true
