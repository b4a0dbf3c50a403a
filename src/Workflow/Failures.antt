-- ===== src/Workflow/Failures.antt =====
-- crates/aether-core/src/workflow.rs: the failures that block completion.
pub mod Long
use aether_fx.Base.{
  Bool, false, not, List, [], ◌∷◌, ◌++◌, map, Bytes, bytes_eq, codes, length, drop, any, filter,
  modify_first, ltb, if◌then◌else◌,
}
use aether_fx.BoundedText.{BoundedText, text_eq}
use aether_fx.Decision.Update
use aether_fx.Work.Verify
use aether_fx.Workflow.{
  WorkflowFailureCategory, RecoveryAction, WorkflowPhase, phase_eq, max_workflow_failures,
}
use aether_fx.Workflow.State.{WorkflowState, WorkflowFailure, category_name, increment}
use aether_fx.Workflow.Director.{is_nil, begin, clear, sync_director, phase_when_incomplete}

abbrev pub same_key : BoundedText → WorkflowFailure → Bool
same_key key existing = text_eq existing.key key

abbrev pub fail_again : WorkflowFailure → WorkflowFailure → WorkflowFailure
fail_again failure existing = record existing {
  tool = failure.tool;
  code = failure.code;
  message = failure.message;
  category = failure.category;
  revision = failure.revision;
  diagnostics = failure.diagnostics;
  attempts = increment existing.attempts;
}

abbrev pub drop_oldest : List WorkflowFailure → List WorkflowFailure
drop_oldest failures =
    if ltb max_workflow_failures (length failures) then drop 1 failures else failures

abbrev pub add_failure : WorkflowFailure → List WorkflowFailure → List WorkflowFailure
add_failure failure failures = drop_oldest (
    if any (same_key failure.key) failures
    then modify_first (same_key failure.key) (fail_again failure) failures
    else failures ++ failure ∷ [])

abbrev pub recovery_for : WorkflowFailureCategory → RecoveryAction
recovery_for WorkflowFailureCategory.stale_evidence = RecoveryAction.refresh_evidence
recovery_for WorkflowFailureCategory.permission = RecoveryAction.record_blocker
recovery_for WorkflowFailureCategory.environment = RecoveryAction.record_blocker
recovery_for WorkflowFailureCategory.patch_conflict = RecoveryAction.request_new_decision
recovery_for WorkflowFailureCategory.compiler = RecoveryAction.request_new_decision
recovery_for WorkflowFailureCategory.test = RecoveryAction.request_new_decision
recovery_for WorkflowFailureCategory.verification = RecoveryAction.request_new_decision
recovery_for WorkflowFailureCategory.verification_mismatch = RecoveryAction.request_new_decision
recovery_for WorkflowFailureCategory.command = RecoveryAction.request_new_decision
recovery_for WorkflowFailureCategory.tool = RecoveryAction.request_new_decision
recovery_for WorkflowFailureCategory.backend = RecoveryAction.request_new_decision

abbrev pub not_complete : WorkflowState → WorkflowPhase
not_complete s =
    if phase_eq s.phase WorkflowPhase.complete then phase_when_incomplete s else s.phase

abbrev pub failure_key : Bytes → Bytes
failure_key key = codes "failure:" ++ key

-- A known failure has the key of the new one, so what is passed on to the work state and to the
-- questions is the new failure's either way.
unfoldable pub record_failure : WorkflowFailure → WorkflowState → WorkflowState
record_failure failure s = sync_director [] false (record s {
  unresolved_failures = add_failure failure s.unresolved_failures;
  work =
      Verify.record_blocker s.work failure.key.text (category_name failure.category)
        failure.message.text failure.revision;
  decision =
      Update.record_question (failure_key failure.key.text)
        (codes "recover from "
          ++ category_name failure.category
          ++ codes " failure: "
          ++ failure.message.text)
        s.decision;
  phase = not_complete s;
  recovery =
      begin failure.category (recovery_for failure.category) failure.revision
        (map (λ diagnostic. diagnostic.path.text) failure.diagnostics) s.recovery;
})

abbrev pub has_failure : Bytes → WorkflowFailure → Bool
has_failure key failure = bytes_eq failure.key.text key

unfoldable pub clear_failure : Bytes → WorkflowState → WorkflowState
clear_failure key s =
    let failures = filter (λ failure. not (has_failure key failure)) s.unresolved_failures in
    sync_director [] false (record s {
      unresolved_failures = failures;
      work = Verify.clear_blocker s.work key;
      decision = Update.clear_question (failure_key key) s.decision;
      recovery = if is_nil failures then clear s.recovery else s.recovery;
    })
