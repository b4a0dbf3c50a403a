-- ===== src/Workflow/History/Bounds.antt =====
-- The sizes of a workflow state along a history of operations.
use aether_fx.Base.{false, List, [], ◌∷◌}
use aether_fx.Workflow.State.{WorkflowState}
use aether_fx.Workflow.Update.{begin_modification}
use aether_fx.Workflow.Checks.{record_verification_scope, record_work_verification}
use aether_fx.Workflow.Restore.{enforce_bounds}
use aether_fx.Workflow.History.{Operation, apply, run}
use aether_fx.Workflow.Limits.{
  IsLimited, sync_director-IsLimited, clear_recovery-IsLimited, record_relevant_file-IsLimited,
  record_inspection-IsLimited, record_mutation-IsLimited, reset-IsLimited,
}
use aether_fx.Workflow.Limits.Checks.{
  set_verification_plan-IsLimited, record_command-IsLimited, check_work-IsLimited,
  record_failure-IsLimited, clear_failure-IsLimited, complete-IsLimited, enforce_bounds-IsLimited,
}

apply-IsLimited : (s : WorkflowState) (o : Operation) → IsLimited s → IsLimited (apply s o)
unfolding apply begin_modification record_verification_scope record_work_verification
apply-IsLimited s Operation.clears_recovery b = clear_recovery-IsLimited s b
apply-IsLimited s (Operation.records_relevant_file provenance path) b =
    record_relevant_file-IsLimited provenance path s b
apply-IsLimited s (Operation.records_inspection provenance) b =
    record_inspection-IsLimited provenance s b
apply-IsLimited s Operation.begins_modification b = sync_director-IsLimited [] false _ b
apply-IsLimited s (Operation.records_mutation operation paths) b =
    record_mutation-IsLimited operation paths s b
apply-IsLimited s Operation.resets b = reset-IsLimited s b
apply-IsLimited s (Operation.plans plan) b = set_verification_plan-IsLimited plan s b
apply-IsLimited s (Operation.records_command command passed) b =
    record_command-IsLimited command passed s b
apply-IsLimited s (Operation.records_verification passed command paths diagnostics) b =
    let (files, failures, steps, recovery, reason, _, decision) = b in
    let work = check_work-IsLimited passed command paths diagnostics s b in
    sync_director-IsLimited paths false _ (files, failures, steps, recovery, reason, work, decision)
apply-IsLimited s (Operation.records_work_verification passed command paths diagnostics) b =
    let (files, failures, steps, recovery, reason, _, decision) = b in
    let work = check_work-IsLimited passed command paths diagnostics s b in
    sync_director-IsLimited paths false _ (files, failures, steps, recovery, reason, work, decision)
apply-IsLimited s (Operation.records_failure failure) b = record_failure-IsLimited failure s b
apply-IsLimited s (Operation.clears_failure key) b = clear_failure-IsLimited key s b
apply-IsLimited s (Operation.completes modified evidence_current preserved) b =
    complete-IsLimited modified evidence_current preserved s b
apply-IsLimited s Operation.restores b = enforce_bounds-IsLimited s

history-IsLimited : (s : WorkflowState) (os : List Operation) → IsLimited s → IsLimited (run s os)
unfolding run
history-IsLimited s [] b = b
history-IsLimited s (o ∷ os) b = history-IsLimited (apply s o) os (apply-IsLimited s o b)

-- Whatever was persisted, a restored workflow state keeps in any history of the operations at most
-- 32 relevant files, 8 unresolved failures, 16 planned steps and 8 recovery paths, its paths and
-- the director's reason within 256 bytes, and its work and decisions within their own bounds.
pub run_restored-IsLimited :
    (persisted : WorkflowState) (os : List Operation)
    → IsLimited (run (enforce_bounds persisted) os)
run_restored-IsLimited persisted os =
    history-IsLimited (enforce_bounds persisted) os (enforce_bounds-IsLimited persisted)
