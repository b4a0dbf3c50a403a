-- ===== src/Workflow/History/Debt.antt =====
-- The verification that a modification leaves owed.
use aether_fx.Base.{
  Bool, true, false, List, [], ◌∷◌, Bytes, All, Bool-cases, ◌≡◌, ◌≢◌, inl, inr, refl, arith,
  if◌then◌else◌,
}
use aether_fx.Workflow.{WorkflowPhase, phase_eq, has_passed}
use aether_fx.Workflow.State.{WorkflowState}
use aether_fx.Workflow.Director.{is_nil, sync_director}
use aether_fx.Workflow.Update.{
  clear_recovery, record_relevant_file_with_provenance, record_inspection_with_provenance,
  begin_modification, record_mutation_scope, reset_for_workspace_change,
}
use aether_fx.Workflow.Checks.{
  set_verification_plan, record_verification_scope, record_work_verification,
}
use aether_fx.Workflow.Failures.{record_failure, clear_failure}
use aether_fx.Workflow.Completion.{complete_if_ready_with_evidence, is_ready}
use aether_fx.Workflow.Completion.Ready.{complete_if_ready_lem}
use aether_fx.Workflow.Restore.{enforce_bounds}
use aether_fx.Workflow.History.{Operation, apply, run}

-- The operations that may record that verification passed.
abbrev pub verifies : Operation → Bool
verifies Operation.clears_recovery = false
verifies (Operation.records_relevant_file provenance path) = false
verifies (Operation.records_inspection provenance) = false
verifies Operation.begins_modification = false
verifies (Operation.records_mutation operation paths) = false
verifies Operation.resets = false
verifies (Operation.plans plan) = false
verifies (Operation.records_command command passed) = true
verifies (Operation.records_verification passed command paths diagnostics) = passed
verifies (Operation.records_work_verification passed command paths diagnostics) = false
verifies (Operation.records_failure failure) = false
verifies (Operation.clears_failure key) = false
verifies (Operation.completes modified evidence_current preserved) = false
verifies Operation.restores = false

abbrev Unpassed : WorkflowState → Type 0
Unpassed s = has_passed s.verification ≡ false

Unpassed-either :
    (c : Bool) (x y : WorkflowState) → Unpassed x → Unpassed y → Unpassed (if c then x else y)
Unpassed-either true x y a b = a
Unpassed-either false x y a b = b

reviewed-Unpassed :
    (modified : List Bytes) (evidence_current preserved : Bool) (s : WorkflowState)
    → Unpassed s
    → Unpassed (complete_if_ready_with_evidence modified evidence_current preserved s).0
unfolding complete_if_ready_with_evidence sync_director
reviewed-Unpassed modified evidence_current preserved s h =
    let reopened = Unpassed-either (phase_eq s.phase WorkflowPhase.complete) _ _ h h in
    elim (Bool-cases (is_ready modified evidence_current preserved s)) [
      | inl e ↦ rw e h
      | inr e ↦ rw e reopened
    ]

apply-Unpassed :
    (s : WorkflowState) (o : Operation) → verifies o ≡ false → Unpassed s → Unpassed (apply s o)
unfolding apply sync_director clear_recovery record_relevant_file_with_provenance
    record_inspection_with_provenance begin_modification record_mutation_scope
    reset_for_workspace_change set_verification_plan record_verification_scope
    record_work_verification record_failure clear_failure enforce_bounds
apply-Unpassed s Operation.clears_recovery e h =
    Unpassed-either (is_nil s.unresolved_failures) _ _ h h
apply-Unpassed s (Operation.records_relevant_file provenance path) e h = Unpassed-either _ _ _ h h
apply-Unpassed s (Operation.records_inspection provenance) e h = h
apply-Unpassed s Operation.begins_modification e h = h
apply-Unpassed s (Operation.records_mutation operation paths) e h = refl
apply-Unpassed s Operation.resets e h = refl
apply-Unpassed s (Operation.plans plan) e h = h
apply-Unpassed s (Operation.records_command command passed) e h = absurd (ground (arith, e))
apply-Unpassed s (Operation.records_verification passed command paths diagnostics) e h = rw e refl
apply-Unpassed s (Operation.records_work_verification passed command paths diagnostics) e h = h
apply-Unpassed s (Operation.records_failure failure) e h = h
apply-Unpassed s (Operation.clears_failure key) e h = h
apply-Unpassed s (Operation.completes modified evidence_current preserved) e h =
    reviewed-Unpassed modified evidence_current preserved s h
apply-Unpassed s Operation.restores e h = h

run-Unpassed :
    (s : WorkflowState) (os : List Operation)
    → All (λ o. verifies o ≡ false) os
    → Unpassed s
    → Unpassed (run s os)
unfolding run
run-Unpassed s [] a h = h
run-Unpassed s (o ∷ os) a h = run-Unpassed (apply s o) os a.1 (apply-Unpassed s o a.0 h)

-- After a mutation is recorded, and any operations in any order of which none is a verification
-- that passed or the outcome of a planned command (further mutations, inspections, resets and
-- restores among them), a request to complete with modified paths is refused, whatever else it
-- says.
pub complete-mutation :
    (s : WorkflowState) (operation : Bytes) (paths : List Bytes) (os : List Operation)
    (modified : List Bytes) (evidence_current preserved : Bool)
    → All (λ o. verifies o ≡ false) os
    → modified ≢ []
    → let later = run (record_mutation_scope operation paths s) os in
      (complete_if_ready_with_evidence modified evidence_current preserved later).1 ≡ false
unfolding record_mutation_scope sync_director
complete-mutation s operation paths os modified evidence_current preserved a h =
    let later = run (record_mutation_scope operation paths s) os in
    let owed = run-Unpassed (record_mutation_scope operation paths s) os a refl in
    let granted = complete_if_ready_lem modified evidence_current preserved later in
    ground (arith, granted, owed)
