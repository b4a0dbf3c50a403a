-- ===== src/Workflow/History/Gate.antt =====
-- The completed phase along a history of operations.
use aether_fx.Base.{
  Bool, true, false, not, List, [], ◌∷◌, Bytes, any, if◌then◌else◌, Bool-cases, ◌≡◌, ◌⊎◌, inl, inr,
  refl, arith,
}
use aether_fx.Tools.Action.{EvidenceProvenance}
use aether_fx.Workflow.{TurnPhase, WorkflowPhase, phase_eq, turn_phase_eq, is_owed}
use aether_fx.Workflow.State.{WorkflowState}
use aether_fx.Workflow.Director.{is_nil, sync_director, transition}
use aether_fx.Workflow.Update.{
  clear_recovery, record_relevant_file_with_provenance, record_inspection_with_provenance,
  begin_modification, record_mutation_scope, reset_for_workspace_change, after_discovery,
  unless_verifying,
}
use aether_fx.Workflow.Checks.{
  awaits, set_verification_plan, record_verification_command, record_verification_scope,
  record_work_verification,
}
use aether_fx.Workflow.Failures.{record_failure, clear_failure, not_complete}
use aether_fx.Workflow.Completion.{
  complete_if_ready_with_evidence, is_ready, completing, rejecting, reopening, reviewing,
}
use aether_fx.Workflow.Completion.Ready.{is_ready_iff, rejected_phase, phase_when_incomplete_lem}
use aether_fx.Workflow.Restore.{enforce_bounds}
use aether_fx.Workflow.History.{Operation, apply, run}

-- A completed state has no unresolved failure and owes no verification.
abbrev pub Settled : WorkflowState → Type 0
Settled s =
    (phase_eq s.phase WorkflowPhase.complete ≡ false)
    ⊎ ((s.unresolved_failures ≡ []) × (is_owed s.verification ≡ false))

-- The director is done only in a completed state.
abbrev pub Directed : WorkflowState → Type 0
Directed s =
    (turn_phase_eq s.director.phase TurnPhase.done ≡ false)
    ⊎ (phase_eq s.phase WorkflowPhase.complete ≡ true)

abbrev pub Gated : WorkflowState → Type 0
Gated s = Settled s × Directed s

sync_director-Gated :
    (modified : List Bytes) (stale : Bool) (s : WorkflowState)
    → Settled s
    → Gated (sync_director modified stale s)
unfolding sync_director transition
sync_director-Gated modified stale s h = (h, ground arith)

after_discovery_lem :
    (phase : WorkflowPhase) → phase_eq (after_discovery phase) WorkflowPhase.complete ≡ false
after_discovery_lem phase = ground arith

not_complete_lem : (s : WorkflowState) → phase_eq (not_complete s) WorkflowPhase.complete ≡ false
not_complete_lem s = elim (Bool-cases (phase_eq s.phase WorkflowPhase.complete)) [
  | inl e ↦ rw e (phase_when_incomplete_lem s)
  | inr e ↦ rw e e
]

unless_verifying_lem :
    (target phase : WorkflowPhase)
    → phase_eq target WorkflowPhase.complete ≡ false
    → phase_eq (unless_verifying target phase) WorkflowPhase.complete ≡ false
unless_verifying_lem target WorkflowPhase.verify h = refl
unless_verifying_lem target WorkflowPhase.discover h = h
unless_verifying_lem target WorkflowPhase.inspect h = h
unless_verifying_lem target WorkflowPhase.modify h = h
unless_verifying_lem target WorkflowPhase.complete h = h

clear_recovery-Gated : (s : WorkflowState) → Gated s → Gated (clear_recovery s)
unfolding clear_recovery
clear_recovery-Gated s h = elim (Bool-cases (is_nil s.unresolved_failures)) [
  | inl e ↦ rw e (sync_director-Gated [] false _ h.0)
  | inr e ↦ rw e h
]

Gated-either : (c : Bool) (x y : WorkflowState) → Gated x → Gated y → Gated (if c then x else y)
Gated-either true x y a b = a
Gated-either false x y a b = b

record_relevant_file-Gated :
    (provenance : EvidenceProvenance) (path : Bytes) (s : WorkflowState)
    → Gated s
    → Gated (record_relevant_file_with_provenance provenance path s)
unfolding record_relevant_file_with_provenance
record_relevant_file-Gated provenance path s h =
    Gated-either _ _ _ h (sync_director-Gated [] false _ (inl (after_discovery_lem s.phase)))

clear_failure-Gated : (key : Bytes) (s : WorkflowState) → Gated s → Gated (clear_failure key s)
unfolding clear_failure
clear_failure-Gated key s h =
    sync_director-Gated [] false _ (elim h.0 [ inl a ↦ inl a | inr a ↦ inr (rw (a.0) (refl, a.1)) ])

record_verification_command-Gated :
    (command : Bytes) (passed : Bool) (s : WorkflowState)
    → Gated s
    → Gated (record_verification_command command passed s).0
unfolding record_verification_command
record_verification_command-Gated command passed s h =
    elim (Bool-cases (any (awaits s.workspace_revision command) s.verification_steps)) [
      | inl e ↦ rw e (sync_director-Gated [] false _ (inl refl))
      | inr e ↦ rw e h
    ]

granted-Gated :
    (modified : List Bytes) (evidence_current preserved : Bool) (s : WorkflowState)
    → is_ready modified evidence_current preserved s ≡ true
    → Gated (completing (reviewing s))
granted-Gated modified evidence_current preserved s e =
    let (_, _, _, clear, (_, _, aggregate), _, _) =
      (is_ready_iff modified evidence_current preserved s).0 e in
    (inr (clear, ground arith), inr refl)

rejected-Directed :
    (modified : List Bytes) (evidence_current : Bool) (s : WorkflowState)
    → Directed (rejecting (reopening modified evidence_current (reviewing s)))
unfolding transition
rejected-Directed modified evidence_current s =
    elim (Bool-cases (phase_eq s.phase WorkflowPhase.complete)) [
      | inl e ↦ rw e (
          (sync_director-Gated modified (not evidence_current) _
            (inl (phase_when_incomplete_lem (reviewing s)))).1)
      | inr e ↦ rw e (inl refl)
    ]

complete-Gated :
    (modified : List Bytes) (evidence_current preserved : Bool) (s : WorkflowState)
    → Gated s
    → Gated (complete_if_ready_with_evidence modified evidence_current preserved s).0
unfolding complete_if_ready_with_evidence
complete-Gated modified evidence_current preserved s h =
    elim (Bool-cases (is_ready modified evidence_current preserved s)) [
      | inl e ↦ rw e (granted-Gated modified evidence_current preserved s e)
      | inr e ↦ rw e (
        inl (rejected_phase modified evidence_current (reviewing s)),
        rejected-Directed modified evidence_current s,
      )
    ]

enforce_bounds-Gated : (s : WorkflowState) → Gated s → Gated (enforce_bounds s)
unfolding enforce_bounds
enforce_bounds-Gated s h = (elim h.0 [ inl a ↦ inl a | inr a ↦ inr (rw (a.0) (refl, a.1)) ], h.1)

apply-Gated : (s : WorkflowState) (o : Operation) → Gated s → Gated (apply s o)
unfolding apply record_inspection_with_provenance begin_modification record_mutation_scope
    reset_for_workspace_change set_verification_plan record_verification_scope
    record_work_verification record_failure
apply-Gated s Operation.clears_recovery h = clear_recovery-Gated s h
apply-Gated s (Operation.records_relevant_file provenance path) h =
    record_relevant_file-Gated provenance path s h
apply-Gated s (Operation.records_inspection provenance) h =
    sync_director-Gated [] false _ (inl (unless_verifying_lem WorkflowPhase.inspect s.phase refl))
apply-Gated s Operation.begins_modification h =
    sync_director-Gated [] false _ (inl (unless_verifying_lem WorkflowPhase.modify s.phase refl))
apply-Gated s (Operation.records_mutation operation paths) h =
    sync_director-Gated paths false _ (inl refl)
apply-Gated s Operation.resets h = sync_director-Gated [] true _ (inl refl)
apply-Gated s (Operation.plans plan) h = h
apply-Gated s (Operation.records_command command passed) h =
    record_verification_command-Gated command passed s h
apply-Gated s (Operation.records_verification passed command paths diagnostics) h =
    sync_director-Gated paths false _ (inl refl)
apply-Gated s (Operation.records_work_verification passed command paths diagnostics) h =
    sync_director-Gated paths false _ h.0
apply-Gated s (Operation.records_failure failure) h =
    sync_director-Gated [] false _ (inl (not_complete_lem s))
apply-Gated s (Operation.clears_failure key) h = clear_failure-Gated key s h
apply-Gated s (Operation.completes modified evidence_current preserved) h =
    complete-Gated modified evidence_current preserved s h
apply-Gated s Operation.restores h = enforce_bounds-Gated s h

run-Gated : (s : WorkflowState) (os : List Operation) → Gated s → Gated (run s os)
unfolding run
run-Gated s [] h = h
run-Gated s (o ∷ os) h = run-Gated (apply s o) os (apply-Gated s o h)

-- After any operations on a state that is not completed and whose director is not done, in any
-- order: a completed state has no unresolved failure and owes no verification (it is neither
-- pending nor failed), and the director is done only in a completed state.
pub run_open-Gated :
    (s : WorkflowState) (os : List Operation)
    → phase_eq s.phase WorkflowPhase.complete ≡ false
    → turn_phase_eq s.director.phase TurnPhase.done ≡ false
    → Gated (run s os)
run_open-Gated s os phase director = run-Gated s os (inl phase, inl director)
