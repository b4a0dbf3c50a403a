-- ===== src/Workflow/Completion/Ready.antt =====
-- When a task may be completed.
use aether_fx.Base.{
  ℕ, ◌<◌, Bool, true, false, not, ◌&&◌, ◌||◌, some, List, [], ◌∷◌, Bytes, bytes_eq_iff, is_empty,
  all, filter, All, all-All, any-All, all-filter-All, All-iff, Bool-cases, ◌≡◌, ◌≢◌, ◌↔◌, ◌⊎◌, inl,
  inr, refl, arith,
}
use aether_fx.Work.{WorkState, WorkStatus, WorkSubgoal, WorkVerification, is_complete}
use aether_fx.Work.Record.{has_id}
use aether_fx.Work.Verify.{task_id, criteria_satisfied, blocks_completion}
use aether_fx.Workflow.{
  VerificationStatus, WorkflowPhase, WorkflowVerification, phase_eq, is_passed, is_owed, has_passed,
}
use aether_fx.Workflow.State.{WorkflowState, VerificationStep}
use aether_fx.Workflow.Director.{
  is_nil, is_required, is_current_step, is_current_check, check_passed, verification_current,
  completion_review, phase_when_incomplete, sync_director,
}
use aether_fx.Workflow.Completion.{is_ready, reopening, reviewing, complete_if_ready_with_evidence}

abbrev pub DoneSubgoal : WorkSubgoal → Type 0
DoneSubgoal g = (g.id.text ≡ task_id) ⊎ (g.status ≡ WorkStatus.complete)

abbrev pub DoneStep : ℕ → VerificationStep → Type 0
DoneStep revision step =
    (step.required ≡ false)
    ⊎ ((step.revision ≡ revision) × (step.status ≡ VerificationStatus.passed))

abbrev pub DoneCheck : ℕ → WorkVerification → Type 0
DoneCheck revision v = (v.revision ≢ revision) ⊎ (v.status ≡ VerificationStatus.passed)

-- What completion asks of the work recorded so far.
abbrev pub WorkDone : WorkState → Type 0
WorkDone w =
    (w.objective.text ≢ [])
    × All (λ c. c.satisfied ≡ true) w.acceptance_criteria
    × All DoneSubgoal w.subgoals
    × (w.blockers ≡ [])

-- What completion asks of the verification: every required step passed at the current revision, as
-- did every check of that revision, and the aggregate passed, unless nothing was modified and none
-- is required.
abbrev pub Verified : List Bytes → WorkflowState → Type 0
Verified modified s =
    All (DoneStep s.workspace_revision) s.verification_steps
    × All (DoneCheck s.workspace_revision) s.work.verifications
    × ((s.verification ≡ WorkflowVerification.passed)
        ⊎ ((modified ≡ []) × (s.verification ≡ WorkflowVerification.not_required)))

abbrev pub Ready : List Bytes → Bool → Bool → WorkflowState → Type 0
Ready modified evidence_current preserved s =
    (s.relevant_files ≢ [])
    × ((modified ≢ []) ⊎ (0 < s.progress.inspections))
    × WorkDone s.work
    × (s.unresolved_failures ≡ [])
    × Verified modified s
    × (evidence_current ≡ true)
    × (preserved ≡ true)

is_nil_iff : {A : Type 0} (xs : List A) → (is_nil xs ≡ true) ↔ (xs ≡ [])
is_nil_iff [] = ground arith
is_nil_iff (x ∷ xs) = ground arith

is_empty_iff : (xs : Bytes) → (is_empty xs ≡ true) ↔ (xs ≡ [])
is_empty_iff [] = ground arith
is_empty_iff (x ∷ xs) = ground arith

not_iff : (b : Bool) → (not b ≡ true) ↔ (b ≡ false)
not_iff b = ground arith

is_complete_iff :
    (status : WorkStatus) → (is_complete status ≡ true) ↔ (status ≡ WorkStatus.complete)
is_complete_iff status = ground arith

is_passed_iff :
    (status : VerificationStatus) → (is_passed status ≡ true) ↔ (status ≡ VerificationStatus.passed)
is_passed_iff status = ground arith

subgoal_iff :
    (g : WorkSubgoal)
    → ((not (has_id task_id g) && not (is_complete g.status)) ≡ false) ↔ DoneSubgoal g
subgoal_iff g = ground (arith, bytes_eq_iff g.id.text task_id, is_complete_iff g.status)

step_iff :
    (s : WorkflowState) (step : VerificationStep)
    → ((is_required step ≡ false) ⊎ (is_current_step s step ≡ true))
      ↔ DoneStep s.workspace_revision step
step_iff s step = ground (arith, is_passed_iff step.status)

check_iff :
    (s : WorkflowState) (v : WorkVerification)
    → ((is_current_check s v ≡ false) ⊎ (check_passed v ≡ true)) ↔ DoneCheck s.workspace_revision v
check_iff s v = ground (arith, is_passed_iff v.status)

unblocked_iff :
    (w : WorkState)
    → (not (blocks_completion w) ≡ true) ↔ ((w.blockers ≡ []) × All DoneSubgoal w.subgoals)
unfolding blocks_completion
unblocked_iff w =
    let blocking : WorkSubgoal → Bool = λ g. not (has_id task_id g) && not (is_complete g.status) in
    let tested = any-All blocking w.subgoals in
    let each = All-iff (λ g. blocking g ≡ false) DoneSubgoal w.subgoals subgoal_iff in
    elim w.blockers [ [] ↦ ground (arith, tested, each) | b ∷ bs ↦ ground arith ]

criteria_iff :
    (w : WorkState)
    → (criteria_satisfied w ≡ true) ↔ All (λ c. c.satisfied ≡ true) w.acceptance_criteria
unfolding criteria_satisfied
criteria_iff w = all-All (λ c. c.satisfied) w.acceptance_criteria

steps_iff :
    (s : WorkflowState)
    → (all (is_current_step s) (filter is_required s.verification_steps) ≡ true)
      ↔ All (DoneStep s.workspace_revision) s.verification_steps
steps_iff s =
    let tested = all-filter-All (is_current_step s) is_required s.verification_steps in
    let each = All-iff _ (DoneStep s.workspace_revision) s.verification_steps (step_iff s) in
    (λ h. each.0 (tested.0 h), λ h. tested.1 (each.1 h))

checks_iff :
    (s : WorkflowState)
    → (all check_passed (filter (is_current_check s) s.work.verifications) ≡ true)
      ↔ All (DoneCheck s.workspace_revision) s.work.verifications
checks_iff s =
    let tested = all-filter-All check_passed (is_current_check s) s.work.verifications in
    let each = All-iff _ (DoneCheck s.workspace_revision) s.work.verifications (check_iff s) in
    (λ h. each.0 (tested.0 h), λ h. tested.1 (each.1 h))

aggregate_iff :
    (modified : List Bytes) (v : WorkflowVerification)
    → ((not (not (is_nil modified) || is_owed v) || has_passed v) ≡ true) ↔ (
        (v ≡ WorkflowVerification.passed)
        ⊎ ((modified ≡ []) × (v ≡ WorkflowVerification.not_required)))
aggregate_iff modified v = ground (arith, is_nil_iff modified)

Verified-iff :
    (modified : List Bytes) (s : WorkflowState)
    → (verification_current s (not (is_nil modified) || is_owed s.verification) ≡ true)
      ↔ Verified modified s
Verified-iff modified s =
    ground (arith, steps_iff s, checks_iff s, aggregate_iff modified s.verification)

pub is_ready_iff :
    (modified : List Bytes) (evidence_current preserved : Bool) (s : WorkflowState)
    → (is_ready modified evidence_current preserved s ≡ true)
      ↔ Ready modified evidence_current preserved s
unfolding completion_review
is_ready_iff modified evidence_current preserved s = ground (
  arith,
  is_nil_iff s.relevant_files,
  is_nil_iff modified,
  is_nil_iff s.unresolved_failures,
  is_nil_iff s.work.blockers,
  is_empty_iff s.work.objective.text,
  criteria_iff s.work,
  unblocked_iff s.work,
  Verified-iff modified s,
)

pub phase_when_incomplete_lem :
    (s : WorkflowState) → phase_eq (phase_when_incomplete s) WorkflowPhase.complete ≡ false
unfolding phase_when_incomplete
phase_when_incomplete_lem s = ground arith

pub rejected_phase :
    (modified : List Bytes) (evidence_current : Bool) (s : WorkflowState)
    → phase_eq (reopening modified evidence_current s).phase WorkflowPhase.complete ≡ false
unfolding sync_director
rejected_phase modified evidence_current s =
    elim (Bool-cases (phase_eq s.phase WorkflowPhase.complete)) [
      | inl e ↦ rw e (phase_when_incomplete_lem s)
      | inr e ↦ rw e e
    ]

-- A request to complete is granted exactly when the task is ready: there are relevant files, a
-- modification or an inspection, finished work without blockers, no unresolved failure, current
-- verification, current evidence and preserved user changes. The state is in the completed phase
-- exactly when the request is granted, and a granted request names the current task revision.
pub complete_if_ready_lem :
    (modified : List Bytes) (evidence_current preserved : Bool) (s : WorkflowState)
    → let r = complete_if_ready_with_evidence modified evidence_current preserved s in
      ((r.1 ≡ true) ↔ Ready modified evidence_current preserved s)
      × (phase_eq r.0.phase WorkflowPhase.complete ≡ r.1)
      × ((r.1 ≡ false) ⊎ (r.0.completed_task_revision ≡ some r.0.task_revision))
unfolding complete_if_ready_with_evidence
complete_if_ready_lem modified evidence_current preserved s =
    let granted = is_ready_iff modified evidence_current preserved s in
    elim (Bool-cases (is_ready modified evidence_current preserved s)) [
      | inl e ↦ rw e ((λ h. granted.0 e, λ h. refl), refl, inr refl)
      | inr e ↦ rw e (
        ground (arith, granted),
        rejected_phase modified evidence_current (reviewing s),
        inl refl,
      )
    ]
