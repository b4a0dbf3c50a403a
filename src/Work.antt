-- ===== src/Work.antt =====
-- crates/aether-core/src/work.rs: the bounded record of a task, its subgoals, evidence, mutations,
-- verifications and blockers.
pub mod Record
pub mod Verify
pub mod Restore
pub mod Active
pub mod Dependencies
pub mod Held
pub mod Bounds
pub mod History
pub mod Model
pub mod Tests
use aether_fx.Base.{
  ℕ, suc, Bool, true, false, ◌&&◌, Option, none, some, List, [], ◌∷◌, ◌++◌, Bytes, length, drop,
  find, all, modify_first, ltb, if◌then◌else◌,
}
use aether_fx.BoundedText.{BoundedText, text_eq, empty_text, new}
use aether_fx.Workflow.{VerificationStatus}

abbrev pub max_work_objective_bytes : ℕ
max_work_objective_bytes = 512

abbrev pub max_work_field_bytes : ℕ
max_work_field_bytes = 192

abbrev pub max_work_criteria : ℕ
max_work_criteria = 8

abbrev pub max_work_subgoals : ℕ
max_work_subgoals = 16

abbrev pub max_work_evidence : ℕ
max_work_evidence = 32

abbrev pub max_work_mutations : ℕ
max_work_mutations = 24

abbrev pub max_work_verifications : ℕ
max_work_verifications = 24

abbrev pub max_work_blockers : ℕ
max_work_blockers = 8

abbrev pub max_work_relations : ℕ
max_work_relations = 8

pub data WorkMode : Type 0 where
  simple structured : WorkMode

pub data WorkStatus : Type 0 where
  pending active complete blocked stale : WorkStatus

pub record WorkCriterion : Type 0 where
  pub key : BoundedText
  pub description : BoundedText
  pub satisfied : Bool

pub record WorkSubgoal : Type 0 where
  pub id : BoundedText
  pub label : BoundedText
  pub status : WorkStatus
  pub depends_on : List BoundedText
  pub paths : List BoundedText
  pub attempts : ℕ
  pub completed_revision : Option ℕ

pub record WorkEvidence : Type 0 where
  pub kind : BoundedText
  pub path : BoundedText
  pub detail : BoundedText
  pub revision : ℕ
  pub valid : Bool

pub record WorkMutation : Type 0 where
  pub operation : BoundedText
  pub paths : List BoundedText
  pub revision : ℕ

pub record WorkVerification : Type 0 where
  pub command : BoundedText
  pub scope : BoundedText
  pub revision : ℕ
  pub status : VerificationStatus
  pub diagnostics : List BoundedText

pub record WorkBlocker : Type 0 where
  pub key : BoundedText
  pub category : BoundedText
  pub detail : BoundedText
  pub attempts : ℕ
  pub revision : ℕ

pub record WorkState : Type 0 where
  pub mode : WorkMode
  pub objective : BoundedText
  pub constraints : List BoundedText
  pub acceptance_criteria : List WorkCriterion
  pub subgoals : List WorkSubgoal
  pub active_subgoal : Option BoundedText
  pub blockers : List WorkBlocker
  pub evidence : List WorkEvidence
  pub mutations : List WorkMutation
  pub verifications : List WorkVerification
  pub task_revision : ℕ
  pub task_fingerprint : Bytes
  pub revision : ℕ

abbrev pub is_structured : WorkState → Bool
is_structured s = elim s.mode [ WorkMode.simple ↦ false | WorkMode.structured ↦ true ]

abbrev pub is_complete : WorkStatus → Bool
is_complete WorkStatus.complete = true
is_complete _ = false

unfoldable pub bounded : Bytes → BoundedText
bounded value = new value max_work_field_bytes

unfoldable pub push_bounded {ℓ} : {A : Type ℓ} → List A → A → ℕ → List A
push_bounded items item limit =
    let pushed = items ++ item ∷ [] in if ltb limit (length pushed) then drop 1 pushed else pushed

abbrev pub completed : Option WorkSubgoal → Bool
completed none = false
completed (some candidate) = is_complete candidate.status

pub dependencies_complete : WorkSubgoal → List WorkSubgoal → Bool
dependencies_complete subgoal subgoals =
    all (λ dependency. completed (find (λ candidate. text_eq candidate.id dependency) subgoals))
      subgoal.depends_on

-- Pending, active or stale.
abbrev pub is_open : WorkStatus → Bool
is_open WorkStatus.pending = true
is_open WorkStatus.active = true
is_open WorkStatus.stale = true
is_open WorkStatus.complete = false
is_open WorkStatus.blocked = false

pub is_ready : List WorkSubgoal → WorkSubgoal → Bool
unfolding dependencies_complete
is_ready subgoals subgoal = is_open subgoal.status && dependencies_complete subgoal subgoals

abbrev pub id_of : Option WorkSubgoal → Option BoundedText
id_of none = none
id_of (some subgoal) = some subgoal.id

abbrev pub with_status : WorkStatus → WorkSubgoal → WorkSubgoal
with_status status subgoal = record subgoal { status = status }

abbrev pub activate : Option BoundedText → List WorkSubgoal → List WorkSubgoal
activate none subgoals = subgoals
activate (some active_id) subgoals =
    modify_first (λ subgoal. text_eq subgoal.id active_id) (with_status WorkStatus.active) subgoals

unfoldable pub select_active_subgoal : WorkState → WorkState
unfolding is_ready
select_active_subgoal s =
    let active_id = id_of (find (is_ready s.subgoals) s.subgoals) in
    record s { subgoals = activate active_id s.subgoals; active_subgoal = active_id }
