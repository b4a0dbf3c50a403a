-- ===== src/Work/Record.antt =====
-- crates/aether-core/src/work.rs: the operations that record observations and change subgoals.
pub mod Bounds
pub mod Mutation
pub mod Identity
use aether_fx.Base.{
  ℕ, Bool, true, false, not, ◌&&◌, ◌||◌, none, some, List, [], ◌∷◌, ◌++◌, map, Bytes, bytes_eq,
  codes, is_empty, take, any, modify_first, ◌==◌, if◌then◌else◌,
}
use aether_fx.BoundedText.{BoundedText, text_eq}
use aether_fx.Workflow.{VerificationStatus}
use aether_fx.Work.{
  WorkState, WorkCriterion, WorkSubgoal, WorkEvidence, WorkVerification, WorkMode, WorkStatus,
  bounded, push_bounded, is_structured, is_complete, select_active_subgoal, max_work_relations,
  max_work_subgoals, max_work_evidence, max_work_mutations,
}

abbrev pub has_id : Bytes → WorkSubgoal → Bool
has_id id subgoal = bytes_eq subgoal.id.text id

abbrev pub new_subgoal : Bytes → Bytes → List BoundedText → List BoundedText → WorkSubgoal
new_subgoal id label dependencies paths = record {
  id = bounded id;
  label = bounded label;
  status = WorkStatus.pending;
  depends_on = dependencies;
  paths = paths;
  attempts = 0;
  completed_revision = none;
}

pub add_subgoal : WorkState → Bytes → Bytes → List Bytes → WorkState × Bool
add_subgoal s id label depends_on =
    if is_empty id || any (has_id id) s.subgoals then (s, false) else (
      select_active_subgoal (record s {
        mode = WorkMode.structured;
        subgoals =
            push_bounded s.subgoals
              (new_subgoal id label (map bounded (take max_work_relations depends_on)) [])
              max_work_subgoals;
      }),
      true,
    )

-- The subgoal with the status that a caller sets.
abbrev pub put_status : WorkStatus → ℕ → WorkSubgoal → WorkSubgoal
put_status status revision subgoal = record subgoal {
  status = status;
  completed_revision = if is_complete status then some revision else none;
}

pub set_subgoal_status : WorkState → Bytes → WorkStatus → ℕ → WorkState × Bool
set_subgoal_status s id status revision =
    if any (has_id id) s.subgoals
    then (
      select_active_subgoal (record s {
        subgoals = modify_first (has_id id) (put_status status revision) s.subgoals;
      }),
      true,
    )
    else (s, false)

abbrev bool_eq : Bool → Bool → Bool
bool_eq true b = b
bool_eq false b = not b

-- The derived `==`.
abbrev pub evidence_eq : WorkEvidence → WorkEvidence → Bool
evidence_eq a b =
    text_eq a.kind b.kind
    && text_eq a.path b.path
    && text_eq a.detail b.detail
    && a.revision == b.revision
    && bool_eq a.valid b.valid

abbrev pub with_evidence : List WorkEvidence → WorkEvidence → List WorkEvidence
with_evidence evidence e =
    if any (λ existing. evidence_eq existing e) evidence
    then evidence
    else push_bounded evidence e max_work_evidence

unfoldable pub record_evidence : WorkState → Bytes → Bytes → Bytes → ℕ → WorkState
record_evidence s kind path detail revision = record s {
  evidence = with_evidence s.evidence (record {
    kind = bounded kind;
    path = bounded path;
    detail = bounded detail;
    revision = revision;
    valid = true;
  });
}

abbrev pub push_path : Bytes → List BoundedText → List BoundedText
push_path path paths =
    if any (λ existing. bytes_eq existing.text path) paths
    then paths
    else push_bounded paths (bounded path) max_work_relations

-- A stale status is pending again.
abbrev pub reopened : WorkStatus → WorkStatus
reopened WorkStatus.stale = WorkStatus.pending
reopened WorkStatus.pending = WorkStatus.pending
reopened WorkStatus.active = WorkStatus.active
reopened WorkStatus.complete = WorkStatus.complete
reopened WorkStatus.blocked = WorkStatus.blocked

abbrev pub touch_path : Bytes → WorkSubgoal → WorkSubgoal
touch_path path subgoal = record subgoal {
  paths = push_path path subgoal.paths;
  status = reopened subgoal.status;
}

abbrev pub path_id : Bytes → Bytes
path_id path = codes "path:" ++ path

pub ensure_path_subgoal : WorkState → Bytes → WorkState
ensure_path_subgoal s path = record s {
  subgoals =
      if any (has_id (path_id path)) s.subgoals
      then modify_first (has_id (path_id path)) (touch_path path) s.subgoals
      else push_bounded s.subgoals
          (new_subgoal (path_id path) (codes "complete changes for " ++ path) []
            (bounded path ∷ []))
          max_work_subgoals;
}

pub record_path : Bytes → ℕ → WorkState → Bytes → WorkState
unfolding ensure_path_subgoal
record_path operation revision s path =
    let recorded = record_evidence s (codes "mutation") path operation revision in
    if is_structured s then ensure_path_subgoal recorded path else recorded

-- The loop over the affected paths.
pub record_paths : Bytes → ℕ → WorkState → List BoundedText → WorkState
unfolding record_path
record_paths operation revision s [] = s
record_paths operation revision s (path ∷ paths) =
    record_paths operation revision (record_path operation revision s path.text) paths

abbrev pub as_stale : WorkVerification → WorkVerification
as_stale verification = record verification { status = VerificationStatus.stale }

abbrev pub unsatisfied : WorkCriterion → WorkCriterion
unsatisfied criterion = record criterion { satisfied = false }

pub record_mutation : WorkState → Bytes → List Bytes → ℕ → WorkState
unfolding record_paths
record_mutation s operation paths revision =
    let bounded_paths = map bounded paths in
    let mutated = record s {
      revision = revision;
      verifications = map as_stale s.verifications;
      acceptance_criteria = map unsatisfied s.acceptance_criteria;
      mutations =
          push_bounded s.mutations
            (record { operation = bounded operation; paths = bounded_paths; revision = revision })
            max_work_mutations;
    } in
    select_active_subgoal (record_paths operation revision mutated bounded_paths)
