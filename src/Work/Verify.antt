-- ===== src/Work/Verify.antt =====
-- crates/aether-core/src/work.rs: verifications, blockers, invalidation and what blocks completion.
pub mod Bounds
pub mod Covered
pub mod Completion
pub mod Cleared
pub mod Long
pub mod Invalid
pub mod BlockerBounds
use aether_fx.Base.{
  ℕ, ◌+◌, Bool, true, false, not, ◌&&◌, ◌||◌, Option, none, some, List, [], ◌∷◌, map, Bytes,
  bytes_eq, codes, length, take, any, all, filter, modify_first, contains, to_ascii_lowercase,
  saturating_add, u16_max, leb, ◌==◌, if◌then◌else◌,
}
use aether_fx.BoundedText.{BoundedText, text_eq}
use aether_fx.Workflow.{VerificationStatus}
use aether_fx.Work.{
  WorkState, WorkCriterion, WorkSubgoal, WorkEvidence, WorkVerification, WorkBlocker, WorkStatus,
  bounded, push_bounded, is_complete, with_status, dependencies_complete, select_active_subgoal,
  max_work_verifications, max_work_blockers,
}
use aether_fx.Work.Record.{has_id, as_stale}

unfoldable pub criterion_supported_by_verification : Bytes → Bytes → Bool
criterion_supported_by_verification description command =
    let d = to_ascii_lowercase description in
    let c = to_ascii_lowercase command in
    let mentions_tests = contains d (codes "test") || contains d (codes "spec") in
    let mentions_verification =
      contains d (codes "verif")
      || contains d (codes "check")
      || contains d (codes "compil")
      || contains d (codes "build") in
    (mentions_tests && contains c (codes "test"))
    || (mentions_verification
        && (contains c (codes "check")
            || contains c (codes "test")
            || contains c (codes "build")
            || contains c (codes "clippy")))

abbrev pub same_check : Bytes → ℕ → WorkVerification → Bool
same_check command revision v = bytes_eq v.command.text command && v.revision == revision

-- A new observation replaces that of the same command and revision.
abbrev pub put_verification :
    WorkVerification → Bytes → List WorkVerification → List WorkVerification
put_verification v command verifications =
    if any (same_check command v.revision) verifications
    then modify_first (same_check command v.revision)
        (λ existing. record existing {
          status = v.status;
          scope = v.scope;
          diagnostics = v.diagnostics;
        })
        verifications
    else push_bounded verifications v max_work_verifications

abbrev pub satisfied_by : Bytes → WorkCriterion → WorkCriterion
satisfied_by command criterion = record criterion {
  satisfied =
      criterion_supported_by_verification criterion.description.text command || criterion.satisfied;
}

abbrev pub has_paths : WorkSubgoal → Bool
has_paths subgoal = elim subgoal.paths [ [] ↦ false | _ ∷ _ ↦ true ]

-- The paths of the subgoal are all affected, and its dependencies are complete.
pub is_covered : List Bytes → List WorkSubgoal → WorkSubgoal → Bool
is_covered affected_paths subgoals subgoal =
    has_paths subgoal
    && all (λ path. any (λ affected. bytes_eq affected path.text) affected_paths) subgoal.paths
    && dependencies_complete subgoal subgoals

abbrev pub finished : ℕ → WorkSubgoal → WorkSubgoal
finished revision subgoal = record subgoal {
  status = WorkStatus.complete;
  completed_revision = some revision;
}

abbrev pub complete_ids : ℕ → List BoundedText → WorkSubgoal → WorkSubgoal
complete_ids revision ids subgoal =
    if any (λ id. text_eq id subgoal.id) ids then finished revision subgoal else subgoal

abbrev pub complete_covered : ℕ → List Bytes → List WorkSubgoal → List WorkSubgoal
complete_covered revision affected_paths subgoals =
    map
      (complete_ids revision
        (map (λ g. g.id) (filter (is_covered affected_paths subgoals) subgoals)))
      subgoals

abbrev pub task_id : Bytes
task_id = codes "task"

-- The root is complete once all work on paths is, and no blocker is left.
abbrev pub root_closes : List WorkBlocker → List WorkSubgoal → Bool
root_closes blockers subgoals =
    all (λ g. is_complete g.status) (filter has_paths subgoals)
    && elim blockers [ [] ↦ true | _ ∷ _ ↦ false ]

abbrev pub complete_root : ℕ → List WorkBlocker → List WorkSubgoal → List WorkSubgoal
complete_root revision blockers subgoals =
    if root_closes blockers subgoals
    then modify_first (has_id task_id) (finished revision) subgoals
    else subgoals

pub close_passed : Bytes → ℕ → List Bytes → WorkState → WorkState
unfolding is_covered
close_passed command revision affected_paths s = select_active_subgoal (record s {
  acceptance_criteria = map (satisfied_by command) s.acceptance_criteria;
  subgoals =
      complete_root revision s.blockers (complete_covered revision affected_paths s.subgoals);
})

abbrev pub observation : Bytes → Bytes → Bool → ℕ → List Bytes → WorkVerification
observation command scope passed revision diagnostics = record {
  command = bounded command;
  scope = bounded scope;
  revision = revision;
  status = if passed then VerificationStatus.passed else VerificationStatus.failed;
  diagnostics = take 4 (map bounded diagnostics);
}

pub record_verification : WorkState → Bytes → Bytes → Bool → ℕ → List Bytes → List Bytes → WorkState
unfolding close_passed
record_verification s command scope passed revision diagnostics affected_paths =
    let observed = observation command scope passed revision diagnostics in
    let recorded = record s {
      revision = revision;
      verifications = put_verification observed command s.verifications;
    } in
    if passed then close_passed command revision affected_paths recorded else recorded

abbrev pub has_key : Bytes → WorkBlocker → Bool
has_key key blocker = bytes_eq blocker.key.text key

abbrev pub retried : Bytes → Bytes → ℕ → WorkBlocker → WorkBlocker
retried category detail revision blocker = record blocker {
  category = bounded category;
  detail = bounded detail;
  attempts = saturating_add u16_max blocker.attempts 1;
  revision = revision;
}

abbrev pub block_active : Option BoundedText → WorkSubgoal → WorkSubgoal
block_active none subgoal = subgoal
block_active (some id) subgoal =
    if bytes_eq id.text subgoal.id.text then with_status WorkStatus.blocked subgoal else subgoal

pub record_blocker : WorkState → Bytes → Bytes → Bytes → ℕ → WorkState
record_blocker s key category detail revision =
    if any (has_key key) s.blockers
    then record s {
      blockers = modify_first (has_key key) (retried category detail revision) s.blockers;
    }
    else record s {
      blockers =
          push_bounded s.blockers
            (record {
              key = bounded key;
              category = bounded category;
              detail = bounded detail;
              attempts = 1;
              revision = revision;
            })
            max_work_blockers;
      subgoals = map (block_active s.active_subgoal) s.subgoals;
    }

abbrev pub unblocked : WorkStatus → WorkStatus
unblocked WorkStatus.blocked = WorkStatus.active
unblocked WorkStatus.pending = WorkStatus.pending
unblocked WorkStatus.active = WorkStatus.active
unblocked WorkStatus.complete = WorkStatus.complete
unblocked WorkStatus.stale = WorkStatus.stale

abbrev pub unblock : WorkSubgoal → WorkSubgoal
unblock g = with_status (unblocked g.status) g

pub clear_blocker : WorkState → Bytes → WorkState
clear_blocker s key = select_active_subgoal (record s {
  blockers = filter (λ blocker. not (has_key key blocker)) s.blockers;
  subgoals = map unblock s.subgoals;
})

-- A completed subgoal is stale.
abbrev pub staled : WorkSubgoal → WorkSubgoal
staled subgoal =
    if is_complete subgoal.status
    then record subgoal { status = WorkStatus.stale; completed_revision = none }
    else subgoal

abbrev pub stale_until : ℕ → WorkVerification → WorkVerification
stale_until revision v = if leb v.revision revision then as_stale v else v

abbrev pub invalid : WorkEvidence → WorkEvidence
invalid e = record e { valid = false }

pub invalidate_for_workspace_change : WorkState → ℕ → WorkState
invalidate_for_workspace_change s revision = select_active_subgoal (record s {
  revision = revision;
  evidence = map invalid s.evidence;
  verifications = map (stale_until revision) s.verifications;
  subgoals = map staled s.subgoals;
  active_subgoal = none;
})

pub satisfy_criterion : WorkState → Bytes → WorkState
satisfy_criterion s key = record s {
  acceptance_criteria =
      modify_first (λ c. bytes_eq c.key.text key) (λ c. record c { satisfied = true })
        s.acceptance_criteria;
}

unfoldable pub criteria_satisfied : WorkState → Bool
criteria_satisfied s = all (λ c. c.satisfied) s.acceptance_criteria

pub unresolved_count : WorkState → ℕ
unresolved_count s =
    length (filter (λ g. not (is_complete g.status)) s.subgoals) + length s.blockers

unfoldable pub blocks_completion : WorkState → Bool
blocks_completion s =
    not (elim s.blockers [ [] ↦ true | _ ∷ _ ↦ false ])
    || any (λ g. not (has_id task_id g) && not (is_complete g.status)) s.subgoals
