-- ===== src/Work/Tests.antt =====
-- A task with two subgoals, the second waiting for the first.
use aether_fx.Base.{
  ℕ, zero, suc, true, false, none, some, List, [], ◌∷◌, ◌++◌, Bytes, bytes_eq, codes, All, ◌≡◌, ◌⊎◌,
  refl, arith,
}
use aether_fx.BoundedText.{text_eq, empty_text, new}
use aether_fx.Workflow.{VerificationStatus}
use aether_fx.Work.{
  is_complete, WorkState, WorkSubgoal, WorkMode, WorkStatus, WorkVerification, WorkBlocker, bounded,
  with_status, select_active_subgoal,
}
use aether_fx.Work.Active.{Distinct, select_active_subgoal_lem}
use aether_fx.Work.Dependencies.{Ready}
use aether_fx.Work.Record.{new_subgoal, add_subgoal, record_mutation}
use aether_fx.Work.Record.Mutation.{record_mutation-stale}
use aether_fx.Work.Record.Identity.{add_subgoal-Distinct}
use aether_fx.Work.Verify.{invalidate_for_workspace_change, record_verification, clear_blocker}
use aether_fx.Work.Verify.Completion.{Pairs, Earned, record_verification-Earned}
use aether_fx.Work.Verify.Invalid.{Outdated, invalidate-Outdated}
use aether_fx.Work.Verify.Cleared.{is_blocked, clear_blocker_lem}

-- `WorkState::default()`.
abbrev pub no_work : WorkState
no_work = record {
  mode = WorkMode.simple;
  objective = empty_text;
  constraints = [];
  acceptance_criteria = [];
  subgoals = [];
  active_subgoal = none;
  blockers = [];
  evidence = [];
  mutations = [];
  verifications = [];
  task_revision = 0;
  task_fingerprint = [];
  revision = 0;
}

abbrev parser : WorkSubgoal
parser = new_subgoal (codes "parser") (codes "parse") [] (bounded (codes "a.rs") ∷ [])

abbrev printer : WorkSubgoal
printer = new_subgoal (codes "printer") (codes "print") (bounded (codes "parser") ∷ []) []

abbrev check : WorkVerification
check = record {
  command = bounded (codes "cargo test");
  scope = bounded (codes "all");
  revision = 1;
  status = VerificationStatus.passed;
  diagnostics = [];
}

abbrev obstacle : WorkBlocker
obstacle = record {
  key = bounded (codes "k");
  category = bounded (codes "command");
  detail = bounded (codes "failed");
  attempts = 1;
  revision = 1;
}

abbrev two_parts : WorkState
two_parts = record no_work {
  mode = WorkMode.structured;
  subgoals = with_status WorkStatus.blocked parser ∷ printer ∷ [];
  blockers = obstacle ∷ [];
  verifications = check ∷ [];
}

two_parts-Distinct : Distinct two_parts.subgoals
unfolding bounded text_eq bytes_eq new
two_parts-Distinct = ((refl, tt), (tt, tt))

select_active_subgoal_lem_example :
    let s' = select_active_subgoal two_parts in
    (All (λ g. ¬ Ready two_parts.subgoals g) two_parts.subgoals
      × (s'.active_subgoal ≡ none)
      × (s'.subgoals ≡ two_parts.subgoals))
    ⊎ ((before : List WorkSubgoal) × (g : WorkSubgoal) × (after : List WorkSubgoal)
        × (two_parts.subgoals ≡ before ++ g ∷ after)
        × All (λ h. ¬ Ready two_parts.subgoals h) before
        × Ready two_parts.subgoals g
        × (s'.active_subgoal ≡ some g.id)
        × (s'.subgoals ≡ before ++ with_status WorkStatus.active g ∷ after))
select_active_subgoal_lem_example = select_active_subgoal_lem two_parts two_parts-Distinct

record_mutation-stale_example :
    let s' = record_mutation two_parts (codes "edit") (codes "b.rs" ∷ []) 2 in
    All (λ v. v.status ≡ VerificationStatus.stale) s'.verifications
    × All (λ c. c.satisfied ≡ false) s'.acceptance_criteria
    × (s'.revision ≡ 2)
record_mutation-stale_example = record_mutation-stale two_parts (codes "edit") (codes "b.rs" ∷ []) 2

record_verification-Earned_example :
    Pairs
      (Earned true (codes "a.rs" ∷ []) two_parts)
      two_parts.subgoals
      (record_verification two_parts
        (codes "cargo test")
        (codes "all")
        true
        2
        []
        (codes "a.rs" ∷ [])).subgoals
record_verification-Earned_example =
    record_verification-Earned two_parts (codes "cargo test") (codes "all") true 2 []
      (codes "a.rs" ∷ [])

clear_blocker_lem_example :
    let s' = clear_blocker two_parts (codes "k") in
    All (λ b. bytes_eq b.key.text (codes "k") ≡ false) s'.blockers
    × All (λ g. is_blocked g.status ≡ false) s'.subgoals
clear_blocker_lem_example = clear_blocker_lem two_parts (codes "k")

add_subgoal-Distinct_example :
    Distinct (add_subgoal two_parts (codes "docs") (codes "document") []).0.subgoals
add_subgoal-Distinct_example =
    add_subgoal-Distinct two_parts (codes "docs") (codes "document") [] (omega arith)
      two_parts-Distinct

abbrev repeated : ℕ → Bytes
repeated zero = []
repeated (suc n) = b'a' ∷ repeated n

invalidate-Outdated_example :
    let s' = invalidate_for_workspace_change two_parts 1 in
    All (λ e. e.valid ≡ false) s'.evidence
    × All (λ g. is_complete g.status ≡ false) s'.subgoals
    × All (Outdated 1) s'.verifications
invalidate-Outdated_example = invalidate-Outdated two_parts 1
