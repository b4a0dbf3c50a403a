-- ===== src/Work/Record/Bounds.antt =====
-- The bounds after the recording operations.
use aether_fx.Base.{
  Held, Held-map, Held-mapped, Held-modify_first, All-mapped, ℕ, ◌||◌, bytes_eq, List, [], ◌∷◌,
  ◌++◌, map, Bytes, codes, is_empty, any, take, Bool-cases, inl, inr, arith,
}
use aether_fx.BoundedText.{BoundedText}
use aether_fx.Work.{
  WorkState, WorkSubgoal, WorkEvidence, WorkMode, WorkStatus, bounded, is_structured,
  max_work_subgoals, max_work_evidence, max_work_mutations, max_work_relations, max_work_criteria,
  max_work_verifications,
}
use aether_fx.Work.Held.{Held-push_bounded}
use aether_fx.Work.Bounds.{
  IsBounded, Short, ShortCriterion, ShortSubgoal, ShortEvidence, ShortMutation, ShortVerification,
  bounded-Short, select_active_subgoal-IsBounded,
}
use aether_fx.Work.Record.{
  add_subgoal, set_subgoal_status, record_evidence, with_evidence, evidence_eq, has_id, new_subgoal,
  put_status, push_path, touch_path, path_id, ensure_path_subgoal, record_path, record_paths,
  as_stale, unsatisfied, record_mutation,
}

-- A state whose subgoals alone were changed, and its mode.
pub with_subgoals :
    (s : WorkState) (m : WorkMode) (gs : List WorkSubgoal)
    → IsBounded s
    → Held max_work_subgoals ShortSubgoal gs
    → IsBounded (record s { mode = m; subgoals = gs })
with_subgoals s m gs b a = record {
  objective = b.objective;
  constraints = b.constraints;
  criteria = b.criteria;
  subgoals = a;
  active = b.active;
  blockers = b.blockers;
  evidence = b.evidence;
  mutations = b.mutations;
  verifications = b.verifications;
}

new_subgoal-Short :
    (id label : Bytes) (dependencies paths : List BoundedText)
    → Held max_work_relations Short dependencies
    → Held max_work_relations Short paths
    → ShortSubgoal (new_subgoal id label dependencies paths)
new_subgoal-Short id label dependencies paths d p = (bounded-Short id, bounded-Short label, d, p)

pub add_subgoal-IsBounded :
    (s : WorkState) (id label : Bytes) (depends_on : List Bytes)
    → IsBounded s
    → IsBounded (add_subgoal s id label depends_on).0
unfolding add_subgoal
add_subgoal-IsBounded s id label depends_on b =
    let dependencies = map bounded (take max_work_relations depends_on) in
    let fresh =
      new_subgoal-Short id label dependencies []
        (Held-mapped Short max_work_relations bounded depends_on bounded-Short) (omega arith, tt) in
    let added = select_active_subgoal-IsBounded _ (
      with_subgoals s WorkMode.structured _ b (
        Held-push_bounded ShortSubgoal max_work_subgoals s.subgoals
          (new_subgoal id label dependencies []) fresh b.subgoals)) in
    elim (Bool-cases (is_empty id || any (has_id id) s.subgoals)) [
      | inl e ↦ rw e b
      | inr e ↦ rw e added
    ]

pub set_subgoal_status-IsBounded :
    (s : WorkState) (id : Bytes) (status : WorkStatus) (revision : ℕ)
    → IsBounded s
    → IsBounded (set_subgoal_status s id status revision).0
unfolding set_subgoal_status
set_subgoal_status-IsBounded s id status revision b =
    let changed = select_active_subgoal-IsBounded _ (
      with_subgoals s s.mode _ b (
        Held-modify_first ShortSubgoal max_work_subgoals (has_id id) (put_status status revision)
          s.subgoals (λ g short. short) b.subgoals)) in
    elim (Bool-cases (any (has_id id) s.subgoals)) [ inl e ↦ rw e changed | inr e ↦ rw e b ]

with_evidence-Held :
    (es : List WorkEvidence) (e : WorkEvidence)
    → ShortEvidence e
    → Held max_work_evidence ShortEvidence es
    → Held max_work_evidence ShortEvidence (with_evidence es e)
with_evidence-Held es e short a =
    let pushed = Held-push_bounded ShortEvidence max_work_evidence es e short a in
    elim (Bool-cases (any (λ existing. evidence_eq existing e) es)) [
      | inl h ↦ rw (h, Held) a
      | inr h ↦ rw (h, Held) pushed
    ]

pub record_evidence-IsBounded :
    (s : WorkState) (kind path detail : Bytes) (revision : ℕ)
    → IsBounded s
    → IsBounded (record_evidence s kind path detail revision)
unfolding record_evidence
record_evidence-IsBounded s kind path detail revision b = record {
  objective = b.objective;
  constraints = b.constraints;
  criteria = b.criteria;
  subgoals = b.subgoals;
  active = b.active;
  blockers = b.blockers;
  evidence =
      with_evidence-Held s.evidence _ (bounded-Short kind, bounded-Short path, bounded-Short detail)
        b.evidence;
  mutations = b.mutations;
  verifications = b.verifications;
}

push_path-Held :
    (path : Bytes) (paths : List BoundedText)
    → Held max_work_relations Short paths
    → Held max_work_relations Short (push_path path paths)
push_path-Held path paths a =
    let pushed =
      Held-push_bounded Short max_work_relations paths (bounded path) (bounded-Short path) a in
    elim (Bool-cases (any (λ existing. bytes_eq existing.text path) paths)) [
      | inl h ↦ rw (h, Held) a
      | inr h ↦ rw (h, Held) pushed
    ]

ensure_path_subgoal-IsBounded :
    (s : WorkState) (path : Bytes) → IsBounded s → IsBounded (ensure_path_subgoal s path)
unfolding ensure_path_subgoal
ensure_path_subgoal-IsBounded s path b =
    let touched =
      Held-modify_first ShortSubgoal max_work_subgoals (has_id (path_id path)) (touch_path path)
        s.subgoals (λ g short. (short.0, short.1, short.2, push_path-Held path g.paths short.3))
        b.subgoals in
    let added =
      Held-push_bounded ShortSubgoal max_work_subgoals s.subgoals _
        (new_subgoal-Short (path_id path) (codes "complete changes for " ++ path) []
          (bounded path ∷ []) (omega arith, tt) (omega arith, (bounded-Short path, tt)))
        b.subgoals in
    with_subgoals s s.mode _ b (elim (Bool-cases (any (has_id (path_id path)) s.subgoals)) [
      | inl h ↦ rw (h, Held) touched
      | inr h ↦ rw (h, Held) added
    ])

record_paths-IsBounded :
    (operation : Bytes) (revision : ℕ) (s : WorkState) (paths : List BoundedText)
    → IsBounded s
    → IsBounded (record_paths operation revision s paths)
unfolding record_paths record_path
record_paths-IsBounded operation revision s [] b = b
record_paths-IsBounded operation revision s (path ∷ paths) b =
    let recorded = record_evidence-IsBounded s (codes "mutation") path.text operation revision b in
    let ensured = ensure_path_subgoal-IsBounded _ path.text recorded in
    record_paths-IsBounded operation revision (record_path operation revision s path.text) paths
      (elim (Bool-cases (is_structured s)) [ inl h ↦ rw h ensured | inr h ↦ rw h recorded ])

pub record_mutation-IsBounded :
    (s : WorkState) (operation : Bytes) (paths : List Bytes) (revision : ℕ)
    → IsBounded s
    → IsBounded (record_mutation s operation paths revision)
unfolding record_mutation
record_mutation-IsBounded s operation paths revision b = select_active_subgoal-IsBounded _ (
    record_paths-IsBounded operation revision _ (map bounded paths) (record {
      objective = b.objective;
      constraints = b.constraints;
      criteria =
          Held-map ShortCriterion ShortCriterion max_work_criteria unsatisfied s.acceptance_criteria
            (λ c short. short) b.criteria;
      subgoals = b.subgoals;
      active = b.active;
      blockers = b.blockers;
      evidence = b.evidence;
      mutations =
          Held-push_bounded ShortMutation max_work_mutations s.mutations _
            (bounded-Short operation, All-mapped Short bounded paths bounded-Short) b.mutations;
      verifications =
          Held-map ShortVerification ShortVerification max_work_verifications as_stale
            s.verifications (λ v short. short) b.verifications;
    }))
