-- ===== src/Decision/Update/ScopeBounds.antt =====
-- The bounds of the decision state after its candidates, its scope or its next action change.
use aether_fx.Base.{
  ℕ, Bool, not, ◌||◌, Option, none, some, List, [], ◌∷◌, ◌++◌, map, Bytes, bytes_eq, is_empty, take,
  any, All, Held, Held-mapped, Held-filter, All-append, All-tail, length-append, length-tail,
  All-modify_first, Bool-cases, inl, inr, arith,
}
use aether_fx.BoundedText.{BoundedText, is_truncated}
use aether_fx.Decision.{
  DecisionState, DecisionCandidate, DecisionAction, field, max_decision_evidence,
  max_decision_questions, max_decision_candidates, max_decision_scope,
}
use aether_fx.Decision.Order.{sort_candidates}
use aether_fx.Decision.Order.Sorted.{sort_candidates_lem, sort_candidates-All}
use aether_fx.Decision.Update.{
  same_path, merge, put_candidate, new_candidate, upsert_candidate, add_scope,
  record_modified_scope, note_observation_value, target_field, set_next, reset_for_workspace_change,
  refield_target, bound_evidence, bound_question, bound_candidate, bound_path, enforce_bounds,
}
use aether_fx.Decision.Update.Bounds.{
  Short, ShortEvidence, ShortQuestion, ShortCandidate, ShortOption, IsBounded, field-Short, either,
  with_confidence,
}

with_candidates :
    (s : DecisionState) (cs : List DecisionCandidate)
    → IsBounded s
    → All ShortCandidate cs
    → IsBounded (record s { candidate_files = sort_candidates cs })
with_candidates s cs b a =
    let (_, _, _, ranked, few) = sort_candidates_lem cs in
    record {
      evidence = b.evidence;
      questions = b.questions;
      candidates = (few, sort_candidates-All ShortCandidate cs a);
      ranked = ranked;
      scope = b.scope;
      verification = b.verification;
      confidence = b.confidence;
      target = b.target;
      reason = b.reason;
    }

put_candidate-All :
    (c : DecisionCandidate) (cs : List DecisionCandidate)
    → ShortCandidate c
    → All ShortCandidate cs
    → All ShortCandidate (put_candidate c cs)
put_candidate-All c cs short a =
    let merged = All-modify_first ShortCandidate (same_path c.path) (merge c) cs (λ x h. h) a in
    let added = All-append ShortCandidate cs (c ∷ []) a (short, tt) in
    elim (Bool-cases (any (same_path c.path) cs)) [ inl e ↦ rw e merged | inr e ↦ rw e added ]

pub upsert_candidate-IsBounded :
    (path : Bytes) (score evidence : ℕ) (inspected modified stale : Bool) (s : DecisionState)
    → IsBounded s
    → IsBounded (upsert_candidate path score evidence inspected modified stale s)
unfolding upsert_candidate
upsert_candidate-IsBounded path score evidence inspected modified stale s b =
    either (is_empty (field path).text) _ _ b (
      with_candidates s _ b (
        put_candidate-All (new_candidate path score evidence inspected modified stale)
          s.candidate_files (field-Short path) b.candidates.1))

with_scope :
    (s : DecisionState) (ps : List Bytes)
    → IsBounded s
    → Held max_decision_scope Short ps
    → IsBounded (record s { modified_scope = ps })
with_scope s ps b h = record {
  evidence = b.evidence;
  questions = b.questions;
  candidates = b.candidates;
  ranked = b.ranked;
  scope = h;
  verification = b.verification;
  confidence = b.confidence;
  target = b.target;
  reason = b.reason;
}

add_scope-Held :
    (path : Bytes) (scope : List Bytes)
    → Short path
    → Held max_decision_scope Short scope
    → Held max_decision_scope Short (add_scope path scope)
add_scope-Held path scope short h =
    let pushed = All-append Short scope (path ∷ []) h.1 (short, tt) in
    ground (
      arith,
      length-append scope (path ∷ []),
      length-tail (scope ++ path ∷ []) max_decision_scope,
      pushed,
      All-tail Short (scope ++ path ∷ []) pushed,
    )

pub record_modified_scope-IsBounded :
    (path : Bytes) (s : DecisionState) → IsBounded s → IsBounded (record_modified_scope path s)
unfolding record_modified_scope
record_modified_scope-IsBounded path s b =
    either
      (is_truncated (field path)
        || is_empty (field path).text
        || any (λ existing. bytes_eq existing (field path).text) s.modified_scope)
      _ _ b
      (with_scope s _ b
        (add_scope-Held (field path).text s.modified_scope (field-Short path) b.scope))

pub note_observation_value-IsBounded :
    (advanced : Bool) (s : DecisionState)
    → IsBounded s
    → IsBounded (note_observation_value advanced s)
unfolding note_observation_value
note_observation_value-IsBounded advanced s b =
    either advanced _ _ (with_confidence s _ _ b (omega arith))
      (with_confidence s s.progress_confidence _ b b.confidence)

target_field-Short : (o : Option Bytes) → ShortOption (target_field o)
target_field-Short none = tt
target_field-Short (some t) = field-Short t

pub set_next-IsBounded :
    (action : DecisionAction) (target : Option Bytes) (reason : Bytes) (s : DecisionState)
    → IsBounded s
    → IsBounded (set_next action target reason s)
unfolding set_next
set_next-IsBounded action target reason s b = record {
  evidence = b.evidence;
  questions = b.questions;
  candidates = b.candidates;
  ranked = b.ranked;
  scope = b.scope;
  verification = b.verification;
  confidence = b.confidence;
  target = target_field-Short target;
  reason = field-Short reason;
}

pub reset-IsBounded : (s : DecisionState) → IsBounded (reset_for_workspace_change s)
unfolding reset_for_workspace_change set_next
reset-IsBounded s = record {
  evidence = (omega arith, tt);
  questions = (omega arith, tt);
  candidates = (omega arith, tt);
  ranked = tt;
  scope = (omega arith, tt);
  verification = omega arith;
  confidence = omega arith;
  target = tt;
  reason = field-Short _;
}

refield_target-Short : (o : Option BoundedText) → ShortOption (refield_target o)
refield_target-Short none = tt
refield_target-Short (some t) = field-Short t.text

pub enforce_bounds-IsBounded : (s : DecisionState) → IsBounded (enforce_bounds s)
unfolding enforce_bounds
enforce_bounds-IsBounded s =
    let cs = map bound_candidate (take max_decision_candidates s.candidate_files) in
    let (_, _, _, ranked, few) = sort_candidates_lem cs in
    record {
      evidence =
          Held-mapped ShortEvidence max_decision_evidence bound_evidence s.evidence
            (λ e. (field-Short e.path.text, field-Short e.detail.text));
      questions =
          Held-mapped ShortQuestion max_decision_questions bound_question s.unresolved_questions
            (λ q. (field-Short q.key.text, field-Short q.question.text));
      candidates = (
        few,
        sort_candidates-All ShortCandidate cs
            (Held-mapped ShortCandidate max_decision_candidates bound_candidate s.candidate_files
              (λ c. field-Short c.path.text)).1,
      );
      ranked = ranked;
      scope =
          Held-filter Short max_decision_scope (λ path. not (is_empty path)) _
            (Held-mapped Short max_decision_scope bound_path s.modified_scope field-Short);
      verification = field-Short s.verification_scope.text;
      confidence = omega arith;
      target = refield_target-Short s.next_target;
      reason = field-Short s.next_reason.text;
    }
