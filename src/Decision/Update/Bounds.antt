-- ===== src/Decision/Update/Bounds.antt =====
-- The bounds of the decision state, after evidence and questions.
use aether_fx.Base.{
  ℕ, ◌≤◌, Bool, true, false, not, ◌&&◌, ◌||◌, Option, none, some, List, Bytes, is_empty, length,
  any, Held, Held-filter, Held-modify_first, Held-push_full, if◌then◌else◌, arith,
}
use aether_fx.BoundedText.{BoundedText}
use aether_fx.BoundedText.Limits.{new_limit}
use aether_fx.Tools.Action.{EvidenceProvenance}
use aether_fx.Decision.{
  DecisionState, DecisionEvidence, DecisionEvidenceKind, DecisionQuestion, DecisionCandidate, field,
  max_decision_evidence, max_decision_questions, max_decision_candidates, max_decision_scope,
  max_decision_field_bytes,
}
use aether_fx.Decision.Order.Sorted.{Ranked}
use aether_fx.Decision.Update.{
  same_evidence, strengthen, add_evidence, record_evidence_with_provenance, same_key, ask_again,
  record_question, has_question, clear_question,
}

abbrev pub Short : Bytes → Type 0
Short t = length t ≤ max_decision_field_bytes

abbrev pub ShortEvidence : DecisionEvidence → Type 0
ShortEvidence e = Short e.path.text × Short e.detail.text

abbrev pub ShortQuestion : DecisionQuestion → Type 0
ShortQuestion q = Short q.key.text × Short q.question.text

abbrev pub ShortCandidate : DecisionCandidate → Type 0
ShortCandidate c = Short c.path.text

abbrev pub ShortOption : Option BoundedText → Type 0
ShortOption none = Unit
ShortOption (some t) = Short t.text

pub record IsBounded (s : DecisionState) : Type 0 where
  pub evidence : Held max_decision_evidence ShortEvidence s.evidence
  pub questions : Held max_decision_questions ShortQuestion s.unresolved_questions
  pub candidates : Held max_decision_candidates ShortCandidate s.candidate_files
  pub ranked : Ranked s.candidate_files
  pub scope : Held max_decision_scope Short s.modified_scope
  pub verification : Short s.verification_scope.text
  pub confidence : s.progress_confidence ≤ 100
  pub target : ShortOption s.next_target
  pub reason : Short s.next_reason.text

pub field-Short : (value : Bytes) → Short (field value).text
unfolding field
field-Short value = (new_limit value max_decision_field_bytes).0

-- One part of the state replaced.
with_evidence :
    (s : DecisionState) (es : List DecisionEvidence) (n : ℕ)
    → IsBounded s
    → Held max_decision_evidence ShortEvidence es
    → n ≤ 100
    → IsBounded (record s { evidence = es; progress_confidence = n })
with_evidence s es n b h k = record {
  evidence = h;
  questions = b.questions;
  candidates = b.candidates;
  ranked = b.ranked;
  scope = b.scope;
  verification = b.verification;
  confidence = k;
  target = b.target;
  reason = b.reason;
}

with_questions :
    (s : DecisionState) (qs : List DecisionQuestion)
    → IsBounded s
    → Held max_decision_questions ShortQuestion qs
    → IsBounded (record s { unresolved_questions = qs })
with_questions s qs b h = record {
  evidence = b.evidence;
  questions = h;
  candidates = b.candidates;
  ranked = b.ranked;
  scope = b.scope;
  verification = b.verification;
  confidence = b.confidence;
  target = b.target;
  reason = b.reason;
}

pub with_confidence :
    (s : DecisionState) (n low : ℕ)
    → IsBounded s
    → n ≤ 100
    → IsBounded (record s { progress_confidence = n; low_value_observations = low })
with_confidence s n low b h = record {
  evidence = b.evidence;
  questions = b.questions;
  candidates = b.candidates;
  ranked = b.ranked;
  scope = b.scope;
  verification = b.verification;
  confidence = h;
  target = b.target;
  reason = b.reason;
}

-- An operation that may leave the state as it is.
pub either :
    (c : Bool) (x y : DecisionState) → IsBounded x → IsBounded y → IsBounded (if c then x else y)
either true x y h k = h
either false x y h k = k

either-Held :
    {A : Type 0} (limit : ℕ) (P : A → Type 0) (c : Bool) (xs ys : List A)
    → Held limit P xs
    → Held limit P ys
    → Held limit P (if c then xs else ys)
either-Held limit P true xs ys h k = h
either-Held limit P false xs ys h k = k

add_evidence-IsBounded :
    (e : DecisionEvidence) (s : DecisionState)
    → ShortEvidence e
    → IsBounded s
    → IsBounded (add_evidence e s)
add_evidence-IsBounded e s short b =
    either (any (same_evidence e) s.evidence) _ _
      (with_evidence s _ s.progress_confidence b
        (Held-modify_first ShortEvidence max_decision_evidence (same_evidence e)
          (strengthen e.weight) s.evidence (λ x h. h) b.evidence)
        b.confidence)
      (with_evidence s _ _ b (Held-push_full ShortEvidence 31 s.evidence e short b.evidence)
        (omega arith))

pub record_evidence-IsBounded :
    (provenance : EvidenceProvenance) (kind : DecisionEvidenceKind) (path detail : Bytes)
    (weight revision : ℕ) (s : DecisionState)
    → IsBounded s
    → IsBounded (record_evidence_with_provenance provenance kind path detail weight revision s)
unfolding record_evidence_with_provenance
record_evidence-IsBounded provenance kind path detail weight revision s b =
    either (is_empty (field path).text && is_empty (field detail).text) _ _ b
      (add_evidence-IsBounded _ s (field-Short path, field-Short detail) b)

pub record_question-IsBounded :
    (key question : Bytes) (s : DecisionState)
    → IsBounded s
    → IsBounded (record_question key question s)
unfolding record_question
record_question-IsBounded key question s b =
    let k = field key in
    let q = field question in
    either (is_empty k.text || is_empty q.text) _ _ b (
      with_questions s _ b (
        either-Held max_decision_questions ShortQuestion (any (same_key k) s.unresolved_questions) _
          _
          (Held-modify_first ShortQuestion max_decision_questions (same_key k) (ask_again q)
            s.unresolved_questions (λ x h. (h.0, field-Short question)) b.questions)
          (Held-push_full ShortQuestion 7 s.unresolved_questions _
            (field-Short key, field-Short question) b.questions)))

pub clear_question-IsBounded :
    (key : Bytes) (s : DecisionState) → IsBounded s → IsBounded (clear_question key s)
unfolding clear_question
clear_question-IsBounded key s b = with_questions s _ b (
    Held-filter ShortQuestion max_decision_questions (λ q. not (has_question key q))
      s.unresolved_questions b.questions)

-- Candidates that are sorted again.
