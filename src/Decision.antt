-- ===== src/Decision.antt =====
-- crates/aether-core/src/decision.rs: the bounded evidence, questions and candidate files from
-- which the next action is recommended.
pub mod Order
pub mod Update
pub mod History
pub mod Tests
use aether_fx.Base.{ℕ, Bool, true, false, Option, List, [], Bytes}
use aether_fx.BoundedText.{BoundedText, new}
use aether_fx.Tools.Action.{EvidenceProvenance}

abbrev pub max_decision_evidence : ℕ
max_decision_evidence = 32

abbrev pub max_decision_questions : ℕ
max_decision_questions = 8

abbrev pub max_decision_candidates : ℕ
max_decision_candidates = 16

abbrev pub max_decision_scope : ℕ
max_decision_scope = 16

abbrev pub max_decision_field_bytes : ℕ
max_decision_field_bytes = 192

pub data DecisionEvidenceKind : Type 0 where
  discovery inspection symbol relationship mutation verification : DecisionEvidenceKind

pub data ProgressEffect : Type 0 where
  no_progress new_repository_evidence refined_evidence work_mutation verification recovered_failure
        reused_observation :
      ProgressEffect

pub is_meaningful_progress : ProgressEffect → Bool
is_meaningful_progress ProgressEffect.new_repository_evidence = true
is_meaningful_progress ProgressEffect.refined_evidence = true
is_meaningful_progress ProgressEffect.work_mutation = true
is_meaningful_progress ProgressEffect.verification = true
is_meaningful_progress ProgressEffect.recovered_failure = true
is_meaningful_progress ProgressEffect.no_progress = false
is_meaningful_progress ProgressEffect.reused_observation = false

pub data DecisionAction : Type 0 where
  discover_target inspect_candidate resolve_question mutate_minimal verify_focused verify_broader
        finish escalate :
      DecisionAction

pub record DecisionEvidence : Type 0 where
  pub kind : DecisionEvidenceKind
  pub provenance : EvidenceProvenance
  pub path : BoundedText
  pub detail : BoundedText
  pub weight : ℕ
  pub revision : ℕ

pub record DecisionQuestion : Type 0 where
  pub key : BoundedText
  pub question : BoundedText

pub record DecisionCandidate : Type 0 where
  pub path : BoundedText
  pub score : ℕ
  pub evidence : ℕ
  pub inspected : Bool
  pub modified : Bool
  pub stale : Bool

pub record DecisionState : Type 0 where
  pub evidence : List DecisionEvidence
  pub unresolved_questions : List DecisionQuestion
  pub candidate_files : List DecisionCandidate
  pub modified_scope : List Bytes
  pub verification_scope : BoundedText
  pub progress_confidence : ℕ
  pub next_action : DecisionAction
  pub next_target : Option BoundedText
  pub next_reason : BoundedText
  pub low_value_observations : ℕ

-- The derived `==` of the two enumerations.
abbrev pub kind_eq : DecisionEvidenceKind → DecisionEvidenceKind → Bool
kind_eq DecisionEvidenceKind.discovery DecisionEvidenceKind.discovery = true
kind_eq DecisionEvidenceKind.inspection DecisionEvidenceKind.inspection = true
kind_eq DecisionEvidenceKind.symbol DecisionEvidenceKind.symbol = true
kind_eq DecisionEvidenceKind.relationship DecisionEvidenceKind.relationship = true
kind_eq DecisionEvidenceKind.mutation DecisionEvidenceKind.mutation = true
kind_eq DecisionEvidenceKind.verification DecisionEvidenceKind.verification = true
kind_eq _ _ = false

abbrev pub provenance_eq : EvidenceProvenance → EvidenceProvenance → Bool
provenance_eq EvidenceProvenance.user EvidenceProvenance.user = true
provenance_eq EvidenceProvenance.repository EvidenceProvenance.repository = true
provenance_eq EvidenceProvenance.tool_output EvidenceProvenance.tool_output = true
provenance_eq EvidenceProvenance.network EvidenceProvenance.network = true
provenance_eq EvidenceProvenance.model EvidenceProvenance.model = true
provenance_eq _ _ = false

-- A field of the decision state.
unfoldable pub field : Bytes → BoundedText
field value = new value max_decision_field_bytes
