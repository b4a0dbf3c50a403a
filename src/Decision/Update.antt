-- ===== src/Decision/Update.antt =====
-- crates/aether-core/src/decision.rs: the operations on the decision state.
pub mod Bounds
pub mod ScopeBounds
pub mod Questions
use aether_fx.Base.{
  ℕ, ◌+◌, Bool, not, ◌&&◌, ◌||◌, Option, none, some, List, [], ◌∷◌, ◌++◌, map, min, max, Bytes,
  bytes_eq, codes, is_empty, length, take, drop, any, filter, modify_first, push_full,
  saturating_add, u8_max, u16_max, ltb, ◌==◌, if◌then◌else◌,
}
use aether_fx.BoundedText.{BoundedText, text_eq, empty_text, is_truncated}
use aether_fx.Tools.Action.{EvidenceProvenance}
use aether_fx.Decision.{
  DecisionState, DecisionEvidence, DecisionEvidenceKind, DecisionQuestion, DecisionCandidate,
  DecisionAction, kind_eq, provenance_eq, field, max_decision_evidence, max_decision_questions,
  max_decision_candidates, max_decision_scope,
}
use aether_fx.Decision.Order.{sort_candidates}

-- The same record, its weight aside.
abbrev pub same_evidence : DecisionEvidence → DecisionEvidence → Bool
same_evidence e existing =
    kind_eq existing.kind e.kind
    && provenance_eq existing.provenance e.provenance
    && text_eq existing.path e.path
    && text_eq existing.detail e.detail
    && existing.revision == e.revision

abbrev pub strengthen : ℕ → DecisionEvidence → DecisionEvidence
strengthen weight e = record e { weight = max e.weight weight }

abbrev pub add_evidence : DecisionEvidence → DecisionState → DecisionState
add_evidence e s =
    if any (same_evidence e) s.evidence
    then record s { evidence = modify_first (same_evidence e) (strengthen e.weight) s.evidence }
    else record s {
      evidence = push_full max_decision_evidence s.evidence e;
      progress_confidence = min (saturating_add u8_max s.progress_confidence (min e.weight 10)) 100;
    }

unfoldable pub record_evidence_with_provenance :
    EvidenceProvenance
    → DecisionEvidenceKind
    → Bytes
    → Bytes
    → ℕ
    → ℕ
    → DecisionState
    → DecisionState
record_evidence_with_provenance provenance kind path detail weight revision s =
    let p = field path in
    let d = field detail in
    if is_empty p.text && is_empty d.text
    then s
    else add_evidence
        (record {
          kind = kind;
          provenance = provenance;
          path = p;
          detail = d;
          weight = weight;
          revision = revision;
        })
        s

abbrev pub record_evidence :
    DecisionEvidenceKind → Bytes → Bytes → ℕ → ℕ → DecisionState → DecisionState
record_evidence = record_evidence_with_provenance EvidenceProvenance.repository

abbrev pub same_key : BoundedText → DecisionQuestion → Bool
same_key key existing = text_eq existing.key key

abbrev pub ask_again : BoundedText → DecisionQuestion → DecisionQuestion
ask_again question existing = record existing { question = question }

abbrev pub add_question : BoundedText → BoundedText → List DecisionQuestion → List DecisionQuestion
add_question key question questions =
    if any (same_key key) questions
    then modify_first (same_key key) (ask_again question) questions
    else push_full max_decision_questions questions (record { key = key; question = question })

unfoldable pub record_question : Bytes → Bytes → DecisionState → DecisionState
record_question key question s =
    let k = field key in
    let q = field question in
    if is_empty k.text || is_empty q.text
    then s
    else record s { unresolved_questions = add_question k q s.unresolved_questions }

abbrev pub has_question : Bytes → DecisionQuestion → Bool
has_question key q = bytes_eq q.key.text key

unfoldable pub clear_question : Bytes → DecisionState → DecisionState
clear_question key s = record s {
  unresolved_questions = filter (λ q. not (has_question key q)) s.unresolved_questions;
}

abbrev pub same_path : BoundedText → DecisionCandidate → Bool
same_path path candidate = text_eq candidate.path path

abbrev pub merge : DecisionCandidate → DecisionCandidate → DecisionCandidate
merge c existing = record existing {
  score = max existing.score c.score;
  evidence = max existing.evidence c.evidence;
  inspected = existing.inspected || c.inspected;
  modified = existing.modified || c.modified;
  stale = c.stale;
}

-- The candidates before they are sorted.
abbrev pub put_candidate : DecisionCandidate → List DecisionCandidate → List DecisionCandidate
put_candidate c candidates =
    if any (same_path c.path) candidates
    then modify_first (same_path c.path) (merge c) candidates
    else candidates ++ c ∷ []

abbrev pub new_candidate : Bytes → ℕ → ℕ → Bool → Bool → Bool → DecisionCandidate
new_candidate path score evidence inspected modified stale = record {
  path = field path;
  score = min score u16_max;
  evidence = min evidence u16_max;
  inspected = inspected;
  modified = modified;
  stale = stale;
}

pub upsert_candidate : Bytes → ℕ → ℕ → Bool → Bool → Bool → DecisionState → DecisionState
upsert_candidate path score evidence inspected modified stale s =
    let c = new_candidate path score evidence inspected modified stale in
    if is_empty c.path.text
    then s
    else record s { candidate_files = sort_candidates (put_candidate c s.candidate_files) }

abbrev pub add_scope : Bytes → List Bytes → List Bytes
add_scope path scope =
    let pushed = scope ++ path ∷ [] in
    if ltb max_decision_scope (length pushed) then drop 1 pushed else pushed

pub record_modified_scope : Bytes → DecisionState → DecisionState
record_modified_scope path s =
    let p = field path in
    if is_truncated p
      || is_empty p.text
      || any (λ existing. bytes_eq existing p.text) s.modified_scope
    then s
    else record s { modified_scope = add_scope p.text s.modified_scope }

pub note_observation_value : Bool → DecisionState → DecisionState
note_observation_value advanced s =
    if advanced
    then record s {
      low_value_observations = 0;
      progress_confidence = min (saturating_add u8_max s.progress_confidence 2) 100;
    }
    else record s { low_value_observations = saturating_add u8_max s.low_value_observations 1 }

abbrev pub target_field : Option Bytes → Option BoundedText
target_field none = none
target_field (some target) = some (field target)

unfoldable pub set_next : DecisionAction → Option Bytes → Bytes → DecisionState → DecisionState
set_next action target reason s = record s {
  next_action = action;
  next_target = target_field target;
  next_reason = field reason;
}

unfoldable pub reset_for_workspace_change : DecisionState → DecisionState
reset_for_workspace_change s =
    set_next DecisionAction.discover_target none (codes "workspace changed; rediscover targets")
      (record s {
        evidence = [];
        unresolved_questions = [];
        candidate_files = [];
        modified_scope = [];
        verification_scope = empty_text;
        progress_confidence = 0;
        low_value_observations = 0;
      })

abbrev pub refield : BoundedText → BoundedText
refield t = field t.text

abbrev pub refield_target : Option BoundedText → Option BoundedText
refield_target none = none
refield_target (some t) = some (refield t)

abbrev pub bound_evidence : DecisionEvidence → DecisionEvidence
bound_evidence e = record e { path = refield e.path; detail = refield e.detail }

abbrev pub bound_question : DecisionQuestion → DecisionQuestion
bound_question q = record q { key = refield q.key; question = refield q.question }

abbrev pub bound_candidate : DecisionCandidate → DecisionCandidate
bound_candidate c = record c { path = refield c.path }

abbrev pub bound_path : Bytes → Bytes
bound_path path = (field path).text

unfoldable pub enforce_bounds : DecisionState → DecisionState
enforce_bounds s = record s {
  evidence = map bound_evidence (take max_decision_evidence s.evidence);
  unresolved_questions = map bound_question (take max_decision_questions s.unresolved_questions);
  candidate_files =
      sort_candidates (map bound_candidate (take max_decision_candidates s.candidate_files));
  modified_scope =
      filter (λ path. not (is_empty path))
        (map bound_path (take max_decision_scope s.modified_scope));
  verification_scope = refield s.verification_scope;
  next_target = refield_target s.next_target;
  next_reason = refield s.next_reason;
  progress_confidence = min s.progress_confidence 100;
}
