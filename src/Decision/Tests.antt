-- ===== src/Decision/Tests.antt =====
-- A decision state with two candidates and a long key.
use mathlib.Core.List.{Perm}
use aether_fx.Base.{
  ℕ, zero, suc, ◌≤◌, true, false, none, List, [], ◌∷◌, ◌++◌, Bytes, codes, length, All, ◌≡◌, refl,
  arith,
}
use aether_fx.BoundedText.{empty_text}
use aether_fx.Tools.Action.{EvidenceProvenance}
use aether_fx.Decision.{
  DecisionState, DecisionCandidate, DecisionEvidenceKind, DecisionAction, max_decision_candidates,
}
use aether_fx.Decision.Order.{precedes, sort_candidates}
use aether_fx.Decision.Order.Sorted.{Before, Ranked, sort_candidates_lem}
use aether_fx.Decision.Update.{new_candidate, enforce_bounds, clear_question}
use aether_fx.Decision.Update.Bounds.{IsBounded}
use aether_fx.Decision.Update.Questions.{clear_question-long}
use aether_fx.Decision.History.{Operation, records_evidence, upserts_candidate, run}
use aether_fx.Decision.History.Bounds.{run_restored-IsBounded}

-- `DecisionState::default()`.
abbrev pub no_decision : DecisionState
no_decision = record {
  evidence = [];
  unresolved_questions = [];
  candidate_files = [];
  modified_scope = [];
  verification_scope = empty_text;
  progress_confidence = 0;
  next_action = DecisionAction.discover_target;
  next_target = none;
  next_reason = empty_text;
  low_value_observations = 0;
}

abbrev low : DecisionCandidate
low = new_candidate (codes "a.rs") 3 1 true false false

abbrev high : DecisionCandidate
high = new_candidate (codes "b.rs") 9 1 true false false

sort_runs : sort_candidates (low ∷ high ∷ []) ≡ high ∷ low ∷ []
unfolding sort_candidates precedes
sort_runs = refl

abbrev history : List Operation
history =
    records_evidence EvidenceProvenance.repository DecisionEvidenceKind.inspection (codes "a.rs") []
      36 1
    ∷ upserts_candidate (codes "a.rs") 70000 1 true false false
    ∷ upserts_candidate (codes "b.rs") 9 1 true false false
    ∷ []

run_restored-IsBounded_example : IsBounded (run (enforce_bounds no_decision) history)
run_restored-IsBounded_example = run_restored-IsBounded no_decision history

sort_candidates_lem_example :
    (dropped : List DecisionCandidate) × Perm
      (low ∷ high ∷ [])
      (sort_candidates (low ∷ high ∷ []) ++ dropped)
    × All (λ c. Before c dropped) (sort_candidates (low ∷ high ∷ []))
    × Ranked (sort_candidates (low ∷ high ∷ []))
    × (length (sort_candidates (low ∷ high ∷ [])) ≤ max_decision_candidates)
sort_candidates_lem_example = sort_candidates_lem (low ∷ high ∷ [])

abbrev pub repeated : ℕ → Bytes
repeated zero = []
repeated (suc n) = b'k' ∷ repeated n

clear_question-long_example : clear_question (repeated 200) no_decision ≡ no_decision
clear_question-long_example = clear_question-long (repeated 200) no_decision (omega arith) tt
