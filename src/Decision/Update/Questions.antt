-- ===== src/Decision/Update/Questions.antt =====
-- When a question is cleared.
use aether_fx.Base.{
  ◌<◌, not, List, [], ◌∷◌, filter, Bytes, bytes_eq_iff, length, All, Bool-cases, inl, inr, ◌≡◌,
  refl, ap, arith,
}
use aether_fx.Decision.{DecisionState, DecisionQuestion, max_decision_field_bytes}
use aether_fx.Decision.Update.{has_question, clear_question}
use aether_fx.Decision.Update.Bounds.{ShortQuestion}

filter-long :
    (key : Bytes) (qs : List DecisionQuestion)
    → max_decision_field_bytes < length key
    → All ShortQuestion qs
    → filter (λ q. not (has_question key q)) qs ≡ qs
filter-long key [] h a = refl
filter-long key (q ∷ qs) h a = elim (Bool-cases (has_question key q)) [
  | inl e ↦
      let same = ap length ((bytes_eq_iff q.key.text key).0 e) in absurd (omega (arith, a.0.0))
  | inr e ↦ rw e (ap (◌∷◌ q) (filter-long key qs h a.1))
]

-- A key of more than 192 bytes clears no question, though the question was recorded under it.
pub clear_question-long :
    (key : Bytes) (s : DecisionState)
    → max_decision_field_bytes < length key
    → All ShortQuestion s.unresolved_questions
    → clear_question key s ≡ s
unfolding clear_question
clear_question-long key s h a =
    ap (λ qs. record s { unresolved_questions = qs }) (filter-long key s.unresolved_questions h a)
