-- ===== src/Decision/Order.antt =====
-- crates/aether-core/src/decision.rs, `sort_candidates`: the order of the candidates. The standard
-- library's `sort_unstable_by` is insertion sort here.
pub mod Sorted
use aether_fx.Base.{
  ℕ, Bool, true, false, ◌&&◌, ◌||◌, List, [], ◌∷◌, Bytes, take, ltb, ◌==◌, if◌then◌else◌,
}
use aether_fx.Decision.{DecisionCandidate, max_decision_candidates}

-- The order of texts, byte by byte.
unfoldable pub bytes_le : Bytes → Bytes → Bool
bytes_le [] ys = true
bytes_le (x ∷ xs) [] = false
bytes_le (x ∷ xs) (y ∷ ys) = ltb x y || (x == y && bytes_le xs ys)

-- The comparison does not say that `left` is greater.
unfoldable pub precedes : DecisionCandidate → DecisionCandidate → Bool
unfolding bytes_le
precedes left right =
    ltb right.score left.score
    || (right.score == left.score && bytes_le left.path.text right.path.text)

pub insert_candidate : DecisionCandidate → List DecisionCandidate → List DecisionCandidate
insert_candidate c [] = c ∷ []
insert_candidate c (d ∷ ds) = if precedes c d then c ∷ d ∷ ds else d ∷ insert_candidate c ds

pub sort : List DecisionCandidate → List DecisionCandidate
unfolding insert_candidate
sort [] = []
sort (c ∷ cs) = insert_candidate c (sort cs)

unfoldable pub sort_candidates : List DecisionCandidate → List DecisionCandidate
unfolding sort
sort_candidates cs = take max_decision_candidates (sort cs)
