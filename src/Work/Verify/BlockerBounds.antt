-- ===== src/Work/Verify/BlockerBounds.antt =====
-- The bounds after changes of blockers, invalidation and satisfied criteria.
use aether_fx.Base.{
  Held, Held-map, Held-modify_first, Held-filter, ℕ, leb, not, Option, none, some, List, Bytes,
  bytes_eq, any, Bool-cases, inl, inr,
}
use aether_fx.BoundedText.{BoundedText}
use aether_fx.Work.{
  WorkState, WorkSubgoal, WorkVerification, WorkBlocker, is_complete, max_work_subgoals,
  max_work_evidence, max_work_blockers, max_work_criteria, max_work_verifications,
}
use aether_fx.Work.Held.{Held-push_bounded}
use aether_fx.Work.Bounds.{
  IsBounded, ShortCriterion, ShortSubgoal, ShortEvidence, ShortVerification, ShortBlocker,
  bounded-Short, select_active_subgoal-IsBounded,
}
use aether_fx.Work.Verify.{
  has_key, retried, block_active, record_blocker, unblock, clear_blocker, staled, stale_until,
  invalid, invalidate_for_workspace_change, satisfy_criterion,
}

block_active-Short :
    (o : Option BoundedText) (g : WorkSubgoal) → ShortSubgoal g → ShortSubgoal (block_active o g)
block_active-Short none g short = short
block_active-Short (some id) g short = elim (Bool-cases (bytes_eq id.text g.id.text)) [
  | inl h ↦ rw h short
  | inr h ↦ rw h short
]

-- A state whose blockers and subgoals alone were changed.
with_blockers :
    (s : WorkState) (bs : List WorkBlocker) (gs : List WorkSubgoal)
    → IsBounded s
    → Held max_work_blockers ShortBlocker bs
    → Held max_work_subgoals ShortSubgoal gs
    → IsBounded (record s { blockers = bs; subgoals = gs })
with_blockers s bs gs b held subgoals = record {
  objective = b.objective;
  constraints = b.constraints;
  criteria = b.criteria;
  subgoals = subgoals;
  active = b.active;
  blockers = held;
  evidence = b.evidence;
  mutations = b.mutations;
  verifications = b.verifications;
}

pub record_blocker-IsBounded :
    (s : WorkState) (key category detail : Bytes) (revision : ℕ)
    → IsBounded s
    → IsBounded (record_blocker s key category detail revision)
unfolding record_blocker
record_blocker-IsBounded s key category detail revision b =
    let again =
      with_blockers s _ s.subgoals b
        (Held-modify_first ShortBlocker max_work_blockers (has_key key)
          (retried category detail revision) s.blockers
          (λ x short. (short.0, bounded-Short category, bounded-Short detail)) b.blockers)
        b.subgoals in
    let added =
      with_blockers s _ _ b
        (Held-push_bounded ShortBlocker max_work_blockers s.blockers _
          (bounded-Short key, bounded-Short category, bounded-Short detail) b.blockers)
        (Held-map ShortSubgoal ShortSubgoal max_work_subgoals (block_active s.active_subgoal)
          s.subgoals (block_active-Short s.active_subgoal) b.subgoals) in
    elim (Bool-cases (any (has_key key) s.blockers)) [ inl h ↦ rw h again | inr h ↦ rw h added ]

pub clear_blocker-IsBounded :
    (s : WorkState) (key : Bytes) → IsBounded s → IsBounded (clear_blocker s key)
unfolding clear_blocker
clear_blocker-IsBounded s key b = select_active_subgoal-IsBounded _ (
    with_blockers s _ _ b
      (Held-filter ShortBlocker max_work_blockers (λ blocker. not (has_key key blocker)) s.blockers
        b.blockers)
      (Held-map ShortSubgoal ShortSubgoal max_work_subgoals unblock s.subgoals (λ g short. short)
        b.subgoals))

staled-Short : (g : WorkSubgoal) → ShortSubgoal g → ShortSubgoal (staled g)
staled-Short g short = elim (Bool-cases (is_complete g.status)) [
  | inl h ↦ rw h short
  | inr h ↦ rw h short
]

stale_until-Short :
    (revision : ℕ) (v : WorkVerification)
    → ShortVerification v
    → ShortVerification (stale_until revision v)
stale_until-Short revision v short = elim (Bool-cases (leb v.revision revision)) [
  | inl h ↦ rw h short
  | inr h ↦ rw h short
]

pub invalidate-IsBounded :
    (s : WorkState) (revision : ℕ)
    → IsBounded s
    → IsBounded (invalidate_for_workspace_change s revision)
unfolding invalidate_for_workspace_change
invalidate-IsBounded s revision b = select_active_subgoal-IsBounded _ (record {
  objective = b.objective;
  constraints = b.constraints;
  criteria = b.criteria;
  subgoals =
      Held-map ShortSubgoal ShortSubgoal max_work_subgoals staled s.subgoals staled-Short
        b.subgoals;
  active = tt;
  blockers = b.blockers;
  evidence =
      Held-map ShortEvidence ShortEvidence max_work_evidence invalid s.evidence (λ e short. short)
        b.evidence;
  mutations = b.mutations;
  verifications =
      Held-map ShortVerification ShortVerification max_work_verifications (stale_until revision)
        s.verifications (stale_until-Short revision) b.verifications;
})

pub satisfy_criterion-IsBounded :
    (s : WorkState) (key : Bytes) → IsBounded s → IsBounded (satisfy_criterion s key)
unfolding satisfy_criterion
satisfy_criterion-IsBounded s key b = record {
  objective = b.objective;
  constraints = b.constraints;
  criteria =
      Held-modify_first ShortCriterion max_work_criteria _ _ s.acceptance_criteria
        (λ c short. short) b.criteria;
  subgoals = b.subgoals;
  active = b.active;
  blockers = b.blockers;
  evidence = b.evidence;
  mutations = b.mutations;
  verifications = b.verifications;
}
