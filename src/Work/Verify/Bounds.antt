-- ===== src/Work/Verify/Bounds.antt =====
-- The bounds after a verification.
use aether_fx.Base.{
  Held, Held-map, Held-modify_first, All-take, All-mapped, ℕ, length-take, ◌&&◌, Bool, true, false,
  List, [], ◌∷◌, map, Bytes, take, any, all, filter, Bool-cases, inl, inr, arith,
}
use aether_fx.BoundedText.{BoundedText, text_eq}
use aether_fx.Work.{
  WorkState, WorkSubgoal, WorkVerification, WorkBlocker, bounded, is_complete, max_work_subgoals,
  max_work_criteria, max_work_verifications,
}
use aether_fx.Work.Held.{Held-push_bounded}
use aether_fx.Work.Bounds.{
  IsBounded, Short, ShortCriterion, ShortSubgoal, ShortVerification, bounded-Short,
  select_active_subgoal-IsBounded,
}
use aether_fx.Work.Record.{has_id}
use aether_fx.Work.Verify.{
  same_check, put_verification, satisfied_by, has_paths, observation, finished, complete_ids,
  complete_covered, complete_root, task_id, close_passed, record_verification,
}

first_four : (diagnostics : List Bytes) → Held 4 Short (take 4 (map bounded diagnostics))
first_four diagnostics = (
  omega (arith, length-take 4 (map bounded diagnostics)),
  All-take Short 4 (map bounded diagnostics) (All-mapped Short bounded diagnostics bounded-Short),
)

put_verification-Held :
    (v : WorkVerification) (command : Bytes) (vs : List WorkVerification)
    → ShortVerification v
    → Held max_work_verifications ShortVerification vs
    → Held max_work_verifications ShortVerification (put_verification v command vs)
put_verification-Held v command vs short a =
    let replaced =
      Held-modify_first ShortVerification max_work_verifications (same_check command v.revision)
        (λ existing. record existing {
          status = v.status;
          scope = v.scope;
          diagnostics = v.diagnostics;
        })
        vs (λ x old. (old.0, short.1, short.2)) a in
    let pushed = Held-push_bounded ShortVerification max_work_verifications vs v short a in
    elim (Bool-cases (any (same_check command v.revision) vs)) [
      | inl h ↦ rw (h, Held) replaced
      | inr h ↦ rw (h, Held) pushed
    ]

complete_ids-Short :
    (revision : ℕ) (ids : List BoundedText) (g : WorkSubgoal)
    → ShortSubgoal g
    → ShortSubgoal (complete_ids revision ids g)
complete_ids-Short revision ids g short = elim (Bool-cases (any (λ id. text_eq id g.id) ids)) [
  | inl h ↦ rw h short
  | inr h ↦ rw h short
]

complete_root-Held :
    (revision : ℕ) (blockers : List WorkBlocker) (gs : List WorkSubgoal)
    → Held max_work_subgoals ShortSubgoal gs
    → Held max_work_subgoals ShortSubgoal (complete_root revision blockers gs)
complete_root-Held revision blockers gs a =
    let closed =
      Held-modify_first ShortSubgoal max_work_subgoals (has_id task_id) (finished revision) gs
        (λ g short. short) a in
    elim (Bool-cases (
      all (λ g. is_complete g.status) (filter has_paths gs)
      && elim blockers [ [] ↦ true | _ ∷ _ ↦ false ])) [
        | inl h ↦ rw (h, Held) closed
        | inr h ↦ rw (h, Held) a
      ]

close_passed-IsBounded :
    (command : Bytes) (revision : ℕ) (affected_paths : List Bytes) (s : WorkState)
    → IsBounded s
    → IsBounded (close_passed command revision affected_paths s)
unfolding close_passed
close_passed-IsBounded command revision affected_paths s b =
    select_active_subgoal-IsBounded _ (record {
      objective = b.objective;
      constraints = b.constraints;
      criteria =
          Held-map ShortCriterion ShortCriterion max_work_criteria (satisfied_by command)
            s.acceptance_criteria (λ c short. short) b.criteria;
      subgoals =
          complete_root-Held revision s.blockers
            (complete_covered revision affected_paths s.subgoals)
            (Held-map ShortSubgoal ShortSubgoal max_work_subgoals _ s.subgoals
              (complete_ids-Short revision _) b.subgoals);
      active = b.active;
      blockers = b.blockers;
      evidence = b.evidence;
      mutations = b.mutations;
      verifications = b.verifications;
    })

-- What is recorded before the subgoals and the criteria are looked at.
observed-IsBounded :
    (s : WorkState) (command : Bytes) (v : WorkVerification)
    → ShortVerification v
    → IsBounded s
    → IsBounded (record s {
      revision = v.revision;
      verifications = put_verification v command s.verifications;
    })
observed-IsBounded s command v short b = record {
  objective = b.objective;
  constraints = b.constraints;
  criteria = b.criteria;
  subgoals = b.subgoals;
  active = b.active;
  blockers = b.blockers;
  evidence = b.evidence;
  mutations = b.mutations;
  verifications = put_verification-Held v command s.verifications short b.verifications;
}

pub record_verification-IsBounded :
    (s : WorkState) (command scope : Bytes) (passed : Bool) (revision : ℕ)
    (diagnostics affected_paths : List Bytes)
    → IsBounded s
    → IsBounded (record_verification s command scope passed revision diagnostics affected_paths)
unfolding record_verification
record_verification-IsBounded s command scope true revision diagnostics affected_paths b =
    close_passed-IsBounded command revision affected_paths _ (
      observed-IsBounded s command (observation command scope true revision diagnostics)
        (bounded-Short command, bounded-Short scope, first_four diagnostics) b)
record_verification-IsBounded s command scope false revision diagnostics affected_paths b =
    observed-IsBounded s command (observation command scope false revision diagnostics)
      (bounded-Short command, bounded-Short scope, first_four diagnostics) b
