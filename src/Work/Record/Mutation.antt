-- ===== src/Work/Record/Mutation.antt =====
-- What a mutation does to the verifications and the criteria.
use aether_fx.Base.{
  All-mapped, ℕ, false, List, [], ◌∷◌, map, Bytes, All, Bool-cases, ◌≡◌, ◌∙◌, refl, subst, sym, inl,
  inr,
}
use aether_fx.BoundedText.{BoundedText}
use aether_fx.Workflow.{VerificationStatus}
use aether_fx.Work.{WorkState, bounded, is_structured, select_active_subgoal}
use aether_fx.Work.Record.{
  record_evidence, ensure_path_subgoal, record_path, record_paths, as_stale, unsatisfied,
  record_mutation,
}

-- The verifications, the criteria and the revision, which the loop over the paths leaves alone.
abbrev Same : WorkState → WorkState → Type 0
Same a b =
    (a.verifications ≡ b.verifications)
    × (a.acceptance_criteria ≡ b.acceptance_criteria)
    × (a.revision ≡ b.revision)

record_path-Same :
    (operation : Bytes) (revision : ℕ) (s : WorkState) (path : Bytes)
    → Same (record_path operation revision s path) s
unfolding record_path record_evidence ensure_path_subgoal
record_path-Same operation revision s path = elim (Bool-cases (is_structured s)) [
  | inl h ↦ rw h (refl, refl, refl)
  | inr h ↦ rw h (refl, refl, refl)
]

record_paths-Same :
    (operation : Bytes) (revision : ℕ) (s : WorkState) (paths : List BoundedText)
    → Same (record_paths operation revision s paths) s
unfolding record_paths
record_paths-Same operation revision s [] = (refl, refl, refl)
record_paths-Same operation revision s (path ∷ paths) =
    let (v, c, r) = record_path-Same operation revision s path.text in
    let (vs, cs, rs) =
      record_paths-Same operation revision (record_path operation revision s path.text) paths in
    (vs ∙ v, cs ∙ c, rs ∙ r)

-- After a mutation every verification is stale, no criterion is satisfied, and the state has the
-- revision of the mutation.
pub record_mutation-stale :
    (s : WorkState) (operation : Bytes) (paths : List Bytes) (revision : ℕ)
    → let s' = record_mutation s operation paths revision in
      All (λ v. v.status ≡ VerificationStatus.stale) s'.verifications
      × All (λ c. c.satisfied ≡ false) s'.acceptance_criteria
      × (s'.revision ≡ revision)
unfolding record_mutation select_active_subgoal
record_mutation-stale s operation paths revision =
    let (v, c, r) = record_paths-Same operation revision _ (map bounded paths) in
    (
      subst (All (λ x. x.status ≡ VerificationStatus.stale)) (sym v) (
          All-mapped (λ x. x.status ≡ VerificationStatus.stale) as_stale s.verifications
            (λ x. refl)),
      subst (All (λ x. x.satisfied ≡ false)) (sym c)
          (All-mapped (λ x. x.satisfied ≡ false) unsatisfied s.acceptance_criteria (λ x. refl)),
      r,
    )
