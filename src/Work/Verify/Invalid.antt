-- ===== src/Work/Verify/Invalid.antt =====
-- What an invalidation leaves.
use aether_fx.Base.{
  All-mapped, ℕ, ◌<◌, false, Option, none, some, List, [], ◌∷◌, All, leb, Bool-cases, ◌≡◌, ◌⊎◌,
  refl, inl, inr, arith,
}
use aether_fx.BoundedText.{BoundedText, text_eq}
use aether_fx.Workflow.{VerificationStatus}
use aether_fx.Work.{
  WorkState, WorkSubgoal, WorkVerification, is_complete, activate, select_active_subgoal,
}
use aether_fx.Work.Verify.{staled, stale_until, invalid, invalidate_for_workspace_change}

staled-open : (g : WorkSubgoal) → is_complete (staled g).status ≡ false
staled-open g = elim (Bool-cases (is_complete g.status)) [
  | inl e ↦ rw e refl
  | inr e ↦ rw (e, e) refl
]

open-activate :
    (o : Option BoundedText) (gs : List WorkSubgoal)
    → All (λ g. is_complete g.status ≡ false) gs
    → All (λ g. is_complete g.status ≡ false) (activate o gs)
open-activate none gs a = a
open-activate (some id) [] a = tt
open-activate (some id) (g ∷ gs) a = elim (Bool-cases (text_eq g.id id)) [
  | inl e ↦ rw e (refl, a.1)
  | inr e ↦ rw e (a.0, open-activate (some id) gs a.1)
]

-- Stale, or of a later revision.
abbrev pub Outdated : ℕ → WorkVerification → Type 0
Outdated revision v = (v.status ≡ VerificationStatus.stale) ⊎ (revision < v.revision)

stale_until-Outdated :
    (revision : ℕ) (v : WorkVerification) → Outdated revision (stale_until revision v)
stale_until-Outdated revision v = elim (Bool-cases (leb v.revision revision)) [
  | inl e ↦ rw e (inl refl)
  | inr e ↦ rw e (inr (ground arith))
]

-- After the workspace changed at a revision no evidence is valid, no subgoal is complete, and every
-- verification is stale or of a later revision.
pub invalidate-Outdated :
    (s : WorkState) (revision : ℕ)
    → let s' = invalidate_for_workspace_change s revision in
      All (λ e. e.valid ≡ false) s'.evidence
      × All (λ g. is_complete g.status ≡ false) s'.subgoals
      × All (Outdated revision) s'.verifications
unfolding invalidate_for_workspace_change select_active_subgoal
invalidate-Outdated s revision = (
  All-mapped (λ e. e.valid ≡ false) invalid s.evidence (λ e. refl),
  open-activate _ _ (All-mapped (λ g. is_complete g.status ≡ false) staled s.subgoals staled-open),
  All-mapped (Outdated revision) (stale_until revision) s.verifications
      (stale_until-Outdated revision),
)
