-- ===== src/Scheduler/Select/Progress.antt =====
-- When the selection is not empty.
use aether_fx.Base.{ℕ, suc, false, Option, none, some, List, [], ◌∷◌, ◌++◌, ◌≡◌, ◌≢◌, refl, arith}
use aether_fx.Scheduler.{ScheduledCall}
use aether_fx.Scheduler.Select.{select_from, select_pending_calls, blocked}

module _ {Value : Type 0} where
  -- The calls that are not taken yet, in the order of the step.
  abbrev pub pending : List (Option (ScheduledCall Value)) → List (ScheduledCall Value)
  pending [] = []
  pending (none ∷ cs) = pending cs
  pending (some c ∷ cs) = c ∷ pending cs

  unblocked :
      (prior : List (Option (ScheduledCall Value))) (call : ScheduledCall Value)
      → pending prior ≡ []
      → blocked prior call ≡ false
  unfolding blocked
  unblocked [] call e = refl
  unblocked (none ∷ prior) call e = unblocked prior call e
  unblocked (some p ∷ prior) call e = cc

  pending-none :
      (prior : List (Option (ScheduledCall Value)))
      → pending prior ≡ []
      → pending (prior ++ none ∷ []) ≡ []
  pending-none [] e = refl
  pending-none (none ∷ prior) e = pending-none prior e
  pending-none (some p ∷ prior) e = cc

  select_from-ne-nil :
      (prior : List (Option (ScheduledCall Value))) (index : ℕ)
      (cs : List (Option (ScheduledCall Value)))
      → pending prior ≡ []
      → pending cs ≢ []
      → select_from prior 0 index cs ≢ []
  unfolding select_from
  select_from-ne-nil prior index [] e n = absurd (n refl)
  select_from-ne-nil prior index (none ∷ cs) e n =
      select_from-ne-nil (prior ++ none ∷ []) (suc index) cs (pending-none prior e) n
  select_from-ne-nil prior index (some c ∷ cs) e n =
      let free = unblocked prior c e in λ q. ground arith

  -- While a call is pending, some call is selected, so the loop makes progress.
  pub select-ne-nil :
      (calls : List (Option (ScheduledCall Value)))
      → pending calls ≢ []
      → select_pending_calls calls ≢ []
  unfolding select_pending_calls
  select-ne-nil calls n = select_from-ne-nil [] 0 calls refl n
