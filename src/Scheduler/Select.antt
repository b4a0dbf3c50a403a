-- ===== src/Scheduler/Select.antt =====
-- crates/aether-agent/src/scheduler.rs, `select_pending_calls` and `schedule_ready_calls`: which
-- calls start together.
pub mod Order
pub mod Progress
use aether_fx.Base.{
  ℕ, suc, Bool, true, false, not, ◌||◌, Option, none, some, is_some, List, [], ◌∷◌, ◌++◌, any, min,
  ◌==◌, if◌then◌else◌,
}
use aether_fx.Tools.{ToolFootprint, conflicts}
use aether_fx.Scheduler.{ScheduledCall, default_max_parallel_tools}

-- The loop of `schedule_ready_calls`: `chosen` are the footprints already selected.
pub ready_from : ℕ → List ToolFootprint → ℕ → ℕ → List ToolFootprint → List ℕ
ready_from limit chosen count index [] = []
ready_from limit chosen count index (f ∷ fs) =
    if count == limit then [] else elim (any (λ prior. conflicts f prior) chosen) [
      | true ↦ ready_from limit chosen count (suc index) fs
      | false ↦ index ∷ ready_from limit (chosen ++ f ∷ []) (suc count) (suc index) fs
    ]

-- `slots` is the length of the slice that receives the indices.
unfoldable pub schedule_ready_calls : List ToolFootprint → ℕ → ℕ → List ℕ
unfolding ready_from
schedule_ready_calls footprints max_parallel slots =
    ready_from (min max_parallel slots) [] 0 0 footprints

module _ {Value : Type 0} where
  abbrev pub pending_conflict : ScheduledCall Value → Option (ScheduledCall Value) → Bool
  pending_conflict call none = false
  pending_conflict call (some prior) = conflicts call.footprint prior.footprint

  -- `blocked_by_pending_conflict`: some earlier call is pending and conflicts.
  pub blocked : List (Option (ScheduledCall Value)) → ScheduledCall Value → Bool
  blocked prior call = any (pending_conflict call) prior

  abbrev pub is_ready : List (Option (ScheduledCall Value)) → Option (ScheduledCall Value) → Bool
  is_ready prior none = false
  is_ready prior (some call) = not (is_some call.permit) || not (blocked prior call)

  -- The loop of `select_pending_calls`; `prior` are the calls below `index`.
  pub select_from :
      List (Option (ScheduledCall Value)) → ℕ → ℕ → List (Option (ScheduledCall Value)) → List ℕ
  unfolding blocked
  select_from prior count index [] = []
  select_from prior count index (c ∷ cs) =
      if count == default_max_parallel_tools then [] else elim (is_ready prior c) [
        | true ↦ index ∷ select_from (prior ++ c ∷ []) (suc count) (suc index) cs
        | false ↦ select_from (prior ++ c ∷ []) count (suc index) cs
      ]

  unfoldable pub select_pending_calls : List (Option (ScheduledCall Value)) → List ℕ
  unfolding select_from
  select_pending_calls calls = select_from [] 0 0 calls
