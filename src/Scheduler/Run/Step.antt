-- ===== src/Scheduler/Run/Step.antt =====
-- The step as a whole: each action gets one result, and actions that conflict run in turn.
use mathlib.Core.List.{Perm}
use mathlib.Core.List.Perm
use aether_fx.Base.{
  suc, ◌≤◌, some, List, [], ◌∷◌, map, length, length-map, ◌≡◌, refl, ap, sym, subst, ◌∙◌, arith,
}
use aether_fx.Events.{AgentEvent}
use aether_fx.Tools.Action.{PreparedAction}
use aether_fx.Scheduler.{ScheduledCall, World, max_tool_calls_per_step}
use aether_fx.Scheduler.Ends.{Ends, Interrupted, Ends-after}
use aether_fx.Scheduler.Prepare.{prepare_calls}
use aether_fx.Scheduler.Prepare.Authority.{scheduled_from, prepare_calls-Ends}
use aether_fx.Scheduler.Select.Progress.{pending}
use aether_fx.Scheduler.Run.{Completed, run_loop, to_result, execute_prepared_tool_calls}
use aether_fx.Scheduler.Run.Complete.{Done, run_loop-Ends}
use aether_fx.Scheduler.Run.InTurn.{completions-results, scheduled_from-Honest, Ordered-InTurn}
use aether_fx.Scheduler.Run.Outcome.{Performed, results-outcomes, InTurn-Turns}

module _ {Value : Type 0} (w : World Value) {I : Type 0} (q : Interrupted w I) where
  Done-Performed :
      (actions : List (PreparedAction Value)) (outs : List (Completed Value))
      → Done w q 0 (map some (scheduled_from w 0 actions)) [] outs
      → Performed w actions (map to_result outs)
  Done-Performed actions outs (at, le, o, p) =
      let cs = scheduled_from w 0 actions in
      (
        at,
        InTurn-Turns w at 0 actions (Ordered-InTurn w at cs (scheduled_from-Honest w 0 actions) o),
        subst (λ x. Perm x (map to_result outs))
            (completions-results w at cs ∙ results-outcomes w at 0 actions) (Perm.map to_result p),
      )

  pending-some : (cs : List (ScheduledCall Value)) → pending (map some cs) ≡ cs
  pending-some [] = refl
  pending-some (c ∷ cs) = ap (◌∷◌ c) (pending-some cs)

  -- Where every tool ends, whatever it answers in the round in which it runs, a step of at most 64
  -- actions returns one result for each action, in some order: that of its tool in one round, of
  -- the gate, or of the denial. Where the tools of two actions are run and their effects conflict,
  -- the later action runs in a later round. Or the step is interrupted: it is cancelled or loses
  -- its consumer. It never gets stuck, loses a call or runs out of rounds.
  pub execute-Ends :
      (actions : List (PreparedAction Value)) (log : List (AgentEvent Value))
      → length actions ≤ max_tool_calls_per_step
      → Ends I (Performed w actions) (execute_prepared_tool_calls w actions log).1
  unfolding execute_prepared_tool_calls
  execute-Ends actions log h =
      let cs = scheduled_from w 0 actions in
      Ends-after I (λ calls. calls ≡ map some cs) (Performed w actions)
        (prepare_calls w actions log) _ (prepare_calls-Ends w q actions log h)
        (λ calls later e.
          let n : length (pending calls) ≡ length calls =
            ap (λ x. length (pending x)) e
            ∙ ap length (pending-some cs)
            ∙ sym (ap length e ∙ length-map some cs) in
          Ends-after I (Done w q 0 calls []) (Performed w actions)
            (run_loop w (suc (length calls)) 0 0 calls [] later) _
            (run_loop-Ends w q (suc (length calls)) 0 0 calls [] later (omega arith) (omega arith))
            (λ outs _ d. Done-Performed actions outs (subst (λ x. Done w q 0 x [] outs) e d)))
