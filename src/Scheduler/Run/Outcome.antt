-- ===== src/Scheduler/Run/Outcome.antt =====
-- What each action of a step ends with, apart from the code that runs the calls.
use mathlib.Core.List.{Perm}
use aether_fx.Base.{
  ℕ, suc, ◌<◌, ◌⊎◌, inl, inr, true, false, Option-cases, Bool, Option, none, some, List, [], ◌∷◌,
  ◌≡◌, refl, ap, sym, ◌∙◌,
}
use aether_fx.Tools.Action.{PreparedAction, ToolResult}
use aether_fx.Scheduler.{ScheduledToolResult, World}
use aether_fx.Scheduler.Prepare.{scheduled}
use aether_fx.Scheduler.Prepare.Authority.{authority, scheduled_from}
use aether_fx.Scheduler.Run.{complete, to_result}
use aether_fx.Tools.{conflicts}
use aether_fx.Permission.{ExecutionPermit}
use aether_fx.Scheduler.Run.{or_panic, denied_result}
use aether_fx.Scheduler.Run.InTurn.{results, executes, Waiting, InTurn}

module _ {Value : Type 0} (w : World Value) where
  abbrev not_run : PreparedAction Value → ToolResult Value → ScheduledToolResult Value
  not_run action result = record {
    action = action;
    result = result;
    executed = false;
    planned = false;
    planner_actions = 0;
  }

  -- Where the gate answers, its answer, and otherwise that of the tool in this round.
  abbrev pub outcome_at_gate :
      ℕ
      → PreparedAction Value
      → ExecutionPermit
      → Option (ToolResult Value)
      → ScheduledToolResult Value
  outcome_at_gate round action permit (some result) = not_run action result
  outcome_at_gate round action permit none = record {
    action = action;
    result = or_panic action.call_id (w.execute round action permit);
    executed = true;
    planned = false;
    planner_actions = 0;
  }

  -- Where the user denies the action, the denial, and otherwise what the gate and the tool answer.
  abbrev pub outcome_with :
      ℕ → ℕ → PreparedAction Value → Option ExecutionPermit → ScheduledToolResult Value
  outcome_with round i action none = not_run action (denied_result Value action.call_id)
  outcome_with round i action (some permit) = outcome_at_gate round action permit (w.gate i action)

  abbrev pub outcome : ℕ → ℕ → PreparedAction Value → ScheduledToolResult Value
  outcome round i action = outcome_with round i action (authority w i action)

  -- The tool of the action is run, whichever the round.
  abbrev pub runs : ℕ → PreparedAction Value → Bool
  runs i action = (outcome 0 i action).executed

  -- The outcomes of the actions, the tool of each in a round of its own.
  abbrev pub outcomes : (ℕ → ℕ) → ℕ → List (PreparedAction Value) → List (ScheduledToolResult Value)
  outcomes at i [] = []
  outcomes at i (action ∷ actions) =
      outcome (at 0) i action ∷ outcomes (λ k. at (suc k)) (suc i) actions

  -- Each of the actions, if it and an earlier action are run and their effects conflict, is run in
  -- a later round.
  abbrev pub Waits :
      ℕ → ℕ → PreparedAction Value → (ℕ → ℕ) → ℕ → List (PreparedAction Value) → Type 0
  Waits round first earlier at i [] = Unit
  Waits round first earlier at i (action ∷ actions) =
      ((runs i action ≡ false)
        ⊎ ((runs first earlier ≡ false)
            ⊎ ((conflicts action.effects earlier.effects ≡ false) ⊎ (round < at 0))))
      × Waits round first earlier (λ k. at (suc k)) (suc i) actions

  abbrev pub Turns : (ℕ → ℕ) → ℕ → List (PreparedAction Value) → Type 0
  Turns at i [] = Unit
  Turns at i (action ∷ actions) =
      Waits (at 0) i action (λ k. at (suc k)) (suc i) actions
      × Turns (λ k. at (suc k)) (suc i) actions

  -- Each action ends with its outcome in some round, once, and actions that conflict take turns.
  abbrev pub Performed : List (PreparedAction Value) → List (ScheduledToolResult Value) → Type 0
  Performed actions outs = (at : ℕ → ℕ) × Turns at 0 actions × Perm (outcomes at 0 actions) outs

  complete-outcome :
      (round i : ℕ) (action : PreparedAction Value) (permit : Option ExecutionPermit)
      → to_result (complete w round (scheduled w i action permit))
        ≡ outcome_with round i action permit
  unfolding complete
  complete-outcome round i action none = refl
  complete-outcome round i action (some permit) = elim (Option-cases (w.gate i action)) [
    | inl e ↦ rw e refl
    | inr (result, e) ↦ rw e refl
  ]

  executes-runs :
      (i : ℕ) (action : PreparedAction Value) (permit : Option ExecutionPermit)
      → executes (scheduled w i action permit) ≡ (outcome_with 0 i action permit).executed
  executes-runs i action none = refl
  executes-runs i action (some permit) = elim (Option-cases (w.gate i action)) [
    | inl e ↦ rw e refl
    | inr (result, e) ↦ rw e refl
  ]

  pub results-outcomes :
      (at : ℕ → ℕ) (i : ℕ) (actions : List (PreparedAction Value))
      → results w at (scheduled_from w i actions) ≡ outcomes at i actions
  results-outcomes at i [] = refl
  results-outcomes at i (action ∷ actions) =
      rw (complete-outcome (at 0) i action (authority w i action))
        (ap (◌∷◌ (outcome (at 0) i action)) (results-outcomes (λ k. at (suc k)) (suc i) actions))

  Waiting-Waits :
      (round first : ℕ) (earlier : PreparedAction Value) (at : ℕ → ℕ) (i : ℕ)
      (actions : List (PreparedAction Value))
      → Waiting round
          (scheduled w first earlier (authority w first earlier))
          at
          (scheduled_from w i actions)
      → Waits round first earlier at i actions
  Waiting-Waits round first earlier at i [] h = tt
  Waiting-Waits round first earlier at i (action ∷ actions) h = (
    elim (h.0) [
      | inl e ↦ inl (sym (executes-runs i action (authority w i action)) ∙ e)
      | inr (inl e) ↦ inr (inl (sym (executes-runs first earlier (authority w first earlier)) ∙ e))
      | inr (inr r) ↦ inr (inr r)
    ],
    Waiting-Waits round first earlier (λ k. at (suc k)) (suc i) actions h.1,
  )

  pub InTurn-Turns :
      (at : ℕ → ℕ) (i : ℕ) (actions : List (PreparedAction Value))
      → InTurn at (scheduled_from w i actions)
      → Turns at i actions
  InTurn-Turns at i [] h = tt
  InTurn-Turns at i (action ∷ actions) h = (
    Waiting-Waits (at 0) i action (λ k. at (suc k)) (suc i) actions h.0,
    InTurn-Turns (λ k. at (suc k)) (suc i) actions h.1,
  )
