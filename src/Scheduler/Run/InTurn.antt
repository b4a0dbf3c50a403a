-- ===== src/Scheduler/Run/InTurn.antt =====
-- The results of the calls in the order of the step, and the turns that conflicting calls take.
use aether_fx.Base.{
  ℕ, suc, ◌<◌, ◌≢◌, ◌⊎◌, inl, inr, true, false, Bool-cases, get_elem?, Bool, not, ◌&&◌, is_some,
  All, Option, none, some, List, [], ◌∷◌, map, ◌≡◌, refl, ap, arith,
}
use aether_fx.Tools.Action.{PreparedAction}
use aether_fx.Scheduler.{ScheduledCall, ScheduledToolResult, World}
use aether_fx.Scheduler.Prepare.{scheduled}
use aether_fx.Scheduler.Prepare.Authority.{authority, scheduled_from}
use aether_fx.Scheduler.Run.{complete, to_result}
use aether_fx.Tools.{conflicts}
use aether_fx.Permission.{ExecutionPermit}
use aether_fx.Scheduler.Run.Batch.{completions}
use aether_fx.Scheduler.Run.Turns.{Ordered}

-- The results of the actions, where the tool of the action at each place runs in a round of its
-- own.
abbrev pub results :
    {Value : Type 0}
    → World Value
    → (ℕ → ℕ)
    → List (ScheduledCall Value)
    → List (ScheduledToolResult Value)
results w at [] = []
results w at (c ∷ cs) = to_result (complete w (at 0) c) ∷ results w (λ i. at (suc i)) cs

-- The tool of the call is run: the call is permitted, and the gate lets it pass.
abbrev pub executes : {Value : Type 0} → ScheduledCall Value → Bool
executes c = is_some c.permit && not (is_some c.preflight)

-- Each of the calls, if the tools of both are run and their effects conflict, runs in a later
-- round.
abbrev pub Waiting :
    {Value : Type 0} → ℕ → ScheduledCall Value → (ℕ → ℕ) → List (ScheduledCall Value) → Type 0
Waiting round earlier at [] = Unit
Waiting round earlier at (c ∷ cs) =
    ((executes c ≡ false)
      ⊎ ((executes earlier ≡ false)
          ⊎ ((conflicts c.action.effects earlier.action.effects ≡ false) ⊎ (round < at 0))))
    × Waiting round earlier (λ i. at (suc i)) cs

-- Each call waits for those before it.
abbrev pub InTurn : {Value : Type 0} → (ℕ → ℕ) → List (ScheduledCall Value) → Type 0
InTurn at [] = Unit
InTurn at (c ∷ cs) = Waiting (at 0) c (λ i. at (suc i)) cs × InTurn (λ i. at (suc i)) cs

module _ {Value : Type 0} (w : World Value) where
  pub completions-results :
      (at : ℕ → ℕ) (cs : List (ScheduledCall Value))
      → map to_result (completions w at (map some cs)) ≡ results w at cs
  completions-results at [] = refl
  completions-results at (c ∷ cs) =
      ap (◌∷◌ (to_result (complete w (at 0) c))) (completions-results (λ i. at (suc i)) cs)

  -- A call whose tool is run is scheduled by the effects of its action.
  abbrev pub Honest : ScheduledCall Value → Type 0
  Honest c = (executes c ≡ false) ⊎ (c.footprint ≡ c.action.effects)

  scheduled-Honest :
      (i : ℕ) (action : PreparedAction Value) (permit : Option ExecutionPermit)
      → Honest (scheduled w i action permit)
  scheduled-Honest i action permit = elim (Bool-cases (executes (scheduled w i action permit))) [
    | inl e ↦ inr (rw e refl)
    | inr e ↦ inl e
  ]

  pub scheduled_from-Honest :
      (i : ℕ) (actions : List (PreparedAction Value)) → All Honest (scheduled_from w i actions)
  scheduled_from-Honest i [] = tt
  scheduled_from-Honest i (action ∷ actions) =
      (scheduled-Honest i action (authority w i action), scheduled_from-Honest (suc i) actions)

  executes-permit : (c : ScheduledCall Value) → executes c ≡ true → c.permit ≢ none
  executes-permit c e n = ground (arith, e, ap is_some n)

  waits :
      (round : ℕ) (earlier c : ScheduledCall Value) (other : ℕ)
      → Honest earlier
      → Honest c
      → (c.permit ≢ none → conflicts c.footprint earlier.footprint ≡ true → round < other)
      → (executes c ≡ false)
        ⊎ ((executes earlier ≡ false)
            ⊎ ((conflicts c.action.effects earlier.action.effects ≡ false) ⊎ (round < other)))
  waits round earlier c other (inl e) hc h = inr (inl e)
  waits round earlier c other (inr fe) (inl e) h = inl e
  waits round earlier c other (inr fe) (inr fc) h = elim (Bool-cases (executes c)) [
    | inr e ↦ inl e
    | inl e ↦ elim (Bool-cases (conflicts c.action.effects earlier.action.effects)) [
      | inl f ↦ inr (inr (inr (h (executes-permit c e) (rw fc (rw fe f)))))
      | inr f ↦ inr (inr (inl f))
    ]
  ]

  Ordered-Waiting :
      (round : ℕ) (earlier : ScheduledCall Value) (at : ℕ → ℕ) (cs : List (ScheduledCall Value))
      → Honest earlier
      → All Honest cs
      → ((j : ℕ) (c : ScheduledCall Value)
          → get_elem? (map some cs) j ≡ some (some c)
          → c.permit ≢ none
          → conflicts c.footprint earlier.footprint ≡ true
          → round < at j)
      → Waiting round earlier at cs
  Ordered-Waiting round earlier at [] he hc h = tt
  Ordered-Waiting round earlier at (c ∷ cs) he hc h = (
    waits round earlier c (at 0) he hc.0 (h 0 c refl),
    Ordered-Waiting round earlier (λ i. at (suc i)) cs he hc.1 (λ j d e. h (suc j) d e),
  )

  pub Ordered-InTurn :
      (at : ℕ → ℕ) (cs : List (ScheduledCall Value))
      → All Honest cs
      → Ordered w at (map some cs)
      → InTurn at cs
  Ordered-InTurn at [] h o = tt
  Ordered-InTurn at (c ∷ cs) h o = (
    Ordered-Waiting (at 0) c (λ i. at (suc i)) cs h.0 h.1
        (λ j d e. o 0 (suc j) c d (omega arith) refl e),
    Ordered-InTurn (λ i. at (suc i)) cs h.1
        (λ i j a b lt ea eb. o (suc i) (suc j) a b (omega arith) ea eb),
  )
