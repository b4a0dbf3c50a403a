-- ===== src/Scheduler/Prepare/Authority.antt =====
-- What preparation makes of each action.
use aether_fx.Base.{
  ℕ, suc, ◌≤◌, Bool, true, false, Option, none, some, List, [], ◌∷◌, map, length, ltb, ◌≡◌, refl,
  ap, arith, Bool-cases, inl, inr,
}
use aether_fx.Events.{AgentEvent, permission_requested, permission_resolved}
use aether_fx.Permission.{PermissionRequest, ExecutionPermit}
use aether_fx.Tools.Action.{PreparedAction}
use aether_fx.Scheduler.{ScheduledCall, World, send_if, max_tool_calls_per_step}
use aether_fx.Scheduler.Ends.{Ends, Interrupted, interrupted, Ends-after, send-Ends}
use aether_fx.Scheduler.Prepare.{
  permit_for, ask, obtain, scheduled, prepare_call, prepare_from, prepare_calls,
}

module _ {Value : Type 0} (w : World Value) where
  abbrev pub decided :
      ℕ → PreparedAction Value → Option (PermissionRequest Value) → Option ExecutionPermit
  decided i action none = some (record {
    call_id = action.call_id;
    tool = action.tool;
    class = action.requirements.permission;
  })
  decided i action (some request) = permit_for (w.decide i request) action request

  -- The authority that an action has: its own class where no request is needed, and otherwise what
  -- the broker decides.
  abbrev pub authority : ℕ → PreparedAction Value → Option ExecutionPermit
  authority i action = decided i action action.permission_request

  abbrev pub scheduled_from : ℕ → List (PreparedAction Value) → List (ScheduledCall Value)
  scheduled_from i [] = []
  scheduled_from i (action ∷ actions) =
      scheduled w i action (authority i action) ∷ scheduled_from (suc i) actions

module _ {Value : Type 0} (w : World Value) {I : Type 0} (q : Interrupted w I) where
  send_if-Ends :
      (b : Bool) (event : AgentEvent Value) (log : List (AgentEvent Value))
      → Ends I (λ _. Unit {0}) (send_if w b event log).1
  send_if-Ends true event log = send-Ends w q event log
  send_if-Ends false event log = tt

  ask-Ends :
      (i : ℕ) (action : PreparedAction Value) (request : PermissionRequest Value)
      (log : List (AgentEvent Value))
      → Ends I
          (λ p. p ≡ permit_for (w.decide i request) action request)
          (ask w i action request log).1
  unfolding ask
  ask-Ends i action request log =
      Ends-after I (λ _. Unit {0}) (λ p. p ≡ permit_for (w.decide i request) action request)
        (send_if w (w.needs_prompt i request) (permission_requested request) log) _
        (send_if-Ends (w.needs_prompt i request) (permission_requested request) log)
        (λ _ later _. elim (Bool-cases (w.cancelled_deciding i)) [
          | inl e ↦ rw (e, Ends) (interrupted (q.deciding i) e)
          | inr e ↦
              rw (e, Ends)
                (Ends-after I (λ _. Unit {0})
                  (λ p. p ≡ permit_for (w.decide i request) action request)
                  (send_if w (w.needs_prompt i request)
                    (permission_resolved action.call_id (w.decide i request)) later)
                  _
                  (send_if-Ends (w.needs_prompt i request)
                    (permission_resolved action.call_id (w.decide i request)) later)
                  (λ _ _ _. refl))
        ])

  obtain-Ends :
      (i : ℕ) (action : PreparedAction Value) (o : Option (PermissionRequest Value))
      (log : List (AgentEvent Value))
      → Ends I (λ p. p ≡ decided w i action o) (obtain w i action o log).1
  obtain-Ends i action none log = refl
  obtain-Ends i action (some request) log = ask-Ends i action request log

  prepare_call-Ends :
      (i : ℕ) (action : PreparedAction Value) (log : List (AgentEvent Value))
      → Ends I
          (λ c. c ≡ scheduled w i action (authority w i action))
          (prepare_call w i action log).1
  unfolding prepare_call
  prepare_call-Ends i action log = elim (Bool-cases (w.cancelled_before i)) [
    | inl e ↦ rw (e, Ends) (interrupted (q.before i) e)
    | inr e ↦
        rw (e, Ends)
          (Ends-after I (λ p. p ≡ authority w i action)
            (λ c. c ≡ scheduled w i action (authority w i action))
            (obtain w i action action.permission_request log) _
            (obtain-Ends i action action.permission_request log)
            (λ p later h. ap (scheduled w i action) h))
  ]

  prepare_from-Ends :
      (i : ℕ) (actions : List (PreparedAction Value)) (log : List (AgentEvent Value))
      → Ends I (λ cs. cs ≡ scheduled_from w i actions) (prepare_from w i actions log).1
  unfolding prepare_from
  prepare_from-Ends i [] log = refl
  prepare_from-Ends i (action ∷ actions) log =
      Ends-after I (λ c. c ≡ scheduled w i action (authority w i action))
        (λ cs. cs ≡ scheduled_from w i (action ∷ actions)) (prepare_call w i action log) _
        (prepare_call-Ends i action log)
        (λ c later h.
          Ends-after I (λ cs. cs ≡ scheduled_from w (suc i) actions)
            (λ cs. cs ≡ scheduled_from w i (action ∷ actions))
            (prepare_from w (suc i) actions later) _ (prepare_from-Ends (suc i) actions later)
            (λ cs last k. cc))

  pub prepare_calls-Ends :
      (actions : List (PreparedAction Value)) (log : List (AgentEvent Value))
      → length actions ≤ max_tool_calls_per_step
      → Ends I (λ cs. cs ≡ map some (scheduled_from w 0 actions)) (prepare_calls w actions log).1
  unfolding prepare_calls
  prepare_calls-Ends actions log h =
      let e : ltb max_tool_calls_per_step (length actions) ≡ false = ground arith in
      rw (e, Ends)
        (Ends-after I (λ cs. cs ≡ scheduled_from w 0 actions)
          (λ cs. cs ≡ map some (scheduled_from w 0 actions)) (prepare_from w 0 actions log) _
          (prepare_from-Ends 0 actions log) (λ cs _ k. ap (map some) k))
