-- ===== src/Permission/Broker/Receivers.antt =====
-- What a waiting request can receive, and what a second answer does.
use aether_fx.Base.{
  ℕ, Bool, true, false, Option, none, some, List, [], ◌∷◌, Bytes, bytes_eq_iff, lookup,
  lookup-remove, lookup-insert, ◌≡◌, ◌≢◌, ◌⊎◌, inl, inr, refl, subst, sym, Bool-cases, ap, arith,
  Option-cases, ◌∙◌,
}
use aether_fx.Permission.{PermissionDecision, deny}
use aether_fx.Permission.Broker.{
  Broker, PendingPermission, has_session_grant, Event, asks, answers, cancels, resolve, drop_sender,
  step, run, new_broker,
}

-- The answers and cancellations of the call, after which nobody waits for it.
abbrev pub Ends : {Value : Type 0} → Bytes → Event Value → Type 0
Ends call_id (asks request) = ⊥
Ends call_id (answers id d is_open) = id ≡ call_id
Ends call_id (cancels id) = id ≡ call_id

-- No later event asks under the call's identity again.
abbrev pub NeverAsks : {Value : Type 0} → Bytes → List (Event Value) → Type 0
NeverAsks call_id [] = Unit
NeverAsks call_id (asks request ∷ es) = (request.call_id ≢ call_id) × NeverAsks call_id es
NeverAsks call_id (answers id d is_open ∷ es) = NeverAsks call_id es
NeverAsks call_id (cancels id ∷ es) = NeverAsks call_id es

module _ {Value : Type 0} (call_id : Bytes) where
  Ends-pending :
      (b : Broker Value) (e : Event Value)
      → b.poisoned ≡ false
      → Ends call_id e
      → lookup call_id (step b e).pending ≡ none
  unfolding step
  Ends-pending b (asks request) s h = absurd h
  Ends-pending b (answers id d is_open) s h =
      ground (arith, lookup-remove id call_id b.pending, bytes_eq_iff id call_id)
  Ends-pending b (cancels id) s h =
      ground (arith, lookup-remove id call_id b.pending, bytes_eq_iff id call_id)

  run-pending :
      (b : Broker Value) (es : List (Event Value))
      → lookup call_id b.pending ≡ none
      → NeverAsks call_id es
      → lookup call_id (run b es).pending ≡ none
  unfolding run step
  run-pending b [] h q = h
  run-pending b (asks request ∷ es) h q =
      run-pending (step b (asks request)) es
        (ground (
          arith,
          lookup-insert request.call_id call_id
              (record { request = request; sender = b.next_channel }) b.pending,
          bytes_eq_iff request.call_id call_id,
        ))
        q.1
  run-pending b (answers id d is_open ∷ es) h q =
      run-pending (step b (answers id d is_open)) es
        (ground (arith, lookup-remove id call_id b.pending)) q
  run-pending b (cancels id ∷ es) h q =
      run-pending (step b (cancels id)) es (ground (arith, lookup-remove id call_id b.pending)) q

-- Once a call was answered or cancelled, no later answer reaches it or grants anything, whatever
-- happens in between, unless the agent asks under its identity again.
pub resolve-run_ended :
    {Value : Type 0} (b : Broker Value) (call_id : Bytes) (e : Event Value)
    (es : List (Event Value)) (d : PermissionDecision) (is_open : Bool)
    → b.poisoned ≡ false
    → Ends call_id e
    → NeverAsks call_id es
    → let b' = run (step b e) es in resolve b' call_id d is_open ≡ (b', false)
unfolding resolve
resolve-run_ended b call_id e es d is_open s h q =
    ground (arith, run-pending call_id (step b e) es (Ends-pending call_id b e s h) q)

abbrev pub In : ℕ × PermissionDecision → List (ℕ × PermissionDecision) → Type 0
In x [] = ⊥
In x (y ∷ ys) = (x ≡ y) ⊎ In x ys

-- The log after an event is the log before it, the same with a dropped sender's `Deny`, or the same
-- with the answer that a user gave.
abbrev LogStep : {Value : Type 0} → Broker Value → Event Value → Type 0
LogStep {Value} b e =
    ((step b e).resolved ≡ b.resolved)
    ⊎ ((o : Option (PendingPermission Value)) × ((step b e).resolved ≡ drop_sender o b.resolved))
    ⊎ ((id : Bytes) × (x : PermissionDecision) × (p : PendingPermission Value) × (e
          ≡ answers id x true)
        × (lookup id b.pending ≡ some p)
        × ((step b e).resolved ≡ (p.sender, x) ∷ b.resolved))

module _ {Value : Type 0} where
  log-answer :
      (b : Broker Value) (id : Bytes) (x : PermissionDecision) (is_open : Bool)
      (p : PendingPermission Value)
      → lookup id b.pending ≡ some p
      → LogStep b (answers id x is_open)
  unfolding step
  log-answer b id x true p e = elim (Bool-cases b.poisoned) [
    | inl q ↦ inl (ground arith)
    | inr s ↦ inr (inr (id, x, p, refl, e, ground arith))
  ]
  log-answer b id x false p e = inl (ground arith)

  -- What an event does to the log of the receivers.
  log-step : (b : Broker Value) (e : Event Value) → LogStep b e
  unfolding step
  log-step b (asks request) = elim (Bool-cases (has_session_grant b request.tool request.class)) [
    | inl granted ↦ inl (ground arith)
    | inr asked ↦ elim (Bool-cases b.poisoned) [
      | inl p ↦ inl (ground arith)
      | inr s ↦ inr (inl (lookup request.call_id b.pending, ground arith))
    ]
  ]
  log-step b (cancels id) = elim (Bool-cases b.poisoned) [
    | inl p ↦ inl (ground arith)
    | inr s ↦ inr (inl (lookup id b.pending, ground arith))
  ]
  log-step b (answers id x is_open) = elim (Option-cases (lookup id b.pending)) [
    | inl e ↦ inl (ground arith)
    | inr (p, e) ↦ log-answer b id x is_open p e
  ]

module _ {Value : Type 0} (channel : ℕ) (d : PermissionDecision) where
  -- The user answers with `d` a request whose receiver waits on the channel.
  pub data Answers (b : Broker Value) (e : Event Value) : Type 0 where
    answer :
        (call_id : Bytes) (p : PendingPermission Value)
        → e ≡ answers call_id d true
        → lookup call_id b.pending ≡ some p
        → p.sender ≡ channel
        → Answers b e

  pub data Answered : Broker Value → List (Event Value) → Type 0 where
    now :
        {b : Broker Value} {es : List (Event Value)} (e : Event Value)
        → Answers b e
        → Answered b (e ∷ es)
    later :
        {b : Broker Value} {es : List (Event Value)} (e : Event Value)
        → Answered (step b e) es
        → Answered b (e ∷ es)

  In-drop_sender :
      (o : Option (PendingPermission Value)) (log : List (ℕ × PermissionDecision))
      → d ≢ deny
      → In (channel, d) (drop_sender o log)
      → In (channel, d) log
  In-drop_sender none log n h = h
  In-drop_sender (some p) log n (inl e) = absurd (n (ap (λ x. x.1) e))
  In-drop_sender (some p) log n (inr h) = h

  In-step :
      (b : Broker Value) (e : Event Value)
      → d ≢ deny
      → In (channel, d) (step b e).resolved
      → In (channel, d) b.resolved ⊎ Answers b e
  In-step b e n h = elim (log-step b e) [
    | inl same ↦ inl (subst (In (channel, d)) same h)
    | inr (inl (o, dropped)) ↦
        inl (In-drop_sender o b.resolved n (subst (In (channel, d)) dropped h))
    | inr (inr (id, x, p, q, found, sent)) ↦
        elim (let r : In (channel, d) ((p.sender, x) ∷ b.resolved) =
            subst (In (channel, d)) sent h in
          r) [
            | inl here ↦ inr (
                answer id p (q ∙ ap (λ y. answers id y.1 true) (sym here)) found
                  (sym (ap (λ y. y.0) here)))
            | inr rest ↦ inl rest
          ]
  ]

run-Answered :
    {Value : Type 0} (channel : ℕ) (d : PermissionDecision) (b : Broker Value)
    (es : List (Event Value))
    → d ≢ deny
    → In (channel, d) (run b es).resolved
    → In (channel, d) b.resolved ⊎ Answered channel d b es
unfolding run
run-Answered channel d b [] n h = inl h
run-Answered channel d b (e ∷ es) n h = elim (run-Answered channel d (step b e) es n h) [
  | inr a ↦ inr (later e a)
  | inl old ↦ elim (In-step channel d b e n old) [ inl older ↦ inl older | inr a ↦ inr (now e a) ]
]

-- Whatever happens to a new broker, a receiver finishes with a decision other than `Deny` only if
-- the user gave that decision to the request pending on its channel.
pub receiver-Answered :
    {Value : Type 0} (es : List (Event Value)) (channel : ℕ) (d : PermissionDecision)
    → d ≢ deny
    → In (channel, d) (run (new_broker Value) es).resolved
    → Answered channel d (new_broker Value) es
unfolding new_broker
receiver-Answered {Value} es channel d n h =
    elim (run-Answered channel d (new_broker Value) es n h) [ inl old ↦ absurd old | inr a ↦ a ]
