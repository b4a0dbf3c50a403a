-- ===== src/Scheduler/Ends.antt =====
-- How a run of the scheduler can end, and the rules for a sequence of steps.
use aether_fx.Base.{ℕ, Bool, true, false, List, length, ◌≡◌, ◌⊎◌, inl, inr, Bool-cases}
use aether_fx.Events.{AgentEvent}
use aether_fx.Scheduler.{
  cancelled, tool, event_channel_closed, AgentResult, ok, err, World, M, after, send_event,
}

-- What a world must grant so that only interruptions of the kind `I` cut a run short: `I` may be
-- any, and with `⊥` nothing is cancelled and the consumer listens to the end.
pub record Interrupted {Value : Type 0} (w : World Value) (I : Type 0) : Type 0 where
  pub before : (i : ℕ) → (w.cancelled_before i ≡ false) ⊎ I
  pub deciding : (i : ℕ) → (w.cancelled_deciding i ≡ false) ⊎ I
  pub round : (i : ℕ) → (w.cancelled_round i ≡ false) ⊎ I
  pub batch : (i : ℕ) → (w.cancelled_batch i ≡ false) ⊎ I
  pub channel : (n : ℕ) → (w.channel_open n ≡ true) ⊎ I

pub interrupted : {I : Type 0} {b : Bool} → (b ≡ false) ⊎ I → b ≡ true → I
interrupted (inl e) f = absurd (cc)
interrupted (inr i) f = i

-- A run ends with a value of which `P` holds, or is cancelled or loses its consumer, by `I`. The
-- internal errors do not happen.
abbrev pub Ends : Type 0 → {A : Type 0} → (A → Type 0) → AgentResult A → Type 0
Ends I P (ok a) = P a
Ends I P (err cancelled) = I
Ends I P (err event_channel_closed) = I
Ends I P (err (tool message)) = ⊥

pub Ends-after :
    {Value A B : Type 0} (I : Type 0) (P : A → Type 0) (Q : B → Type 0)
    (r : List (AgentEvent Value) × AgentResult A) (f : A → M Value B)
    → Ends I P r.1
    → ((a : A) (log : List (AgentEvent Value)) → P a → Ends I Q (f a log).1)
    → Ends I Q (after r f).1
Ends-after I P Q (log, ok a) f h k = k a log h
Ends-after I P Q (log, err cancelled) f h k = h
Ends-after I P Q (log, err event_channel_closed) f h k = h
Ends-after I P Q (log, err (tool m)) f h k = h

pub Ends-mono :
    {A : Type 0} (I : Type 0) (P Q : A → Type 0) (r : AgentResult A)
    → ((a : A) → P a → Q a)
    → Ends I P r
    → Ends I Q r
Ends-mono I P Q (ok a) f h = f a h
Ends-mono I P Q (err cancelled) f h = h
Ends-mono I P Q (err event_channel_closed) f h = h
Ends-mono I P Q (err (tool m)) f h = h

pub send-Ends :
    {Value : Type 0} (w : World Value) {I : Type 0}
    → Interrupted w I
    → (event : AgentEvent Value) (log : List (AgentEvent Value))
    → Ends I (λ _. Unit {0}) (send_event w event log).1
unfolding send_event
send-Ends w q event log = elim (Bool-cases (w.channel_open (length log))) [
  | inl e ↦ rw (e, Ends) tt
  | inr e ↦ rw (e, Ends) (elim (q.channel (length log)) [ inl f ↦ absurd (cc) | inr i ↦ i ])
]
