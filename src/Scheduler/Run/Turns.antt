-- ===== src/Scheduler/Run/Turns.antt =====
-- In which round each call runs.
use aether_fx.Base.{
  ℕ, suc, ◌≤◌, ◌<◌, true, Option, none, some, List, [], ◌∷◌, All, get_elem?, ◌≡◌, ◌≢◌, refl, ap,
  ◌∙◌, ◌⊎◌, inl, inr, arith,
}
use aether_fx.Tools.{conflicts}
use aether_fx.Scheduler.{ScheduledCall, World}
use aether_fx.Scheduler.Select.{select_pending_calls}
use aether_fx.Scheduler.Select.Order.{In, not-In-select}
use aether_fx.Scheduler.Run.{complete}
use aether_fx.Scheduler.Run.Batch.{Kept, completions}

-- What is decided for a call that was taken, and for one that was left.
abbrev pick : {A B : Type 0} → A ⊎ B → ℕ → ℕ → ℕ
pick (inl a) taken later = taken
pick (inr b) taken later = later

module _ {Value : Type 0} (w : World Value) where
  -- Of two pending calls that conflict, the later one, if it has a permit, runs in a later round.
  abbrev pub Ordered : (ℕ → ℕ) → List (Option (ScheduledCall Value)) → Type 0
  Ordered at calls =
      (i j : ℕ) (a b : ScheduledCall Value)
      → i < j
      → get_elem? calls i ≡ some (some a)
      → get_elem? calls j ≡ some (some b)
      → b.permit ≢ none
      → conflicts b.footprint a.footprint ≡ true
      → at i < at j

  completions-ext :
      (at other : ℕ → ℕ) (calls : List (Option (ScheduledCall Value)))
      → ((j : ℕ) (c : ScheduledCall Value) → get_elem? calls j ≡ some (some c) → at j ≡ other j)
      → completions w at calls ≡ completions w other calls
  completions-ext at other [] h = refl
  completions-ext at other (none ∷ calls) h =
      completions-ext (λ i. at (suc i)) (λ i. other (suc i)) calls (λ j c e. h (suc j) c e)
  completions-ext at other (some c ∷ calls) h = rw (h 0 c refl) (
      ap (◌∷◌ (complete w (other 0) c))
        (completions-ext (λ i. at (suc i)) (λ i. other (suc i)) calls (λ j d e. h (suc j) d e)))

  module _ (calls left : List (Option (ScheduledCall Value))) (round : ℕ)
      (kept : (j : ℕ) → Kept w calls (select_pending_calls calls) left j) (later : ℕ → ℕ) where
    -- The calls that are taken run now, and the others as they do later.
    abbrev pub merged : ℕ → ℕ
    merged j = pick (kept j) round (later j)

    pick-taken :
        (j : ℕ) (k : Kept w calls (select_pending_calls calls) left j)
        → In j (select_pending_calls calls)
        → pick k round (later j) ≡ round
    pick-taken j (inl t) m = refl
    pick-taken j (inr (n, e)) m = absurd (n m)

    pick-left :
        (j : ℕ) (k : Kept w calls (select_pending_calls calls) left j) (c : ScheduledCall Value)
        → get_elem? left j ≡ some (some c)
        → pick k round (later j) ≡ later j
    pick-left j (inl (m, e)) c f = absurd (cc)
    pick-left j (inr k) c f = refl

    All-taken :
        (is : List ℕ)
        → ((j : ℕ) → In j is → In j (select_pending_calls calls))
        → All (λ j. merged j ≡ round) is
    All-taken [] h = tt
    All-taken (j ∷ is) h =
        (pick-taken j (kept j) (h j (inl refl)), All-taken is (λ k m. h k (inr m)))

    pub merged-taken : All (λ j. merged j ≡ round) (select_pending_calls calls)
    merged-taken = All-taken (select_pending_calls calls) (λ j m. m)

    pub completions-left : completions w merged left ≡ completions w later left
    completions-left = completions-ext merged later left (λ j c e. pick-left j (kept j) c e)

    pick-le :
        (j : ℕ) (k : Kept w calls (select_pending_calls calls) left j)
        → suc round ≤ later j
        → round ≤ pick k round (later j)
    pick-le j (inl t) h = omega arith
    pick-le j (inr t) h = omega arith

    pub merged-le : ((j : ℕ) → suc round ≤ later j) → (j : ℕ) → round ≤ merged j
    merged-le h j = pick-le j (kept j) (h j)

    pick-Ordered :
        (i j : ℕ) (ki : Kept w calls (select_pending_calls calls) left i)
        (kj : Kept w calls (select_pending_calls calls) left j) (a b : ScheduledCall Value)
        → suc round ≤ later j
        → Ordered later left
        → i < j
        → get_elem? calls i ≡ some (some a)
        → get_elem? calls j ≡ some (some b)
        → b.permit ≢ none
        → conflicts b.footprint a.footprint ≡ true
        → pick ki round (later i) < pick kj round (later j)
    pick-Ordered i j ki (inl (m, e)) a b le o lt ea eb p c =
        absurd (not-In-select calls a b i j lt ea eb p c m)
    pick-Ordered i j (inl t) (inr k) a b le o lt ea eb p c = omega (arith, le)
    pick-Ordered i j (inr (n, ei)) (inr (m, ej)) a b le o lt ea eb p c =
        o i j a b lt (ei ∙ ea) (ej ∙ eb) p c

    pub merged-Ordered : ((j : ℕ) → suc round ≤ later j) → Ordered later left → Ordered merged calls
    merged-Ordered le o i j a b = pick-Ordered i j (kept i) (kept j) a b (le j) o
