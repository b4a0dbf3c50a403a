-- ===== src/Scheduler/Select/Order.antt =====
-- Which calls the selection holds, in which order, and which it leaves out.
use mathlib.Core.List.{append_assoc}
use aether_fx.Base.{
  ℕ, zero, suc, ◌+◌, ◌≤◌, ◌<◌, true, false, not, ◌||◌, Option, none, some, is_some, List, [], ◌∷◌,
  ◌++◌, All, length, take, get_elem?, length-append, get_elem?-append, ◌==◌, ◌≡◌, ◌≢◌, refl, ap,
  sym, subst, ◌⊎◌, inl, inr, arith, Bool-cases,
}
use aether_fx.Permission.{ExecutionPermit}
use aether_fx.Tools.{conflicts}
use aether_fx.Scheduler.{ScheduledCall, default_max_parallel_tools}
use aether_fx.Scheduler.Select.{select_from, select_pending_calls, is_ready, blocked}

-- Indices that rise from a bound on.
abbrev pub Ascending : ℕ → List ℕ → Type 0
Ascending lo [] = Unit
Ascending lo (i ∷ is) = (lo ≤ i) × Ascending (suc i) is

pub Ascending-mono : (lo hi : ℕ) (is : List ℕ) → lo ≤ hi → Ascending hi is → Ascending lo is
Ascending-mono lo hi [] h a = tt
Ascending-mono lo hi (i ∷ is) h a = (omega arith, a.1)

pub All-map {ℓ κ μ} :
    {A : Type ℓ} (P : A → Type κ) (Q : A → Type μ) (xs : List A)
    → ((x : A) → P x → Q x)
    → All P xs
    → All Q xs
All-map P Q [] f h = tt
All-map P Q (x ∷ xs) f h = (f x h.0, All-map P Q xs f h.1)

module _ {Value : Type 0} where
  -- The call at the index is pending and may start: it has no permit, so that it will not execute,
  -- or no pending call before it conflicts.
  abbrev pub Startable : List (Option (ScheduledCall Value)) → ℕ → Type 0
  Startable calls i =
      (call : ScheduledCall Value) × (get_elem? calls i ≡ some (some call))
      × ((call.permit ≡ none) ⊎ (blocked (take i calls) call ≡ false))

  select_from-Ascending :
      (prior : List (Option (ScheduledCall Value))) (count index : ℕ)
      (cs : List (Option (ScheduledCall Value)))
      → Ascending index (select_from prior count index cs)
  unfolding select_from
  select_from-Ascending prior count index [] = tt
  select_from-Ascending prior count index (c ∷ cs) = ground (
    arith,
    select_from-Ascending (prior ++ c ∷ []) (suc count) (suc index) cs,
    Ascending-mono index (suc index) (select_from (prior ++ c ∷ []) count (suc index) cs)
        (omega arith) (select_from-Ascending (prior ++ c ∷ []) count (suc index) cs),
  )

  length-select_from :
      (prior : List (Option (ScheduledCall Value))) (count index : ℕ)
      (cs : List (Option (ScheduledCall Value)))
      → count ≤ default_max_parallel_tools
      → length (select_from prior count index cs) + count ≤ default_max_parallel_tools
  unfolding select_from
  length-select_from prior count index [] h = omega arith
  length-select_from prior count index (c ∷ cs) h = ground (
    arith,
    length-select_from (prior ++ c ∷ []) (suc count) (suc index) cs,
    length-select_from (prior ++ c ∷ []) count (suc index) cs,
  )

  take-length-append :
      (prior cs : List (Option (ScheduledCall Value))) → take (length prior) (prior ++ cs) ≡ prior
  take-length-append [] cs = refl
  take-length-append (p ∷ prior) cs = ap (◌∷◌ p) (take-length-append prior cs)

  is_ready-Startable :
      (prior : List (Option (ScheduledCall Value))) (c : Option (ScheduledCall Value))
      (cs : List (Option (ScheduledCall Value)))
      → is_ready prior c ≡ true
      → Startable (prior ++ c ∷ cs) (length prior)
  is_ready-Startable prior none cs h = cc
  is_ready-Startable prior (some call) cs h = (
    call,
    get_elem?-append prior (some call) cs,
    rw (take-length-append prior (some call ∷ cs)) (permitted call.permit h),
  )
    where
      permitted :
          (p : Option ExecutionPermit)
          → (not (is_some p) || not (blocked prior call)) ≡ true
          → (p ≡ none) ⊎ (blocked prior call ≡ false)
      permitted none e = inl refl
      permitted (some p) e = inr (ground arith)

  select_from-Startable :
      (prior : List (Option (ScheduledCall Value))) (count index : ℕ)
      (cs : List (Option (ScheduledCall Value)))
      → index ≡ length prior
      → All (Startable (prior ++ cs)) (select_from prior count index cs)
  unfolding select_from
  select_from-Startable prior count index [] e = tt
  select_from-Startable prior count index (c ∷ cs) e =
      let next = prior ++ c ∷ [] in
      let whole = append_assoc prior (c ∷ []) cs in
      let e' : suc index ≡ length next = omega (arith, length-append prior (c ∷ [])) in
      let chosen : All (Startable (prior ++ c ∷ cs)) (select_from next (suc count) (suc index) cs) =
        subst (λ x. All (Startable x) (select_from next (suc count) (suc index) cs)) whole
          (select_from-Startable next (suc count) (suc index) cs e') in
      let skipped : All (Startable (prior ++ c ∷ cs)) (select_from next count (suc index) cs) =
        subst (λ x. All (Startable x) (select_from next count (suc index) cs)) whole
          (select_from-Startable next count (suc index) cs e') in
      elim (Bool-cases (count == default_max_parallel_tools)) [
        | inl full ↦ rw full tt
        | inr room ↦ rw room (elim (Bool-cases (is_ready prior c)) [
          | inl ready ↦ rw ready (
            subst (Startable (prior ++ c ∷ cs)) (sym e) (is_ready-Startable prior c cs ready),
            chosen,
          )
          | inr held ↦ rw held skipped
        ])
      ]

  -- The selection rises strictly, has at most four calls, and every call in it may start.
  pub select-Startable :
      (calls : List (Option (ScheduledCall Value)))
      → let selected = select_pending_calls calls in
        Ascending 0 selected
        × (length selected ≤ default_max_parallel_tools)
        × All (Startable calls) selected
  unfolding select_pending_calls
  select-Startable calls = (
    select_from-Ascending [] 0 0 calls,
    omega (arith, length-select_from [] 0 0 calls),
    select_from-Startable [] 0 0 calls refl,
  )

  earlier-blocked :
      (calls : List (Option (ScheduledCall Value))) (a b : ScheduledCall Value) (i j : ℕ)
      → i < j
      → get_elem? calls i ≡ some (some a)
      → conflicts b.footprint a.footprint ≡ true
      → blocked (take j calls) b ≡ true
  unfolding blocked
  earlier-blocked [] a b i j lt e k = cc
  earlier-blocked (x ∷ calls) a b i zero lt e k = elim lt [ ]
  earlier-blocked (x ∷ calls) a b zero (suc j) lt e k =
      let x' : x ≡ some a = ground arith in rw (x', blocked) (rw k)
  earlier-blocked (x ∷ calls) a b (suc i) (suc j) lt e k =
      let rest = earlier-blocked calls a b i j (omega arith) e k in ground arith

abbrev pub In : ℕ → List ℕ → Type 0
In j [] = ⊥
In j (i ∷ is) = (j ≡ i) ⊎ In j is

All-In {κ} : (P : ℕ → Type κ) (j : ℕ) (is : List ℕ) → All P is → In j is → P j
All-In P j (i ∷ is) h (inl e) = subst P (sym e) h.0
All-In P j (i ∷ is) h (inr m) = All-In P j is h.1 m
All-In P j [] h m = absurd m

-- A permitted call that conflicts with a pending call before it is not selected: conflicting calls
-- never start together, and they start in the order of the step.
pub not-In-select :
    {Value : Type 0} (calls : List (Option (ScheduledCall Value))) (a b : ScheduledCall Value)
    (i j : ℕ)
    → i < j
    → get_elem? calls i ≡ some (some a)
    → get_elem? calls j ≡ some (some b)
    → b.permit ≢ none
    → conflicts b.footprint a.footprint ≡ true
    → ¬ In j (select_pending_calls calls)
not-In-select calls a b i j lt ea eb p k m =
    let (call, e, start) =
      All-In (Startable calls) j (select_pending_calls calls) (select-Startable calls).2 m in
    let same : call ≡ b = cc in
    elim start [
      | inl none_permit ↦ p (cc)
      | inr free ↦ let held = earlier-blocked calls a b i j lt ea k in cc
    ]
