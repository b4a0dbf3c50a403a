-- ===== src/Scheduler/Run/Batch.antt =====
-- What taking the calls of a selection leaves.
use mathlib.Core.List.{Perm}
use mathlib.Core.List.Perm
use aether_fx.Base.{
  ℕ, zero, suc, ◌+◌, ◌<◌, Option, none, some, List, [], ◌∷◌, ◌++◌, All, length, length-set,
  get_elem?, get_elem?-set_ne, set, ◌≡◌, refl, ap, sym, subst, ◌==◌, ==_iff, Bool-cases, ◌⊎◌, inl,
  inr, map, ◌∙◌, arith,
}
use aether_fx.Scheduler.{ScheduledCall, World}
use aether_fx.Scheduler.Select.Order.{Ascending, In}
use aether_fx.Scheduler.Select.Progress.{pending}
use aether_fx.Scheduler.Run.{Completed, complete, take_selected}

module _ {Value : Type 0} (w : World Value) where
  -- What the pending calls end with, where the call at each index runs in a round of its own.
  abbrev pub completions : (ℕ → ℕ) → List (Option (ScheduledCall Value)) → List (Completed Value)
  completions at [] = []
  completions at (none ∷ calls) = completions (λ i. at (suc i)) calls
  completions at (some c ∷ calls) = complete w (at 0) c ∷ completions (λ i. at (suc i)) calls

  -- Taking a call out leaves what the others end with.
  perm-take :
      (at : ℕ → ℕ) (calls : List (Option (ScheduledCall Value))) (i : ℕ) (c : ScheduledCall Value)
      → get_elem? calls i ≡ some (some c)
      → Perm (completions at calls) (complete w (at i) c ∷ completions at (set calls i none))
  perm-take at [] i c e = cc
  perm-take at (x ∷ calls) zero c e = let x' : x ≡ some c = cc in rw x' (Perm.refl _)
  perm-take at (none ∷ calls) (suc i) c e = perm-take (λ k. at (suc k)) calls i c e
  perm-take at (some p ∷ calls) (suc i) c e =
      Perm.trans (Perm.cons (complete w (at 0) p) (perm-take (λ k. at (suc k)) calls i c e))
        (Perm.swap (complete w (at (suc i)) c) (complete w (at 0) p) _)

  length-take_out :
      (calls : List (Option (ScheduledCall Value))) (i : ℕ) (c : ScheduledCall Value)
      → get_elem? calls i ≡ some (some c)
      → length (pending calls) ≡ suc (length (pending (set calls i none)))
  length-take_out [] i c e = cc
  length-take_out (x ∷ calls) zero c e = let x' : x ≡ some c = cc in rw x' refl
  length-take_out (none ∷ calls) (suc i) c e = length-take_out calls i c e
  length-take_out (some p ∷ calls) (suc i) c e = ap suc (length-take_out calls i c e)

  -- The calls at these indices are pending.
  abbrev pub Pending : List (Option (ScheduledCall Value)) → ℕ → Type 0
  Pending calls i = (call : ScheduledCall Value) × (get_elem? calls i ≡ some (some call))

  Pending-set :
      (calls : List (Option (ScheduledCall Value))) (i : ℕ) (lo : ℕ) (is : List ℕ)
      → i < lo
      → Ascending lo is
      → All (Pending calls) is
      → All (Pending (set calls i none)) is
  Pending-set calls i lo [] lt a h = tt
  Pending-set calls i lo (j ∷ is) lt a h =
      let (c, e) = h.0 in
      (
        (c, get_elem?-set_ne calls i j none (omega arith) ∙ e),
        Pending-set calls i (suc j) is (omega arith) a.1 h.1,
      )

  get_elem?-set_eq :
      (calls : List (Option (ScheduledCall Value))) (i : ℕ) (c : ScheduledCall Value)
      → get_elem? calls i ≡ some (some c)
      → get_elem? (set calls i none) i ≡ some none
  get_elem?-set_eq [] i c e = cc
  get_elem?-set_eq (x ∷ calls) zero c e = refl
  get_elem?-set_eq (x ∷ calls) (suc i) c e = get_elem?-set_eq calls i c e

  -- A call is left where it was, or it was taken.
  abbrev pub Kept :
      List (Option (ScheduledCall Value))
      → List ℕ
      → List (Option (ScheduledCall Value))
      → ℕ
      → Type 0
  Kept calls is left j =
      (In j is × (get_elem? left j ≡ some none))
      ⊎ ((¬ In j is) × (get_elem? left j ≡ get_elem? calls j))

  Kept-set :
      (calls : List (Option (ScheduledCall Value))) (i : ℕ) (is : List ℕ) (c : ScheduledCall Value)
      (left : List (Option (ScheduledCall Value))) (j : ℕ)
      → get_elem? calls i ≡ some (some c)
      → Kept (set calls i none) is left j
      → Kept calls (i ∷ is) left j
  Kept-set calls i is c left j e (inl (m, k)) = inl (inr m, k)
  Kept-set calls i is c left j e (inr (n, k)) = elim (Bool-cases (j == i)) [
    | inl f ↦
        let same = (==_iff j i).0 f in
        inl (
          inl same,
          k
              ∙ subst (λ m. get_elem? (set calls i none) m ≡ some none) (sym same)
                  (get_elem?-set_eq calls i c e),
        )
    | inr f ↦
        let differ : ¬ (j ≡ i) = λ q. ground (arith, f, (==_iff j i).1 q) in
        inr (
          λ m. elim m [ inl q ↦ differ q | inr m' ↦ n m' ],
          k ∙ get_elem?-set_ne calls i j none (λ q. differ (sym q)),
        )
  ]

  -- A batch is taken whole.
  abbrev pub Batch : ℕ → List (Option (ScheduledCall Value)) → List ℕ → Type 0
  Batch round calls is =
      (batch : List (ScheduledCall Value)) × (left : List (Option (ScheduledCall Value)))
      × (take_selected is calls ≡ some (batch, left))
      × ((at : ℕ → ℕ)
          → All (λ i. at i ≡ round) is
          → Perm (completions at calls) (map (complete w round) batch ++ completions at left))
      × ((j : ℕ) → Kept calls is left j)
      × (length left ≡ length calls)
      × (length batch ≡ length is)
      × (length (pending calls) ≡ length batch + length (pending left))

  pub take_selected-Batch :
      (round : ℕ) (calls : List (Option (ScheduledCall Value))) (lo : ℕ) (is : List ℕ)
      → Ascending lo is
      → All (Pending calls) is
      → Batch round calls is
  unfolding take_selected
  take_selected-Batch round calls lo [] a h = (
    [],
    calls,
    refl,
    λ at _. Perm.refl (completions at calls),
    λ j. inr (λ m. m, refl),
    refl,
    refl,
    omega arith,
  )
  take_selected-Batch round calls lo (i ∷ is) a h =
      let (c, e) = h.0 in
      let (batch, left, t, p, k, l, n, m) =
        take_selected-Batch round (set calls i none) (suc i) is a.1
          (Pending-set calls i (suc i) is (omega arith) a.1 h.1) in
      (
        c ∷ batch,
        left,
        rw (e, t) refl,
        λ at s.
            Perm.trans (perm-take at calls i c e)
              (rw (s.0) (Perm.cons (complete w round c) (p at s.1))),
        λ j. Kept-set calls i is c left j e (k j),
        l ∙ length-set calls i none,
        ap suc n,
        omega (arith, length-take_out calls i c e, m),
      )
