-- ===== src/Decision/Order/Sorted.antt =====
-- What sorting and cutting the candidates keeps.
use mathlib.Core.List.{Perm}
use mathlib.Core.List.Perm
use aether_fx.Base.{
  All-take, ℕ, zero, suc, ◌≤◌, ◌<◌, ◌↔◌, ◌⊎◌, true, false, List, [], ◌∷◌, ◌++◌, Bytes, length, take,
  drop, All, Bool-cases, ◌≡◌, inl, inr, refl, sym, subst, ap, arith, length-take,
}
use aether_fx.Decision.{DecisionCandidate, max_decision_candidates}
use aether_fx.Decision.Order.{bytes_le, precedes, insert_candidate, sort, sort_candidates}

bytes_le_total : (a b : Bytes) → bytes_le a b ≡ false → bytes_le b a ≡ true
unfolding bytes_le
bytes_le_total [] b h = ground arith
bytes_le_total (x ∷ xs) [] h = refl
bytes_le_total (x ∷ xs) (y ∷ ys) h = let rest = bytes_le_total xs ys in ground arith

bytes_le_trans : (a b c : Bytes) → bytes_le a b ≡ true → bytes_le b c ≡ true → bytes_le a c ≡ true
unfolding bytes_le
bytes_le_trans [] b c h k = refl
bytes_le_trans (x ∷ xs) [] c h k = absurd (cc)
bytes_le_trans (x ∷ xs) (y ∷ ys) [] h k = absurd (cc)
bytes_le_trans (x ∷ xs) (y ∷ ys) (z ∷ zs) h k = let rest = bytes_le_trans xs ys zs in ground arith

precedes_total : (a b : DecisionCandidate) → precedes a b ≡ false → precedes b a ≡ true
unfolding precedes
precedes_total a b h = ground (arith, bytes_le_total a.path.text b.path.text)

precedes_trans :
    (a b c : DecisionCandidate) → precedes a b ≡ true → precedes b c ≡ true → precedes a c ≡ true
unfolding precedes
precedes_trans a b c h k = ground (arith, bytes_le_trans a.path.text b.path.text c.path.text)

-- The order of texts, by their first difference.
abbrev pub TextOrder : Bytes → Bytes → Type 0
TextOrder [] ys = Unit
TextOrder (x ∷ xs) [] = ⊥
TextOrder (x ∷ xs) (y ∷ ys) = (x < y) ⊎ ((x ≡ y) × TextOrder xs ys)

-- The higher score is ahead, and the earlier path where the scores are equal.
abbrev pub Ahead : DecisionCandidate → DecisionCandidate → Type 0
Ahead c d = (d.score < c.score) ⊎ ((c.score ≡ d.score) × TextOrder c.path.text d.path.text)

bytes_le_iff : (a b : Bytes) → (bytes_le a b ≡ true) ↔ TextOrder a b
unfolding bytes_le
bytes_le_iff [] b = ground arith
bytes_le_iff (x ∷ xs) [] = ground arith
bytes_le_iff (x ∷ xs) (y ∷ ys) = ground (arith, bytes_le_iff xs ys)

precedes_iff : (c d : DecisionCandidate) → (precedes c d ≡ true) ↔ Ahead c d
unfolding precedes
precedes_iff c d = ground (arith, bytes_le_iff c.path.text d.path.text)

Ahead-trans : (a b c : DecisionCandidate) → Ahead a b → Ahead b c → Ahead a c
Ahead-trans a b c h k =
    (precedes_iff a c).0 (precedes_trans a b c ((precedes_iff a b).1 h) ((precedes_iff b c).1 k))

abbrev pub Before : DecisionCandidate → List DecisionCandidate → Type 0
Before c = All (Ahead c)

-- Every candidate is ahead of those after it.
abbrev pub Ranked : List DecisionCandidate → Type 0
Ranked [] = Unit
Ranked (c ∷ cs) = Before c cs × Ranked cs

Before-trans :
    (c d : DecisionCandidate) (cs : List DecisionCandidate) → Ahead c d → Before d cs → Before c cs
Before-trans c d [] h b = tt
Before-trans c d (e ∷ cs) h b = (Ahead-trans c d e h b.0, Before-trans c d cs h b.1)

Before-insert :
    (c d : DecisionCandidate) (cs : List DecisionCandidate)
    → Ahead c d
    → Before c cs
    → Before c (insert_candidate d cs)
unfolding insert_candidate
Before-insert c d [] h b = (h, tt)
Before-insert c d (e ∷ cs) h b = elim (Bool-cases (precedes d e)) [
  | inl p ↦ rw p (h, b)
  | inr p ↦ rw p (b.0, Before-insert c d cs h b.1)
]

insert-Ranked :
    (c : DecisionCandidate) (cs : List DecisionCandidate)
    → Ranked cs
    → Ranked (insert_candidate c cs)
unfolding insert_candidate
insert-Ranked c [] r = (tt, tt)
insert-Ranked c (d ∷ cs) r = elim (Bool-cases (precedes c d)) [
  | inl p ↦ rw p (((precedes_iff c d).0 p, Before-trans c d cs ((precedes_iff c d).0 p) r.0), r)
  | inr p ↦ rw p (
    Before-insert d c cs ((precedes_iff d c).0 (precedes_total c d p)) r.0,
    insert-Ranked c cs r.1,
  )
]

sort-Ranked : (cs : List DecisionCandidate) → Ranked (sort cs)
unfolding sort
sort-Ranked [] = tt
sort-Ranked (c ∷ cs) = insert-Ranked c (sort cs) (sort-Ranked cs)

insert-perm :
    (c : DecisionCandidate) (cs : List DecisionCandidate) → Perm (c ∷ cs) (insert_candidate c cs)
unfolding insert_candidate
insert-perm c [] = Perm.refl _
insert-perm c (d ∷ cs) = elim (Bool-cases (precedes c d)) [
  | inl p ↦ rw p (Perm.refl _)
  | inr p ↦ rw p (Perm.trans (Perm.swap _ _ _) (Perm.cons d (insert-perm c cs)))
]

sort-perm : (cs : List DecisionCandidate) → Perm cs (sort cs)
unfolding sort
sort-perm [] = Perm.refl _
sort-perm (c ∷ cs) = Perm.trans (Perm.cons c (sort-perm cs)) (insert-perm c (sort cs))

take-drop : (n : ℕ) (cs : List DecisionCandidate) → take n cs ++ drop n cs ≡ cs
take-drop zero cs = refl
take-drop (suc n) [] = refl
take-drop (suc n) (c ∷ cs) = ap (◌∷◌ c) (take-drop n cs)

All-drop :
    (P : DecisionCandidate → Type 0) (n : ℕ) (cs : List DecisionCandidate)
    → All P cs
    → All P (drop n cs)
All-drop P zero cs a = a
All-drop P (suc n) [] a = tt
All-drop P (suc n) (c ∷ cs) a = All-drop P n cs a.1

take-Before :
    (n : ℕ) (cs : List DecisionCandidate) → Ranked cs → All (λ c. Before c (drop n cs)) (take n cs)
take-Before zero cs r = tt
take-Before (suc n) [] r = tt
take-Before (suc n) (c ∷ cs) r = (All-drop (Ahead c) n cs r.0, take-Before n cs r.1)

take-Ranked : (n : ℕ) (cs : List DecisionCandidate) → Ranked cs → Ranked (take n cs)
take-Ranked zero cs r = tt
take-Ranked (suc n) [] r = tt
take-Ranked (suc n) (c ∷ cs) r = (All-take (Ahead c) n cs r.0, take-Ranked n cs r.1)

insert-All :
    (P : DecisionCandidate → Type 0) (c : DecisionCandidate) (cs : List DecisionCandidate)
    → P c
    → All P cs
    → All P (insert_candidate c cs)
unfolding insert_candidate
insert-All P c [] p a = (p, tt)
insert-All P c (d ∷ cs) p a = elim (Bool-cases (precedes c d)) [
  | inl e ↦ rw e (p, a)
  | inr e ↦ rw e (a.0, insert-All P c cs p a.1)
]

sort-All :
    (P : DecisionCandidate → Type 0) (cs : List DecisionCandidate) → All P cs → All P (sort cs)
unfolding sort
sort-All P [] a = tt
sort-All P (c ∷ cs) a = insert-All P c (sort cs) a.0 (sort-All P cs a.1)

pub sort_candidates-All :
    (P : DecisionCandidate → Type 0) (cs : List DecisionCandidate)
    → All P cs
    → All P (sort_candidates cs)
unfolding sort_candidates
sort_candidates-All P cs a = All-take P max_decision_candidates (sort cs) (sort-All P cs a)

-- The candidates that are kept are at most sixteen, and the best: together with those left out they
-- are the candidates that there were, and each of those kept is ahead of those kept after it and of
-- all that are left out, by a higher score, or the same score and a path that is not later.
pub sort_candidates_lem :
    (cs : List DecisionCandidate)
    → (dropped : List DecisionCandidate) × Perm cs (sort_candidates cs ++ dropped)
      × All (λ c. Before c dropped) (sort_candidates cs)
      × Ranked (sort_candidates cs)
      × (length (sort_candidates cs) ≤ max_decision_candidates)
unfolding sort_candidates
sort_candidates_lem cs = (
  drop max_decision_candidates (sort cs),
  subst (Perm cs) (sym (take-drop max_decision_candidates (sort cs))) (sort-perm cs),
  take-Before max_decision_candidates (sort cs) (sort-Ranked cs),
  take-Ranked max_decision_candidates (sort cs) (sort-Ranked cs),
  omega (arith, length-take max_decision_candidates (sort cs)),
)
