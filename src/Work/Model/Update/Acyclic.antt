-- ===== src/Work/Model/Update/Acyclic.antt =====
-- Which dependencies an update may have.
use aether_fx.Base.{
  suc, true, not, Option, none, some, List, [], ◌∷◌, Bytes, bytes_eq, bytes_eq_iff, all-All, All,
  length, length-filter-le, Bool-cases, lookup, inl, inr, ◌≡◌, ◌↔◌, subst, arith,
}
use aether_fx.Work.Model.Cycle.{Graph, Search, has, dependencies, dependency_cycle}
use aether_fx.Work.Model.Cycle.Sound.{
  Grounded, grounded, Known, After, Sound, has_first, dependency_cycle-Sound,
}
use aether_fx.Work.Model.Cycle.Fuel.{Returns, dependencies_cases, dependency_cycle-Returns}
use aether_fx.Work.Model.Cycle.Clean.{Clean, dependency_cycle-Clean}
use aether_fx.Work.Model.Update.{no_cycle, is_acyclic}

no_cycle-Sound :
    (graph : Graph) (ids : List Bytes) (o : Option Search)
    → no_cycle o ≡ true
    → After (Sound graph ids) o
    → Known graph ids
no_cycle-Sound graph ids none e h = absurd (ground (arith, e))
no_cycle-Sound graph ids (some r) e (_, inl c) = absurd (ground (arith, e, c))
no_cycle-Sound graph ids (some r) e (_, inr known) = known

no_cycle-Clean :
    (visiting : List Bytes) (o : Option Search)
    → Returns visiting o
    → After (Clean visiting) o
    → no_cycle o ≡ true
no_cycle-Clean visiting none h c = absurd h
no_cycle-Clean visiting (some r) h c = ground (arith, c.0)

lookup-All :
    (P : Bytes → Type 0) (graph : Graph) (id : Bytes) (ids : List Bytes)
    → All (λ entry. P entry.0) graph
    → lookup id graph ≡ some ids
    → P id
unfolding lookup
lookup-All P [] id ids a e = absurd (ground (arith, e))
lookup-All P ((j, js) ∷ graph) id ids a e = elim (Bool-cases (bytes_eq j id)) [
  | inl same ↦ subst P ((bytes_eq_iff j id).0 same) a.0
  | inr other ↦ lookup-All P graph id ids a.1 (ground (arith, e, other))
]

All-keys :
    (P : Bytes → Type 0) (graph : Graph) → ((id : Bytes) → P id) → All (λ entry. P entry.0) graph
All-keys P [] h = tt
All-keys P ((id, ids) ∷ graph) h = (h id, All-keys P graph h)

-- Without dependencies.
bare-Grounded : (graph : Graph) (id : Bytes) → dependencies graph id ≡ [] → Grounded graph id
bare-Grounded graph id e = grounded id (λ d m. absurd (ground (arith, m, e)))

abbrev searched : Graph → Bytes → Option Search
searched graph id = dependency_cycle (suc (length graph)) graph id [] []

from_search : (graph : Graph) (id : Bytes) → no_cycle (searched graph id) ≡ true → Grounded graph id
from_search graph id e =
    no_cycle-Sound graph (id ∷ []) (searched graph id) e
      (dependency_cycle-Sound (suc (length graph)) graph id [] []
        (λ d h. absurd (ground (arith, h))))
      id (has_first id [])

to_search : (graph : Graph) (id : Bytes) → Grounded graph id → no_cycle (searched graph id) ≡ true
to_search graph id g =
    no_cycle-Clean [] (searched graph id)
      (dependency_cycle-Returns (suc (length graph)) graph id [] []
        (omega (arith, length-filter-le (λ entry. not (has [] entry.0)) graph)))
      (dependency_cycle-Clean (suc (length graph)) graph id [] [] g
        (λ v h. absurd (ground (arith, h))))

-- The test passes exactly when every identifier is grounded: no chain of dependencies goes on
-- without end, so that none comes back to where it started.
pub is_acyclic_iff :
    (graph : Graph) → (is_acyclic graph ≡ true) ↔ ((id : Bytes) → Grounded graph id)
unfolding is_acyclic
is_acyclic_iff graph =
    let tested = all-All (λ entry. no_cycle (searched graph entry.0)) graph in
    (
      λ h id. elim (dependencies_cases graph id) [
        | inl n ↦ bare-Grounded graph id n
        | inr (ids, s) ↦
            from_search graph id
              (lookup-All (λ k. no_cycle (searched graph k) ≡ true) graph id ids (tested.0 h) s)
      ],
      λ h. tested.1 (
          All-keys (λ k. no_cycle (searched graph k) ≡ true) graph
            (λ id. to_search graph id (h id))),
    )
