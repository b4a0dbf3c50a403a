-- ===== src/Work/Model/Cycle/Fuel.antt =====
-- How deep the search for a cycle goes.
use aether_fx.Base.{
  ℕ, zero, suc, ◌≤◌, ◌<◌, true, false, not, Option, none, some, List, [], ◌∷◌, Bytes, bytes_eq,
  bytes_eq_iff, bytes_eq_self, filter, length, Bool-cases, Option-cases, lookup, inl, inr, ◌⊎◌, ◌≡◌,
  refl, sym, subst, arith,
}
use aether_fx.Work.Model.Cycle.{
  Graph, Search, has, without, left, unless_cycle, dependencies, search_all, dependency_cycle,
}

-- The search returns, and is visiting what it was visiting before.
abbrev pub Returns : List Bytes → Option Search → Type 0
Returns visiting none = ⊥
Returns visiting (some r) = r.visiting ≡ visiting

-- The identifiers of the graph that are not being visited.
abbrev pub remaining : Graph → List Bytes → ℕ
remaining graph visiting = length (filter (λ entry. not (has visiting entry.0)) graph)

remaining-le :
    (graph : Graph) (id : Bytes) (visiting : List Bytes)
    → remaining graph (id ∷ visiting) ≤ remaining graph visiting
remaining-le [] id visiting = omega arith
remaining-le ((j, ids) ∷ graph) id visiting = ground (arith, remaining-le graph id visiting)

remaining-lt :
    (graph : Graph) (id : Bytes) (visiting ids : List Bytes)
    → lookup id graph ≡ some ids
    → has visiting id ≡ false
    → remaining graph (id ∷ visiting) < remaining graph visiting
unfolding lookup
remaining-lt [] id visiting ids e h = absurd (ground (arith, e))
remaining-lt ((j, js) ∷ graph) id visiting ids e h = elim (Bool-cases (bytes_eq j id)) [
  | inl same ↦
      let head : has visiting j ≡ false =
        subst (λ k. has visiting k ≡ false) (sym ((bytes_eq_iff j id).0 same)) h in
      let here : bytes_eq id j ≡ true = (bytes_eq_iff id j).1 (sym ((bytes_eq_iff j id).0 same)) in
      ground (arith, head, here, remaining-le graph id visiting)
  | inr other ↦
      ground (arith, remaining-lt graph id visiting ids, bytes_eq_iff id j, bytes_eq_iff j id, h, e)
]

without-none : (id : Bytes) (ids : List Bytes) → has ids id ≡ false → without id ids ≡ ids
without-none id [] h = refl
without-none id (j ∷ ids) h = ground (arith, without-none id ids, h)

-- Leaving undoes entering.
pub without-cons :
    (id : Bytes) (ids : List Bytes) → has ids id ≡ false → without id (id ∷ ids) ≡ ids
without-cons id ids h = ground (arith, bytes_eq_self id, without-none id ids h)

unless_cycle-Returns :
    (visiting : List Bytes) (o : Option Search) (next : List Bytes → List Bytes → Option Search)
    → Returns visiting o
    → ((gone : List Bytes) → Returns visiting (next visiting gone))
    → Returns visiting (unless_cycle o next)
unless_cycle-Returns visiting none next h k = h
unless_cycle-Returns visiting (some r) next h k = elim (Bool-cases r.cycle) [
  | inl e ↦ rw e h
  | inr e ↦ rw e (subst (λ going. Returns visiting (next going r.visited)) (sym h) (k r.visited))
]

search_all-Returns :
    (step : Bytes → List Bytes → List Bytes → Option Search) (ids visiting visited : List Bytes)
    → ((d : Bytes) (gone : List Bytes) → Returns visiting (step d visiting gone))
    → Returns visiting (search_all step ids visiting visited)
unfolding search_all
search_all-Returns step [] visiting visited h = refl
search_all-Returns step (id ∷ ids) visiting visited h =
    unless_cycle-Returns visiting (step id visiting visited) (search_all step ids) (h id visited)
      (λ gone. search_all-Returns step ids visiting gone h)

left-Returns :
    (id : Bytes) (visiting : List Bytes) (o : Option Search)
    → has visiting id ≡ false
    → Returns (id ∷ visiting) o
    → Returns visiting (left id o)
left-Returns id visiting none h k = k
left-Returns id visiting (some r) h k =
    subst (λ going. without id going ≡ visiting) (sym k) (without-cons id visiting h)

pub dependencies_cases :
    (graph : Graph) (id : Bytes)
    → (dependencies graph id ≡ []) ⊎ ((ids : List Bytes) × (lookup id graph ≡ some ids))
dependencies_cases graph id = elim (Option-cases (lookup id graph)) [
  | inl n ↦ inl (rw n refl)
  | inr s ↦ inr s
]

-- Fuel for each identifier of the graph that is not being visited, and one more, is enough.
pub dependency_cycle-Returns :
    (fuel : ℕ) (graph : Graph) (id : Bytes) (visiting visited : List Bytes)
    → remaining graph visiting < fuel
    → Returns visiting (dependency_cycle fuel graph id visiting visited)
unfolding dependency_cycle search_all
dependency_cycle-Returns zero graph id visiting visited h = absurd (omega (arith, h))
dependency_cycle-Returns (suc fuel) graph id visiting visited h =
    let step = dependency_cycle fuel graph in
    elim (Bool-cases (has visited id)) [
      | inl e ↦ rw e refl
      | inr e ↦ elim (Bool-cases (has visiting id)) [
        | inl f ↦ rw e (rw f refl)
        | inr f ↦ rw e (
            rw f (
              left-Returns id visiting _ f (elim (dependencies_cases graph id) [
                | inl n ↦
                    subst
                      (λ ids. Returns (id ∷ visiting) (search_all step ids (id ∷ visiting) visited))
                      (sym n) refl
                | inr (ids, s) ↦
                    search_all-Returns step (dependencies graph id) (id ∷ visiting) visited
                      (λ d gone.
                        dependency_cycle-Returns fuel graph d (id ∷ visiting) gone
                          (omega (arith, h, remaining-lt graph id visiting ids s f)))
              ])))
      ]
    ]
