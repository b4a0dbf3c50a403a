-- ===== src/Work/Model/Cycle/Clean.antt =====
-- The search for a cycle where no chain of dependencies goes on without end.
use aether_fx.Base.{
  ℕ, zero, suc, true, false, Option, none, some, List, [], ◌∷◌, Bytes, bytes_eq, bytes_eq_iff,
  Bool-cases, inl, inr, ◌≡◌, refl, sym, subst, arith,
}
use aether_fx.Work.Model.Cycle.{
  Graph, Search, has, without, left, unless_cycle, dependencies, search_all, dependency_cycle,
}
use aether_fx.Work.Model.Cycle.Sound.{Grounded, grounded, After, has_first, has_later}
use aether_fx.Work.Model.Cycle.Fuel.{without-cons}

-- A chain of dependencies, of any length.
pub data Reaches (graph : Graph) : Bytes → Bytes → Type 0 where
  here : (id : Bytes) → Reaches graph id id
  via :
      (id d target : Bytes)
      → has (dependencies graph id) d ≡ true
      → Reaches graph d target
      → Reaches graph id target

further :
    (graph : Graph) (id d e : Bytes)
    → Reaches graph id d
    → has (dependencies graph d) e ≡ true
    → Reaches graph id e
further graph id d e (here _) h = via id e e h (here e)
further graph id d e (via _ next _ k r) h = via id next e k (further graph next d e r h)

-- No chain comes back to a grounded identifier.
no_return :
    (graph : Graph) (id d : Bytes)
    → Grounded graph id
    → has (dependencies graph id) d ≡ true
    → Reaches graph d id
    → ⊥
no_return graph id d (grounded _ below) h (here _) = no_return graph id id (below id h) h (here id)
no_return graph id d (grounded _ below) h (via _ e _ k r) =
    no_return graph d e (below d h) k (further graph e id d r h)

abbrev pub Clean : List Bytes → Search → Type 0
Clean visiting r = (r.cycle ≡ false) × (r.visiting ≡ visiting)

-- No identifier that is being visited can be reached.
abbrev Apart : Graph → List Bytes → Bytes → Type 0
Apart graph visiting id = (v : Bytes) → has visiting v ≡ true → Reaches graph id v → ⊥

unless_cycle-Clean :
    (visiting : List Bytes) (o : Option Search) (next : List Bytes → List Bytes → Option Search)
    → After (Clean visiting) o
    → ((gone : List Bytes) → After (Clean visiting) (next visiting gone))
    → After (Clean visiting) (unless_cycle o next)
unless_cycle-Clean visiting none next h k = tt
unless_cycle-Clean visiting (some r) next (free, same) k =
    let rest =
      subst (λ going. After (Clean visiting) (next going r.visited)) (sym same) (k r.visited) in
    rw free rest

search_all-Clean :
    (step : Bytes → List Bytes → List Bytes → Option Search) (ids visiting visited : List Bytes)
    → ((d : Bytes) (gone : List Bytes)
        → has ids d ≡ true
        → After (Clean visiting) (step d visiting gone))
    → After (Clean visiting) (search_all step ids visiting visited)
unfolding search_all
search_all-Clean step [] visiting visited h = (refl, refl)
search_all-Clean step (id ∷ ids) visiting visited h =
    unless_cycle-Clean visiting (step id visiting visited) (search_all step ids)
      (h id visited (has_first id ids))
      (λ gone. search_all-Clean step ids visiting gone (λ d g m. h d g (has_later id ids d m)))

left-Clean :
    (id : Bytes) (visiting : List Bytes) (o : Option Search)
    → has visiting id ≡ false
    → After (Clean (id ∷ visiting)) o
    → After (Clean visiting) (left id o)
left-Clean id visiting none h k = tt
left-Clean id visiting (some r) h (free, same) =
    (free, subst (λ going. without id going ≡ visiting) (sym same) (without-cons id visiting h))

Apart-child :
    (graph : Graph) (visiting : List Bytes) (id d : Bytes)
    → Grounded graph id
    → has (dependencies graph id) d ≡ true
    → Apart graph visiting id
    → Apart graph (id ∷ visiting) d
Apart-child graph visiting id d g m apart v h r = elim (Bool-cases (bytes_eq id v)) [
  | inl e ↦ no_return graph id d g m (subst (Reaches graph d) (sym ((bytes_eq_iff id v).0 e)) r)
  | inr e ↦ apart v (ground (arith, h, e)) (via id d v m r)
]

pub dependency_cycle-Clean :
    (fuel : ℕ) (graph : Graph) (id : Bytes) (visiting visited : List Bytes)
    → Grounded graph id
    → Apart graph visiting id
    → After (Clean visiting) (dependency_cycle fuel graph id visiting visited)
unfolding dependency_cycle
dependency_cycle-Clean zero graph id visiting visited g apart = tt
dependency_cycle-Clean (suc fuel) graph id visiting visited (grounded _ below) apart =
    let g = grounded id below in
    elim (Bool-cases (has visited id)) [
      | inl e ↦ rw e (refl, refl)
      | inr e ↦ elim (Bool-cases (has visiting id)) [
        | inl f ↦ absurd (apart id f (here id))
        | inr f ↦ rw e (
            rw f (
              left-Clean id visiting _ f (
                search_all-Clean (dependency_cycle fuel graph) (dependencies graph id)
                  (id ∷ visiting) visited
                  (λ d gone m.
                    dependency_cycle-Clean fuel graph d (id ∷ visiting) gone (below d m)
                      (Apart-child graph visiting id d g m apart)))))
      ]
    ]
