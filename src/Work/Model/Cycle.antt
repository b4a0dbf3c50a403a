-- ===== src/Work/Model/Cycle.antt =====
-- crates/aether-core/src/work.rs, `dependency_cycle`: the search for a cycle of dependencies.
pub mod Sound
pub mod Fuel
pub mod Clean
use aether_fx.Base.{
  ℕ, zero, suc, ◌+◌, ◌≤◌, ◌<◌, Bool, true, false, not, ◌&&◌, ◌||◌, Option, none, some, List, [],
  ◌∷◌, map, Bytes, bytes_eq, bytes_eq_iff, any, filter, length, All, if◌then◌else◌, Bool-cases,
  Option-cases, inl, inr, ◌⊎◌, ◌≡◌, ◌≢◌, refl, ap, sym, arith, lookup,
}

-- The dependencies of each identifier.
abbrev pub Graph : Type 0
Graph = List (Bytes × List Bytes)

abbrev pub has : List Bytes → Bytes → Bool
has ids id = any (λ other. bytes_eq other id) ids

abbrev pub without : Bytes → List Bytes → List Bytes
without id ids = filter (λ other. not (bytes_eq other id)) ids

-- Whether there is a cycle, with the identifiers that are being visited and those visited.
pub record Search : Type 0 where
  pub cycle : Bool
  pub visiting : List Bytes
  pub visited : List Bytes

abbrev pub leave : Bytes → Search → Search
leave id r = record {
  cycle = r.cycle;
  visiting = without id r.visiting;
  visited = if r.cycle then r.visited else id ∷ r.visited;
}

-- Goes on where no cycle was found.
abbrev pub unless_cycle : Option Search → (List Bytes → List Bytes → Option Search) → Option Search
unless_cycle none next = none
unless_cycle (some r) next = if r.cycle then some r else next r.visiting r.visited

-- `any` over the dependencies, which stops at the first cycle.
pub search_all :
    (Bytes → List Bytes → List Bytes → Option Search)
    → List Bytes
    → List Bytes
    → List Bytes
    → Option Search
search_all step [] visiting visited =
    some (record { cycle = false; visiting = visiting; visited = visited })
search_all step (dependency ∷ rest) visiting visited =
    unless_cycle (step dependency visiting visited) (search_all step rest)

abbrev pub left : Bytes → Option Search → Option Search
left id none = none
left id (some r) = some (leave id r)

abbrev pub or_none : Option (List Bytes) → List Bytes
or_none none = []
or_none (some ids) = ids

-- The dependencies of an identifier of the graph; any other has none that are searched.
abbrev pub dependencies : Graph → Bytes → List Bytes
dependencies graph id = or_none (lookup id graph)

-- On fuel for the depth of the calls.
unfoldable pub dependency_cycle : ℕ → Graph → Bytes → List Bytes → List Bytes → Option Search
unfolding search_all
dependency_cycle zero graph id visiting visited = none
dependency_cycle (suc fuel) graph id visiting visited =
    let found =
      search_all (dependency_cycle fuel graph) (dependencies graph id) (id ∷ visiting) visited in
    if has visited id
    then some (record { cycle = false; visiting = visiting; visited = visited })
    else if has visiting id
    then some (record { cycle = true; visiting = visiting; visited = visited })
    else left id found
