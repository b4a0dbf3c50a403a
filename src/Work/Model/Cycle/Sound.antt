-- ===== src/Work/Model/Cycle/Sound.antt =====
-- What the search finds where it reports no cycle.
use aether_fx.Base.{
  ℕ, zero, suc, Bool, true, false, Option, none, some, List, [], ◌∷◌, Bytes, bytes_eq, bytes_eq_iff,
  bytes_eq_self, Bool-cases, inl, inr, ◌⊎◌, ◌≡◌, refl, subst, arith,
}
use aether_fx.Work.Model.Cycle.{
  Graph, Search, has, left, unless_cycle, dependencies, search_all, dependency_cycle,
}

-- An identifier whose dependencies are all grounded: no chain of dependencies from it goes on
-- without end, and none comes back to it.
pub data Grounded (graph : Graph) : Bytes → Type 0 where
  grounded :
      (id : Bytes)
      → ((d : Bytes) → has (dependencies graph id) d ≡ true → Grounded graph d)
      → Grounded graph id

abbrev pub Known : Graph → List Bytes → Type 0
Known graph ids = (d : Bytes) → has ids d ≡ true → Grounded graph d

-- A property of what a search returns, if it returns.
abbrev pub After : (Search → Type 0) → Option Search → Type 0
After P none = Unit
After P (some r) = P r

abbrev pub Sound : Graph → List Bytes → Search → Type 0
Sound graph ids r = Known graph r.visited × ((r.cycle ≡ true) ⊎ Known graph ids)

Known-cons :
    (graph : Graph) (id : Bytes) (ids : List Bytes)
    → Grounded graph id
    → Known graph ids
    → Known graph (id ∷ ids)
Known-cons graph id ids g k d h = elim (Bool-cases (bytes_eq id d)) [
  | inl e ↦ subst (Grounded graph) ((bytes_eq_iff id d).0 e) g
  | inr e ↦ k d (ground (arith, h, e))
]

After-map :
    (P Q : Search → Type 0) (o : Option Search) → ((r : Search) → P r → Q r) → After P o → After Q o
After-map P Q none f a = tt
After-map P Q (some r) f a = f r a

-- What holds unless there is a cycle, where there is none.
none_cycle : {P : Type 0} {b : Bool} → (b ≡ true) ⊎ P → b ≡ false → P
none_cycle (inl c) e = absurd (ground (arith, c, e))
none_cycle (inr p) e = p

pub has_first : (id : Bytes) (ids : List Bytes) → has (id ∷ ids) id ≡ true
has_first id ids = ground (arith, bytes_eq_self id)

pub has_later :
    (id : Bytes) (ids : List Bytes) (d : Bytes) → has ids d ≡ true → has (id ∷ ids) d ≡ true
has_later id ids d h = ground (arith, h)

unless_cycle-Sound :
    (graph : Graph) (id : Bytes) (ids : List Bytes) (o : Option Search)
    (next : List Bytes → List Bytes → Option Search)
    → After (Sound graph (id ∷ [])) o
    → ((going gone : List Bytes) → Known graph gone → After (Sound graph ids) (next going gone))
    → After (Sound graph (id ∷ ids)) (unless_cycle o next)
unless_cycle-Sound graph id ids none next h k = tt
unless_cycle-Sound graph id ids (some r) next (known, first) k = elim (Bool-cases r.cycle) [
  | inl e ↦ rw e (known, inl refl)
  | inr e ↦ rw e (
      After-map (Sound graph ids) (Sound graph (id ∷ ids)) (next r.visiting r.visited)
        (λ s sound. (
          sound.0,
          elim sound.1 [
            | inl c ↦ inl c
            | inr rest ↦
                inr (Known-cons graph id ids (none_cycle first e id (has_first id [])) rest)
          ],
        ))
        (k r.visiting r.visited known))
]

search_all-Sound :
    (graph : Graph) (step : Bytes → List Bytes → List Bytes → Option Search)
    (ids visiting visited : List Bytes)
    → ((d : Bytes) (going gone : List Bytes)
        → Known graph gone
        → After (Sound graph (d ∷ [])) (step d going gone))
    → Known graph visited
    → After (Sound graph ids) (search_all step ids visiting visited)
unfolding search_all
search_all-Sound graph step [] visiting visited h k = (k, inr (λ d e. absurd (ground (arith, e))))
search_all-Sound graph step (id ∷ ids) visiting visited h k =
    unless_cycle-Sound graph id ids (step id visiting visited) (search_all step ids)
      (h id visiting visited k)
      (λ going gone known. search_all-Sound graph step ids going gone h known)

left-Sound :
    (graph : Graph) (id : Bytes) (o : Option Search)
    → After (Sound graph (dependencies graph id)) o
    → After (Sound graph (id ∷ [])) (left id o)
left-Sound graph id none h = tt
left-Sound graph id (some r) (known, found) = elim (Bool-cases r.cycle) [
  | inl e ↦ rw e (known, inl refl)
  | inr e ↦
      let here = grounded id (none_cycle found e) in
      rw e (
        Known-cons graph id r.visited here known,
        inr (Known-cons graph id [] here (λ d h. absurd (ground (arith, h)))),
      )
]

pub dependency_cycle-Sound :
    (fuel : ℕ) (graph : Graph) (id : Bytes) (visiting visited : List Bytes)
    → Known graph visited
    → After (Sound graph (id ∷ [])) (dependency_cycle fuel graph id visiting visited)
unfolding dependency_cycle
dependency_cycle-Sound zero graph id visiting visited k = tt
dependency_cycle-Sound (suc fuel) graph id visiting visited k =
    let found =
      search_all-Sound graph (dependency_cycle fuel graph) (dependencies graph id) (id ∷ visiting)
        visited (λ d going gone known. dependency_cycle-Sound fuel graph d going gone known) k in
    elim (Bool-cases (has visited id)) [
      | inl e ↦ rw e (k, inr (Known-cons graph id [] (k id e) (λ d h. absurd (ground (arith, h)))))
      | inr e ↦ elim (Bool-cases (has visiting id)) [
        | inl f ↦ rw e (rw f (k, inl refl))
        | inr f ↦ rw e (rw f (left-Sound graph id _ found))
      ]
    ]
