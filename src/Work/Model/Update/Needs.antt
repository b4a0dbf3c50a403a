-- ===== src/Work/Model/Update/Needs.antt =====
-- The dependencies of subgoals, looked up by identifier.
use aether_fx.Base.{
  Bool, true, false, List, [], ◌∷◌, ◌++◌, map, Bytes, bytes_eq, bytes_eq_iff, any, modify_first,
  if◌then◌else◌, Bool-cases, insert, lookup-insert, inl, inr, ◌≡◌, refl, subst, arith, ◌∙◌,
}
use aether_fx.BoundedText.{BoundedText}
use aether_fx.Work.{WorkSubgoal, bounded}
use aether_fx.Work.Record.{has_id, new_subgoal}
use aether_fx.Work.Model.Cycle.{Graph, dependencies}
use aether_fx.Work.Model.Update.{Proposal, insert_subgoals, revised, put_proposal}

-- No two subgoals have the same identifier.
abbrev pub Unique : List WorkSubgoal → Type 0
Unique [] = Unit
Unique (g ∷ gs) = (any (has_id g.id.text) gs ≡ false) × Unique gs

abbrev pub texts : List BoundedText → List Bytes
texts = map (λ t. t.text)

-- The dependencies of the subgoal with an identifier.
abbrev pub needs : List WorkSubgoal → Bytes → List Bytes
needs [] id = []
needs (g ∷ gs) id = if has_id id g then texts g.depends_on else needs gs id

-- Texts that are stored as they are.
abbrev pub Whole : Proposal → Type 0
Whole p = ((bounded p.id).text ≡ p.id) × (texts (map bounded p.depends_on) ≡ p.depends_on)

pub dependencies-insert :
    (graph : Graph) (id other : Bytes) (ids : List Bytes)
    → dependencies (insert id ids graph) other
      ≡ (if bytes_eq id other then ids else dependencies graph other)
dependencies-insert graph id other ids =
    rw (dependencies, lookup-insert id other ids graph)
      (elim (Bool-cases (bytes_eq id other)) [ inl e ↦ rw e refl | inr e ↦ rw e refl ])

pub dependencies-insert_subgoals :
    (gs : List WorkSubgoal) (graph : Graph) (id : Bytes)
    → Unique gs
    → dependencies (insert_subgoals gs graph) id
      ≡ (if any (has_id id) gs then needs gs id else dependencies graph id)
unfolding insert_subgoals
dependencies-insert_subgoals [] graph id u = refl
dependencies-insert_subgoals (g ∷ gs) graph id u =
    let inserted = insert g.id.text (texts g.depends_on) graph in
    let rest = dependencies-insert_subgoals gs inserted id u.1 in
    let one = dependencies-insert graph g.id.text id (texts g.depends_on) in
    elim (Bool-cases (has_id id g)) [
      | inl e ↦
          let alone : any (has_id id) gs ≡ false =
            subst (λ k. any (has_id k) gs ≡ false) ((bytes_eq_iff g.id.text id).0 e) u.0 in
          ground (arith, e, alone, rest, one)
      | inr e ↦ ground (arith, e, rest, one)
    ]

needs-modify_first :
    (p : Proposal) (gs : List WorkSubgoal) (id : Bytes)
    → texts (map bounded p.depends_on) ≡ p.depends_on
    → any (has_id p.id) gs ≡ true
    → needs (modify_first (has_id p.id) (revised p) gs) id
      ≡ (if bytes_eq p.id id then p.depends_on else needs gs id)
needs-modify_first p [] id w h = absurd (ground (arith, h))
needs-modify_first p (g ∷ gs) id w h = elim (Bool-cases (has_id p.id g)) [
  | inl e ↦
      let same = (bytes_eq_iff g.id.text p.id).0 e in
      rw e (rw same (elim (Bool-cases (bytes_eq p.id id)) [ inl f ↦ rw f w | inr f ↦ rw f refl ]))
  | inr e ↦ ground (
    arith,
    e,
    w,
    h,
    needs-modify_first p gs id,
    bytes_eq_iff g.id.text p.id,
    bytes_eq_iff g.id.text id,
    bytes_eq_iff p.id id,
  )
]

needs-append :
    (p : Proposal) (gs : List WorkSubgoal) (id : Bytes)
    → Whole p
    → any (has_id p.id) gs ≡ false
    → needs
        (gs ++ new_subgoal p.id p.label (map bounded p.depends_on) (map bounded p.paths) ∷ [])
        id
      ≡ (if bytes_eq p.id id then p.depends_on else needs gs id)
needs-append p [] id w h = rw (w.0) (rw (w.1) refl)
needs-append p (g ∷ gs) id w h = ground (
  arith,
  h,
  needs-append p gs id,
  w,
  bytes_eq_iff g.id.text p.id,
  bytes_eq_iff g.id.text id,
  bytes_eq_iff p.id id,
)

pub needs-put_proposal :
    (p : Proposal) (gs : List WorkSubgoal) (id : Bytes)
    → Whole p
    → needs (put_proposal p gs) id ≡ (if bytes_eq p.id id then p.depends_on else needs gs id)
needs-put_proposal p gs id w = elim (Bool-cases (any (has_id p.id) gs)) [
  | inl e ↦ rw e (needs-modify_first p gs id (w.1) e)
  | inr e ↦ rw e (needs-append p gs id w e)
]

any-revised :
    (p : Proposal) (test : Bytes) (gs : List WorkSubgoal)
    → any (has_id test) (modify_first (has_id p.id) (revised p) gs) ≡ any (has_id test) gs
any-revised p test [] = refl
any-revised p test (g ∷ gs) = ground (arith, any-revised p test gs)

Unique-revised :
    (p : Proposal) (gs : List WorkSubgoal)
    → Unique gs
    → Unique (modify_first (has_id p.id) (revised p) gs)
Unique-revised p [] u = tt
Unique-revised p (g ∷ gs) u =
    let rest = Unique-revised p gs u.1 in
    let apart = any-revised p g.id.text gs ∙ u.0 in
    elim (Bool-cases (has_id p.id g)) [ inl e ↦ rw e u | inr e ↦ rw e (apart, rest) ]

any-append :
    (p : WorkSubgoal → Bool) (gs : List WorkSubgoal) (g : WorkSubgoal)
    → any p gs ≡ false
    → p g ≡ false
    → any p (gs ++ g ∷ []) ≡ false
any-append p [] g a b = ground (arith, a, b)
any-append p (h ∷ gs) g a b = ground (arith, a, b, any-append p gs g)

Unique-append :
    (gs : List WorkSubgoal) (g : WorkSubgoal)
    → Unique gs
    → any (has_id g.id.text) gs ≡ false
    → Unique (gs ++ g ∷ [])
Unique-append [] g u h = (refl, tt)
Unique-append (first ∷ gs) g u h = (
  any-append (has_id first.id.text) gs g u.0 (
      ground
        (arith, h, bytes_eq_iff first.id.text g.id.text, bytes_eq_iff g.id.text first.id.text)),
  Unique-append gs g u.1 (ground (arith, h)),
)

pub Unique-put_proposal :
    (p : Proposal) (gs : List WorkSubgoal) → Whole p → Unique gs → Unique (put_proposal p gs)
Unique-put_proposal p gs w u = elim (Bool-cases (any (has_id p.id) gs)) [
  | inl e ↦ rw e (Unique-revised p gs u)
  | inr e ↦ rw e (Unique-append gs _ u (rw (w.0) e))
]
