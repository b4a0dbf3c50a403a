-- ===== src/Work/Model/Update/Count.antt =====
-- How many subgoals an update adds.
use aether_fx.Base.{
  ℕ, ◌+◌, ◌≤◌, Bool, true, false, not, Option, some, List, [], ◌∷◌, ◌++◌, Bytes, any, filter,
  modify_first, length, leb, Bool-cases, length-append, length-modify_first, bytes_eq, ◌≡◌, refl,
  ap, inl, inr, arith,
}
use aether_fx.Base.Options.{bind-some, guard-some, guard}
use aether_fx.Work.{WorkSubgoal, max_work_subgoals}
use aether_fx.Work.Record.{has_id}
use aether_fx.Work.Model.Cycle.{has}
use aether_fx.Work.Model.Update.{
  Proposal, ids_of, proposed_ids, insert_subgoals, insert_proposals, is_acyclic, is_known, accept,
  revised, put_proposal, put_proposals,
}

-- The number of proposals whose identifiers are new.
abbrev pub new_count : List WorkSubgoal → List Proposal → ℕ
new_count gs ps = length (filter (λ p. not (has (ids_of gs) p.id)) ps)

filter_le :
    {A : Type 0} (p q : A → Bool)
    → ((x : A) → p x ≡ true → q x ≡ true)
    → (xs : List A) → length (filter p xs) ≤ length (filter q xs)
filter_le p q h [] = omega arith
filter_le p q h (x ∷ xs) = ground (arith, h x, filter_le p q h xs)

any-append :
    {A : Type 0} (p : A → Bool) (xs ys : List A) → any p xs ≡ true → any p (xs ++ ys) ≡ true
any-append p [] ys h = absurd (ground (arith, h))
any-append p (x ∷ xs) ys h = ground (arith, any-append p xs ys)

ids_of-append :
    (gs : List WorkSubgoal) (g : WorkSubgoal) → ids_of (gs ++ g ∷ []) ≡ ids_of gs ++ g.id.text ∷ []
ids_of-append [] g = refl
ids_of-append (h ∷ gs) g = ap (◌∷◌ h.id.text) (ids_of-append gs g)

ids_of-revised :
    (p : Proposal) (gs : List WorkSubgoal)
    → ids_of (modify_first (has_id p.id) (revised p) gs) ≡ ids_of gs
ids_of-revised p [] = refl
ids_of-revised p (g ∷ gs) = elim (Bool-cases (has_id p.id g)) [
  | inl e ↦ rw e refl
  | inr e ↦ rw e (ap (◌∷◌ g.id.text) (ids_of-revised p gs))
]

has-ids_of :
    (id : Bytes) (gs : List WorkSubgoal) → any (has_id id) gs ≡ false → has (ids_of gs) id ≡ false
has-ids_of id [] h = refl
has-ids_of id (g ∷ gs) h = ground (arith, h, has-ids_of id gs)

filter-tail :
    {A : Type 0} (p : A → Bool) (x : A) (xs : List A)
    → length (filter p xs) ≤ length (filter p (x ∷ xs))
filter-tail p x xs = elim (Bool-cases (p x)) [
  | inl e ↦ rw e (omega arith)
  | inr e ↦ rw e (omega arith)
]

revised_le :
    (p : Proposal) (ps : List Proposal) (gs : List WorkSubgoal)
    → let changed = modify_first (has_id p.id) (revised p) gs in
      length changed + new_count changed ps ≤ length gs + new_count gs (p ∷ ps)
revised_le p ps gs =
    let same =
      ap (λ ids. length (filter (λ (q : Proposal). not (has ids q.id)) ps)) (ids_of-revised p gs) in
    omega (
      arith,
      same,
      filter-tail (λ (q : Proposal). not (has (ids_of gs) q.id)) p ps,
      length-modify_first (has_id p.id) (revised p) gs,
    )

fewer_new :
    (ps : List Proposal) (gs : List WorkSubgoal) (g : WorkSubgoal)
    → new_count (gs ++ g ∷ []) ps ≤ new_count gs ps
fewer_new ps gs g =
    filter_le (λ (q : Proposal). not (has (ids_of (gs ++ g ∷ [])) q.id))
      (λ (q : Proposal). not (has (ids_of gs) q.id))
      (λ q h.
        let grown = any-append (λ id. bytes_eq id q.id) (ids_of gs) (g.id.text ∷ []) in
        let same = ap (λ ids. has ids q.id) (ids_of-append gs g) in ground (arith, h, grown, same))
      ps

added_le :
    (p : Proposal) (ps : List Proposal) (gs : List WorkSubgoal) (g : WorkSubgoal)
    → any (has_id p.id) gs ≡ false
    → length (gs ++ g ∷ []) + new_count (gs ++ g ∷ []) ps ≤ length gs + new_count gs (p ∷ ps)
added_le p ps gs g e =
    rw (has-ids_of p.id gs e) (omega (arith, fewer_new ps gs g, length-append gs (g ∷ [])))

put_proposal_le :
    (p : Proposal) (ps : List Proposal) (gs : List WorkSubgoal)
    → length (put_proposal p gs) + new_count (put_proposal p gs) ps
      ≤ length gs + new_count gs (p ∷ ps)
put_proposal_le p ps gs = elim (Bool-cases (any (has_id p.id) gs)) [
  | inl e ↦ rw e (revised_le p ps gs)
  | inr e ↦ rw e (added_le p ps gs _ e)
]

-- Putting the proposals adds at most those with new identifiers.
pub length-put_proposals :
    (ps : List Proposal) (gs : List WorkSubgoal)
    → length (put_proposals ps gs) ≤ length gs + new_count gs ps
unfolding put_proposals
length-put_proposals [] gs = omega arith
length-put_proposals (p ∷ ps) gs =
    omega (arith, length-put_proposals ps (put_proposal p gs), put_proposal_le p ps gs)

pub accept-fits :
    (gs : List WorkSubgoal) (ps : List Proposal) (requested : Option Bytes)
    → accept gs ps requested ≡ some tt
    → length gs + new_count gs ps ≤ max_work_subgoals
unfolding accept
accept-fits gs ps requested e =
    let (graph, _, e1) =
      bind-some (insert_proposals (ids_of gs ++ proposed_ids ps) ps (insert_subgoals gs [])) _ tt
        e in
    let (_, e2) = guard-some (is_acyclic graph) _ tt e1 in
    let (fits, _) =
      guard-some (leb (length gs + new_count gs ps) max_work_subgoals)
        (guard (is_known (ids_of gs ++ proposed_ids ps) requested)) tt e2 in
    ground (arith, fits)
