-- ===== src/Work/Model/Update/Read.antt =====
-- What the reading of an update and its checks guarantee.
use aether_fx.Base.{
  true, not, ◌&&◌, Option, none, some, List, [], ◌∷◌, ◌++◌, map, Bytes, codes, is_empty, any,
  length, leb, All, All-append, Bool-cases, bytes_eq, ◌≡◌, refl, ap, subst, arith, inl, inr,
}
use mathlib.Core.Option.{some-injective}
use aether_fx.Base.Options.{◌>>=◌, bind-some, guard-some}
use aether_fx.BoundedText.{is_truncated, new}
use aether_fx.BoundedText.Limits.{new_limit, new_fits}
use aether_fx.Work.{
  WorkSubgoal, WorkState, bounded, max_work_relations, max_work_field_bytes, max_work_subgoals,
}
use aether_fx.Work.Model.{
  Json, trim, bounded_model_text, relations_from, bounded_model_relations, bounded_model_paths,
}
use aether_fx.Work.Model.Cycle.{Graph, has}
use aether_fx.Work.Model.Update.{
  Proposal, ids_of, proposed_ids, insert_subgoals, insert_proposals, is_acyclic, accept,
  read_proposals, accepted, requested_active,
}
use aether_fx.Work.Model.Update.Needs.{Whole, texts}

-- A text that is stored as it is.
abbrev Stored : Bytes → Type 0
Stored t = (bounded t).text ≡ t

bounded-Stored : (value : Bytes) → Stored (bounded value).text
unfolding bounded
bounded-Stored value =
    let t = new value max_work_field_bytes in
    ap (λ b. b.text) (new_fits t.text max_work_field_bytes (new_limit value max_work_field_bytes).0)

bounded_model_text-Stored :
    (o : Option Bytes) (t : Bytes) → bounded_model_text o ≡ some t → Stored t
unfolding bounded_model_text
bounded_model_text-Stored none t e = absurd (ground (arith, e))
bounded_model_text-Stored (some value) t e =
    let (_, e') = guard-some (not (is_empty (trim value))) _ t e in
    let (_, e'') = guard-some (not (is_truncated (bounded (trim value)))) _ t e' in
    subst Stored (some-injective _ _ e'') (bounded-Stored (trim value))

module _ {Value Object : Type 0} (json : Json Value Object) where
  relations_from-Stored :
      (values : List Value) (relations ids : List Bytes)
      → All Stored relations
      → relations_from json values relations ≡ some ids
      → All Stored ids
  unfolding relations_from
  relations_from-Stored [] relations ids a e = subst (All Stored) (some-injective _ _ e) a
  relations_from-Stored (value ∷ values) relations ids a e =
      let (relation, read, e') = bind-some (bounded_model_text (json.as_str value)) _ ids e in
      let longer =
        All-append Stored relations (relation ∷ []) a
          (bounded_model_text-Stored _ relation read, tt) in
      relations_from-Stored values _ ids
        (elim (Bool-cases (any (bytes_eq relation) relations)) [
          | inl f ↦ rw f a
          | inr f ↦ rw f longer
        ])
        e'

  relations-Stored :
      (o : Option Value) (ids : List Bytes)
      → bounded_model_relations json o ≡ some ids
      → All Stored ids
  unfolding bounded_model_relations
  relations-Stored none ids e = subst (All Stored) (some-injective _ _ e) tt
  relations-Stored (some value) ids e =
      let (values, _, e') = bind-some (json.as_array value) _ ids e in
      let (_, e'') = guard-some (leb (length values) max_work_relations) _ ids e' in
      relations_from-Stored values [] ids tt e''

texts-Stored : (ids : List Bytes) → All Stored ids → texts (map bounded ids) ≡ ids
texts-Stored [] a = refl
texts-Stored (id ∷ ids) a = rw (a.0) (ap (◌∷◌ id) (texts-Stored ids a.1))

-- What the checks found out about the proposals.
abbrev pub Checked : List WorkSubgoal → List Proposal → Type 0
Checked subgoals ps =
    (graph : Graph) × (insert_proposals (ids_of subgoals ++ proposed_ids ps) ps
        (insert_subgoals subgoals [])
      ≡ some graph)
    × (is_acyclic graph ≡ true)

accept-Checked :
    (subgoals : List WorkSubgoal) (ps : List Proposal) (requested : Option Bytes)
    → accept subgoals ps requested ≡ some tt
    → Checked subgoals ps
unfolding accept
accept-Checked subgoals ps requested e =
    let (graph, inserted, e') =
      bind-some
        (insert_proposals (ids_of subgoals ++ proposed_ids ps) ps (insert_subgoals subgoals [])) _
        tt e in
    let (acyclic, _) = guard-some (is_acyclic graph) _ tt e' in (graph, inserted, acyclic)

module _ {Value Object : Type 0} (json : Json Value Object) where
  read_proposals-Whole :
      (raws : List Value) (ids : List Bytes) (ps : List Proposal)
      → read_proposals json raws ids ≡ some ps
      → All Whole ps
  unfolding read_proposals
  read_proposals-Whole [] ids ps e = subst (All Whole) (some-injective _ _ e) tt
  read_proposals-Whole (raw ∷ rest) ids ps e =
      let (object, _, e1) = bind-some (json.as_object raw) _ ps e in
      let (id, read, e2) =
        bind-some (bounded_model_text (json.field object (codes "id") >>= json.as_str)) _ ps e1 in
      let (label, _, e3) =
        bind-some (bounded_model_text (json.field object (codes "label") >>= json.as_str)) _ ps
          e2 in
      let (_, e4) = guard-some (not (has ids id)) _ ps e3 in
      let (depends_on, known, e5) =
        bind-some (bounded_model_relations json (json.field object (codes "depends_on"))) _ ps e4 in
      let (paths, _, e6) =
        bind-some (bounded_model_paths json (json.field object (codes "paths"))) _ ps e5 in
      let (more, others, e7) = bind-some (read_proposals json rest (id ∷ ids)) _ ps e6 in
      subst (All Whole) (some-injective _ _ e7) (
        (
          bounded_model_text-Stored _ id read,
          texts-Stored depends_on (relations-Stored json _ depends_on known),
        ),
        read_proposals-Whole rest (id ∷ ids) more others,
      )

  pub accepted-Checked :
      (s : WorkState) (update : Value) (ps : List Proposal)
      → accepted json s update ≡ some ps
      → Checked s.subgoals ps × All Whole ps
  unfolding accepted
  accepted-Checked s update ps e =
      let (raws, _, e1) = bind-some (json.get update (codes "subgoals") >>= json.as_array) _ ps e in
      let (_, e2) =
        guard-some (leb 1 (length raws) && leb (length raws) max_work_subgoals) _ ps e1 in
      let (read, all, e3) = bind-some (read_proposals json raws []) _ ps e2 in
      let (_, checks, e4) =
        bind-some (accept s.subgoals read (requested_active json update)) _ ps e3 in
      let whole = read_proposals-Whole raws [] read all in
      subst (λ qs. Checked s.subgoals qs × All Whole qs) (some-injective _ _ e4)
        (accept-Checked s.subgoals read _ checks, whole)
