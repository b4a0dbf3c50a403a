-- ===== src/Work/Model/Update/Bounds.antt =====
-- The bounds of the work state after an update.
use aether_fx.Base.{
  ◌+◌, ◌≤◌, not, ◌&&◌, Option, none, some, List, [], ◌∷◌, ◌++◌, map, Bytes, codes, any, all, length,
  leb, All, All-append, All-modify_first, All-mapped, if◌then◌else◌, Bool-cases, Option-cases, Held,
  length-append, length-map, bytes_eq, ◌≡◌, subst, inl, inr, arith,
}
use mathlib.Core.Option.{some-injective}
use aether_fx.Base.Options.{◌>>=◌, bind-some, guard-some}
use aether_fx.Work.{WorkState, WorkSubgoal, bounded, max_work_relations, max_work_subgoals}
use aether_fx.Work.Bounds.{
  Short, ShortSubgoal, IsBounded, bounded-Short, select_active_subgoal-IsBounded,
}
use aether_fx.Work.Record.{has_id, new_subgoal}
use aether_fx.Work.Model.{
  Json, bounded_model_text, relations_from, bounded_model_relations, bounded_model_paths, is_valid,
}
use aether_fx.WorkspacePath
use aether_fx.Work.Model.Cycle.{has}
use aether_fx.Work.Model.Update.{
  Proposal, accept, revised, put_proposal, put_proposals, with_active, updated, read_proposals,
  requested_active, accepted, apply_model_update,
}
use aether_fx.Work.Model.Update.Count.{length-put_proposals, accept-fits}

abbrev Few : List Bytes → Type 0
Few ids = length ids ≤ max_work_relations

abbrev FewRelations : Proposal → Type 0
FewRelations p = Few p.depends_on × Few p.paths

Held-bounded : (ids : List Bytes) → Few ids → Held max_work_relations Short (map bounded ids)
Held-bounded ids few =
    (omega (arith, few, length-map bounded ids), All-mapped Short bounded ids bounded-Short)

put_proposal-Short :
    (p : Proposal) (gs : List WorkSubgoal)
    → FewRelations p
    → All ShortSubgoal gs
    → All ShortSubgoal (put_proposal p gs)
put_proposal-Short p gs few a =
    let needs = Held-bounded p.depends_on few.0 in
    let paths = Held-bounded p.paths few.1 in
    let changed =
      All-modify_first ShortSubgoal (has_id p.id) (revised p) gs
        (λ g short. (short.0, bounded-Short p.label, needs, paths)) a in
    let added =
      All-append ShortSubgoal gs
        (new_subgoal p.id p.label (map bounded p.depends_on) (map bounded p.paths) ∷ []) a
        ((bounded-Short p.id, bounded-Short p.label, needs, paths), tt) in
    elim (Bool-cases (any (has_id p.id) gs)) [ inl e ↦ rw e changed | inr e ↦ rw e added ]

put_proposals-Short :
    (ps : List Proposal) (gs : List WorkSubgoal)
    → All FewRelations ps
    → All ShortSubgoal gs
    → All ShortSubgoal (put_proposals ps gs)
unfolding put_proposals
put_proposals-Short [] gs few a = a
put_proposals-Short (p ∷ ps) gs few a =
    put_proposals-Short ps (put_proposal p gs) few.1 (put_proposal-Short p gs few.0 a)

with_active-IsBounded :
    (requested : Option Bytes) (s : WorkState) → IsBounded s → IsBounded (with_active requested s)
with_active-IsBounded none s b = select_active_subgoal-IsBounded s b
with_active-IsBounded (some active) s b = record {
  objective = b.objective;
  constraints = b.constraints;
  criteria = b.criteria;
  subgoals = b.subgoals;
  active = bounded-Short active;
  blockers = b.blockers;
  evidence = b.evidence;
  mutations = b.mutations;
  verifications = b.verifications;
}

updated-IsBounded :
    (ps : List Proposal) (requested : Option Bytes) (s : WorkState)
    → Held max_work_subgoals ShortSubgoal (put_proposals ps s.subgoals)
    → IsBounded s
    → IsBounded (updated ps requested s)
updated-IsBounded ps requested s held b = with_active-IsBounded requested _ (record {
  objective = b.objective;
  constraints = b.constraints;
  criteria = b.criteria;
  subgoals = held;
  active = b.active;
  blockers = b.blockers;
  evidence = b.evidence;
  mutations = b.mutations;
  verifications = b.verifications;
})

pushed_le :
    (relation : Bytes) (relations : List Bytes)
    → length (if any (bytes_eq relation) relations then relations else relations ++ relation ∷ [])
      ≤ length relations + 1
pushed_le relation relations = elim (Bool-cases (any (bytes_eq relation) relations)) [
  | inl e ↦ rw e (omega arith)
  | inr e ↦ rw e (omega (arith, length-append relations (relation ∷ [])))
]

module _ {Value Object : Type 0} (json : Json Value Object) where
  length-relations_from :
      (values : List Value) (relations ids : List Bytes)
      → relations_from json values relations ≡ some ids
      → length ids ≤ length relations + length values
  unfolding relations_from
  length-relations_from [] relations ids e = let same = some-injective _ _ e in ground (arith, same)
  length-relations_from (value ∷ values) relations ids e =
      let (relation, _, e') = bind-some (bounded_model_text (json.as_str value)) _ ids e in
      let rest = length-relations_from values _ ids e' in
      omega (arith, rest, pushed_le relation relations)

  relations-Few :
      (o : Option Value) (ids : List Bytes) → bounded_model_relations json o ≡ some ids → Few ids
  unfolding bounded_model_relations
  relations-Few none ids e = subst Few (some-injective _ _ e) (omega arith)
  relations-Few (some value) ids e =
      let (values, _, e') = bind-some (json.as_array value) _ ids e in
      let (fits, e'') = guard-some (leb (length values) max_work_relations) _ ids e' in
      ground (arith, fits, length-relations_from values [] ids e'')

  paths-Few :
      (o : Option Value) (ids : List Bytes) → bounded_model_paths json o ≡ some ids → Few ids
  unfolding bounded_model_paths
  paths-Few o ids e =
      let (paths, read, e') = bind-some (bounded_model_relations json o) _ ids e in
      let (_, e'') = guard-some (all (λ path. is_valid (WorkspacePath.new path)) paths) _ ids e' in
      subst Few (some-injective _ _ e'') (relations-Few o paths read)

  read_proposals-Few :
      (raws : List Value) (ids : List Bytes) (ps : List Proposal)
      → read_proposals json raws ids ≡ some ps
      → All FewRelations ps
  unfolding read_proposals
  read_proposals-Few [] ids ps e = subst (All FewRelations) (some-injective _ _ e) tt
  read_proposals-Few (raw ∷ rest) ids ps e =
      let (object, _, e1) = bind-some (json.as_object raw) _ ps e in
      let (id, _, e2) =
        bind-some (bounded_model_text (json.field object (codes "id") >>= json.as_str)) _ ps e1 in
      let (label, _, e3) =
        bind-some (bounded_model_text (json.field object (codes "label") >>= json.as_str)) _ ps
          e2 in
      let (_, e4) = guard-some (not (has ids id)) _ ps e3 in
      let (depends_on, needs, e5) =
        bind-some (bounded_model_relations json (json.field object (codes "depends_on"))) _ ps e4 in
      let (paths, where_to, e6) =
        bind-some (bounded_model_paths json (json.field object (codes "paths"))) _ ps e5 in
      let (more, others, e7) = bind-some (read_proposals json rest (id ∷ ids)) _ ps e6 in
      subst (All FewRelations) (some-injective _ _ e7) (
        (relations-Few _ depends_on needs, paths-Few _ paths where_to),
        read_proposals-Few rest (id ∷ ids) more others,
      )

  accepted-Held :
      (s : WorkState) (update : Value) (ps : List Proposal)
      → All ShortSubgoal s.subgoals
      → accepted json s update ≡ some ps
      → Held max_work_subgoals ShortSubgoal (put_proposals ps s.subgoals)
  unfolding accepted
  accepted-Held s update ps a e =
      let (raws, _, e1) = bind-some (json.get update (codes "subgoals") >>= json.as_array) _ ps e in
      let (_, e2) =
        guard-some (leb 1 (length raws) && leb (length raws) max_work_subgoals) _ ps e1 in
      let (read, all, e3) = bind-some (read_proposals json raws []) _ ps e2 in
      let (_, checks, e4) =
        bind-some (accept s.subgoals read (requested_active json update)) _ ps e3 in
      let fits = accept-fits s.subgoals read _ checks in
      let few = read_proposals-Few raws [] read all in
      subst (λ qs. Held max_work_subgoals ShortSubgoal (put_proposals qs s.subgoals))
        (some-injective _ _ e4)
        (
          omega (arith, fits, length-put_proposals read s.subgoals),
          put_proposals-Short read s.subgoals few a,
        )

  pub apply_model_update-IsBounded :
      (s : WorkState) (update : Value)
      → IsBounded s
      → IsBounded (apply_model_update json s update).0
  unfolding apply_model_update
  apply_model_update-IsBounded s update b = elim (Option-cases (accepted json s update)) [
    | inl e ↦ rw e b
    | inr (ps, e) ↦ rw e (
        updated-IsBounded ps (requested_active json update) s
          (accepted-Held s update ps b.subgoals.1 e) b)
  ]
