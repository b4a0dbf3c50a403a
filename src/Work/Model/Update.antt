-- ===== src/Work/Model/Update.antt =====
-- crates/aether-core/src/work.rs, `apply_model_update`: an outline of work that the model sends.
pub mod Acyclic
pub mod Count
pub mod Bounds
pub mod Owned
pub mod Needs
pub mod Read
pub mod Result
pub mod Tests
use aether_fx.Base.{
  ℕ, suc, ◌+◌, Bool, true, false, not, ◌&&◌, ◌||◌, Option, none, some, List, [], ◌∷◌, ◌++◌, map,
  Bytes, codes, any, all, filter, modify_first, leb, length, insert, if◌then◌else◌,
}
use aether_fx.Base.Options.{◌>>=◌, ◌>>◌, guard}
use aether_fx.Work.{
  WorkState, WorkMode, WorkStatus, WorkSubgoal, bounded, select_active_subgoal, max_work_subgoals,
}
use aether_fx.Work.Record.{has_id, new_subgoal}
use aether_fx.Work.Model.{Json, bounded_model_text, bounded_model_relations, bounded_model_paths}
use aether_fx.Work.Model.Cycle.{Graph, Search, has, dependency_cycle}

pub record Proposal : Type 0 where
  pub id : Bytes
  pub label : Bytes
  pub depends_on : List Bytes
  pub paths : List Bytes

-- The identifiers of the subgoals.
abbrev pub ids_of : List WorkSubgoal → List Bytes
ids_of = map (λ g. g.id.text)

abbrev pub proposed_ids : List Proposal → List Bytes
proposed_ids = map (λ p. p.id)

-- The dependencies of the subgoals, a later one with the identifier of an earlier in its place.
pub insert_subgoals : List WorkSubgoal → Graph → Graph
insert_subgoals [] graph = graph
insert_subgoals (g ∷ gs) graph =
    insert_subgoals gs (insert g.id.text (map (λ d. d.text) g.depends_on) graph)

-- The dependencies of the proposals, all of which must be known.
pub insert_proposals : List Bytes → List Proposal → Graph → Option Graph
insert_proposals known [] graph = some graph
insert_proposals known (p ∷ ps) graph = do
  guard (all (has known) p.depends_on)
  insert_proposals known ps (insert p.id p.depends_on graph)

abbrev pub no_cycle : Option Search → Bool
no_cycle none = false
no_cycle (some r) = not r.cycle

-- A search from each identifier, with fuel for every identifier of the graph.
pub is_acyclic : Graph → Bool
is_acyclic graph =
    all (λ entry. no_cycle (dependency_cycle (suc (length graph)) graph entry.0 [] [])) graph

abbrev pub is_known : List Bytes → Option Bytes → Bool
is_known known none = true
is_known known (some id) = has known id

-- The checks on the proposals, once they are read.
pub accept : List WorkSubgoal → List Proposal → Option Bytes → Option (Unit {0})
unfolding insert_subgoals insert_proposals is_acyclic
accept subgoals proposals requested = do
  let existing = ids_of subgoals
  let known = existing ++ proposed_ids proposals
  graph ← insert_proposals known proposals (insert_subgoals subgoals [])
  guard (is_acyclic graph)
  let new_count = length (filter (λ p. not (has existing p.id)) proposals)
  guard (leb (length subgoals + new_count) max_work_subgoals)
  guard (is_known known requested)

-- A stale subgoal becomes pending; every other status stays.
abbrev pub reopened : WorkStatus → WorkStatus
reopened WorkStatus.stale = WorkStatus.pending
reopened WorkStatus.pending = WorkStatus.pending
reopened WorkStatus.active = WorkStatus.active
reopened WorkStatus.complete = WorkStatus.complete
reopened WorkStatus.blocked = WorkStatus.blocked

abbrev pub reopened_revision : WorkStatus → Option ℕ → Option ℕ
reopened_revision WorkStatus.stale revision = none
reopened_revision WorkStatus.pending revision = revision
reopened_revision WorkStatus.active revision = revision
reopened_revision WorkStatus.complete revision = revision
reopened_revision WorkStatus.blocked revision = revision

abbrev pub revised : Proposal → WorkSubgoal → WorkSubgoal
revised p g = record g {
  label = bounded p.label;
  depends_on = map bounded p.depends_on;
  paths = map bounded p.paths;
  status = reopened g.status;
  completed_revision = reopened_revision g.status g.completed_revision;
}

abbrev pub put_proposal : Proposal → List WorkSubgoal → List WorkSubgoal
put_proposal p subgoals =
    if any (has_id p.id) subgoals
    then modify_first (has_id p.id) (revised p) subgoals
    else subgoals ++ new_subgoal p.id p.label (map bounded p.depends_on) (map bounded p.paths) ∷ []

pub put_proposals : List Proposal → List WorkSubgoal → List WorkSubgoal
put_proposals [] subgoals = subgoals
put_proposals (p ∷ ps) subgoals = put_proposals ps (put_proposal p subgoals)

abbrev pub with_active : Option Bytes → WorkState → WorkState
with_active none s = select_active_subgoal s
with_active (some active) s = record s { active_subgoal = some (bounded active) }

abbrev pub updated : List Proposal → Option Bytes → WorkState → WorkState
updated proposals requested s =
    with_active requested
      (record s { subgoals = put_proposals proposals s.subgoals; mode = WorkMode.structured })

module _ {Value Object : Type 0} (json : Json Value Object) where
  -- The loop that reads the proposals, whose identifiers must differ.
  pub read_proposals : List Value → List Bytes → Option (List Proposal)
  read_proposals [] ids = some []
  read_proposals (raw ∷ rest) ids = do
    object ← json.as_object raw
    id ← bounded_model_text (json.field object (codes "id") >>= json.as_str)
    label ← bounded_model_text (json.field object (codes "label") >>= json.as_str)
    guard (not (has ids id))
    depends_on ← bounded_model_relations json (json.field object (codes "depends_on"))
    paths ← bounded_model_paths json (json.field object (codes "paths"))
    more ← read_proposals rest (id ∷ ids)
    some (record { id = id; label = label; depends_on = depends_on; paths = paths } ∷ more)

  abbrev pub requested_active : Value → Option Bytes
  requested_active update = json.get update (codes "active_subgoal") >>= json.as_str

  -- The proposals, where the update passes every check.
  pub accepted : WorkState → Value → Option (List Proposal)
  unfolding accept read_proposals
  accepted s update = do
    raws ← (json.get update (codes "subgoals") >>= json.as_array)
    guard (leb 1 (length raws) && leb (length raws) max_work_subgoals)
    proposals ← read_proposals raws []
    accept s.subgoals proposals (requested_active update)
    some proposals

  abbrev pub apply_accepted : Option (List Proposal) → Option Bytes → WorkState → WorkState × Bool
  apply_accepted none requested s = (s, false)
  apply_accepted (some proposals) requested s = (updated proposals requested s, true)

  pub apply_model_update : WorkState → Value → WorkState × Bool
  unfolding accepted put_proposals
  apply_model_update s update = apply_accepted (accepted s update) (requested_active update) s
