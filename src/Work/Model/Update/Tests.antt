-- ===== src/Work/Model/Update/Tests.antt =====
-- An outline of two units of work, one after the other.
use aether_fx.Base.{
  lookup, insert, remove, refl, true, Option, none, some, List, [], ◌∷◌, map, Bytes, bytes_eq,
  codes, All, if◌then◌else◌, ◌≡◌, ◌↔◌, ◌⊎◌,
}
use aether_fx.BoundedText.{new}
use aether_fx.Work.{bounded}
use aether_fx.Work.Tests.{no_work}
use aether_fx.Work.Bounds.{IsBounded}
use aether_fx.Work.Restore.{enforce_bounds}
use aether_fx.Work.History.{
  Operation, adds_subgoal, records_mutation, records_verification, applies_model_update, run,
}
use aether_fx.Work.History.Bounds.{run-IsBounded}
use aether_fx.Work.Model.{bounded_model_text, bounded_model_relations, bounded_model_paths, Json}
use aether_fx.Work.Model.Cycle.{dependency_cycle, Graph}
use aether_fx.Work.Model.Cycle.Sound.{Grounded}
use aether_fx.Work.Model.Update.{is_acyclic, apply_model_update}
use aether_fx.Work.Model.Update.Acyclic.{is_acyclic_iff}
use aether_fx.Work.Model.Update.Result.{Unwound, apply_model_update-Unwound}
use aether_fx.Work.Model.Update.Owned.{Owned, Observed, apply_model_update-Owned}

-- The documents that the example sends.
data Doc : Type 0 where
  text : Bytes → Doc
  texts : List Bytes → Doc
  unit : (id : Bytes) (depends_on : List Bytes) → Doc
  outline : List (Bytes × List Bytes) → Doc

abbrev subgoals : Doc → Bytes → Option Doc
subgoals (outline units) key =
    if bytes_eq key (codes "subgoals") then some (outline units) else none
subgoals (text t) key = none
subgoals (texts ts) key = none
subgoals (unit id depends_on) key = none

abbrev items : Doc → Option (List Doc)
items (outline units) = some (map (λ u. unit u.0 u.1) units)
items (texts ts) = some (map text ts)
items (text t) = none
items (unit id depends_on) = none

abbrev content : Doc → Option Bytes
content (text t) = some t
content (texts ts) = none
content (unit id depends_on) = none
content (outline units) = none

abbrev member : Doc → Bytes → Option Doc
member (unit id depends_on) key =
    if bytes_eq key (codes "id")
    then some (text id)
    else if bytes_eq key (codes "label")
    then some (text id)
    else if bytes_eq key (codes "depends_on")
    then some (texts depends_on)
    else none
member (text t) key = none
member (texts ts) key = none
member (outline units) key = none

abbrev documents : Json Doc Doc
documents = record {
  get = subgoals;
  as_array = items;
  as_object = some;
  as_str = content;
  field = member;
}

abbrev in_order : Doc
in_order = outline ((codes " parser ", []) ∷ (codes "printer", codes "parser" ∷ []) ∷ [])

apply_model_update-Owned_example :
    let r = apply_model_update documents no_work in_order in
    All (Owned no_work.subgoals) r.0.subgoals
    × Observed no_work r.0
    × ((r.1 ≡ true) ⊎ (r.0 ≡ no_work))
apply_model_update-Owned_example = apply_model_update-Owned documents no_work in_order

abbrev waiting : Graph
waiting = (codes "printer", codes "parser" ∷ []) ∷ (codes "parser", []) ∷ []

is_acyclic_iff_example : (is_acyclic waiting ≡ true) ↔ ((id : Bytes) → Grounded waiting id)
is_acyclic_iff_example = is_acyclic_iff waiting

in_order_runs : (apply_model_update documents no_work in_order).1 ≡ true
unfolding apply_model_update bytes_eq bounded_model_text bounded new bounded_model_relations
    bounded_model_paths insert dependency_cycle lookup remove
in_order_runs = refl

apply_model_update-Unwound_example :
    Unwound (apply_model_update documents no_work in_order).0.subgoals
apply_model_update-Unwound_example =
    apply_model_update-Unwound documents no_work in_order tt in_order_runs

abbrev history : List (Operation Doc)
history =
    adds_subgoal (codes "parser") (codes "parse") []
    ∷ records_mutation (codes "edit") (codes "a.rs" ∷ []) 1
    ∷ records_verification (codes "cargo test") (codes "all") true 1 [] (codes "a.rs" ∷ [])
    ∷ applies_model_update (outline ((codes "a", []) ∷ []))
    ∷ []

run-IsBounded_example : IsBounded (run documents (enforce_bounds no_work) history)
run-IsBounded_example = run-IsBounded documents no_work history
