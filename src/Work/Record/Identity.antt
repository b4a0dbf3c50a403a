-- ===== src/Work/Record/Identity.antt =====
-- When the identifiers of subgoals are distinct.
use aether_fx.Base.{
  All-append, All-modify_first, ℕ, ◌+◌, Option, none, some, ◌≤◌, ◌||◌, Bool, false, List, [], ◌∷◌,
  ◌++◌, map, Bytes, bytes_eq_iff, codes, is_empty, length, length-append, drop, take, any,
  modify_first, All, ltb, Bool-cases, ◌≡◌, ◌∙◌, refl, sym, ap, subst, inl, inr, arith,
}
use aether_fx.BoundedText.{BoundedText, text_eq, text_eq_iff}
use aether_fx.BoundedText.Limits.{new_fits}
use aether_fx.Work.{
  WorkState, WorkSubgoal, WorkStatus, bounded, push_bounded, with_status, activate,
  select_active_subgoal, max_work_field_bytes, max_work_subgoals, max_work_relations,
}
use aether_fx.Work.Active.{Distinct}
use aether_fx.Work.Record.{
  has_id, new_subgoal, add_subgoal, path_id, touch_path, ensure_path_subgoal,
}

bounded-text : (id : Bytes) → length id ≤ max_work_field_bytes → (bounded id).text ≡ id
unfolding bounded
bounded-text id h = ap (λ t. t.text) (new_fits id max_work_field_bytes h)

-- A subgoal whose text is not the identifier does not have the bounded identifier.
unlike :
    (id : Bytes) (g : WorkSubgoal)
    → length id ≤ max_work_field_bytes
    → has_id id g ≡ false
    → text_eq g.id (bounded id) ≡ false
unlike id g h n = elim (Bool-cases (text_eq g.id (bounded id))) [
  | inl e ↦
      let same : g.id.text ≡ id =
        ap (λ t. t.text) ((text_eq_iff g.id (bounded id)).0 e) ∙ bounded-text id h in
      let found = (bytes_eq_iff g.id.text id).1 same in absurd (cc)
  | inr e ↦ e
]

none_like :
    (id : Bytes) (gs : List WorkSubgoal)
    → length id ≤ max_work_field_bytes
    → any (has_id id) gs ≡ false
    → All (λ g. text_eq g.id (bounded id) ≡ false) gs
none_like id [] h n = tt
none_like id (g ∷ gs) h n = elim (Bool-cases (has_id id g)) [
  | inl e ↦ absurd (ground arith)
  | inr e ↦ (unlike id g h e, none_like id gs h (ground arith))
]

Distinct-append :
    (gs : List WorkSubgoal) (x : WorkSubgoal)
    → Distinct gs
    → All (λ g. text_eq g.id x.id ≡ false) gs
    → Distinct (gs ++ x ∷ [])
Distinct-append [] x d a = (tt, tt)
Distinct-append (g ∷ gs) x d a = (
  All-append (λ h. text_eq g.id h.id ≡ false) gs (x ∷ []) d.0 (a.0, tt),
  Distinct-append gs x d.1 a.1,
)

Distinct-drop : (gs : List WorkSubgoal) → Distinct gs → Distinct (drop 1 gs)
Distinct-drop [] d = tt
Distinct-drop (g ∷ gs) d = d.1

Distinct-push_bounded :
    (gs : List WorkSubgoal) (x : WorkSubgoal) (limit : ℕ)
    → Distinct gs
    → All (λ g. text_eq g.id x.id ≡ false) gs
    → Distinct (push_bounded gs x limit)
unfolding push_bounded
Distinct-push_bounded gs x limit d a =
    let pushed = Distinct-append gs x d a in
    elim (Bool-cases (ltb limit (length (gs ++ x ∷ [])))) [
      | inl e ↦ rw e (Distinct-drop (gs ++ x ∷ []) pushed)
      | inr e ↦ rw e pushed
    ]

Distinct-modify_first :
    (p : WorkSubgoal → Bool) (f : WorkSubgoal → WorkSubgoal) (gs : List WorkSubgoal)
    → ((g : WorkSubgoal) → (f g).id ≡ g.id)
    → Distinct gs
    → Distinct (modify_first p f gs)
Distinct-modify_first p f [] h d = tt
Distinct-modify_first p f (g ∷ gs) h d = elim (Bool-cases (p g)) [
  | inl e ↦ rw e (subst (λ i. All (λ x. text_eq i x.id ≡ false) gs) (sym (h g)) d.0, d.1)
  | inr e ↦ rw e (
    All-modify_first (λ x. text_eq g.id x.id ≡ false) p f gs
        (λ x a. subst (λ i. text_eq g.id i ≡ false) (sym (h x)) a) d.0,
    Distinct-modify_first p f gs h d.1,
  )
]

select-Distinct :
    (s : WorkState) → Distinct s.subgoals → Distinct (select_active_subgoal s).subgoals
unfolding select_active_subgoal
select-Distinct s d = activated _ s.subgoals d
  where
    activated :
        (o : Option BoundedText) (gs : List WorkSubgoal) → Distinct gs → Distinct (activate o gs)
    activated none gs d = d
    activated (some id) gs d =
        Distinct-modify_first (λ g. text_eq g.id id) (with_status WorkStatus.active) gs (λ g. refl)
          d

-- Adding a subgoal keeps the identifiers distinct, where the new one fits in a field.
pub add_subgoal-Distinct :
    (s : WorkState) (id label : Bytes) (depends_on : List Bytes)
    → length id ≤ max_work_field_bytes
    → Distinct s.subgoals
    → Distinct (add_subgoal s id label depends_on).0.subgoals
unfolding add_subgoal
add_subgoal-Distinct s id label depends_on h d =
    elim (Bool-cases (is_empty id || any (has_id id) s.subgoals)) [
      | inl e ↦ rw e d
      | inr e ↦
          let fresh = none_like id s.subgoals h (ground arith) in
          rw e (
            select-Distinct _ (
              Distinct-push_bounded s.subgoals
                (new_subgoal id label (map bounded (take max_work_relations depends_on)) [])
                max_work_subgoals d fresh))
    ]

length-path_id : (path : Bytes) → length (path_id path) ≡ 5 + length path
length-path_id path = omega (arith, length-append (codes "path:") path)

-- A mutated path of at most 187 bytes keeps the identifiers distinct.
ensure_path_subgoal-Distinct :
    (s : WorkState) (path : Bytes)
    → length path ≤ 187
    → Distinct s.subgoals
    → Distinct (ensure_path_subgoal s path).subgoals
unfolding ensure_path_subgoal
ensure_path_subgoal-Distinct s path h d =
    elim (Bool-cases (any (has_id (path_id path)) s.subgoals)) [
      | inl e ↦
          rw e (
            Distinct-modify_first (has_id (path_id path)) (touch_path path) s.subgoals (λ g. refl)
              d)
      | inr e ↦ rw e (
          Distinct-push_bounded s.subgoals
            (new_subgoal (path_id path) (codes "complete changes for " ++ path) []
              (bounded path ∷ []))
            max_work_subgoals d
            (none_like (path_id path) s.subgoals (omega (arith, length-path_id path)) e))
    ]
