-- ===== src/Work/Verify/Completion.antt =====
-- Which subgoals a verification completes.
use aether_fx.Base.{
  ℕ, ◌&&◌, Bool, true, false, Option, none, some, List, [], ◌∷◌, map, any, all, All, filter,
  modify_first, Bytes, bytes_eq_iff, Bool-cases, ◌≡◌, ◌∙◌, refl, sym, ap, subst, ◌⊎◌, inl, inr,
  arith,
}
use aether_fx.BoundedText.{BoundedText, text_eq, text_eq_iff}
use aether_fx.Work.{
  WorkState, WorkSubgoal, WorkStatus, WorkBlocker, is_complete, activate, with_status,
  select_active_subgoal,
}
use aether_fx.Work.Record.{has_id}
use aether_fx.Work.Dependencies.{is_complete_iff}
use aether_fx.Work.Verify.{
  is_covered, has_paths, complete_ids, complete_root, root_closes, finished, task_id, close_passed,
  record_verification,
}
use aether_fx.Work.Verify.Covered.{any-map-filter, any-In, CoveredId, no_paths, is_covered-Covered}

-- Two lists, element by element.
abbrev pub Pairs : {A : Type 0} → (A → A → Type 0) → List A → List A → Type 0
Pairs R [] [] = Unit
Pairs R [] (y ∷ ys) = ⊥
Pairs R (x ∷ xs) [] = ⊥
Pairs R (x ∷ xs) (y ∷ ys) = R x y × Pairs R xs ys

module _ {A : Type 0} (R : A → A → Type 0) where
  Pairs-self : ((x : A) → R x x) → (xs : List A) → Pairs R xs xs
  Pairs-self h [] = tt
  Pairs-self h (x ∷ xs) = (h x, Pairs-self h xs)

  Pairs-map :
      (f : A → A)
      → ((x y : A) → R x y → R x (f y))
      → (xs ys : List A) → Pairs R xs ys
      → Pairs R xs (map f ys)
  Pairs-map f h [] [] r = tt
  Pairs-map f h [] (y ∷ ys) r = absurd r
  Pairs-map f h (x ∷ xs) [] r = absurd r
  Pairs-map f h (x ∷ xs) (y ∷ ys) r = (h x y r.0, Pairs-map f h xs ys r.1)

  Pairs-modify_first :
      (p : A → Bool) (f : A → A)
      → ((x y : A) → p y ≡ true → R x y → R x (f y))
      → (xs ys : List A) → Pairs R xs ys
      → Pairs R xs (modify_first p f ys)
  Pairs-modify_first p f h [] [] r = tt
  Pairs-modify_first p f h [] (y ∷ ys) r = absurd r
  Pairs-modify_first p f h (x ∷ xs) [] r = absurd r
  Pairs-modify_first p f h (x ∷ xs) (y ∷ ys) r = elim (Bool-cases (p y)) [
    | inl e ↦ rw e (h x y e r.0, r.1)
    | inr e ↦ rw e (r.0, Pairs-modify_first p f h xs ys r.1)
  ]

-- The subgoal is complete, or is completed as one whose identifier is that of a covered subgoal.
abbrev pub Closes : List Bytes → List WorkSubgoal → WorkSubgoal → Type 0
Closes affected gs h = (h.status ≡ WorkStatus.complete) ⊎ CoveredId affected gs h.id

-- There is no blocker, and each subgoal with paths is complete or is completed.
abbrev pub RootCloses : List Bytes → WorkState → Type 0
RootCloses affected s =
    (s.blockers ≡ []) × All (λ h. (h.paths ≡ []) ⊎ Closes affected s.subgoals h) s.subgoals

-- A subgoal before and after a verification that passed or failed: the same identifier, and it is
-- not complete after, or it was complete before, or the verification passed and a subgoal with its
-- identifier is covered, or it is the root and the root closes.
abbrev pub Earned : Bool → List Bytes → WorkState → WorkSubgoal → WorkSubgoal → Type 0
Earned passed affected s g g' =
    (g'.id ≡ g.id)
    × ((¬ (g'.status ≡ WorkStatus.complete))
        ⊎ ((g.status ≡ WorkStatus.complete)
            ⊎ ((passed ≡ true)
                × (CoveredId affected s.subgoals g.id
                    ⊎ ((g.id.text ≡ task_id) × RootCloses affected s)))))

Earned-self :
    (passed : Bool) (affected : List Bytes) (s : WorkState) (g : WorkSubgoal)
    → Earned passed affected s g g
Earned-self passed affected s g = elim (Bool-cases (is_complete g.status)) [
  | inl e ↦ (refl, inr (inl ((is_complete_iff g.status).0 e)))
  | inr e ↦ (refl, inl (λ q. ground (arith, e, (is_complete_iff g.status).1 q)))
]

no_blockers : (bs : List WorkBlocker) → elim bs [ [] ↦ true | _ ∷ _ ↦ false ] ≡ true → bs ≡ []
no_blockers [] h = refl
no_blockers (b ∷ bs) h = absurd (cc)

all-filter :
    {A : Type 0} (p q : A → Bool) (y : A) (ys : List A)
    → all q (filter p (y ∷ ys)) ≡ true
    → ((p y ≡ false) ⊎ (q y ≡ true)) × (all q (filter p ys) ≡ true)
all-filter p q y ys h = elim (Bool-cases (p y)) [
  | inl e ↦ (inr (ground (arith, h, e)), ground (arith, h, e))
  | inr e ↦ (inl e, ground (arith, h, e))
]

module _ (revision : ℕ) (affected : List Bytes) (s : WorkState) where
  abbrev completed_ids : List BoundedText
  completed_ids = map (λ g. g.id) (filter (is_covered affected s.subgoals) s.subgoals)

  completed-CoveredId :
      (id : BoundedText)
      → any (λ i. text_eq i id) completed_ids ≡ true
      → CoveredId affected s.subgoals id
  completed-CoveredId id e =
      let covered =
        any-map-filter (λ i. text_eq i id) (λ g. g.id) (is_covered affected s.subgoals)
          s.subgoals in
      let (h, i, t) =
        any-In (λ h. is_covered affected s.subgoals h && text_eq h.id id) s.subgoals
          (sym covered ∙ e) in
      (
        h,
        i,
        (text_eq_iff h.id id).0 (ground (arith, t)),
        is_covered-Covered affected s.subgoals h (ground (arith, t)),
      )

  Earned-complete_ids :
      (x y : WorkSubgoal)
      → Earned true affected s x y
      → Earned true affected s x (complete_ids revision completed_ids y)
  Earned-complete_ids x y r = elim (Bool-cases (any (λ id. text_eq id y.id) completed_ids)) [
    | inl e ↦
        let found = subst (CoveredId affected s.subgoals) r.0 (completed-CoveredId y.id e) in
        rw e (r.0, inr (inr (refl, inl found)))
    | inr e ↦ rw e r
  ]

  -- A subgoal that has no paths, or is complete after the covered ones are completed.
  Closes-complete_ids :
      (g : WorkSubgoal) (rest : List WorkSubgoal)
      → all
          (λ h. is_complete h.status)
          (filter has_paths (complete_ids revision completed_ids g ∷ rest))
        ≡ true
      → ((g.paths ≡ []) ⊎ Closes affected s.subgoals g)
        × (all (λ h. is_complete h.status) (filter has_paths rest) ≡ true)
  Closes-complete_ids g rest h =
      let (kept, others) = all-filter has_paths (λ h. is_complete h.status) _ rest h in
      elim (Bool-cases (any (λ id. text_eq id g.id) completed_ids)) [
        | inl e ↦ (inr (inr (completed-CoveredId g.id e)), others)
        | inr e ↦
            let same : complete_ids revision completed_ids g ≡ g = rw e refl in
            elim (subst (λ h. (has_paths h ≡ false) ⊎ (is_complete h.status ≡ true)) same kept) [
              | inl n ↦ (inl (no_paths g n), others)
              | inr c ↦ (inr (inl ((is_complete_iff g.status).0 c)), others)
            ]
      ]

  All-Closes :
      (gs : List WorkSubgoal)
      → all
          (λ h. is_complete h.status)
          (filter has_paths (map (complete_ids revision completed_ids) gs))
        ≡ true
      → All (λ h. (h.paths ≡ []) ⊎ Closes affected s.subgoals h) gs
  All-Closes [] h = tt
  All-Closes (g ∷ gs) h =
      let (first, rest) = Closes-complete_ids g (map (complete_ids revision completed_ids) gs) h in
      (first, All-Closes gs rest)

  root_closes-RootCloses :
      root_closes s.blockers (map (complete_ids revision completed_ids) s.subgoals) ≡ true
      → RootCloses affected s
  root_closes-RootCloses h =
      (no_blockers s.blockers (ground (arith, h)), All-Closes s.subgoals (ground (arith, h)))

  Pairs-complete_root :
      let ys = map (complete_ids revision completed_ids) s.subgoals in
      Pairs (Earned true affected s) s.subgoals ys
      → Pairs (Earned true affected s) s.subgoals (complete_root revision s.blockers ys)
  Pairs-complete_root r =
      let ys = map (complete_ids revision completed_ids) s.subgoals in
      elim (Bool-cases (root_closes s.blockers ys)) [
        | inl e ↦ rw e (
            Pairs-modify_first (Earned true affected s) (has_id task_id) (finished revision)
              (λ x y t p. (
                p.0,
                inr (
                    inr (
                      refl,
                      inr (
                        ap (λ i. i.text) (sym p.0) ∙ (bytes_eq_iff y.id.text task_id).0 t,
                        root_closes-RootCloses e,
                      ),
                    )),
              ))
              s.subgoals ys r)
        | inr e ↦ rw e r
      ]

  Pairs-activate :
      (o : Option BoundedText) (ys : List WorkSubgoal)
      → Pairs (Earned true affected s) s.subgoals ys
      → Pairs (Earned true affected s) s.subgoals (activate o ys)
  Pairs-activate none ys r = r
  Pairs-activate (some id) ys r =
      Pairs-modify_first (Earned true affected s) (λ g. text_eq g.id id)
        (with_status WorkStatus.active) (λ x y e r. (r.0, inl (λ q. absurd (cc)))) s.subgoals ys r

-- A verification completes only what it covers: no subgoal is complete after it that was not
-- complete before, unless the verification passed and either some subgoal with its identifier has
-- paths, all of them affected, and only dependencies that are complete, or it is the root of the
-- task, there is no blocker, and each subgoal with paths is complete or completed in that way.
pub record_verification-Earned :
    (s : WorkState) (command scope : Bytes) (passed : Bool) (revision : ℕ)
    (diagnostics paths : List Bytes)
    → Pairs
        (Earned passed paths s)
        s.subgoals
        (record_verification s command scope passed revision diagnostics paths).subgoals
unfolding record_verification close_passed select_active_subgoal
record_verification-Earned s command scope true revision diagnostics paths =
    Pairs-activate revision paths s _ _ (
      Pairs-complete_root revision paths s (
        Pairs-map (Earned true paths s) _ (Earned-complete_ids revision paths s) s.subgoals
          s.subgoals (Pairs-self (Earned true paths s) (Earned-self true paths s) s.subgoals)))
record_verification-Earned s command scope false revision diagnostics paths =
    Pairs-self (Earned false paths s) (Earned-self false paths s) s.subgoals
