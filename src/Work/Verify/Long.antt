-- ===== src/Work/Verify/Long.antt =====
-- Blockers whose key is longer than the fields of the work state.
use aether_fx.Base.{
  ◌<◌, Bool, not, true, List, [], ◌∷◌, ◌++◌, filter, any, Bytes, bytes_eq_iff, length,
  length-append, length-modify_first, All, Bool-cases, inl, inr, ◌≡◌, ℕ, refl, ap, arith,
  length-drop,
}
use aether_fx.Work.{
  WorkState, WorkBlocker, push_bounded, select_active_subgoal, max_work_blockers,
  max_work_field_bytes,
}
use aether_fx.Work.Bounds.{ShortBlocker, IsBounded}
use aether_fx.Work.Verify.{has_key, retried, record_blocker, clear_blocker}

filter-has_key :
    (key : Bytes) (bs : List WorkBlocker)
    → max_work_field_bytes < length key
    → All ShortBlocker bs
    → filter (λ b. not (has_key key b)) bs ≡ bs
filter-has_key key [] h a = refl
filter-has_key key (b ∷ bs) h a = elim (Bool-cases (has_key key b)) [
  | inl e ↦
      let same = ap length ((bytes_eq_iff b.key.text key).0 e) in absurd (omega (arith, a.0.0))
  | inr e ↦ rw e (ap (◌∷◌ b) (filter-has_key key bs h a.1))
]

pub clear_blocker-long :
    (key : Bytes) (w : WorkState)
    → max_work_field_bytes < length key
    → IsBounded w
    → (clear_blocker w key).blockers ≡ w.blockers
unfolding clear_blocker select_active_subgoal
clear_blocker-long key w h b = filter-has_key key w.blockers h b.blockers.1

any-nonempty : {A : Type 0} (p : A → Bool) (xs : List A) → any p xs ≡ true → 0 < length xs
any-nonempty p [] e = absurd (ground (arith, e))
any-nonempty p (x ∷ xs) e = omega arith

length-push_bounded :
    (bs : List WorkBlocker) (b : WorkBlocker) → 0 < length (push_bounded bs b max_work_blockers)
unfolding push_bounded
length-push_bounded bs b = ground (arith, length-append bs (b ∷ []), length-drop 1 (bs ++ b ∷ []))

pub record_blocker-nonempty :
    (w : WorkState) (key category detail : Bytes) (revision : ℕ)
    → 0 < length (record_blocker w key category detail revision).blockers
unfolding record_blocker push_bounded
record_blocker-nonempty w key category detail revision =
    elim (Bool-cases (any (has_key key) w.blockers)) [
      | inl e ↦ rw e (
          omega (
            arith,
            length-modify_first (has_key key) (retried category detail revision) w.blockers,
            any-nonempty (has_key key) w.blockers e,
          ))
      | inr e ↦ rw e (length-push_bounded w.blockers _)
    ]
