-- ===== src/Work/Verify/Cleared.antt =====
-- What a cleared blocker leaves.
use aether_fx.Base.{
  All-mapped, not, Bool, true, false, List, [], ◌∷◌, filter, Bytes, bytes_eq, All, Bool-cases,
  Option, none, some, ◌≡◌, refl, inl, inr,
}
use aether_fx.BoundedText.{BoundedText, text_eq}
use aether_fx.Work.{
  WorkState, WorkSubgoal, WorkStatus, WorkBlocker, activate, select_active_subgoal,
}
use aether_fx.Work.Verify.{has_key, unblock, unblocked, clear_blocker}

-- Whether work is blocked.
abbrev pub is_blocked : WorkStatus → Bool
is_blocked WorkStatus.blocked = true
is_blocked _ = false

unblock-free : (g : WorkSubgoal) (status : WorkStatus) → is_blocked (unblocked status) ≡ false
unblock-free g WorkStatus.blocked = refl
unblock-free g WorkStatus.pending = refl
unblock-free g WorkStatus.active = refl
unblock-free g WorkStatus.complete = refl
unblock-free g WorkStatus.stale = refl

All-filtered :
    (p : WorkBlocker → Bool) (bs : List WorkBlocker)
    → All (λ b. p b ≡ false) (filter (λ b. not (p b)) bs)
All-filtered p [] = tt
All-filtered p (b ∷ bs) =
    let rest = All-filtered p bs in
    elim (Bool-cases (p b)) [ inl e ↦ rw e rest | inr e ↦ rw e (e, rest) ]

free-activate :
    (o : Option BoundedText) (gs : List WorkSubgoal)
    → All (λ g. is_blocked g.status ≡ false) gs
    → All (λ g. is_blocked g.status ≡ false) (activate o gs)
free-activate none gs a = a
free-activate (some id) [] a = tt
free-activate (some id) (g ∷ gs) a = elim (Bool-cases (text_eq g.id id)) [
  | inl e ↦ rw e (refl, a.1)
  | inr e ↦ rw e (a.0, free-activate (some id) gs a.1)
]

-- After a blocker is cleared no blocker has its key and no subgoal is blocked, whatever blockers
-- are left.
pub clear_blocker_lem :
    (s : WorkState) (key : Bytes)
    → let s' = clear_blocker s key in
      All (λ b. bytes_eq b.key.text key ≡ false) s'.blockers
      × All (λ g. is_blocked g.status ≡ false) s'.subgoals
unfolding clear_blocker select_active_subgoal
clear_blocker_lem s key = (
  All-filtered (has_key key) s.blockers,
  free-activate _ _ (
      All-mapped (λ g. is_blocked g.status ≡ false) unblock s.subgoals
        (λ g. unblock-free g g.status)),
)
