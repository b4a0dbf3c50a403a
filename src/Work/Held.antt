-- ===== src/Work/Held.antt =====
-- The bounded lists of a work state after `push_bounded`.
use aether_fx.Base.{
  ℕ, List, [], ◌∷◌, ◌++◌, Held, All-append, All-tail, length-tail, length-append, arith,
}
use aether_fx.Work.{push_bounded}

module _ {A : Type 0} (P : A → Type 0) where
  pub Held-push_bounded :
      (limit : ℕ) (xs : List A) (x : A)
      → P x
      → Held limit P xs
      → Held limit P (push_bounded xs x limit)
  unfolding push_bounded
  Held-push_bounded limit xs x p a =
      let pushed = All-append P xs (x ∷ []) a.1 (p, tt) in
      ground (
        arith,
        length-append xs (x ∷ []),
        length-tail (xs ++ x ∷ []) limit,
        pushed,
        All-tail P (xs ++ x ∷ []) pushed,
      )
