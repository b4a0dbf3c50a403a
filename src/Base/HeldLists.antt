-- ===== src/Base/HeldLists.antt =====
-- Lists of bounded length whose elements are all within bounds, and the updates that keep them so.
use Prim.Native.Nat.{ℕ, zero, suc, ◌≤◌}
use mathlib.Core.Logic.{inl, inr}
use mathlib.Core.Bool.{Bool}
use mathlib.Core.List.{List, [], ◌∷◌, ◌++◌, map}
use native.Mathlib.Omega.{arith}
use aether_fx.Base.Tests.{==_iff, Bool-cases, ◌==◌}
use aether_fx.Base.Lists.{
  length, take, drop, filter, modify_first, All, push_full, length-append, length-take, length-drop,
  length-filter-le, length-modify_first, length-map,
}

-- At most `limit` elements, each within its own bounds.
abbrev pub Held : {A : Type 0} → ℕ → (A → Type 0) → List A → Type 0
Held limit P xs = (length xs ≤ limit) × All P xs

module _ {A B : Type 0} (P : A → Type 0) (Q : B → Type 0) where
  pub All-map : (f : A → B) (xs : List A) → ((x : A) → P x → Q (f x)) → All P xs → All Q (map f xs)
  All-map f [] h a = tt
  All-map f (x ∷ xs) h a = (h x a.0, All-map f xs h a.1)

  pub Held-map :
      (limit : ℕ) (f : A → B) (xs : List A)
      → ((x : A) → P x → Q (f x))
      → Held limit P xs
      → Held limit Q (map f xs)
  Held-map limit f xs h a = (omega (arith, length-map f xs), All-map f xs h a.1)

pub All-mapped :
    {A B : Type 0} (Q : B → Type 0) (f : A → B) (xs : List A)
    → ((x : A) → Q (f x))
    → All Q (map f xs)
All-mapped Q f [] h = tt
All-mapped Q f (x ∷ xs) h = (h x, All-mapped Q f xs h)

-- A list that is cut and then bounded element by element.
pub Held-mapped :
    {A B : Type 0} (Q : B → Type 0) (limit : ℕ) (f : A → B) (xs : List A)
    → ((x : A) → Q (f x))
    → Held limit Q (map f (take limit xs))
Held-mapped Q limit f xs h = (
  omega (arith, length-map f (take limit xs), length-take limit xs),
  All-mapped Q f (take limit xs) h,
)

pub length-tail : {A : Type 0} (xs : List A) (n : ℕ) → length xs ≤ suc n → length (drop 1 xs) ≤ n
length-tail [] n h = omega arith
length-tail (x ∷ xs) n h = omega arith

module _ {A : Type 0} (P : A → Type 0) where
  pub All-append : (xs ys : List A) → All P xs → All P ys → All P (xs ++ ys)
  All-append [] ys a b = b
  All-append (x ∷ xs) ys a b = (a.0, All-append xs ys a.1 b)

  pub All-tail : (xs : List A) → All P xs → All P (drop 1 xs)
  All-tail [] a = a
  All-tail (x ∷ xs) a = a.1

  pub All-filter : (p : A → Bool) (xs : List A) → All P xs → All P (filter p xs)
  All-filter p [] a = tt
  All-filter p (x ∷ xs) a = let rest = All-filter p xs a.1 in ground arith

  pub Held-filter :
      (limit : ℕ) (p : A → Bool) (xs : List A) → Held limit P xs → Held limit P (filter p xs)
  Held-filter limit p xs a = (omega (arith, length-filter-le p xs), All-filter p xs a.1)

  pub All-modify_first :
      (p : A → Bool) (f : A → A) (xs : List A)
      → ((x : A) → P x → P (f x))
      → All P xs
      → All P (modify_first p f xs)
  All-modify_first p f [] h a = tt
  All-modify_first p f (x ∷ xs) h a =
      let here = h x a.0 in let rest = All-modify_first p f xs h a.1 in ground arith

  pub Held-modify_first :
      (limit : ℕ) (p : A → Bool) (f : A → A) (xs : List A)
      → ((x : A) → P x → P (f x))
      → Held limit P xs
      → Held limit P (modify_first p f xs)
  Held-modify_first limit p f xs h a =
      (omega (arith, length-modify_first p f xs), All-modify_first p f xs h a.1)

  pub All-take : (n : ℕ) (xs : List A) → All P xs → All P (take n xs)
  All-take zero xs a = tt
  All-take (suc n) [] a = tt
  All-take (suc n) (x ∷ xs) a = (a.0, All-take n xs a.1)

pub length-push_full :
    {A : Type 0} (capacity : ℕ) (xs : List A) (x : A)
    → length xs ≤ suc capacity
    → length (push_full (suc capacity) xs x) ≤ suc capacity
length-push_full capacity xs x h = elim (Bool-cases (length xs == suc capacity)) [
  | inl e ↦ rw e (
      omega (
        arith,
        length-append (drop 1 xs) (x ∷ []),
        length-drop 1 xs,
        (==_iff (length xs) (suc capacity)).0 e,
      ))
  | inr e ↦ rw e (ground (arith, length-append xs (x ∷ [])))
]

module _ {A : Type 0} (P : A → Type 0) where
  All-push : (xs : List A) (x : A) → P x → All P xs → All P (xs ++ x ∷ [])
  All-push xs x p a = All-append P xs (x ∷ []) a (p, tt)

  pub Held-push_full :
      (capacity : ℕ) (xs : List A) (x : A)
      → P x
      → Held (suc capacity) P xs
      → Held (suc capacity) P (push_full (suc capacity) xs x)
  Held-push_full capacity xs x p a =
      let kept = All-push xs x p a.1 in
      let moved = All-push (drop 1 xs) x p (All-tail P xs a.1) in
      (
        length-push_full capacity xs x a.0,
        elim (Bool-cases (length xs == suc capacity)) [ inl e ↦ rw e moved | inr e ↦ rw e kept ],
      )
