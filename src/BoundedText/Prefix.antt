-- ===== src/BoundedText/Prefix.antt =====
-- What survives the cut, as characters.
use aether_fx.Base.{
  ℕ, zero, suc, ◌+◌, ◌-◌, ◌≤◌, ◌<◌, min, ◌≡◌, refl, true, false, ◌⊎◌, inl, inr, List, [], ◌∷◌, ◌++◌,
  arith, Bytes, length, length-append, take, get_elem?, All, leb, if◌then◌else◌,
}
use aether_fx.BoundedText.{new, boundary_end, is_char_boundary, starts_char, is_continuation}

boundary_end-le : (s : Bytes) (n : ℕ) → boundary_end s n ≤ n
unfolding boundary_end
boundary_end-le s zero = omega arith
boundary_end-le s (suc n) = ground (arith, boundary_end-le s n)

-- One encoded character: a byte that starts it, and its continuation bytes.
pub record Encoded : Type 0 where
  pub lead : ℕ
  pub tail : Bytes
  pub lead_starts : is_continuation lead ≡ false
  pub tail_continues : All (λ b. is_continuation b ≡ true) tail

abbrev pub bytes_of : Encoded → Bytes
bytes_of c = c.lead ∷ c.tail

abbrev pub encode : List Encoded → Bytes
encode [] = []
encode (c ∷ cs) = bytes_of c ++ encode cs

-- The longest run of leading characters that fits.
abbrev pub fit : ℕ → List Encoded → List Encoded
fit room [] = []
fit room (c ∷ cs) =
    if leb (length (bytes_of c)) room then c ∷ fit (room - length (bytes_of c)) cs else []

get_elem?-append_right :
    (xs ys : Bytes) (i : ℕ) → get_elem? (xs ++ ys) (length xs + i) ≡ get_elem? ys i
get_elem?-append_right [] ys i = let e : zero + i ≡ i = omega arith in rw e
get_elem?-append_right (x ∷ xs) ys i =
    let e : suc (length xs) + i ≡ suc (length xs + i) = omega arith in
    rw e (get_elem?-append_right xs ys i)

-- Inside a character no position is a boundary.
inside_tail :
    (tail rest : Bytes) (i : ℕ)
    → All (λ b. is_continuation b ≡ true) tail
    → i < length tail
    → starts_char (get_elem? (tail ++ rest) i) ≡ false
inside_tail [] rest i h lt = absurd (omega arith)
inside_tail (b ∷ tail) rest zero h lt = rw h.0
inside_tail (b ∷ tail) rest (suc i) h lt = inside_tail tail rest i h.1 (omega arith)

boundary_end_inside :
    (c : Encoded) (rest : Bytes) (n : ℕ)
    → n < length (bytes_of c)
    → boundary_end (bytes_of c ++ rest) n ≡ 0
unfolding boundary_end is_char_boundary
boundary_end_inside c rest zero lt = refl
boundary_end_inside c rest (suc n) lt = ground (
  arith,
  inside_tail c.tail rest n c.tail_continues,
  length-append c.tail rest,
  boundary_end_inside c rest n,
)

encode_starts :
    (cs : List Encoded) → (encode cs ≡ []) ⊎ (starts_char (get_elem? (encode cs) 0) ≡ true)
encode_starts [] = inl refl
encode_starts (c ∷ cs) = inr (rw c.lead_starts)

is_char_boundary-append :
    (c : Encoded) (cs : List Encoded) (n : ℕ)
    → is_char_boundary (bytes_of c ++ encode cs) (length (bytes_of c) + n)
      ≡ is_char_boundary (encode cs) n
unfolding is_char_boundary
is_char_boundary-append c cs n = ground (
  arith,
  get_elem?-append_right (bytes_of c) (encode cs) n,
  length-append c.tail (encode cs),
  encode_starts cs,
)

is_char_boundary-zero : (s : Bytes) → is_char_boundary s 0 ≡ true
unfolding is_char_boundary
is_char_boundary-zero s = refl

boundary_end-append :
    (c : Encoded) (cs : List Encoded) (n m : ℕ)
    → m ≡ length (bytes_of c) + n
    → boundary_end (bytes_of c ++ encode cs) m ≡ length (bytes_of c) + boundary_end (encode cs) n
unfolding boundary_end
boundary_end-append c cs zero zero e = absurd (omega arith)
boundary_end-append c cs zero (suc m) e =
    ground (arith, is_char_boundary-append c cs 0, is_char_boundary-zero (encode cs))
boundary_end-append c cs (suc n) zero e = absurd (omega arith)
boundary_end-append c cs (suc n) (suc m) e =
    ground (arith, is_char_boundary-append c cs (suc n), boundary_end-append c cs n m)

take-append : (xs ys : Bytes) (k : ℕ) → take (length xs + k) (xs ++ ys) ≡ xs ++ take k ys
take-append [] ys k = let e : zero + k ≡ k = omega arith in rw e
take-append (x ∷ xs) ys k =
    let e : suc (length xs) + k ≡ suc (length xs + k) = omega arith in rw (e, take-append xs ys k)

cut : Bytes → ℕ → Bytes
cut s room = take (boundary_end s (min (length s) room)) s

cut-append :
    (c : Encoded) (cs : List Encoded) (room : ℕ)
    → length (bytes_of c) ≤ room
    → cut (bytes_of c ++ encode cs) room
      ≡ bytes_of c ++ cut (encode cs) (room - length (bytes_of c))
unfolding cut
cut-append c cs room h =
    let left = min (length (encode cs)) (room - length (bytes_of c)) in
    let e : min (length (bytes_of c ++ encode cs)) room ≡ length (bytes_of c) + left =
      omega (arith, length-append c.tail (encode cs)) in
    rw (boundary_end-append c cs left _ e)
      (take-append (bytes_of c) (encode cs) (boundary_end (encode cs) left))

cut_inside :
    (c : Encoded) (cs : List Encoded) (room : ℕ)
    → room < length (bytes_of c)
    → cut (bytes_of c ++ encode cs) room ≡ []
unfolding cut
cut_inside c cs room h =
    rw (
      boundary_end_inside c (encode cs) (min (length (bytes_of c ++ encode cs)) room) (omega arith))

cut-fit : (cs : List Encoded) (room : ℕ) → cut (encode cs) room ≡ encode (fit room cs)
unfolding cut boundary_end
cut-fit [] room = ground arith
cut-fit (c ∷ cs) room =
    ground
      (arith, cut-append c cs room, cut_inside c cs room, cut-fit cs (room - length (bytes_of c)))

-- The cut keeps exactly the leading characters that fit, whole.
pub text-new :
    (cs : List Encoded) (max_bytes : ℕ)
    → (new (encode cs) max_bytes).text ≡ encode (fit max_bytes cs)
unfolding new cut
text-new cs max_bytes = cut-fit cs max_bytes
