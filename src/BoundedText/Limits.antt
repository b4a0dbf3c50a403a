-- ===== src/BoundedText/Limits.antt =====
-- The metadata of a bounded text, and what bounding does to a text that already fits.
use aether_fx.Base.{
  ℕ, zero, suc, ◌≤◌, min, ◌≡◌, refl, ap, ◌∷◌, false, arith, Bytes, length, length-take, take, ltb,
  [],
}
use aether_fx.BoundedText.{BoundedText, new, boundary_end, is_char_boundary}

pub boundary_end-le : (s : Bytes) (n : ℕ) → boundary_end s n ≤ n
unfolding boundary_end
boundary_end-le s zero = omega arith
boundary_end-le s (suc n) = ground (arith, boundary_end-le s n)

boundary_end-length : (s : Bytes) (n : ℕ) → n ≡ length s → boundary_end s n ≡ n
unfolding boundary_end is_char_boundary
boundary_end-length s zero e = refl
boundary_end-length s (suc n) e = ground arith

-- The text is within the ceiling, the counts are those of the two texts, and the flag says exactly
-- whether the original was longer than the ceiling.
pub new_limit :
    (value : Bytes) (max_bytes : ℕ)
    → let t = new value max_bytes in
      (length t.text ≤ max_bytes)
      × (t.limit.retained_bytes ≡ length t.text)
      × (t.limit.original_bytes ≡ length value)
      × (t.limit.truncated ≡ ltb max_bytes (length value))
unfolding new
new_limit value max_bytes = ground (
  arith,
  boundary_end-le value (min (length value) max_bytes),
  boundary_end-length value (min (length value) max_bytes),
  length-take (boundary_end value (min (length value) max_bytes)) value,
)

take-length : (s : Bytes) (n : ℕ) → n ≡ length s → take n s ≡ s
take-length [] zero e = refl
take-length [] (suc n) e = absurd (omega arith)
take-length (x ∷ s) zero e = absurd (omega arith)
take-length (x ∷ s) (suc n) e = ap (◌∷◌ x) (take-length s n (omega arith))

abbrev pub whole : Bytes → BoundedText
whole s = record {
  text = s;
  limit = record { truncated = false; original_bytes = length s; retained_bytes = length s };
}

-- A text within the ceiling is kept as it is.
pub new_fits : (s : Bytes) (max_bytes : ℕ) → length s ≤ max_bytes → new s max_bytes ≡ whole s
unfolding new
new_fits s max_bytes h =
    let room = min (length s) max_bytes in
    ground (arith, boundary_end-length s room, take-length s (boundary_end s room))
