-- ===== src/BoundedText.antt =====
-- crates/aether-core/src/limits.rs: text with a byte ceiling that never splits a character.
-- A `str` is the list of its bytes; `is_char_boundary` is the standard library's, as documented.
pub mod Limits
pub mod Prefix
pub mod Tests
use aether_fx.Base.{
  ℕ, zero, suc, min, Bool, true, false, not, ◌&&◌, ◌||◌, Option, none, some, [], ◌≡◌, ◌↔◌, arith,
  Bytes, bytes_eq, bytes_eq_iff, length, take, get_elem?, ltb, leb, ◌==◌, if◌then◌else◌,
}

pub record OutputLimit : Type 0 where
  pub truncated : Bool
  pub original_bytes : ℕ
  pub retained_bytes : ℕ

pub record BoundedText : Type 0 where
  pub text : Bytes
  pub limit : OutputLimit

-- A continuation byte of UTF-8 is 10xxxxxx.
abbrev pub is_continuation : ℕ → Bool
is_continuation b = leb 128 b && ltb b 192

abbrev pub starts_char : Option ℕ → Bool
starts_char none = false
starts_char (some b) = not (is_continuation b)

pub is_char_boundary : Bytes → ℕ → Bool
is_char_boundary s i = i == 0 || i == length s || starts_char (get_elem? s i)

-- The loop `while end > 0 && !value.is_char_boundary(end) { end -= 1; }`.
pub boundary_end : Bytes → ℕ → ℕ
boundary_end s zero = zero
boundary_end s (suc n) = if is_char_boundary s (suc n) then suc n else boundary_end s n

unfoldable pub new : Bytes → ℕ → BoundedText
unfolding boundary_end is_char_boundary
new value max_bytes =
    let original_bytes = length value in
    let end = boundary_end value (min original_bytes max_bytes) in
    record {
      text = take end value;
      limit = record {
        truncated = ltb end original_bytes;
        original_bytes = original_bytes;
        retained_bytes = end;
      };
    }

abbrev pub is_truncated : BoundedText → Bool
is_truncated t = t.limit.truncated

abbrev bool_eq : Bool → Bool → Bool
bool_eq true b = b
bool_eq false b = not b

-- The derived `==`, which compares the metadata too.
unfoldable pub text_eq : BoundedText → BoundedText → Bool
text_eq a b =
    bytes_eq a.text b.text
    && bool_eq a.limit.truncated b.limit.truncated
    && a.limit.original_bytes == b.limit.original_bytes
    && a.limit.retained_bytes == b.limit.retained_bytes

pub text_eq_iff : (a b : BoundedText) → (text_eq a b ≡ true) ↔ (a ≡ b)
unfolding text_eq
text_eq_iff a b = ground (arith, bytes_eq_iff a.text b.text)

-- `BoundedText::default()`.
abbrev pub empty_text : BoundedText
empty_text = record {
  text = [];
  limit = record { truncated = false; original_bytes = 0; retained_bytes = 0 };
}
