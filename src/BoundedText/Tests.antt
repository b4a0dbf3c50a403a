-- ===== src/BoundedText/Tests.antt =====
-- A text of three characters, cut inside the second.
use aether_fx.Base.{List, [], ◌∷◌, length, true, ◌≤◌, ◌≡◌, refl}
use aether_fx.BoundedText.{new}
use aether_fx.BoundedText.Prefix.{Encoded, encode, fit, text-new}
use aether_fx.BoundedText.Limits.{new_limit}

abbrev accented : List Encoded
accented =
    record { lead = b'a'; tail = []; lead_starts = refl; tail_continues = tt }
    ∷ record { lead = 0xc3; tail = 0xa9 ∷ []; lead_starts = refl; tail_continues = (refl, tt) }
    ∷ record { lead = b'b'; tail = []; lead_starts = refl; tail_continues = tt }
    ∷ []

cut_inside_runs : (new (encode accented) 2).text ≡ b'a' ∷ []
unfolding new
cut_inside_runs = refl

text-new_example : (new (encode accented) 2).text ≡ encode (fit 2 accented)
text-new_example = text-new accented 2

new_limit_example :
    let t = new (encode accented) 2 in
    (length t.text ≤ 2)
    × (t.limit.retained_bytes ≡ length t.text)
    × (t.limit.original_bytes ≡ 4)
    × (t.limit.truncated ≡ true)
new_limit_example = new_limit (encode accented) 2
