-- ===== src/Verification/Words.antt =====
-- The words that the quoting rules of a shell give a displayed command.
use aether_fx.Base.{
  ℕ, Bool, true, false, not, ◌&&◌, ◌||◌, Option, none, some, codes, any, ◌⊎◌, sym, List, [], ◌∷◌,
  ◌++◌, map, Bytes, is_empty, all, ◌==◌, ==_iff, if◌then◌else◌, Bool-cases, inl, inr, ◌≡◌, ◌∙◌,
  refl, subst, ap, arith,
}
use aether_fx.Verification.{
  PlannedCommand, is_plain, space, quote, backslash, escape, shell_word, join, display,
}

-- Outside quotes, inside them, and after a backslash.
pub data Mode : Type 0 where
  plain quoted escaped : Mode

-- The bytes besides space, quote and backslash that mean something to a shell when nothing quotes
-- them. A tab and the ends of lines are among them.
abbrev pub special_bytes : Bytes
special_bytes = 9 ∷ 10 ∷ 13 ∷ codes "|&;<>()$`*?[]#~!{}^%" ++ b'"' ∷ []

-- In the first word an equals sign would make an assignment.
abbrev pub is_special : Bool → ℕ → Bool
is_special first b = any (λ c. b == c) special_bytes || (first && b == b'=')

abbrev pub begun : Option Bytes → Bytes
begun none = []
begun (some word) = word

abbrev pub with_word : Bytes → Option (List Bytes) → Option (List Bytes)
with_word word none = none
with_word word (some words) = some (word ∷ words)

-- The words of a line, with the part of the current word that was read, if one was begun. There are
-- none where a special byte is not quoted, or a quote is not closed.
pub split : Bool → Mode → Option Bytes → Bytes → Option (List Bytes)
split first Mode.plain none [] = some []
split first Mode.plain (some word) [] = some (word ∷ [])
split first Mode.quoted word [] = none
split first Mode.escaped word [] = none
split first Mode.plain word (b ∷ s) =
    if b == space
    then elim word [
      | none ↦ split first Mode.plain none s
      | some w ↦ with_word w (split false Mode.plain none s)
    ]
    else if b == quote
    then split first Mode.quoted (some (begun word)) s
    else if b == backslash
    then split first Mode.escaped word s
    else if is_special first b
    then none
    else split first Mode.plain (some (begun word ++ b ∷ [])) s
split first Mode.quoted word (b ∷ s) =
    if b == quote
    then split first Mode.plain word s
    else split first Mode.quoted (some (begun word ++ b ∷ [])) s
split first Mode.escaped word (b ∷ s) = split first Mode.plain (some (begun word ++ b ∷ [])) s

append_assoc : (a b c : Bytes) → (a ++ b) ++ c ≡ a ++ (b ++ c)
append_assoc [] b c = refl
append_assoc (x ∷ a) b c = ap (◌∷◌ x) (append_assoc a b c)

append_nil : (a : Bytes) → a ++ [] ≡ a
append_nil [] = refl
append_nil (x ∷ a) = ap (◌∷◌ x) (append_nil a)

abbrev has_no_equals : Bytes → Bool
has_no_equals = all (λ b. not (b == b'='))

-- The word may stand first, or does not.
abbrev Allowed : Bool → Bytes → Type 0
Allowed first word = (first ≡ false) ⊎ (has_no_equals word ≡ true)

plain-other :
    (b : ℕ) (bs : Bytes)
    → all (λ c. not (is_plain c)) bs ≡ true
    → is_plain b ≡ true
    → any (λ c. b == c) bs ≡ false
plain-other b [] h p = refl
plain-other b (c ∷ bs) h p = elim (Bool-cases (b == c)) [
  | inl e ↦
      let same =
        subst (λ c. not (is_plain c) ≡ true) (sym ((==_iff b c).0 e)) (ground (arith, h)) in
      absurd (ground (arith, same, p))
  | inr e ↦ ground (arith, e, plain-other b bs (ground (arith, h)) p)
]

plain-special :
    (first : Bool) (b : ℕ) (w : Bytes)
    → is_plain b ≡ true
    → Allowed first (b ∷ w)
    → is_special first b ≡ false
plain-special first b w p a =
    let other = plain-other b special_bytes refl p in
    elim a [ inl e ↦ rw other (rw e refl) | inr e ↦ rw other (ground (arith, e)) ]

Allowed-tail : (first : Bool) (b : ℕ) (w : Bytes) → Allowed first (b ∷ w) → Allowed first w
Allowed-tail first b w (inl e) = inl e
Allowed-tail first b w (inr e) = inr (ground (arith, e))

plain-unquoted :
    (b : ℕ)
    → is_plain b ≡ true
    → ((b == space) ≡ false) × ((b == quote) ≡ false) × ((b == backslash) ≡ false)
plain-unquoted b h = (ground (arith, h), ground (arith, h), ground (arith, h))

split-plain_byte :
    (first : Bool) (b : ℕ) (w : Bytes) (word : Option Bytes) (rest : Bytes)
    → is_plain b ≡ true
    → Allowed first (b ∷ w)
    → split first Mode.plain word (b ∷ rest)
      ≡ split first Mode.plain (some (begun word ++ b ∷ [])) rest
unfolding split
split-plain_byte first b w none rest h a =
    let (s, q, k) = plain-unquoted b h in rw s (rw q (rw k (rw (plain-special first b w h a) refl)))
split-plain_byte first b w (some word) rest h a =
    let (s, q, k) = plain-unquoted b h in rw s (rw q (rw k (rw (plain-special first b w h a) refl)))

split-plain :
    (first : Bool) (w word rest : Bytes)
    → all is_plain w ≡ true
    → Allowed first w
    → split first Mode.plain (some word) (w ++ rest)
      ≡ split first Mode.plain (some (word ++ w)) rest
split-plain first [] word rest h a = rw (append_nil word) refl
split-plain first (b ∷ w) word rest h a =
    split-plain_byte first b w (some word) (w ++ rest) (ground (arith, h)) a
    ∙ split-plain first w (word ++ b ∷ []) rest (ground (arith, h)) (Allowed-tail first b w a)
    ∙ ap (λ v. split first Mode.plain (some v) rest) (append_assoc word (b ∷ []) w)

split-escape :
    (first : Bool) (w word rest : Bytes)
    → split first Mode.quoted (some word) (escape w ++ quote ∷ rest)
      ≡ split first Mode.plain (some (word ++ w)) rest
unfolding split
split-escape first [] word rest = rw (append_nil word) refl
split-escape first (b ∷ w) word rest =
    let next = split-escape first w (word ++ b ∷ []) rest in
    let joined = append_assoc word (b ∷ []) w in
    let moved = next ∙ ap (λ v. split first Mode.plain (some v) rest) joined in
    elim (Bool-cases (b == quote)) [
      | inl e ↦ rw e (
          subst
            (λ c.
              split first Mode.quoted (some (word ++ c ∷ [])) (escape w ++ quote ∷ rest)
              ≡ split first Mode.plain (some (word ++ b ∷ w)) rest)
            ((==_iff b quote).0 e) moved)
      | inr e ↦ rw e (rw e moved)
    ]

append_quote : (w rest : Bytes) → (escape w ++ quote ∷ []) ++ rest ≡ escape w ++ quote ∷ rest
append_quote w rest = append_assoc (escape w) (quote ∷ []) rest

split-bare :
    (first : Bool) (w rest : Bytes)
    → not (is_empty w) && all is_plain w ≡ true
    → Allowed first w
    → split first Mode.plain none (w ++ rest) ≡ split first Mode.plain (some w) rest
split-bare first [] rest h a = absurd (ground (arith, h))
split-bare first (b ∷ w) rest h a =
    split-plain_byte first b w none (w ++ rest) (ground (arith, h)) a
    ∙ split-plain first w (b ∷ []) rest (ground (arith, h)) (Allowed-tail first b w a)

split-shell_word :
    (first : Bool) (w rest : Bytes)
    → Allowed first w
    → split first Mode.plain none (shell_word w ++ rest) ≡ split first Mode.plain (some w) rest
unfolding shell_word split
split-shell_word first w rest a = elim (Bool-cases (not (is_empty w) && all is_plain w)) [
  | inl e ↦ rw e (split-bare first w rest e a)
  | inr e ↦
      rw e (
        ap (split first Mode.quoted (some [])) (append_quote w rest) ∙ split-escape first w [] rest)
]

split-join :
    (first : Bool) (w : Bytes) (ws : List Bytes)
    → Allowed first w
    → split first Mode.plain none (join (map shell_word (w ∷ ws))) ≡ some (w ∷ ws)
unfolding split
split-join first w [] a =
    subst (λ line. split first Mode.plain none line ≡ some (w ∷ [])) (append_nil (shell_word w))
      (split-shell_word first w [] a)
split-join first w (v ∷ ws) a =
    split-shell_word first w (space ∷ join (map shell_word (v ∷ ws))) a
    ∙ ap (with_word w) (split-join false v ws (inl refl))

-- By the quoting rules of a shell, where the bytes that mean something to it have to be quoted, an
-- equals sign is one of them in the first word, and an empty word has to be quoted, a displayed
-- command splits into exactly its program and its arguments, whatever bytes are in them, if the
-- program has no equals sign. Reserved words and aliases are not considered.
pub split-display :
    (c : PlannedCommand)
    → has_no_equals c.program ≡ true
    → split true Mode.plain none (display c) ≡ some (c.program ∷ c.args)
split-display c h = split-join true c.program c.args (inr h)
