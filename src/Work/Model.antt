-- ===== src/Work/Model.antt =====
-- crates/aether-core/src/work.rs: the fields of an outline of work that the model sends.
pub mod Cycle
pub mod Update
use aether_fx.Base.{
  ℕ, Bool, true, false, not, ◌&&◌, ◌||◌, Option, none, some, List, [], ◌∷◌, ◌++◌, Bytes, bytes_eq,
  codes, is_empty, any, all, leb, ltb, length, ◌==◌, if◌then◌else◌,
}
use aether_fx.Base.Options.{◌>>=◌, ◌>>◌, guard}
use mathlib.Core.List.{reverse}
use aether_fx.BoundedText.{is_truncated}
use aether_fx.CoreError.{CoreResult}
use aether_fx.WorkspacePath
use aether_fx.Work.{bounded, max_work_relations}

-- The accessors of a JSON value and of a JSON object, which the code takes from its JSON library.
pub record Json (Value Object : Type 0) : Type 0 where
  pub get : Value → Bytes → Option Value
  pub as_array : Value → Option (List Value)
  pub as_object : Value → Option Object
  pub as_str : Value → Option Bytes
  pub field : Object → Bytes → Option Value

-- White space of one, two and three bytes.
abbrev pub is_space : ℕ → Bool
is_space a = a == 32 || leb 9 a && leb a 13

abbrev pub is_space2 : ℕ → ℕ → Bool
is_space2 a b = a == 194 && (b == 133 || b == 160)

abbrev pub is_space3 : ℕ → ℕ → ℕ → Bool
is_space3 a b c =
    a == 225 && b == 154 && c == 128
    || a == 226 && b == 128 && (leb 128 c && leb c 138 || c == 168 || c == 169 || c == 175)
    || a == 226 && b == 129 && c == 159
    || a == 227 && b == 128 && c == 128

-- Drops white space at the front, whose bytes stand in the order that the tests read.
pub trim_front : (ℕ → ℕ → Bool) → (ℕ → ℕ → ℕ → Bool) → Bytes → Bytes
trim_front two three [] = []
trim_front two three (a ∷ []) = if is_space a then [] else a ∷ []
trim_front two three (a ∷ b ∷ []) =
    if is_space a then trim_front two three (b ∷ []) else if two a b then [] else a ∷ b ∷ []
trim_front two three (a ∷ b ∷ c ∷ s) =
    let one_less = trim_front two three (b ∷ c ∷ s) in
    let two_less = trim_front two three (c ∷ s) in
    let three_less = trim_front two three s in
    if is_space a
    then one_less
    else if two a b
    then two_less
    else if three a b c
    then three_less
    else a ∷ b ∷ c ∷ s

-- `str::trim`.
pub trim : Bytes → Bytes
unfolding trim_front
trim s = reverse (
    trim_front (λ a b. is_space2 b a) (λ a b c. is_space3 c b a)
      (reverse (trim_front is_space2 is_space3 s)))

pub bounded_model_text : Option Bytes → Option Bytes
unfolding trim
bounded_model_text none = none
bounded_model_text (some value) = do
  let trimmed = trim value
  guard (not (is_empty trimmed))
  guard (not (is_truncated (bounded trimmed)))
  some (bounded trimmed).text

abbrev pub is_valid : CoreResult Bytes → Bool
is_valid r = elim r [ CoreResult.ok _ ↦ true | CoreResult.err _ ↦ false ]

module _ {Value Object : Type 0} (json : Json Value Object) where
  -- The loop of `bounded_model_relations`.
  pub relations_from : List Value → List Bytes → Option (List Bytes)
  relations_from [] relations = some relations
  relations_from (value ∷ values) relations = do
    relation ← bounded_model_text (json.as_str value)
    relations_from values
        (if any (bytes_eq relation) relations then relations else relations ++ relation ∷ [])

  pub bounded_model_relations : Option Value → Option (List Bytes)
  unfolding relations_from
  bounded_model_relations none = some []
  bounded_model_relations (some value) = do
    values ← json.as_array value
    guard (leb (length values) max_work_relations)
    relations_from values []

  pub bounded_model_paths : Option Value → Option (List Bytes)
  unfolding bounded_model_relations
  bounded_model_paths value = do
    paths ← bounded_model_relations value
    guard (all (λ path. is_valid (WorkspacePath.new path)) paths)
    some paths
