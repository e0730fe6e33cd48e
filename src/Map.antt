-- ===== src/Map.antt =====
-- `HashMap` and `HashSet` with text keys, as association lists. The program's results do not depend
-- on the order of iteration in what is modelled here.
pub mod Laws
pub mod Sums
use obsidian_mcp.Common.{Bool, true, false, Option, none, some, List, [], ◌∷◌, if◌then◌else◌}
use obsidian_mcp.Text.{Text, text_eq}

abbrev pub Map {ℓ} : Type ℓ → Type ℓ
Map V = List (Text × V)

module _ {ℓ} {V : Type ℓ} where
  -- `m.get(k)`
  unfoldable pub lookup : Text → Map V → Option V
  lookup k [] = none
  lookup k ((j, v) ∷ m) = if text_eq j k then some v else lookup k m

  -- `m.insert(k, v)`
  unfoldable pub insert : Text → V → Map V → Map V
  insert k v [] = (k, v) ∷ []
  insert k v ((j, w) ∷ m) = if text_eq j k then (k, v) ∷ m else (j, w) ∷ insert k v m

  -- `m.remove(k)`
  unfoldable pub remove : Text → Map V → Map V
  remove k [] = []
  remove k ((j, w) ∷ m) = if text_eq j k then remove k m else (j, w) ∷ remove k m

  -- `m.contains_key(k)`
  abbrev pub contains_key : Text → Map V → Bool
  contains_key k m = elim (lookup k m) [ none ↦ false | some v ↦ true ]

  -- `m.get(k).unwrap_or(d)`
  abbrev pub get_or : V → Text → Map V → V
  get_or d k m = elim (lookup k m) [ none ↦ d | some v ↦ v ]

-- `HashSet` with text members
abbrev pub Set : Type 0
Set = Map (Unit {0})

abbrev pub add : Text → Set → Set
add k s = insert k tt s
