-- ===== src/Map/Laws.antt =====
-- The laws of the maps, with no side condition.
use obsidian_mcp.Common.{◌≡◌, refl, none, some, [], ◌∷◌, arith, Bool-cases, inl, inr, if◌then◌else◌}
use obsidian_mcp.Text.{Text, text_eq}
use obsidian_mcp.Text.Compare.{text_eq_iff}
use obsidian_mcp.Map.{Map, lookup, insert, remove, get_or}

module _ {ℓ} {V : Type ℓ} where
  pub lookup-insert :
      (k j : Text) (v : V) (m : Map V)
      → lookup j (insert k v m) ≡ (if text_eq k j then some v else lookup j m)
  unfolding lookup insert
  lookup-insert k j v [] = refl
  lookup-insert k j v ((i, w) ∷ m) =
      ground (arith, text_eq_iff k j, text_eq_iff i k, text_eq_iff i j, lookup-insert k j v m)

  pub lookup-remove :
      (k j : Text) (m : Map V) → lookup j (remove k m) ≡ (if text_eq k j then none else lookup j m)
  unfolding lookup remove
  lookup-remove k j [] = ground arith
  lookup-remove k j ((i, w) ∷ m) =
      ground (arith, text_eq_iff k j, text_eq_iff i k, text_eq_iff i j, lookup-remove k j m)

pub lookup-nil {ℓ} : {V : Type ℓ} (k : Text) → lookup {V = V} k [] ≡ none
unfolding lookup
lookup-nil k = refl

pub get_or-insert {ℓ} :
    {V : Type ℓ} (d : V) (k j : Text) (v : V) (m : Map V)
    → get_or d j (insert k v m) ≡ (if text_eq k j then v else get_or d j m)
get_or-insert d k j v m = elim (Bool-cases (text_eq k j)) [
  | inl e ↦ rw (get_or, lookup-insert k j v m, e) refl
  | inr e ↦ rw (get_or, lookup-insert k j v m, e) refl
]

pub get_or-remove {ℓ} :
    {V : Type ℓ} (d : V) (k j : Text) (m : Map V)
    → get_or d j (remove k m) ≡ (if text_eq k j then d else get_or d j m)
get_or-remove d k j m = elim (Bool-cases (text_eq k j)) [
  | inl e ↦ rw (get_or, lookup-remove k j m, e) refl
  | inr e ↦ rw (get_or, lookup-remove k j m, e) refl
]

pub ruleset map_laws = (lookup-insert, lookup-remove, lookup-nil)
