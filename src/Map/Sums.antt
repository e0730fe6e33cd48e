-- ===== src/Map/Sums.antt =====
-- Sums over the values of a map with one entry to a key.
use obsidian_mcp.Common.{
  ℕ, ◌+◌, ◌≡◌, refl, ◌∙◌, subst, none, some, Option, [], ◌∷◌, arith, if◌then◌else◌, length,
  Bool-cases, Option-cases, inl, inr,
}
use obsidian_mcp.Text.{Text, text_eq}
use obsidian_mcp.Text.Compare.{text_eq_iff, text_eq_sound}
use obsidian_mcp.Map.{Map, lookup, insert, remove}
use obsidian_mcp.Map.Laws.{lookup-insert, lookup-remove}

module _ {V : Type 0} where
  -- The sum of a number for each value.
  abbrev pub total : (V → ℕ) → Map V → ℕ
  total f [] = 0
  total f ((k, v) ∷ m) = f v + total f m

  -- The number for a value that may be missing.
  abbrev pub weight : (V → ℕ) → Option V → ℕ
  weight f none = 0
  weight f (some v) = f v

  -- No key has two entries.
  abbrev pub Unique : Map V → Type 0
  Unique [] = Unit
  Unique ((k, v) ∷ m) = (lookup k m ≡ none) × Unique m

  pub length-total : (m : Map V) → total (λ _. 1) m ≡ length m
  length-total [] = refl
  length-total ((k, v) ∷ m) = omega (arith, length-total m)

  pub insert-Unique : (k : Text) (v : V) (m : Map V) → Unique m → Unique (insert k v m)
  unfolding insert
  insert-Unique k v [] h = (unfold lookup in refl, tt)
  insert-Unique k v ((j, w) ∷ m) (hj, h) = elim (Bool-cases (text_eq j k)) [
    | inl e ↦ rw e (subst (λ i. lookup i m ≡ none) (text_eq_sound j k e) hj, h)
    | inr e ↦ rw e (
      lookup-insert k j v m ∙ ground (arith, text_eq_iff j k, text_eq_iff k j),
      insert-Unique k v m h,
    )
  ]

  pub remove-Unique : (k : Text) (m : Map V) → Unique m → Unique (remove k m)
  unfolding remove
  remove-Unique k [] h = tt
  remove-Unique k ((j, w) ∷ m) (hj, h) = elim (Bool-cases (text_eq j k)) [
    | inl e ↦ rw e (remove-Unique k m h)
    | inr e ↦ rw e (
      lookup-remove k j m ∙ ground (arith, text_eq_iff j k, text_eq_iff k j),
      remove-Unique k m h,
    )
  ]

  pub total-insert :
      (f : V → ℕ) (k : Text) (v : V) (m : Map V)
      → total f (insert k v m) + weight f (lookup k m) ≡ total f m + f v
  unfolding insert lookup
  total-insert f k v [] = omega arith
  total-insert f k v ((j, w) ∷ m) = ground (arith, total-insert f k v m)

  pub absent-remove : (k : Text) (m : Map V) → lookup k m ≡ none → remove k m ≡ m
  unfolding lookup remove
  absent-remove k [] h = refl
  absent-remove k ((j, w) ∷ m) h = ground (arith, absent-remove k m)

  pub total-remove :
      (f : V → ℕ) (k : Text) (m : Map V)
      → Unique m
      → total f (remove k m) + weight f (lookup k m) ≡ total f m
  unfolding lookup remove
  total-remove f k [] h = omega arith
  total-remove f k ((j, w) ∷ m) (hj, h) = elim (Bool-cases (text_eq j k)) [
    | inl e ↦
        let gone : remove k m ≡ m =
          absent-remove k m (subst (λ i. lookup i m ≡ none) (text_eq_sound j k e) hj) in
        rw (e, gone) (omega arith)
    | inr e ↦ rw e (omega (arith, total-remove f k m h))
  ]

  pub length-remove :
      (k : Text) (m : Map V)
      → Unique m
      → length (remove k m) + weight (λ _. 1) (lookup k m) ≡ length m
  length-remove k m h =
      omega (arith, total-remove (λ _. 1) k m h, length-total m, length-total (remove k m))

  pub length-insert :
      (k : Text) (v : V) (m : Map V)
      → length (insert k v m) + weight (λ _. 1) (lookup k m) ≡ length m + 1
  length-insert k v m =
      omega (arith, total-insert (λ _. 1) k v m, length-total m, length-total (insert k v m))

  -- how often a key has an entry: not at all, or once
  abbrev pub count : Text → Map V → ℕ
  count k m = weight (λ _. 1) (lookup k m)

  pub count-insert :
      (k j : Text) (v : V) (m : Map V)
      → count j (insert k v m) ≡ (if text_eq k j then 1 else count j m)
  count-insert k j v m = rw lookup-insert (ground arith)

  pub count-remove :
      (k j : Text) (m : Map V) → count j (remove k m) ≡ (if text_eq k j then 0 else count j m)
  count-remove k j m = rw lookup-remove (ground arith)

  pub absent-weight : (f : V → ℕ) (k : Text) (m : Map V) → count k m ≡ 0 → weight f (lookup k m) ≡ 0
  absent-weight f k m h = elim (Option-cases (lookup k m)) [
    | inl e ↦ rw e refl
    | inr (v, e) ↦ absurd (ground (arith, e, h))
  ]
