-- ===== src/Common/Lists.antt =====
-- Lists measured by native numbers and filtered by Boolean tests, under the library's names.
use Prim.Native.Nat.{ℕ, zero, suc, ◌+◌, ◌≤◌}
use mathlib.Core.Path.{◌≡◌, refl}
use mathlib.Core.Logic.{◌⊎◌, inl, inr}
use mathlib.Core.Bool.{Bool, true, false, ◌&&◌, ◌||◌}
use mathlib.Core.List.{List, [], ◌∷◌, ◌++◌, reverse, reverse-cons}
use mathlib.Core.Option.{Option, none, some}
use native.Mathlib.Omega.{arith}
use obsidian_mcp.Common.Tests.{if◌then◌else◌, Bool-cases}

module _ {ℓ} {A : Type ℓ} where
  abbrev pub length : List A → ℕ
  length [] = 0
  length (x ∷ xs) = suc (length xs)

  abbrev pub get_elem? : List A → ℕ → Option A
  get_elem? [] i = none
  get_elem? (x ∷ xs) zero = some x
  get_elem? (x ∷ xs) (suc i) = get_elem? xs i

  abbrev pub filter : (A → Bool) → List A → List A
  filter p [] = []
  filter p (x ∷ xs) = if p x then x ∷ filter p xs else filter p xs

  abbrev pub any : (A → Bool) → List A → Bool
  any p [] = false
  any p (x ∷ xs) = p x || any p xs

  abbrev pub all : (A → Bool) → List A → Bool
  all p [] = true
  all p (x ∷ xs) = p x && all p xs

  abbrev pub find : (A → Bool) → List A → Option A
  find p [] = none
  find p (x ∷ xs) = if p x then some x else find p xs

  abbrev pub take : ℕ → List A → List A
  take zero xs = []
  take (suc n) [] = []
  take (suc n) (x ∷ xs) = x ∷ take n xs

  abbrev pub drop : ℕ → List A → List A
  drop zero xs = xs
  drop (suc n) [] = []
  drop (suc n) (x ∷ xs) = drop n xs

  pub length-append : (xs ys : List A) → length (xs ++ ys) ≡ length xs + length ys
  length-append [] ys = omega arith
  length-append (x ∷ xs) ys = omega (arith, length-append xs ys)

  pub filter-append :
      (p : A → Bool) (xs ys : List A) → filter p (xs ++ ys) ≡ filter p xs ++ filter p ys
  filter-append p [] ys = refl
  filter-append p (x ∷ xs) ys = ground (arith, filter-append p xs ys)

  pub filter-append_last :
      (p : A → Bool) (xs : List A) (x : A)
      → filter p (xs ++ x ∷ []) ≡ (if p x then filter p xs ++ x ∷ [] else filter p xs)
  filter-append_last p [] x = ground arith
  filter-append_last p (y ∷ xs) x = ground (arith, filter-append_last p xs x)

  pub filter_comm : (p q : A → Bool) (xs : List A) → filter p (filter q xs) ≡ filter q (filter p xs)
  filter_comm p q [] = refl
  filter_comm p q (x ∷ xs) = ground (arith, filter_comm p q xs)

  pub filter-filter :
      (p q : A → Bool) (xs : List A) → filter p (filter q xs) ≡ filter (λ x. q x && p x) xs
  filter-filter p q [] = refl
  filter-filter p q (x ∷ xs) = ground (arith, filter-filter p q xs)

  pub length-filter-le : (p : A → Bool) (xs : List A) → length (filter p xs) ≤ length xs
  length-filter-le p [] = omega arith
  length-filter-le p (x ∷ xs) = ground (arith, length-filter-le p xs)

  -- A member that passes both tests.
  pub any-all :
      (p q : A → Bool) (xs : List A)
      → any p xs ≡ true
      → all q xs ≡ true
      → (x : A) × (p x ≡ true) × (q x ≡ true)
  any-all p q [] h k = absurd (ground arith)
  any-all p q (x ∷ xs) h k = elim (Bool-cases (p x)) [
    | inl e ↦ (x, e, ground arith)
    | inr e ↦ any-all p q xs (ground arith) (ground arith)
  ]

module _ {ℓ κ} {A : Type ℓ} (P : A → Type κ) where
  -- Every member of the list has the property.
  abbrev pub All : List A → Type κ
  All [] = Unit
  All (x ∷ xs) = P x × All xs

  pub All-append : (xs ys : List A) → All xs → All ys → All (xs ++ ys)
  All-append [] ys _ hy = hy
  All-append (x ∷ xs) ys (px, hx) hy = (px, All-append xs ys hx hy)

module _ {ℓ κ} {A : Type ℓ} (P : A → Type κ) where
  pub All-reverse : (xs : List A) → All P xs → All P (reverse xs)
  All-reverse [] h = tt
  All-reverse (x ∷ xs) (hx, hs) =
      rw reverse-cons (All-append P (reverse xs) (x ∷ []) (All-reverse xs hs) (hx, tt))

  pub All-and {κ'} : (Q : A → Type κ') (xs : List A) → All P xs → All Q xs → All (λ x. P x × Q x) xs
  All-and Q [] h k = tt
  All-and Q (x ∷ xs) (hx, hs) (kx, ks) = ((hx, kx), All-and Q xs hs ks)

module _ {A : Type 0} (P : A → Type 0) where
  -- Some member of the list has the property, and which one is kept.
  abbrev pub Any : List A → Type 0
  Any [] = ⊥
  Any (x ∷ xs) = P x ⊎ Any xs

  pub Any-append_left : (xs ys : List A) → Any xs → Any (xs ++ ys)
  Any-append_left [] ys h = absurd h
  Any-append_left (x ∷ xs) ys (inl h) = inl h
  Any-append_left (x ∷ xs) ys (inr h) = inr (Any-append_left xs ys h)

module _ {ℓ κ} {A : Type ℓ} {P : A → Type κ} where
  pub All-of_all :
      (p : A → Bool) (xs : List A) → ((x : A) → p x ≡ true → P x) → all p xs ≡ true → All P xs
  All-of_all p [] sound h = tt
  All-of_all p (x ∷ xs) sound h = (sound x (ground arith), All-of_all p xs sound (ground arith))

  pub all-of_All :
      (p : A → Bool) (xs : List A) → ((x : A) → P x → p x ≡ true) → All P xs → all p xs ≡ true
  all-of_All p [] complete h = refl
  all-of_All p (x ∷ xs) complete (hx, hs) = rw (complete x hx) (all-of_All p xs complete hs)

module _ {A : Type 0} {P : A → Type 0} where
  pub Any-of_any :
      (p : A → Bool) (xs : List A) → ((x : A) → p x ≡ true → P x) → any p xs ≡ true → Any P xs
  Any-of_any p [] sound h = absurd (ground arith)
  Any-of_any p (x ∷ xs) sound h = elim (Bool-cases (p x)) [
    | inl e ↦ inl (sound x e)
    | inr e ↦ inr (Any-of_any p xs sound (ground arith))
  ]
