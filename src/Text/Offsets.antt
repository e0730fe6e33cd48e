-- ===== src/Text/Offsets.antt =====
-- Byte offsets: character boundaries are the lengths of prefixes, and slices at them exist.
use obsidian_mcp.Common.{
  All, false, ◌≡◌, refl, sym, ap, subst, append-nil, true, ℕ, ◌+◌, ◌-◌, ◌≤◌, some, [], ◌∷◌, ◌++◌,
  arith, append_assoc, leb, ◌==◌, Bool-cases, Option-cases, some-eq, inl, inr,
}
use obsidian_mcp.Text.{
  Text, len, len_utf8, is_char_boundary, floor_char_boundary, slice_to, slice_from, slice,
  find_char,
}

pub len_utf8_pos : (c : ℕ) → 1 ≤ len_utf8 c
len_utf8_pos c = ground arith

pub len_utf8-le_four : (c : ℕ) → len_utf8 c ≤ 4
len_utf8-le_four c = ground arith

pub len-append : (s t : Text) → len (s ++ t) ≡ len s + len t
len-append [] t = omega arith
len-append (c ∷ s) t = omega (arith, len-append s t)

-- A text cut at a byte offset.
pub record Cut (s : Text) (n : ℕ) : Type 0 where
  pub before : Text
  pub after : Text
  pub whole : s ≡ before ++ after
  pub measure : len before ≡ n

-- At a boundary a text is cut in two.
pub Cut-at : (s : Text) (n : ℕ) → is_char_boundary s n ≡ true → Cut s n
Cut-at [] n h = record { before = []; after = []; whole = refl; measure = ground arith }
Cut-at (c ∷ s) n h = elim (Bool-cases (n == 0)) [
  | inl e ↦ record { before = []; after = c ∷ s; whole = refl; measure = ground arith }
  | inr e ↦
      let rest = Cut-at s (n - len_utf8 c) (ground arith) in
      record {
        before = c ∷ rest.before;
        after = rest.after;
        whole = ground (arith, rest.whole);
        measure = ground (arith, rest.measure);
      }
]

pub boundary_of_cut : (u v : Text) → is_char_boundary (u ++ v) (len u) ≡ true
boundary_of_cut [] [] = refl
boundary_of_cut [] (c ∷ v) = refl
boundary_of_cut (c ∷ u) v =
    let same : len_utf8 c + len u - len_utf8 c ≡ len u = omega arith in
    rw same (ground (arith, len_utf8_pos c, boundary_of_cut u v))

pub boundary_end : (s : Text) → is_char_boundary s (len s) ≡ true
boundary_end s =
    subst (λ t. is_char_boundary t (len t) ≡ true) (append-nil s)
      (subst (λ n. is_char_boundary (s ++ []) n ≡ true) (ap len (sym (append-nil s)))
        (boundary_of_cut s []))

pub slice_to_cut : (u v : Text) → slice_to (u ++ v) (len u) ≡ some u
slice_to_cut [] [] = refl
slice_to_cut [] (c ∷ v) = refl
slice_to_cut (c ∷ u) v =
    let same : len_utf8 c + len u - len_utf8 c ≡ len u = omega arith in
    rw same (ground (arith, len_utf8_pos c, slice_to_cut u v))

pub slice_from_cut : (u v : Text) → slice_from (u ++ v) (len u) ≡ some v
slice_from_cut [] [] = refl
slice_from_cut [] (c ∷ v) = refl
slice_from_cut (c ∷ u) v =
    let same : len_utf8 c + len u - len_utf8 c ≡ len u = omega arith in
    rw same (ground (arith, len_utf8_pos c, slice_from_cut u v))

-- A slice between two cuts.
pub slice_cut : (u v w : Text) → slice (u ++ (v ++ w)) (len u) (len (u ++ v)) ≡ some v
slice_cut u v w =
    let order : len u ≤ len (u ++ v) = omega (arith, len-append u v) in
    let to : slice_to (u ++ (v ++ w)) (len (u ++ v)) ≡ some (u ++ v) =
      rw (← append_assoc) (slice_to_cut (u ++ v) w) in
    ground (arith, order, to, slice_from_cut u v)

pub floor-le : (s : Text) (n : ℕ) → floor_char_boundary s n ≤ n
floor-le [] n = omega arith
floor-le (c ∷ s) n = ground (arith, floor-le s (n - len_utf8 c))

pub floor-boundary : (s : Text) (n : ℕ) → is_char_boundary s (floor_char_boundary s n) ≡ true
floor-boundary [] n = refl
floor-boundary (c ∷ s) n = elim (Bool-cases (leb (len_utf8 c) n)) [
  | inr e ↦ ground arith
  | inl e ↦
      let f = floor_char_boundary s (n - len_utf8 c) in
      let same : len_utf8 c + f - len_utf8 c ≡ f = omega arith in
      let ih : is_char_boundary s f ≡ true = floor-boundary s (n - len_utf8 c) in
      rw e (rw same (ground (arith, len_utf8_pos c, ih)))
]

-- No boundary lies between the floor of an offset and the offset.
pub floor_greatest :
    (s : Text) (n m : ℕ) → is_char_boundary s m ≡ true → m ≤ n → m ≤ floor_char_boundary s n
floor_greatest [] n m h le = ground arith
floor_greatest (c ∷ s) n m h le = ground (arith, floor_greatest s (n - len_utf8 c) (m - len_utf8 c))

-- Where a character is found, the text is cut before its first occurrence.
pub find_char-Cut :
    (p : ℕ) (s : Text) {n : ℕ}
    → find_char p s ≡ some n
    → (u : Text) × (v : Text) × (s ≡ u ++ (p ∷ v)) × (len u ≡ n) × All (λ c. (c == p) ≡ false) u
find_char-Cut p [] h = cc
find_char-Cut p (c ∷ s) h = elim (Bool-cases (c == p)) [
  | inl e ↦ ([], s, ground (arith, e), some-eq (rw e at h), tt)
  | inr e ↦ elim (Option-cases (find_char p s)) [
    | inl k ↦ cc (rw (e, k) at h)
    | inr (m, k) ↦
        let (u, v, whole, size, lacks) = find_char-Cut p s k in
        (c ∷ u, v, ap (λ t. c ∷ t) whole, omega (arith, size, some-eq (rw (e, k) at h)), (e, lacks))
  ]
]
