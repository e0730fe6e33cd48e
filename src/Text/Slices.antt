-- ===== src/Text/Slices.antt =====
-- Slices between character boundaries.
use obsidian_mcp.Common.{
  ◌≡◌, sym, ◌∙◌, ap, subst, true, false, ℕ, ◌+◌, ◌-◌, ◌≤◌, ◌<◌, some, [], ◌∷◌, ◌++◌, arith, some-eq,
  append_assoc, leb, ◌==◌, ◌&&◌, ◌||◌, Bool, Bool-cases, inl, inr,
}
use obsidian_mcp.Text.{slice_from, Text, len, len_utf8, is_char_boundary, slice}
use obsidian_mcp.Text.Offsets.{
  slice_from_cut, Cut-at, len-append, len_utf8_pos, len_utf8-le_four, slice_cut, boundary_of_cut,
}

-- A boundary of a text that lies within its first part is a boundary of that part.
boundary_of_prefix :
    (u v : Text) (a : ℕ)
    → is_char_boundary (u ++ v) a ≡ true
    → a ≤ len u
    → is_char_boundary u a ≡ true
boundary_of_prefix [] v a h le = ground arith
boundary_of_prefix (c ∷ u) v a h le = ground (arith, boundary_of_prefix u v (a - len_utf8 c))

-- A text in three parts, the middle one between two offsets.
pub record Between (s : Text) (a b : ℕ) : Type 0 where
  pub before : Text
  pub middle : Text
  pub after : Text
  pub whole : s ≡ before ++ (middle ++ after)
  pub from : len before ≡ a
  pub to : len (before ++ middle) ≡ b

pub between :
    (s : Text) (a b : ℕ)
    → is_char_boundary s a ≡ true
    → is_char_boundary s b ≡ true
    → a ≤ b
    → Between s a b
between s a b ha hb le =
    let outer = Cut-at s b hb in
    let inner = Cut-at outer.before a (
      boundary_of_prefix outer.before outer.after a
        (subst (λ t. is_char_boundary t a ≡ true) outer.whole ha) (omega (arith, outer.measure))) in
    record {
      before = inner.before;
      middle = inner.after;
      after = outer.after;
      whole =
          outer.whole
          ∙ ap (λ t. t ++ outer.after) inner.whole
          ∙ append_assoc inner.before inner.after outer.after;
      from = inner.measure;
      to = ap len (sym inner.whole) ∙ outer.measure;
    }

pub slice-Between : {s : Text} {a b : ℕ} (p : Between s a b) → slice s a b ≡ some p.middle
slice-Between p =
    (λ i. slice (p.whole i) (sym p.from i) (sym p.to i)) ∙ slice_cut p.before p.middle p.after

pub len_middle : {s : Text} {a b : ℕ} (p : Between s a b) → a + len p.middle ≡ b
len_middle p = omega (arith, p.from, p.to, len-append p.before p.middle)

past_first :
    (w n : ℕ) (rest : Bool)
    → (n == 0 || (leb w n && rest)) ≡ true
    → (n == 0) ≡ false
    → (w ≤ n) × (rest ≡ true)
past_first w n rest h k = (ground arith, ground arith)

shift_back :
    (w a b m : ℕ)
    → w ≤ a
    → w ≤ b
    → a - w < m
    → m ≤ a - w + 4
    → m ≤ b - w
    → (a < w + m) × (w + m ≤ a + 4) × (w + m ≤ b)
shift_back w a b m wa wb lo near hi = omega arith

-- The next boundary is at most four bytes away, and no later boundary lies before it.
pub next_boundary :
    (s : Text) (a b : ℕ)
    → is_char_boundary s a ≡ true
    → is_char_boundary s b ≡ true
    → a < b
    → (m : ℕ) × (is_char_boundary s m ≡ true) × (a < m) × (m ≤ a + 4) × (m ≤ b)
next_boundary [] a b ha hb lt = absurd (ground arith)
next_boundary (c ∷ s) a b ha hb lt =
    let (wb, rb) =
      past_first (len_utf8 c) b (is_char_boundary s (b - len_utf8 c)) hb (ground arith) in
    elim (Bool-cases (a == 0)) [
      | inl e ↦ (
        len_utf8 c,
        subst (λ n. is_char_boundary (c ∷ s) n ≡ true) {y = len_utf8 c} (omega arith)
            (boundary_of_cut (c ∷ []) s),
        ground (arith, len_utf8_pos c),
        omega (arith, len_utf8-le_four c),
        wb,
      )
      | inr e ↦
          let (wa, ra) = past_first (len_utf8 c) a (is_char_boundary s (a - len_utf8 c)) ha e in
          let (m, bm, am, m4, mb) =
            next_boundary s (a - len_utf8 c) (b - len_utf8 c) ra rb (omega arith) in
          let (lo, near, hi) = shift_back (len_utf8 c) a b m wa wb am m4 mb in
          let same : len_utf8 c + m - len_utf8 c ≡ m = omega arith in
          (len_utf8 c + m, rw same (ground (arith, len_utf8_pos c, bm)), lo, near, hi)
    ]

-- What follows a cut is determined by its offset.
after_unique : {s : Text} (u v x y : Text) → s ≡ u ++ v → s ≡ x ++ y → len u ≡ len x → v ≡ y
after_unique {s} u v x y e f same =
    some-eq
      (sym (slice_from_cut u v) ∙ (λ i. slice_from ((sym e ∙ f) i) (same i)) ∙ slice_from_cut x y)

-- Neighbouring parts of a text make up one part.
pub Between-append :
    {s : Text} {a b c : ℕ} (p : Between s a b) (q : Between s b c)
    → slice s a c ≡ some (p.middle ++ q.middle)
Between-append {s} {a} {b} {c} p q =
    let rest : p.after ≡ q.middle ++ q.after =
      after_unique (p.before ++ p.middle) p.after q.before (q.middle ++ q.after)
        (p.whole ∙ sym (append_assoc p.before p.middle p.after)) q.whole (p.to ∙ sym q.from) in
    let joined : Between s a c = record {
      before = p.before;
      middle = p.middle ++ q.middle;
      after = q.after;
      whole =
          p.whole
          ∙ ap (λ t. p.before ++ t)
              (ap (λ t. p.middle ++ t) rest ∙ sym (append_assoc p.middle q.middle q.after));
      from = p.from;
      to = omega (
        arith,
        p.from,
        p.to,
        q.from,
        q.to,
        len-append p.before (p.middle ++ q.middle),
        len-append p.middle q.middle,
        len-append p.before p.middle,
        len-append q.before q.middle,
      );
    } in
    slice-Between joined

-- Neighbouring slices make up the slice from the first to the last offset.
pub slice-append :
    (s : Text) (a b c : ℕ) {t u : Text}
    → is_char_boundary s a ≡ true
    → is_char_boundary s b ≡ true
    → is_char_boundary s c ≡ true
    → a ≤ b
    → b ≤ c
    → slice s a b ≡ some t
    → slice s b c ≡ some u
    → slice s a c ≡ some (t ++ u)
slice-append s a b c ha hb hc ab bc st su =
    let p = between s a b ha hb ab in
    let q = between s b c hb hc bc in
    Between-append p q
    ∙ ap some (cc (some-eq (sym (slice-Between p) ∙ st), some-eq (sym (slice-Between q) ∙ su)))
