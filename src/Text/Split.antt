-- ===== src/Text/Split.antt =====
-- `split` and `join` undo one another.
use obsidian_mcp.Common.{
  ◌≡◌, refl, ap, ◌≢◌, Bool, true, false, ℕ, List, [], ◌∷◌, ◌++◌, All, Bool-cases, inl, inr, ◌==◌,
  if◌then◌else◌, arith,
}
use obsidian_mcp.Text.{Text, split, cons_first, join}

-- No character of the text is a separator.
abbrev pub Lacks : (ℕ → Bool) → Text → Type 0
Lacks p = All (λ c. p c ≡ false)

module _ (p : ℕ → Bool) where
  cons_first-Lacks :
      (c : ℕ) (ws : List Text) → p c ≡ false → All (Lacks p) ws → All (Lacks p) (cons_first c ws)
  cons_first-Lacks c [] h _ = ((h, tt), tt)
  cons_first-Lacks c (w ∷ ws) h (hw, hs) = ((h, hw), hs)

  -- No piece of a split holds a separator.
  pub split-Lacks : (s : Text) → All (Lacks p) (split p s)
  split-Lacks [] = (tt, tt)
  split-Lacks (c ∷ s) = elim (Bool-cases (p c)) [
    | inl e ↦ rw e (tt, split-Lacks s)
    | inr e ↦ rw e (cons_first-Lacks c (split p s) e (split-Lacks s))
  ]

  -- A text without a separator is one piece, and ends at the first separator.
  pub split_one : (w : Text) → Lacks p w → split p w ≡ w ∷ []
  split_one [] h = refl
  split_one (c ∷ w) (hc, hw) = rw (hc, split_one w hw)

  pub split_first :
      (w : Text) (c : ℕ) (s : Text) → Lacks p w → p c ≡ true → split p (w ++ c ∷ s) ≡ w ∷ split p s
  split_first [] c s h hc = rw hc
  split_first (d ∷ w) c s (hd, hw) hc = rw (hd, split_first w c s hw hc)

  -- Splitting what was joined by a separator gives the pieces back.
  pub split-join :
      (c : ℕ) (w : Text) (ws : List Text)
      → p c ≡ true
      → All (Lacks p) (w ∷ ws)
      → split p (join (c ∷ []) (w ∷ ws)) ≡ w ∷ ws
  split-join c w [] hc (hw, _) = split_one w hw
  split-join c w (v ∷ ws) hc (hw, hs) =
      rw (split_first w c (join (c ∷ []) (v ∷ ws)) hw hc)
        (ap (λ r. w ∷ r) (split-join c v ws hc hs))

pub split-ne-nil : (p : ℕ → Bool) (s : Text) → split p s ≢ []
split-ne-nil p [] h = cc
split-ne-nil p (c ∷ s) h = elim (Bool-cases (p c)) [
  | inl e ↦ cc (rw e at h)
  | inr e ↦ cons_first-ne-nil c (split p s) (rw e at h)
]
  where
    cons_first-ne-nil : (d : ℕ) (ws : List Text) → cons_first d ws ≢ []
    cons_first-ne-nil d [] k = cc
    cons_first-ne-nil d (w ∷ ws) k = cc

cons_first-append_nonempty :
    (c : ℕ) (ws vs : List Text) → ws ≢ [] → cons_first c (ws ++ vs) ≡ cons_first c ws ++ vs
cons_first-append_nonempty c [] vs h = absurd (h refl)
cons_first-append_nonempty c (w ∷ ws) vs h = refl

-- A separator ends a piece, whatever stands before it.
pub split-append_separator :
    (p : ℕ → Bool) (s : Text) (c : ℕ) (t : Text)
    → p c ≡ true
    → split p (s ++ c ∷ t) ≡ split p s ++ split p t
split-append_separator p [] c t h = rw h
split-append_separator p (d ∷ s) c t h = elim (Bool-cases (p d)) [
  | inl e ↦ rw e (ap (λ ws. [] ∷ ws) (split-append_separator p s c t h))
  | inr e ↦
      rw (e, split-append_separator p s c t h)
        (cons_first-append_nonempty d (split p s) (split p t) (split-ne-nil p s))
]

-- The pieces joined by the separator are the text.
pub join-split : (c : ℕ) (s : Text) → join (c ∷ []) (split (λ d. d == c) s) ≡ s
join-split c [] = refl
join-split c (d ∷ s) =
    join-cons_first (split (λ e. e == c) s) (split-ne-nil (λ e. e == c) s) (join-split c s)
  where
    join-cons_first :
        (ws : List Text)
        → ws ≢ []
        → join (c ∷ []) ws ≡ s
        → join (c ∷ []) (if d == c then [] ∷ ws else cons_first d ws) ≡ d ∷ s
    join-cons_first [] h e = absurd (h refl)
    join-cons_first (w ∷ []) h e = ground (arith, e)
    join-cons_first (w ∷ v ∷ ws) h e = ground (arith, e)
