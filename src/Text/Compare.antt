-- ===== src/Text/Compare.antt =====
-- What the comparisons of texts decide.
use obsidian_mcp.Common.{
  ◌≡◌, refl, ◌↔◌, ◌≢◌, true, false, [], ◌∷◌, ◌++◌, arith, Bool-cases, inl, inr,
}
use obsidian_mcp.Text.{Text, text_eq, is_empty, starts_with}

pub text_eq_sound : (s t : Text) → text_eq s t ≡ true → s ≡ t
text_eq_sound [] [] h = refl
text_eq_sound [] (d ∷ t) h = ground arith
text_eq_sound (c ∷ s) [] h = ground arith
text_eq_sound (c ∷ s) (d ∷ t) h = ground (arith, text_eq_sound s t)

pub text_eq_refl : (s : Text) → text_eq s s ≡ true
text_eq_refl [] = refl
text_eq_refl (c ∷ s) = ground (arith, text_eq_refl s)

pub text_eq_iff : (s t : Text) → (text_eq s t ≡ true) ↔ (s ≡ t)
text_eq_iff s t = (text_eq_sound s t, λ e. rw e (text_eq_refl t))

pub text_eq_ne : (s t : Text) → text_eq s t ≡ false → s ≢ t
text_eq_ne s t h e = ground (arith, text_eq_iff s t)

-- A text that starts with `p` is `p` and a rest.
pub starts_with_sound : (p s : Text) → starts_with p s ≡ true → (rest : Text) × (s ≡ p ++ rest)
starts_with_sound [] s h = (s, refl)
starts_with_sound (c ∷ p) [] h = absurd (ground arith)
starts_with_sound (c ∷ p) (d ∷ s) h =
    let found = starts_with_sound p s (ground arith) in (found.0, ground (arith, found.1))

pub starts_with-append : (p rest : Text) → starts_with p (p ++ rest) ≡ true
starts_with-append [] rest = refl
starts_with-append (c ∷ p) rest = ground (arith, starts_with-append p rest)

pub text_eq-false : (s t : Text) → s ≢ t → text_eq s t ≡ false
text_eq-false s t h = elim (Bool-cases (text_eq s t)) [
  | inl e ↦ absurd (h (text_eq_sound s t e))
  | inr e ↦ e
]

pub is_empty-false : (s : Text) → s ≢ [] → is_empty s ≡ false
is_empty-false [] h = absurd (h refl)
is_empty-false (c ∷ s) h = refl
