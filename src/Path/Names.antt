-- ===== src/Path/Names.antt =====
-- The names that a parsed path is made of.
use obsidian_mcp.Common.{
  ◌≡◌, refl, ◌≢◌, Bool, false, ◌||◌, ℕ, List, [], ◌∷◌, arith, any, All, All-append, Bool-cases, inl,
  inr, ◌==◌,
}
use obsidian_mcp.Text.{Text, text_eq, is_empty, split, join, replace_char, is_control}
use obsidian_mcp.Text.Split.{Lacks}
use obsidian_mcp.Path.{slash, backslash, is_separator, dot, dot_dot}

-- A name of one directory entry: not empty, no special name, no separator, no control character.
pub record IsName (name : Text) : Type 0 where
  pub filled : name ≢ []
  pub not_dot : name ≢ dot
  pub not_dot_dot : name ≢ dot_dot
  pub no_separator : Lacks is_separator name
  pub no_control : Lacks is_control name

pub Lacks-of_any : (p : ℕ → Bool) (s : Text) → any p s ≡ false → Lacks p s
Lacks-of_any p [] h = tt
Lacks-of_any p (c ∷ s) h = (ground arith, Lacks-of_any p s (ground arith))

pub any_of_Lacks : (p : ℕ → Bool) (s : Text) → Lacks p s → any p s ≡ false
any_of_Lacks p [] h = refl
any_of_Lacks p (c ∷ s) (hc, hs) = rw (hc, any_of_Lacks p s hs)

-- After the replacement no backslash is left.
pub replace-Lacks : (s : Text) → Lacks (λ c. c == backslash) (replace_char backslash slash s)
replace-Lacks [] = tt
replace-Lacks (c ∷ s) = (ground arith, replace-Lacks s)

pub replace-Lacks_control :
    (s : Text) → Lacks is_control s → Lacks is_control (replace_char backslash slash s)
replace-Lacks_control [] h = tt
replace-Lacks_control (c ∷ s) (hc, hs) = (ground arith, replace-Lacks_control s hs)

-- A text without a backslash is left as it is.
pub replace_none : (s : Text) → Lacks (λ c. c == backslash) s → replace_char backslash slash s ≡ s
replace_none [] h = refl
replace_none (c ∷ s) (hc, hs) = ground (arith, replace_none s hs)

pub Lacks-weaken :
    (p q : ℕ → Bool) (s : Text) → ((c : ℕ) → p c ≡ false → q c ≡ false) → Lacks p s → Lacks q s
Lacks-weaken p q [] f h = tt
Lacks-weaken p q (c ∷ s) f (hc, hs) = (f c hc, Lacks-weaken p q s f hs)

pub Lacks-both : (p q : ℕ → Bool) (s : Text) → Lacks p s → Lacks q s → Lacks (λ c. p c || q c) s
Lacks-both p q [] h k = tt
Lacks-both p q (c ∷ s) (hc, hs) (kc, ks) = (rw (hc, kc), Lacks-both p q s hs ks)

module _ (p q : ℕ → Bool) where
  split_first-Lacks :
      (c : ℕ) (ws : List Text)
      → q c ≡ false
      → All (Lacks q) ws
      → All (Lacks q) (obsidian_mcp.Text.cons_first c ws)
  split_first-Lacks c [] h _ = ((h, tt), tt)
  split_first-Lacks c (w ∷ ws) h (hw, hs) = ((h, hw), hs)

  -- The pieces of a split lack what the whole lacks.
  pub split-keeps-Lacks : (s : Text) → Lacks q s → All (Lacks q) (split p s)
  split-keeps-Lacks [] h = (tt, tt)
  split-keeps-Lacks (c ∷ s) (hc, hs) = elim (Bool-cases (p c)) [
    | inl e ↦ rw e (tt, split-keeps-Lacks s hs)
    | inr e ↦ rw e (split_first-Lacks c (split p s) hc (split-keeps-Lacks s hs))
  ]

-- Joining names puts only separators between them.
pub join-Lacks :
    (q : ℕ → Bool) (ws : List Text)
    → q slash ≡ false
    → All (Lacks q) ws
    → Lacks q (join (slash ∷ []) ws)
join-Lacks q [] h _ = tt
join-Lacks q (w ∷ []) h (hw, _) = hw
join-Lacks q (w ∷ v ∷ ws) h (hw, hs) =
    All-append (λ c. q c ≡ false) w (slash ∷ join (slash ∷ []) (v ∷ ws)) hw
      (h, join-Lacks q (v ∷ ws) h hs)
