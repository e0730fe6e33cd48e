-- ===== src/Source/Nesting.antt =====
-- The parent of a heading is the nearest heading before it that is of a higher rank.
use obsidian_mcp.Common.{
  ℕ, suc, ◌≤◌, Option, none, some, List, [], ◌∷◌, ◌++◌, ltb, if◌then◌else◌, ◌≡◌, refl, sym, ◌∙◌, ap,
  arith, Bool-cases, inl, inr, append-nil, append_assoc, ltb→le,
}
use obsidian_mcp.Source.Headings.{HeadingPos, close_sections, nest, top, set_at}

-- The first of some headings, the last one first, with a smaller level.
abbrev pub nearest : ℕ → List (ℕ × ℕ) → Option ℕ
nearest level [] = none
nearest level ((i, l) ∷ before) = if ltb l level then some i else nearest level before

-- The parents of headings, from those before them.
abbrev pub parents_of : List HeadingPos → ℕ → List (ℕ × ℕ) → List (Option ℕ)
parents_of [] i before = []
parents_of (h ∷ hs) i before =
    nearest h.level before ∷ parents_of hs (suc i) ((i, h.level) ∷ before)

-- What leaves the stack is not nearer to any heading of at most the level.
nearest-close_sections :
    (level offset wanted : ℕ) (stack : List (ℕ × ℕ)) (ends : List ℕ)
    → wanted ≤ level
    → nearest wanted ((close_sections level offset stack ends).0) ≡ nearest wanted stack
unfolding close_sections
nearest-close_sections level offset wanted [] ends le = refl
nearest-close_sections level offset wanted ((i, l) ∷ stack) ends le =
    elim (Bool-cases (ltb l level)) [
      | inl e ↦ rw e refl
      | inr e ↦ rw e (
          ground
            (arith, nearest-close_sections level offset wanted stack (set_at i offset ends) le))
    ]

top-close_sections :
    (level offset : ℕ) (stack : List (ℕ × ℕ)) (ends : List ℕ)
    → top ((close_sections level offset stack ends).0) ≡ nearest level stack
unfolding close_sections
top-close_sections level offset [] ends = refl
top-close_sections level offset ((i, l) ∷ stack) ends = elim (Bool-cases (ltb l level)) [
  | inl e ↦ rw e refl
  | inr e ↦ rw e (top-close_sections level offset stack (set_at i offset ends))
]

nest-parents :
    (headings : List HeadingPos) (i : ℕ) (parents : List (Option ℕ)) (ends : List ℕ)
    (stack before : List (ℕ × ℕ))
    → ((level : ℕ) → nearest level stack ≡ nearest level before)
    → (nest headings i parents ends stack).0 ≡ parents ++ parents_of headings i before
unfolding nest
nest-parents [] i parents ends stack before same = sym (append-nil parents)
nest-parents (h ∷ hs) i parents ends stack before same =
    let closed = close_sections h.level h.offset stack ends in
    let parent = top-close_sections h.level h.offset stack ends ∙ same h.level in
    nest-parents hs (suc i) (parents ++ top (closed.0) ∷ []) (closed.1) ((i, h.level) ∷ closed.0)
      ((i, h.level) ∷ before)
      (λ wanted. elim (Bool-cases (ltb h.level wanted)) [
        | inl e ↦ rw e refl
        | inr e ↦ rw e (
            nearest-close_sections h.level h.offset wanted stack ends (ltb→le h.level wanted e)
            ∙ same wanted)
      ])
    ∙ (append_assoc parents (top (closed.0) ∷ []) (parents_of hs (suc i) ((i, h.level) ∷ before))
        ∙ ap (λ p. parents ++ p ∷ parents_of hs (suc i) ((i, h.level) ∷ before)) parent)

-- The parent that the loop gives a heading is the nearest heading before it with a smaller level, or
-- none if there is no such heading.
pub nest-parents_of :
    (headings : List HeadingPos) (ends : List ℕ)
    → (nest headings 0 [] ends []).0 ≡ parents_of headings 0 []
nest-parents_of headings ends = nest-parents headings 0 [] ends [] [] (λ level. refl)
