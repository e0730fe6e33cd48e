-- ===== src/Access/Pieces.antt =====
-- The names of a path that a prefix of a read scope allows (src/access.rs).
use obsidian_mcp.Common.{
  ℕ, ◌≡◌, refl, sym, ◌∙◌, ap, ◌≢◌, ◌⊎◌, true, false, not, ◌&&◌, ◌||◌, List, [], ◌∷◌, ◌++◌, map,
  filter, any, All, arith, Any, Bool-cases, inl, inr, if◌then◌else◌, append-nil, append_assoc, ◌==◌,
}
use obsidian_mcp.Text.{
  Text, codes, text_eq, is_empty, starts_with, ends_with, split, trim_end_matches,
}
use obsidian_mcp.Text.Compare.{text_eq_sound, starts_with_sound}
use obsidian_mcp.Text.Split.{Lacks, split-append_separator}
use obsidian_mcp.Path.{
  backslash, slash, is_slash, dot, dot_dot, Component, to_component, leading, components,
}
use obsidian_mcp.Access.{ReadScope, one_of, roots, is_scope, first_is_root, hidden_or_empty}

abbrev pub first_of : List Text → Text
first_of [] = []
first_of (name ∷ names) = name

-- The first name of a path.
abbrev pub top : Text → Text
top path = first_of (split is_slash path)

-- A name that stands for itself: it is not empty and does not begin with a dot, as `..` does.
abbrev pub IsVisible : Text → Type 0
IsVisible name = (name ≢ []) × (starts_with (codes ".") name ≡ false)

-- A path that a scope may hand out: all its names stand for themselves, one of them is the scope's own,
-- it lies in one of the four sections, and a conversation sees nothing of the capture section.
pub record IsConfined (s : ReadScope) (path : Text) : Type 0 where
  pub visible : All IsVisible (split is_slash path)
  pub no_backslash : any (λ c. c == backslash) path ≡ false
  pub own_name : Any (λ name. name ≡ s.scope_id) (split is_slash path)
  pub in_section : one_of roots (top path) ≡ true
  pub not_capture : s.purpose ≡ codes "conversation" → starts_with (codes "Capture/") path ≡ false

-- What is left of a text when its final separators are cut off.
trim_slashes :
    (s : Text)
    → ends_with (codes "/") s ≡ true
    → (rest : Text) × (s ≡ trim_end_matches is_slash s ++ slash ∷ rest)
trim_slashes [] h = absurd (ground arith)
trim_slashes (c ∷ []) h = ([], ground arith)
trim_slashes (c ∷ d ∷ s) h =
    let (rest, e) = trim_slashes (d ∷ s) (ground arith) in
    elim (Bool-cases (is_slash c && is_empty (trim_end_matches is_slash (d ∷ s)))) [
      | inl none_left ↦ (d ∷ s, rw none_left (ap (λ x. x ∷ d ∷ s) (ground arith)))
      | inr some_left ↦ (rest, rw some_left (ap (λ r. c ∷ r) e))
    ]

trim_none : (s : Text) → ends_with (codes "/") s ≡ false → trim_end_matches is_slash s ≡ s
trim_none [] h = refl
trim_none (c ∷ []) h = ground arith
trim_none (c ∷ d ∷ s) h = rw (trim_none (d ∷ s) (ground arith)) (ground arith)

-- Of a text that ends with `/`, one that begins `name/` has all of it.
pub begins_within :
    (name prefix : Text)
    → Lacks is_slash name
    → starts_with prefix (name ++ slash ∷ []) ≡ true
    → ends_with (codes "/") prefix ≡ true
    → starts_with (name ++ slash ∷ []) prefix ≡ true
begins_within name [] lacks h e = absurd (ground arith)
begins_within [] (c ∷ []) lacks h e = ground arith
begins_within [] (c ∷ d ∷ prefix) lacks h e = absurd (ground arith)
begins_within (n ∷ name) (c ∷ prefix) (ln, ls) h e =
    ground (arith, begins_within name prefix ls (ground arith) (ground arith))

-- Two beginnings of one text: the one begins the other.
pub either_begins :
    (a b s : Text)
    → starts_with a s ≡ true
    → starts_with b s ≡ true
    → (starts_with a b ≡ true) ⊎ (starts_with b a ≡ true)
either_begins [] b s h k = inl refl
either_begins (x ∷ a) [] s h k = inr refl
either_begins (x ∷ a) (y ∷ b) [] h k = absurd (ground arith)
either_begins (x ∷ a) (y ∷ b) (z ∷ s) h k =
    elim (either_begins a b s (ground arith) (ground arith)) [
      | inl e ↦ inl (ground arith)
      | inr e ↦ inr (ground arith)
    ]

scope_piece : (id : Text) (w : Text) → is_scope id (to_component w) ≡ true → w ≡ id
scope_piece id w h = elim (Bool-cases (text_eq w dot_dot)) [
  | inl e ↦ absurd (ground (arith, rw e at h))
  | inr e ↦ text_eq_sound w id (rw e at h)
]

kept_scope :
    (id : Text) (ws : List Text)
    → any (is_scope id) (map to_component (filter (λ n. not (is_empty n || text_eq n dot)) ws))
      ≡ true
    → Any (λ name. name ≡ id) ws
kept_scope id [] h = absurd (ground arith)
kept_scope id (w ∷ ws) h = elim (Bool-cases (is_empty w || text_eq w dot)) [
  | inl e ↦ inr (kept_scope id ws (rw e at h))
  | inr e ↦ elim (Bool-cases (is_scope id (to_component w))) [
    | inl k ↦ inl (scope_piece id w k)
    | inr k ↦ inr (kept_scope id ws (rw k at (rw e at h)))
  ]
]

leading_scope :
    (id path : Text) (ws : List Text) (rest : List Component)
    → any (is_scope id) (leading path ws rest) ≡ true
    → any (is_scope id) rest ≡ true
leading_scope id path [] rest h = h
leading_scope id path (w ∷ ws) rest h = ground arith

pub components_scope :
    (id path : Text)
    → any (is_scope id) (components path) ≡ true
    → Any (λ name. name ≡ id) (split is_slash path)
components_scope id path h =
    kept_scope id (split is_slash path) (leading_scope id path (split is_slash path) _ h)

kept_first :
    (w : Text) (ws : List Text)
    → hidden_or_empty w ≡ false
    → map to_component (filter (λ n. not (is_empty n || text_eq n dot)) (w ∷ ws))
      ≡ to_component w ∷ map to_component (filter (λ n. not (is_empty n || text_eq n dot)) ws)
kept_first [] ws h = absurd (ground arith)
kept_first (c ∷ w) ws h = rw (dot_hidden c w h)
  where
    dot_hidden : (d : ℕ) (v : Text) → hidden_or_empty (d ∷ v) ≡ false → text_eq (d ∷ v) dot ≡ false
    dot_hidden d v k = ground arith

pub first_section :
    (path : Text) (ws : List Text)
    → any hidden_or_empty ws ≡ false
    → first_is_root
        (leading path ws (map to_component (filter (λ n. not (is_empty n || text_eq n dot)) ws)))
      ≡ true
    → one_of roots (first_of ws) ≡ true
first_section path [] plain h = absurd (ground arith)
first_section path (w ∷ ws) plain h = elim (Bool-cases (starts_with (codes "/") path)) [
  | inl e ↦ absurd (ground (arith, rw e at h))
  | inr e ↦ elim (Bool-cases (text_eq w dot)) [
    | inl d ↦ absurd (ground (arith, rw (e, d) at h))
    | inr d ↦ elim (Bool-cases (text_eq w dot_dot)) [
      | inl u ↦ absurd (ground (arith, rw (kept_first w ws (ground arith), e, d, u) at h))
      | inr u ↦ rw (kept_first w ws (ground arith), e, d, u) at h
    ]
  ]
]

-- A prefix and a path that it admits have their first names in common.
pub extends :
    (prefix path : Text)
    → (if ends_with (codes "/") prefix then starts_with prefix path else text_eq path prefix) ≡ true
    → (more : List Text) × (split is_slash path
        ≡ split is_slash (trim_end_matches is_slash prefix) ++ more)
extends prefix path h = elim (Bool-cases (ends_with (codes "/") prefix)) [
  | inl e ↦
      let (rest, cut) = trim_slashes prefix e in
      let (behind, whole) = starts_with_sound prefix path (rw e at h) in
      let base = trim_end_matches is_slash prefix in
      (
        split is_slash (rest ++ behind),
        ap (split is_slash)
              (whole ∙ ap (λ x. x ++ behind) cut ∙ append_assoc base (slash ∷ rest) behind)
            ∙ split-append_separator is_slash base slash (rest ++ behind) refl,
      )
  | inr e ↦ (
    [],
    ap (split is_slash) (text_eq_sound path prefix (rw e at h) ∙ sym (trim_none prefix e))
        ∙ sym (append-nil (split is_slash (trim_end_matches is_slash prefix))),
  )
]

pub first_of-append : (ws more : List Text) → ws ≢ [] → first_of (ws ++ more) ≡ first_of ws
first_of-append [] more h = absurd (h refl)
first_of-append (w ∷ ws) more h = refl
