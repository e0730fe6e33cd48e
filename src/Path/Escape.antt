-- ===== src/Path/Escape.antt =====
-- When `VaultPath::parse` refuses a path as leaving the vault.
use obsidian_mcp.Common.{
  ◌≡◌, refl, sym, ◌∙◌, subst, ◌↔◌, Bool, true, false, not, ◌&&◌, ◌||◌, ℕ, zero, suc, ◌+◌, ◌<◌, List,
  [], ◌∷◌, arith, any, inl, inr, if◌then◌else◌, length, take,
}
use obsidian_mcp.Text.{Text, text_eq, is_empty, split, replace_char, is_control}
use obsidian_mcp.Text.Compare.{text_eq_sound}
use obsidian_mcp.Errors.{VaultError, Result, err, outside_vault, Result-cases}
use obsidian_mcp.Path.{
  slash, backslash, is_slash, dot, dot_dot, fold_names, parse, starts_with_separator,
}
use obsidian_mcp.Path.Parsing.{skip, up, push, view}

pub is_up : Text → Bool
is_up w = text_eq w dot_dot

pub is_down : Text → Bool
is_down w = not (is_empty w || text_eq w dot) && not (text_eq w dot_dot)

-- How many of the pieces go up one directory, and how many go down.
abbrev pub ups : List Text → ℕ
ups [] = 0
ups (w ∷ ws) = (if is_up w then 1 else 0) + ups ws

abbrev pub downs : List Text → ℕ
downs [] = 0
downs (w ∷ ws) = (if is_down w then 1 else 0) + downs ws

-- From a given depth, the pieces at some point have gone up further than down.
abbrev pub Escapes : ℕ → List Text → Type 0
Escapes depth ws = (k : ℕ) × (downs (take k ws) + depth < ups (take k ws))

abbrev pub pieces : Text → List Text
pieces value = split is_slash (replace_char backslash slash value)

skip_counts :
    (w : Text) → (is_empty w || text_eq w dot) ≡ true → (is_up w ≡ false) × (is_down w ≡ false)
unfolding is_up is_down
skip_counts [] h = (refl, refl)
skip_counts (c ∷ w) h =
    subst (λ v. (is_up v ≡ false) × (is_down v ≡ false)) (sym (text_eq_sound (c ∷ w) dot h))
      (refl, refl)

up_counts : (w : Text) → w ≡ dot_dot → (is_up w ≡ true) × (is_down w ≡ false)
unfolding is_up is_down
up_counts w e = subst (λ v. (is_up v ≡ true) × (is_down v ≡ false)) (sym e) (refl, refl)

push_counts :
    (w : Text)
    → (is_empty w || text_eq w dot) ≡ false
    → text_eq w dot_dot ≡ false
    → (is_up w ≡ false) × (is_down w ≡ true)
unfolding is_up is_down
push_counts w e d = (d, rw (e, d))

fold-Escapes :
    (value : Text) (ws names : List Text)
    → fold_names value ws names ≡ err (outside_vault value)
    → Escapes (length names) ws
fold-Escapes value [] names h = absurd (unfold fold_names in cc h)
fold-Escapes value (w ∷ ws) [] h = elim (view value w) [
  | skip e same ↦
      let (k, far) = fold-Escapes value ws [] (sym (same ws []) ∙ h) in
      (suc k, rw ((skip_counts w e).0, (skip_counts w e).1) (omega arith))
  | up e _ _ ↦ (1, rw ((up_counts w e).0, (up_counts w e).1) (omega arith))
  | push e d same ↦
      let (k, far) = fold-Escapes value ws (w ∷ []) (sym (same ws []) ∙ h) in
      (suc k, rw ((push_counts w e d).0, (push_counts w e d).1) (omega arith))
]
fold-Escapes value (w ∷ ws) (top ∷ below) h = elim (view value w) [
  | skip e same ↦
      let (k, far) = fold-Escapes value ws (top ∷ below) (sym (same ws (top ∷ below)) ∙ h) in
      (suc k, rw ((skip_counts w e).0, (skip_counts w e).1) (omega arith))
  | up e _ pops ↦
      let (k, far) = fold-Escapes value ws below (sym (pops ws top below) ∙ h) in
      (suc k, rw ((up_counts w e).0, (up_counts w e).1) (omega arith))
  | push e d same ↦
      let (k, far) = fold-Escapes value ws (w ∷ top ∷ below) (sym (same ws (top ∷ below)) ∙ h) in
      (suc k, rw ((push_counts w e d).0, (push_counts w e d).1) (omega arith))
]

Escapes-fold :
    (value : Text) (ws names : List Text) (k : ℕ)
    → downs (take k ws) + length names < ups (take k ws)
    → fold_names value ws names ≡ err (outside_vault value)
Escapes-fold value ws names zero far = absurd (omega arith)
Escapes-fold value [] names (suc k) far = absurd (omega arith)
Escapes-fold value (w ∷ ws) [] (suc k) far = elim (view value w) [
  | skip e same ↦
      let (u, d) = skip_counts w e in
      same ws [] ∙ Escapes-fold value ws [] k (let h = rw (u, d) at far in omega arith)
  | up e fails _ ↦ fails ws
  | push e d same ↦
      let (u, n) = push_counts w e d in
      same ws [] ∙ Escapes-fold value ws (w ∷ []) k (let h = rw (u, n) at far in omega arith)
]
Escapes-fold value (w ∷ ws) (top ∷ below) (suc k) far = elim (view value w) [
  | skip e same ↦
      let (u, d) = skip_counts w e in
      same ws (top ∷ below)
      ∙ Escapes-fold value ws (top ∷ below) k (let h = rw (u, d) at far in omega arith)
  | up e _ pops ↦
      pops ws top below
      ∙ Escapes-fold value ws below k
          (let h = rw ((up_counts w e).0, (up_counts w e).1) at far in omega arith)
  | push e d same ↦
      let (u, n) = push_counts w e d in
      same ws (top ∷ below)
      ∙ Escapes-fold value ws (w ∷ top ∷ below) k (let h = rw (u, n) at far in omega arith)
]

same_error :
    {r t : VaultError}
    → ◌≡◌ {A = Result Text} (err r) (err t)
    → ◌≡◌ {A = Result (List Text)} (err r) (err t)
same_error h = cc

-- A relative value without control characters is refused as outside the vault exactly if reading
-- its components from the left goes up further than down at some point.
pub parse_outside_iff :
    (value : Text)
    → starts_with_separator value ≡ false
    → any is_control value ≡ false
    → (parse value ≡ err (outside_vault value)) ↔ Escapes 0 (pieces value)
unfolding parse
parse_outside_iff value relative plain = (forth, back)
  where
    forth : parse value ≡ err (outside_vault value) → Escapes 0 (pieces value)
    forth h = elim (Result-cases (fold_names value (pieces value) [])) [
      | inl (ns, e) ↦ absurd (cc (rw (relative, plain, e) at h))
      | inr (r, e) ↦
          fold-Escapes value (pieces value) [] (e ∙ same_error (rw (relative, plain, e) at h))
    ]

    back : Escapes 0 (pieces value) → parse value ≡ err (outside_vault value)
    back (k, far) = rw (relative, plain, Escapes-fold value (pieces value) [] k far)
