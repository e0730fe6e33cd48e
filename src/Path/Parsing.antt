-- ===== src/Path/Parsing.antt =====
-- What `VaultPath::parse` accepts and returns.
use obsidian_mcp.Common.{
  ◌≡◌, refl, sym, ◌≢◌, ap, ◌∙◌, subst, true, false, ◌||◌, ℕ, List, [], ◌∷◌, ◌++◌, reverse, arith,
  any, All, All-and, All-reverse, Bool-cases, inl, inr, ◌==◌,
}
use mathlib.Core.List.{reverse-cons, append_assoc}
use obsidian_mcp.Text.{Text, text_eq, is_empty, split, join, replace_char, is_control}
use obsidian_mcp.Text.Compare.{text_eq_ne, text_eq_sound}
use obsidian_mcp.Text.Split.{Lacks, split-Lacks}
use obsidian_mcp.Errors.{ok, err, outside_vault, ok-injective, >>=-inversion}
use obsidian_mcp.Path.{
  slash, backslash, is_slash, is_separator, dot, dot_dot, fold_names, spell, parse,
  starts_with_separator,
}
use obsidian_mcp.Path.Names.{
  IsName, Lacks-of_any, replace-Lacks, replace-Lacks_control, Lacks-both, split-keeps-Lacks,
}

-- A piece of the split: no separator and no control character.
abbrev pub Plain : Text → Type 0
Plain w = Lacks is_separator w × Lacks is_control w

is_empty-ne : (w : Text) → is_empty w ≡ false → w ≢ []
is_empty-ne [] h e = ground arith
is_empty-ne (c ∷ w) h e = ground arith

pub IsName-of_tests :
    (w : Text)
    → Plain w
    → (is_empty w || text_eq w dot) ≡ false
    → text_eq w dot_dot ≡ false
    → IsName w
IsName-of_tests w (hs, hc) h k = record {
  filled = is_empty-ne w (ground arith);
  not_dot = text_eq_ne w dot (ground arith);
  not_dot_dot = text_eq_ne w dot_dot k;
  no_separator = hs;
  no_control = hc;
}

-- What the loop does with one piece.
pub data View (value w : Text) : Type 0 where
  skip :
      (is_empty w || text_eq w dot) ≡ true
      → ((ws names : List Text) → fold_names value (w ∷ ws) names ≡ fold_names value ws names)
      → View value w
  up :
      w ≡ dot_dot
      → ((ws : List Text) → fold_names value (w ∷ ws) [] ≡ err (outside_vault value))
      → ((ws : List Text) (top : Text) (below : List Text)
          → fold_names value (w ∷ ws) (top ∷ below) ≡ fold_names value ws below)
      → View value w
  push :
      (is_empty w || text_eq w dot) ≡ false
      → text_eq w dot_dot ≡ false
      → ((ws names : List Text) → fold_names value (w ∷ ws) names ≡ fold_names value ws (w ∷ names))
      → View value w

pub view : (value w : Text) → View value w
unfolding fold_names
view value w = elim (Bool-cases (is_empty w || text_eq w dot)) [
  | inl e ↦ skip e (λ ws names. rw e)
  | inr e ↦ elim (Bool-cases (text_eq w dot_dot)) [
    | inl d ↦ up (text_eq_sound w dot_dot d) (λ ws. rw (e, d)) (λ ws top below. rw (e, d))
    | inr d ↦ push e d (λ ws names. rw (e, d))
  ]
]

fold_names-IsName :
    (value : Text) (ws names : List Text) {out : List Text}
    → All Plain ws
    → All IsName names
    → fold_names value ws names ≡ ok out
    → All IsName out
fold_names-IsName value [] names hw hn h =
    unfold fold_names in subst (All IsName) (ok-injective h) hn
fold_names-IsName value (w ∷ ws) [] (hw, hs) hn h = elim (view value w) [
  | skip _ same ↦ fold_names-IsName value ws [] hs hn (sym (same ws []) ∙ h)
  | up _ fails _ ↦ absurd (cc (fails ws))
  | push e d same ↦
      fold_names-IsName value ws (w ∷ []) hs (IsName-of_tests w hw e d, tt) (sym (same ws []) ∙ h)
]
fold_names-IsName value (w ∷ ws) (top ∷ below) (hw, hs) (ht, hb) h = elim (view value w) [
  | skip _ same ↦
      fold_names-IsName value ws (top ∷ below) hs (ht, hb) (sym (same ws (top ∷ below)) ∙ h)
  | up _ _ pops ↦ fold_names-IsName value ws below hs hb (sym (pops ws top below) ∙ h)
  | push e d same ↦
      fold_names-IsName value ws (w ∷ top ∷ below) hs (IsName-of_tests w hw e d, (ht, hb))
        (sym (same ws (top ∷ below)) ∙ h)
]

control_slash : is_control slash ≡ false
control_slash = refl

separators : (c : ℕ) → (is_slash c || c == backslash) ≡ false → is_separator c ≡ false
separators c h = h

pieces_no_separator :
    (ws : List Text)
    → All (Lacks is_slash) ws
    → All (Lacks (λ c. c == backslash)) ws
    → All (Lacks is_separator) ws
pieces_no_separator [] h k = tt
pieces_no_separator (w ∷ ws) (hw, hs) (kw, ks) =
    (Lacks-both is_slash (λ c. c == backslash) w hw kw, pieces_no_separator ws hs ks)

pub pieces-Plain :
    (value : Text)
    → any is_control value ≡ false
    → All Plain (split is_slash (replace_char backslash slash value))
pieces-Plain value h =
    let s = replace_char backslash slash value in
    All-and (Lacks is_separator) (Lacks is_control) (split is_slash s)
      (pieces_no_separator (split is_slash s) (split-Lacks is_slash s)
        (split-keeps-Lacks is_slash (λ c. c == backslash) s (replace-Lacks value)))
      (split-keeps-Lacks is_slash is_control s
        (replace-Lacks_control value (Lacks-of_any is_control value h)))

-- What an accepted value gives: the names, first one first.
pub record Parsed (value path : Text) : Type 0 where
  pub names : List Text
  pub spelled : path ≡ join (slash ∷ []) names
  pub all_names : All IsName names

-- An accepted path is a list of entry names joined by `/`: no name is empty, `.` or `..`, and none
-- holds a separator or a control character.
pub parse-Parsed : (value : Text) {path : Text} → parse value ≡ ok path → Parsed value path
unfolding parse
parse-Parsed value h = elim (Bool-cases (starts_with_separator value || any is_control value)) [
  | inl e ↦ absurd (ground arith)
  | inr e ↦
      let body = split is_slash (replace_char backslash slash value) in
      let loop = >>=-inversion (λ ns. ok (spell ns)) (fold_names value body []) (rw e at h) in
      record {
        names = reverse loop.middle;
        spelled = sym (ok-injective loop.ended);
        all_names =
            All-reverse IsName loop.middle
              (fold_names-IsName value body [] (pieces-Plain value (ground arith)) tt loop.begun);
      }
]

-- Names alone are pushed in their order.
pub fold_names_names :
    (value : Text) (ns acc : List Text)
    → All IsName ns
    → fold_names value ns acc ≡ ok (reverse ns ++ acc)
fold_names_names value [] acc h = unfold fold_names in refl
fold_names_names value (n ∷ ns) acc (hn, hs) = elim (view value n) [
  | skip e _ ↦ absurd (skip_no_name n hn e)
  | up e _ _ ↦ absurd (hn.not_dot_dot e)
  | push _ _ same ↦
      same ns acc ∙ fold_names_names value ns (n ∷ acc) hs ∙ ap ok (rw (reverse-cons, append_assoc))
]
  where
    skip_no_name : (w : Text) → IsName w → (is_empty w || text_eq w dot) ≡ true → ⊥
    skip_no_name [] hw e = hw.filled refl
    skip_no_name (c ∷ w) hw e = hw.not_dot (text_eq_sound (c ∷ w) dot e)
