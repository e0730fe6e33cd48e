-- ===== src/Path/Portable.antt =====
-- The two normalisers of caller paths, and single entries.
use obsidian_mcp.Common.{
  ◌≡◌, refl, sym, ap, ◌∙◌, subst, ◌↔◌, Bool, true, false, not, ◌||◌, List, [], ◌∷◌, ◌++◌, map,
  filter, append-nil, append_assoc, arith, any, Bool-cases, inl, inr, if◌then◌else◌, All,
}
use obsidian_mcp.Text.{
  Text, codes, text_eq, is_empty, split, join, replace_char, is_control, starts_with,
}
use obsidian_mcp.Text.Compare.{text_eq-false, is_empty-false}
use obsidian_mcp.Errors.{ok, err, invalid_path, outside_vault}
use obsidian_mcp.Path.{
  slash, backslash, is_slash, is_separator, dot, dot_dot, fold_names, fold_components, Component,
  components, to_component, leading, normal, parent_dir, cur_dir, parse, entry, normalize_relative,
  starts_with_separator, logical_join,
}
use obsidian_mcp.Path.Names.{IsName, Lacks-of_any, any_of_Lacks}
use obsidian_mcp.Path.Parsing.{skip, up, push, view, parse-Parsed, IsName-of_tests}

abbrev kept : List Text → List Text
kept = filter (λ n. not (is_empty n || text_eq n dot))

-- The components of one more piece.
kept_skip :
    (w : Text) (ws : List Text) → (is_empty w || text_eq w dot) ≡ true → kept (w ∷ ws) ≡ kept ws
kept_skip w ws e = rw e

kept_push :
    (w : Text) (ws : List Text)
    → (is_empty w || text_eq w dot) ≡ false
    → text_eq w dot_dot ≡ false
    → map to_component (kept (w ∷ ws)) ≡ normal w ∷ map to_component (kept ws)
kept_push w ws e d = rw (e, d)

kept_up :
    (w : Text) (ws : List Text)
    → w ≡ dot_dot
    → map to_component (kept (w ∷ ws)) ≡ parent_dir ∷ map to_component (kept ws)
kept_up w ws e =
    subst (λ v. map to_component (kept (v ∷ ws)) ≡ parent_dir ∷ map to_component (kept ws)) (sym e)
      refl

module _ (value : Text) where
  components_normal :
      (name : Text) (rest : List Component) (names : List Text)
      → fold_components value (normal name ∷ rest) names ≡ fold_components value rest (name ∷ names)
  unfolding fold_components
  components_normal name rest [] = refl
  components_normal name rest (n ∷ names) = refl

  components_up_none :
      (rest : List Component)
      → fold_components value (parent_dir ∷ rest) [] ≡ err (outside_vault value)
  unfolding fold_components
  components_up_none rest = refl

  components_up :
      (rest : List Component) (top : Text) (below : List Text)
      → fold_components value (parent_dir ∷ rest) (top ∷ below) ≡ fold_components value rest below
  unfolding fold_components
  components_up rest top below = refl

  components_cur :
      (rest : List Component)
      → fold_components value (cur_dir ∷ rest) [] ≡ fold_components value rest []
  unfolding fold_components
  components_cur rest = refl

  -- Both loops do the same with the same pieces.
  fold-agree :
      (ws names : List Text)
      → fold_components value (map to_component (kept ws)) names ≡ fold_names value ws names
  fold-agree [] names = unfold fold_components fold_names in refl
  fold-agree (w ∷ ws) [] = elim (view value w) [
    | skip e same ↦ rw (kept_skip w ws e) (fold-agree ws [] ∙ sym (same ws []))
    | up e fails _ ↦
        ap (λ l. fold_components value l []) (kept_up w ws e)
        ∙ components_up_none _
        ∙ sym (fails ws)
    | push e d same ↦
        ap (λ l. fold_components value l []) (kept_push w ws e d)
        ∙ components_normal w _ []
        ∙ fold-agree ws (w ∷ [])
        ∙ sym (same ws [])
  ]
  fold-agree (w ∷ ws) (top ∷ below) = elim (view value w) [
    | skip e same ↦
        rw (kept_skip w ws e) (fold-agree ws (top ∷ below) ∙ sym (same ws (top ∷ below)))
    | up e _ pops ↦
        ap (λ l. fold_components value l (top ∷ below)) (kept_up w ws e)
        ∙ components_up _ top below
        ∙ fold-agree ws below
        ∙ sym (pops ws top below)
    | push e d same ↦
        ap (λ l. fold_components value l (top ∷ below)) (kept_push w ws e d)
        ∙ components_normal w _ (top ∷ below)
        ∙ fold-agree ws (w ∷ top ∷ below)
        ∙ sym (same ws (top ∷ below))
  ]

  leading-fold :
      (s : Text) (ws : List Text) (rest : List Component)
      → starts_with (codes "/") s ≡ false
      → fold_components value (leading s ws rest) [] ≡ fold_components value rest []
  leading-fold s [] rest h = refl
  leading-fold s (first ∷ ws) rest h = elim (Bool-cases (text_eq first dot)) [
    | inl e ↦ rw (h, e) (components_cur rest)
    | inr e ↦ rw (h, e)
  ]

  components-agree :
      (s : Text)
      → starts_with (codes "/") s ≡ false
      → fold_components value (components s) [] ≡ fold_names value (split is_slash s) []
  components-agree s h =
      leading-fold s (split is_slash s) (map to_component (kept (split is_slash s))) h
      ∙ fold-agree (split is_slash s) []

starts_with_replaced :
    (s : Text) → starts_with (codes "/") (replace_char backslash slash s) ≡ starts_with_separator s
starts_with_replaced [] = refl
starts_with_replaced (c ∷ s) = ground arith

fold_root :
    (value s : Text) (rest : List Component)
    → starts_with (codes "/") s ≡ true
    → fold_components value (leading s (split is_slash s) rest) [] ≡ err invalid_path
unfolding fold_components
fold_root value [] rest h = absurd (ground arith)
fold_root value (c ∷ s) rest h = ground arith

-- For a path without control characters `normalize_relative` and `VaultPath::parse` have one
-- result: the same normal form or the same error.
pub normalize_relative-eq-parse :
    (path : Text) → any is_control path ≡ false → normalize_relative path ≡ parse path
unfolding normalize_relative parse
normalize_relative-eq-parse path plain = elim (Bool-cases (starts_with_separator path)) [
  | inl e ↦ rw (
    e,
    fold_root path (replace_char backslash slash path)
        (map to_component (kept (split is_slash (replace_char backslash slash path))))
        (starts_with_replaced path ∙ e),
  )
  | inr e ↦ rw (
    e,
    plain,
    components-agree path (replace_char backslash slash path) (starts_with_replaced path ∙ e),
  )
]

abbrev bad_entry : Text → Bool
bad_entry name =
    is_empty name
    || (text_eq name dot || text_eq name dot_dot)
    || any is_separator name
    || any is_control name

spell_filled :
    (ns : List Text) (n : Text) → IsName n → is_empty (join (slash ∷ []) (n ∷ ns)) ≡ false
spell_filled [] n h = is_empty-false n h.filled
spell_filled (m ∷ ns) [] h = refl
spell_filled (m ∷ ns) (c ∷ n) h = refl

join_both :
    (ms : List Text) (m : Text) (ns : List Text) (n : Text)
    → join (slash ∷ []) (m ∷ ms) ++ slash ∷ join (slash ∷ []) (n ∷ ns)
      ≡ join (slash ∷ []) (m ∷ ms ++ n ∷ ns)
join_both [] m ns n = refl
join_both (k ∷ ms) m ns n = rw append_assoc (ap (λ r. m ++ slash ∷ r) (join_both ms k ns n))

-- The branches of `logical_join` for an empty parent, an empty child, and two paths with names.
spell_both :
    (ms ns : List Text)
    → All IsName ms
    → All IsName ns
    → (if is_empty (join (slash ∷ []) ms)
        then join (slash ∷ []) ns
        else if is_empty (join (slash ∷ []) ns)
        then join (slash ∷ []) ms
        else join (slash ∷ []) ms ++ slash ∷ join (slash ∷ []) ns)
      ≡ join (slash ∷ []) (ms ++ ns)
spell_both [] ns hm hn = refl
spell_both (m ∷ ms) [] (hm, _) hn = rw (spell_filled ms m hm, append-nil)
spell_both (m ∷ ms) (n ∷ ns) (hm, _) (hn, _) =
    rw (spell_filled ms m hm, spell_filled ns n hn) (join_both ms m ns n)

-- `VaultPath::entry` accepts exactly the names, and keeps them as they are.
pub entry_iff : (name : Text) → (entry name ≡ ok name) ↔ IsName name
unfolding entry
entry_iff name = (forth, back)
  where
    forth : entry name ≡ ok name → IsName name
    forth h = elim (Bool-cases (bad_entry name)) [
      | inl e ↦ absurd (cc (rw e at h))
      | inr e ↦
          IsName-of_tests name
            (
              Lacks-of_any is_separator name (ground arith),
              Lacks-of_any is_control name (ground arith),
            )
            (ground arith) (ground arith)
    ]

    back : IsName name → entry name ≡ ok name
    back h = rw (
      is_empty-false name h.filled,
      text_eq-false name dot h.not_dot,
      text_eq-false name dot_dot h.not_dot_dot,
      any_of_Lacks is_separator name h.no_separator,
      any_of_Lacks is_control name h.no_control,
    )

-- Joining two accepted paths keeps both lists of names, one behind the other.
pub logical_join-names :
    (parent child : Text) {p c : Text} (hp : parse parent ≡ ok p) (hc : parse child ≡ ok c)
    → logical_join parent child
      ≡ ok (join (slash ∷ []) ((parse-Parsed parent hp).names ++ (parse-Parsed child hc).names))
unfolding logical_join
logical_join-names parent child {p} {c} hp hc =
    let P = parse-Parsed parent hp in
    let C = parse-Parsed child hc in
    rw (hp, hc)
      (ap ok (rw (P.spelled, C.spelled) (spell_both P.names C.names P.all_names C.all_names)))
