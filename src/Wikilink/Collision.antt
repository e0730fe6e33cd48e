-- ===== src/Wikilink/Collision.antt =====
-- Two registered paths with one path key (`remove_path` of src/vault/wikilink.rs).
use obsidian_mcp.Common.{
  ◌≡◌, refl, sym, ap, ◌∙◌, subst, ◌⊎◌, inl, inr, Bool, true, false, not, ◌||◌, none, some, List, [],
  ◌∷◌, ◌++◌, any, filter, arith, Bool-cases, Option-cases, if◌then◌else◌,
}
use obsidian_mcp.Text.{Text, text_eq, is_empty}
use obsidian_mcp.Text.Compare.{text_eq_refl, text_eq_iff, text_eq_sound}
use obsidian_mcp.Path.{is_slash}
use obsidian_mcp.Map.{Map, lookup, get_or}
use obsidian_mcp.Map.Laws.{lookup-insert, lookup-remove, get_or-insert, get_or-remove}
use obsidian_mcp.Wikilink.{
  LinkResolver, path_key, stem_key, normalize_target, add_path, retain_stem, remove_path, resolve,
}

slash_nonempty : (t : Text) → any is_slash t ≡ true → is_empty t ≡ false
slash_nonempty [] h = cc
slash_nonempty (c ∷ t) h = refl

any-append_last :
    (p : Text → Bool) (ps : List Text) (x : Text) → any p (ps ++ x ∷ []) ≡ (any p ps || p x)
any-append_last p [] x = ground arith
any-append_last p (y ∷ ps) x = ground (arith, any-append_last p ps x)

-- A path stays in a list from which another path is taken.
any-others :
    (kept removed : Text) (ps : List Text)
    → text_eq removed kept ≡ false
    → any (text_eq kept) ps ≡ true
    → any (text_eq kept) (filter (λ p. not (text_eq p removed)) ps) ≡ true
any-others kept removed [] n h = cc
any-others kept removed (p ∷ ps) n h = elim (Bool-cases (text_eq p removed)) [
  | inl e ↦ rw e (
      any-others kept removed ps n (
        ground (
          arith,
          text_eq_iff p removed,
          text_eq_iff removed kept,
          text_eq_iff kept p,
          text_eq_iff p kept,
        )))
  | inr e ↦ rw e (ground (arith, any-others kept removed ps n))
]

is_empty_sound {ℓ} : {A : Type ℓ} (xs : List A) → is_empty xs ≡ true → xs ≡ []
is_empty_sound [] h = refl
is_empty_sound (x ∷ xs) h = cc

module _ (nfc to_lowercase : Text → Text) where
  -- The paths that are registered under a path's stem.
  abbrev pub namesakes : Text → LinkResolver → List Text
  namesakes path r = get_or [] (stem_key nfc to_lowercase path) r.by_stem

  abbrev pub IsRegistered : Text → LinkResolver → Type 0
  IsRegistered path r = any (text_eq path) (namesakes path r) ≡ true

  add_path-IsRegistered :
      (path other : Text) (r : LinkResolver)
      → (text_eq other path ≡ true) ⊎ IsRegistered path r
      → IsRegistered path (add_path nfc to_lowercase other r)
  unfolding add_path
  add_path-IsRegistered path other r h =
      let stem = stem_key nfc to_lowercase in
      rw
        (get_or-insert [] (stem other) (stem path) (get_or [] (stem other) r.by_stem ++ other ∷ [])
          r.by_stem)
        (elim (Bool-cases (text_eq (stem other) (stem path))) [
          | inl e ↦
              rw (e, text_eq_sound (stem other) (stem path) e)
                (any-append_last (text_eq path) (namesakes path r) other ∙ elim h [
                  | inl k ↦ ground (arith, text_eq_iff other path, text_eq_iff path other)
                  | inr k ↦ rw k refl
                ])
          | inr e ↦ rw e (elim h [
            | inl k ↦ absurd (
                ground (
                  arith,
                  ap stem (text_eq_sound other path k),
                  text_eq_iff (stem other) (stem path),
                ))
            | inr k ↦ k
          ])
        ])

  get_or-retain_stem :
      (removed stem : Text) (m : Map (List Text))
      → get_or [] stem (retain_stem nfc to_lowercase removed m) ≡ (
          if text_eq (stem_key nfc to_lowercase removed) stem
          then filter (λ p. not (text_eq p removed)) (get_or [] stem m)
          else get_or [] stem m)
  unfolding retain_stem
  get_or-retain_stem removed stem m =
      let key = stem_key nfc to_lowercase removed in
      elim (Option-cases (lookup key m)) [
        | inl k ↦
            rw (retain_stem, k)
              (elim (Bool-cases (text_eq key stem)) [
                | inl e ↦ rw (e, sym (text_eq_sound key stem e), get_or, k) refl
                | inr e ↦ rw e refl
              ])
        | inr (ps, k) ↦
            let retained = filter (λ p. not (text_eq p removed)) ps in
            elim (Bool-cases (is_empty retained)) [
              | inl e ↦
                  rw (retain_stem, k, e, get_or-remove [] key stem m)
                    (elim (Bool-cases (text_eq key stem)) [
                      | inl same ↦
                          rw (same, sym (text_eq_sound key stem same), get_or, k)
                            (sym (is_empty_sound retained e))
                      | inr other ↦ rw other refl
                    ])
              | inr e ↦
                  rw (retain_stem, k, e, get_or-insert [] key stem retained m)
                    (elim (Bool-cases (text_eq key stem)) [
                      | inl same ↦ rw (same, sym (text_eq_sound key stem same), get_or, k) refl
                      | inr other ↦ rw other refl
                    ])
            ]
      ]

  remove_path-IsRegistered :
      (kept removed : Text) (r : LinkResolver)
      → text_eq removed kept ≡ false
      → IsRegistered kept r
      → IsRegistered kept (remove_path nfc to_lowercase removed r)
  unfolding remove_path
  remove_path-IsRegistered kept removed r n h =
      let stem = stem_key nfc to_lowercase in
      rw (get_or-retain_stem removed (stem kept) r.by_stem)
        (elim (Bool-cases (text_eq (stem removed) (stem kept))) [
          | inl e ↦ rw e (any-others kept removed (namesakes kept r) n h)
          | inr e ↦ rw e h
        ])

  resolve-slashed :
      (target : Text) (r : LinkResolver)
      → any is_slash (normalize_target nfc to_lowercase target) ≡ true
      → resolve nfc to_lowercase target r
        ≡ lookup (normalize_target nfc to_lowercase target) r.by_path
  unfolding resolve
  resolve-slashed target r h =
      rw (slash_nonempty (normalize_target nfc to_lowercase target) h, h) refl

  resolve-add_path :
      (target path : Text) (r : LinkResolver)
      → normalize_target nfc to_lowercase target ≡ path_key nfc to_lowercase path
      → any is_slash (normalize_target nfc to_lowercase target) ≡ true
      → resolve nfc to_lowercase target (add_path nfc to_lowercase path r) ≡ some path
  unfolding add_path
  resolve-add_path target path r meets slashed =
      resolve-slashed target (add_path nfc to_lowercase path r) slashed
      ∙ rw
          (
            meets,
            lookup-insert (path_key nfc to_lowercase path) (path_key nfc to_lowercase path) path
                r.by_path,
            text_eq_refl (path_key nfc to_lowercase path),
          )
          refl

  resolve-remove_path :
      (target path : Text) (r : LinkResolver)
      → normalize_target nfc to_lowercase target ≡ path_key nfc to_lowercase path
      → any is_slash (normalize_target nfc to_lowercase target) ≡ true
      → resolve nfc to_lowercase target (remove_path nfc to_lowercase path r) ≡ none
  unfolding remove_path
  resolve-remove_path target path r meets slashed =
      resolve-slashed target (remove_path nfc to_lowercase path r) slashed
      ∙ rw
          (
            meets,
            lookup-remove (path_key nfc to_lowercase path) (path_key nfc to_lowercase path)
                r.by_path,
            text_eq_refl (path_key nfc to_lowercase path),
          )
          refl

  -- Whichever of two paths with one path key is registered first, a target with this key and a `/` in it
  -- resolves to one of them; after the removal of the one it resolves no more, although the other is
  -- still registered.
  pub resolve-remove_collision :
      (r both : LinkResolver) (kept removed target : Text)
      → (both ≡ add_path nfc to_lowercase kept (add_path nfc to_lowercase removed r))
        ⊎ (both ≡ add_path nfc to_lowercase removed (add_path nfc to_lowercase kept r))
      → text_eq removed kept ≡ false
      → path_key nfc to_lowercase kept ≡ path_key nfc to_lowercase removed
      → normalize_target nfc to_lowercase target ≡ path_key nfc to_lowercase kept
      → any is_slash (normalize_target nfc to_lowercase target) ≡ true
      → ((resolve nfc to_lowercase target both ≡ some kept)
          ⊎ (resolve nfc to_lowercase target both ≡ some removed))
        × (resolve nfc to_lowercase target (remove_path nfc to_lowercase removed both) ≡ none)
        × IsRegistered kept (remove_path nfc to_lowercase removed both)
  resolve-remove_collision r both kept removed target order n same meets slashed = (
    elim order [
      | inl e ↦
          inl (
            rw e (resolve-add_path target kept (add_path nfc to_lowercase removed r) meets slashed))
      | inr e ↦ inr (
          rw e (
            resolve-add_path target removed (add_path nfc to_lowercase kept r) (meets ∙ same)
              slashed))
    ],
    resolve-remove_path target removed both (meets ∙ same) slashed,
    remove_path-IsRegistered kept removed both n (elim order [
      | inl e ↦ subst (IsRegistered kept) (sym e) (
          add_path-IsRegistered kept kept (add_path nfc to_lowercase removed r)
            (inl (text_eq_refl kept)))
      | inr e ↦ subst (IsRegistered kept) (sym e) (
          add_path-IsRegistered kept removed (add_path nfc to_lowercase kept r)
            (inr (add_path-IsRegistered kept kept r (inl (text_eq_refl kept)))))
    ]),
  )
