-- ===== src/Wikilink/Catalog.antt =====
-- The two tables of a resolver hold what the list of the registered paths says.
use obsidian_mcp.Common.{
  ◌≡◌, refl, sym, ◌∙◌, ap, subst, Bool, false, not, Option, none, some, List, [], ◌∷◌, ◌++◌,
  append-nil, append_assoc, arith, filter, filter-append_last, filter_comm, All, Bool-cases, inl,
  inr, if◌then◌else◌,
}
use obsidian_mcp.Text.{Text, text_eq, is_empty}
use obsidian_mcp.Text.Compare.{text_eq_iff, text_eq_sound}
use obsidian_mcp.Map.{Map, lookup, insert, get_or}
use obsidian_mcp.Map.Laws.{lookup-insert, lookup-remove, lookup-nil}
use obsidian_mcp.Wikilink.{
  LinkResolver, empty, path_key, stem_key, add_path, add_all, build_link_resolver, remove_path,
  rename_path, retain_stem,
}

-- `None` for no candidate at all.
abbrev pub bucket : List Text → Option (List Text)
bucket [] = none
bucket (p ∷ ps) = some (p ∷ ps)

module _ (nfc to_lowercase : Text → Text) where
  abbrev pub stem_is : Text → Text → Bool
  stem_is k p = text_eq (stem_key nfc to_lowercase p) k

  abbrev pub path_is : Text → Text → Bool
  path_is k p = text_eq (path_key nfc to_lowercase p) k

  -- The last of the paths with the key: a later one replaces an earlier one.
  abbrev pub last_with : Text → List Text → Option Text
  last_with k [] = none
  last_with k (p ∷ ps) = elim (last_with k ps) [
    | some q ↦ some q
    | none ↦ if path_is k p then some p else none
  ]

  -- The resolver stands for a list of registered paths: each stem has the paths with it, in the
  -- order of registration, and each path key the path that was registered last with it.
  pub record Stands (r : LinkResolver) (ps : List Text) : Type 0 where
    pub stems : (k : Text) → lookup k r.by_stem ≡ bucket (filter (stem_is k) ps)
    pub paths : (k : Text) → lookup k r.by_path ≡ last_with k ps

  pub Stands-empty : Stands empty []
  Stands-empty = record { stems = λ k. lookup-nil k; paths = λ k. lookup-nil k }

  get_or-bucket :
      (k : Text) (m : Map (List Text)) (l : List Text) → lookup k m ≡ bucket l → get_or [] k m ≡ l
  get_or-bucket k m [] h = rw (h, get_or)
  get_or-bucket k m (p ∷ l) h = rw (h, get_or)

  bucket-append : (l : List Text) (p : Text) → bucket (l ++ p ∷ []) ≡ some (l ++ p ∷ [])
  bucket-append [] p = refl
  bucket-append (q ∷ l) p = refl

  last_with-append :
      (k : Text) (ps : List Text) (p : Text)
      → last_with k (ps ++ p ∷ []) ≡ (if path_is k p then some p else last_with k ps)
  last_with-append k [] p = refl
  last_with-append k (q ∷ ps) p = ground (arith, last_with-append k ps p)

  abbrev stem : Text → Text
  stem = stem_key nfc to_lowercase

  module _ (path : Text) where
    stems-add :
        (m : Map (List Text)) (ps : List Text)
        → ((k : Text) → lookup k m ≡ bucket (filter (stem_is k) ps))
        → (k : Text)
        → lookup k (insert (stem path) (get_or [] (stem path) m ++ path ∷ []) m)
          ≡ bucket (filter (stem_is k) (ps ++ path ∷ []))
    stems-add m ps h k =
        lookup-insert (stem path) k (get_or [] (stem path) m ++ path ∷ []) m
        ∙ rw (filter-append_last (stem_is k) ps path) (elim (Bool-cases (text_eq (stem path) k)) [
          | inl e ↦
              let same : get_or [] (stem path) m ≡ filter (stem_is k) ps =
                get_or-bucket (stem path) m (filter (stem_is k) ps) (
                  h (stem path)
                  ∙ ap (λ j. bucket (filter (stem_is j) ps)) (text_eq_sound (stem path) k e)) in
              rw (e, same) (sym (bucket-append (filter (stem_is k) ps) path))
          | inr e ↦ rw e (h k)
        ])

  -- Registering one more path puts it behind the others.
  pub add_path-Stands :
      {r : LinkResolver} {ps : List Text} (path : Text)
      → Stands r ps
      → Stands (add_path nfc to_lowercase path r) (ps ++ path ∷ [])
  unfolding add_path
  add_path-Stands {r} {ps} path h = record {
    stems = stems-add path r.by_stem ps h.stems;
    paths = λ k.
        lookup-insert (path_key nfc to_lowercase path) k path r.by_path
        ∙ ap (λ o. if path_is k path then some path else o) (h.paths k)
        ∙ sym (last_with-append k ps path);
  }

  add_all-Stands :
      (paths : List Text) (r : LinkResolver) (ps : List Text)
      → Stands r ps
      → Stands (add_all nfc to_lowercase paths r) (ps ++ paths)
  add_all-Stands [] r ps h = rw append-nil (unfold add_all in h)
  add_all-Stands (p ∷ paths) r ps h =
      subst (Stands (add_all nfc to_lowercase (p ∷ paths) r)) (append_assoc ps (p ∷ []) paths) (
        add_step (
          add_all-Stands paths (add_path nfc to_lowercase p r) (ps ++ p ∷ [])
            (add_path-Stands p h)))
    where
      add_step :
          Stands
            (add_all nfc to_lowercase paths (add_path nfc to_lowercase p r))
            ((ps ++ p ∷ []) ++ paths)
          → Stands (add_all nfc to_lowercase (p ∷ paths) r) ((ps ++ p ∷ []) ++ paths)
      add_step h = unfold add_all in h

  -- A built resolver stands for the list of the note paths that it is built from.
  pub build_link_resolver-Stands :
      (paths : List Text) → Stands (build_link_resolver nfc to_lowercase paths) paths
  build_link_resolver-Stands paths =
      unfold build_link_resolver in add_all-Stands paths empty [] Stands-empty

  -- No other registered path has the path key of this one.
  abbrev pub IsAlone : Text → List Text → Type 0
  IsAlone path = All (λ q. path_key nfc to_lowercase q ≡ path_key nfc to_lowercase path → q ≡ path)

  abbrev pub others : Text → List Text → List Text
  others path = filter (λ p. not (text_eq p path))

  bucket_empty : (l : List Text) → bucket l ≡ (if is_empty l then none else some l)
  bucket_empty [] = refl
  bucket_empty (p ∷ l) = refl

  lookup-retain :
      (path : Text) (m : Map (List Text)) (l : List Text) (k : Text)
      → lookup (stem path) m ≡ bucket l
      → lookup k (retain_stem nfc to_lowercase path m)
        ≡ (if text_eq (stem path) k then bucket (others path l) else lookup k m)
  unfolding retain_stem
  lookup-retain path m [] k h = elim (Bool-cases (text_eq (stem path) k)) [
    | inl e ↦
        rw (h, retain_stem, e) (ap (λ j. lookup j m) (sym (text_eq_sound (stem path) k e)) ∙ h)
    | inr e ↦ rw (h, retain_stem, e)
  ]
  lookup-retain path m (p ∷ l) k h = elim (Bool-cases (is_empty (others path (p ∷ l)))) [
    | inl e ↦ rw (h, retain_stem, e, bucket_empty, e) (lookup-remove (stem path) k m)
    | inr e ↦
        rw (h, retain_stem, e, bucket_empty, e)
          (lookup-insert (stem path) k (others path (p ∷ l)) m)
  ]

  filter-others :
      (path k : Text) (ps : List Text)
      → text_eq (stem path) k ≡ false
      → filter (stem_is k) (others path ps) ≡ filter (stem_is k) ps
  filter-others path k [] h = refl
  filter-others path k (p ∷ ps) h = elim (Bool-cases (text_eq p path)) [
    | inl e ↦
        let other : stem_is k p ≡ false = ap (stem_is k) (text_eq_sound p path e) ∙ h in
        rw (e, other) (filter-others path k ps h)
    | inr e ↦ rw e (ground (arith, filter-others path k ps h))
  ]

  stems-remove :
      (path : Text) (m : Map (List Text)) (ps : List Text)
      → ((k : Text) → lookup k m ≡ bucket (filter (stem_is k) ps))
      → (k : Text)
      → lookup k (retain_stem nfc to_lowercase path m)
        ≡ bucket (filter (stem_is k) (others path ps))
  stems-remove path m ps h k =
      lookup-retain path m (filter (stem_is (stem path)) ps) k (h (stem path))
      ∙ elim (Bool-cases (text_eq (stem path) k)) [
        | inl e ↦ rw e (
            ap bucket (
              ap (λ j. others path (filter (stem_is j) ps)) (text_eq_sound (stem path) k e)
              ∙ filter_comm (λ p. not (text_eq p path)) (stem_is k) ps))
        | inr e ↦ rw e (h k ∙ ap bucket (sym (filter-others path k ps e)))
      ]

  last_with-others :
      (k : Text) (path : Text) (ps : List Text)
      → IsAlone path ps
      → last_with k (others path ps) ≡ (if path_is k path then none else last_with k ps)
  last_with-others k path [] h = ground arith
  last_with-others k path (p ∷ ps) (hp, hs) = ground (
    arith,
    last_with-others k path ps hs,
    text_eq_iff p path,
    text_eq_iff (path_key nfc to_lowercase p) k,
    text_eq_iff (path_key nfc to_lowercase path) k,
    hp,
  )

  -- Removing a path that shares its path key with no other leaves the tables of the others.
  pub remove_path-Stands :
      {r : LinkResolver} {ps : List Text} (path : Text)
      → IsAlone path ps
      → Stands r ps
      → Stands (remove_path nfc to_lowercase path r) (others path ps)
  unfolding remove_path
  remove_path-Stands {r} {ps} path alone h = record {
    stems = stems-remove path r.by_stem ps h.stems;
    paths = λ k.
        lookup-remove (path_key nfc to_lowercase path) k r.by_path
        ∙ ap (λ o. if path_is k path then none else o) (h.paths k)
        ∙ sym (last_with-others k path ps alone);
  }

  -- Renaming replaces a path that is alone under its key by the new one.
  pub rename_path-Stands :
      {r : LinkResolver} {ps : List Text} (old new : Text)
      → IsAlone old ps
      → Stands r ps
      → Stands (rename_path nfc to_lowercase old new r) (others old ps ++ new ∷ [])
  unfolding rename_path
  rename_path-Stands old new alone h = add_path-Stands new (remove_path-Stands old alone h)
