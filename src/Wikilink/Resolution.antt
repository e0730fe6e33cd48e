-- ===== src/Wikilink/Resolution.antt =====
-- What a target resolves to, in terms of the registered paths.
use obsidian_mcp.Common.{
  ◌≡◌, refl, arith, Option, none, List, [], ◌∷◌, any, filter, and_then, Bool-cases, Option-cases,
  inl, inr, if◌then◌else◌,
}
use obsidian_mcp.Text.{Text, is_empty}
use obsidian_mcp.Path.{is_slash}
use obsidian_mcp.Map.{lookup}
use obsidian_mcp.Wikilink.{
  LinkResolver, normalize_target, single, resolve, resolve_candidates, build_link_resolver,
  remove_path,
}
use obsidian_mcp.Wikilink.Catalog.{
  Stands, stem_is, last_with, bucket, build_link_resolver-Stands, remove_path-Stands, IsAlone,
  others,
}

module _ (nfc to_lowercase : Text → Text) where
  abbrev wanted : Text → Text
  wanted = normalize_target nfc to_lowercase

  -- What a target should resolve to among the registered paths: nothing for an empty target, the
  -- last path with the key for a target with `/`, and else the one path with the stem, if there is
  -- just one.
  abbrev pub meant : Text → List Text → Option Text
  meant target ps =
      if is_empty (wanted target)
      then none
      else if any is_slash (wanted target)
      then last_with nfc to_lowercase (wanted target) ps
      else single (filter (stem_is nfc to_lowercase (wanted target)) ps)

  and_then-bucket : (l : List Text) → and_then (bucket l) single ≡ single l
  and_then-bucket [] = refl
  and_then-bucket (p ∷ l) = refl

  pub Stands-resolve :
      {r : LinkResolver} {ps : List Text} (target : Text)
      → Stands nfc to_lowercase r ps
      → resolve nfc to_lowercase target r ≡ meant target ps
  unfolding resolve
  Stands-resolve {r} {ps} target h = rw (
    h.paths (wanted target),
    h.stems (wanted target),
    and_then-bucket (filter (stem_is nfc to_lowercase (wanted target)) ps),
  )

  -- A resolver that is built from a list of paths resolves every target to what is meant by it.
  pub resolve-build :
      (paths : List Text) (target : Text)
      → resolve nfc to_lowercase target (build_link_resolver nfc to_lowercase paths)
        ≡ meant target paths
  resolve-build paths target =
      Stands-resolve target (build_link_resolver-Stands nfc to_lowercase paths)

  -- After the removal of a path that shares its path key with no other, every target resolves to
  -- what is meant by it among the other paths.
  pub resolve-remove :
      (paths : List Text) (path target : Text)
      → IsAlone nfc to_lowercase path paths
      → resolve nfc to_lowercase target
          (remove_path nfc to_lowercase path (build_link_resolver nfc to_lowercase paths))
        ≡ meant target (others nfc to_lowercase path paths)
  resolve-remove paths path target alone = Stands-resolve target (
      remove_path-Stands nfc to_lowercase path alone
        (build_link_resolver-Stands nfc to_lowercase paths))

  -- A target resolves exactly if it has one candidate, and then to that one.
  pub resolve-candidates :
      (target : Text) (r : LinkResolver)
      → resolve nfc to_lowercase target r ≡ single (resolve_candidates nfc to_lowercase target r)
  unfolding resolve resolve_candidates
  resolve-candidates target r = elim (Bool-cases (is_empty (wanted target))) [
    | inl e ↦ rw e
    | inr e ↦ elim (Bool-cases (any is_slash (wanted target))) [
      | inl s ↦ elim (Option-cases (lookup (wanted target) r.by_path)) [
        | inl f ↦ rw (e, s, f) (ground (arith, f))
        | inr (p, f) ↦ rw (e, s, f) (ground (arith, f))
      ]
      | inr s ↦ elim (Option-cases (lookup (wanted target) r.by_stem)) [
        | inl f ↦ rw (e, s, f) (ground (arith, f))
        | inr (p, f) ↦ rw (e, s, f) (ground (arith, f))
      ]
    ]
  ]
