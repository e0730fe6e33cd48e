-- ===== src/Wikilink.antt =====
-- Resolution of wikilink targets to note paths (src/vault/wikilink.rs). Unicode normalisation comes
-- from a third-party package and the tables of lower case from the standard library: both are
-- parameters.
pub mod Catalog
pub mod Resolution
pub mod Collision
use obsidian_mcp.Common.{
  Bool, not, Option, none, some, List, [], ◌∷◌, ◌++◌, any, filter, and_then, is_some, if◌then◌else◌,
}
use obsidian_mcp.Text.{Text, codes, text_eq, is_empty, strip_suffix, replace_char}
use obsidian_mcp.Path.{slash, backslash, is_slash, logical_file_name}
use obsidian_mcp.Map.{Map, lookup, insert, remove, get_or}

pub record LinkResolver : Type 0 where
  pub by_stem : Map (List Text)
  pub by_path : Map Text

abbrev pub empty : LinkResolver
empty = record { by_stem = []; by_path = [] }

-- the one candidate, if there is just one
abbrev pub single : List Text → Option Text
single [] = none
single (p ∷ []) = some p
single (p ∷ q ∷ ps) = none

module _ (nfc to_lowercase : Text → Text) where
  -- `lookup_key_without_md`, with `canonical_unicode_key` as `nfc`
  unfoldable pub lookup_key_without_md : Text → Text
  lookup_key_without_md s =
      let lower = to_lowercase (nfc s) in
      elim (strip_suffix (codes ".md") lower) [ none ↦ lower | some stem ↦ stem ]

  unfoldable pub normalize_target : Text → Text
  unfolding lookup_key_without_md
  normalize_target target = lookup_key_without_md (replace_char backslash slash target)

  unfoldable pub path_key : Text → Text
  unfolding lookup_key_without_md
  path_key path = lookup_key_without_md (replace_char backslash slash path)

  unfoldable pub stem_key : Text → Text
  unfolding lookup_key_without_md logical_file_name
  stem_key path =
      lookup_key_without_md (elim (logical_file_name path) [ none ↦ [] | some name ↦ name ])

  -- `LinkResolver::insert` and `add_path`
  unfoldable pub add_path : Text → LinkResolver → LinkResolver
  add_path path r = record {
    by_stem = insert (stem_key path) (get_or [] (stem_key path) r.by_stem ++ path ∷ []) r.by_stem;
    by_path = insert (path_key path) path r.by_path;
  }

  -- `build_link_resolver`
  unfoldable pub add_all : List Text → LinkResolver → LinkResolver
  add_all [] r = r
  add_all (path ∷ paths) r = add_all paths (add_path path r)

  unfoldable pub build_link_resolver : List Text → LinkResolver
  unfolding add_all
  build_link_resolver paths = add_all paths empty

  -- the second half of `remove_path`: one path leaves the list of its stem
  unfoldable pub retain_stem : Text → Map (List Text) → Map (List Text)
  retain_stem path m = elim (lookup (stem_key path) m) [
    | none ↦ m
    | some paths ↦
        let retained = filter (λ p. not (text_eq p path)) paths in
        if is_empty retained then remove (stem_key path) m else insert (stem_key path) retained m
  ]

  -- `LinkResolver::remove_path`
  unfoldable pub remove_path : Text → LinkResolver → LinkResolver
  unfolding retain_stem
  remove_path path r = record {
    by_path = remove (path_key path) r.by_path;
    by_stem = retain_stem path r.by_stem;
  }

  -- `LinkResolver::rename_path`
  unfoldable pub rename_path : Text → Text → LinkResolver → LinkResolver
  rename_path old new r = add_path new (remove_path old r)

  -- `LinkResolver::resolve`
  unfoldable pub resolve : Text → LinkResolver → Option Text
  resolve target r =
      let normalized = normalize_target target in
      if is_empty normalized
      then none
      else if any is_slash normalized
      then lookup normalized r.by_path
      else and_then (lookup normalized r.by_stem) single

  -- `LinkResolver::resolve_candidates`
  unfoldable pub resolve_candidates : Text → LinkResolver → List Text
  resolve_candidates target r =
      let normalized = normalize_target target in
      if is_empty normalized
      then []
      else if any is_slash normalized
      then elim (lookup normalized r.by_path) [ none ↦ [] | some p ↦ p ∷ [] ]
      else get_or [] normalized r.by_stem

  -- `LinkResolver::is_resolved`
  unfoldable pub is_resolved : Text → LinkResolver → Bool
  is_resolved target r = is_some (resolve target r)
