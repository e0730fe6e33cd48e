-- ===== src/Tests/Fields.antt =====
-- Runs of `patch_frontmatter` of src/vault/patch.rs, with a YAML package whose mappings are lists.
use obsidian_mcp.Common.{◌≡◌, refl, ◌∙◌, none, some, [], ◌∷◌, ◌++◌, if◌then◌else◌}
use obsidian_mcp.Text.{Text, codes, text_eq}
use obsidian_mcp.Errors.{ok}
use obsidian_mcp.Map.{Map, lookup, insert, remove}
use obsidian_mcp.Map.Laws.{lookup-insert, lookup-remove}
use obsidian_mcp.Models.{PatchRequest, append, frontmatter}
use obsidian_mcp.Frontmatter.{extract_raw_frontmatter, closing}
use obsidian_mcp.Patch.Fields.{
  YamlValue, YamlPackage, frontmatter_boundaries, patch_frontmatter, patch_range, patched_mapping,
  read_mapping, string,
}
use obsidian_mcp.Patch.Edits.{Edited, MappingLaws, patch_frontmatter-Edited}

abbrev printed : Map YamlValue → Text
printed [] = []
printed ((key, string t) ∷ m) = key ++ (codes ": " ++ (t ++ (codes "\n" ++ printed m)))
printed ((key, v) ∷ m) = key ++ (codes ": 1\n" ++ printed m)

abbrev yaml : YamlPackage (Map YamlValue)
yaml = record {
  new = [];
  from_str =
      λ t. if text_eq t (codes "a: x\n") then some ((codes "a", string (codes "x")) ∷ []) else none;
  value_from_str = λ t. none;
  to_string = λ m. some (printed m);
  value_to_string = λ v. none;
  insert = λ key v m. insert key v m;
  remove = λ key m. (lookup key m, remove key m);
}

laws : MappingLaws yaml (λ key m. lookup key m)
laws = record {
  get_insert = λ key j v m. lookup-insert key j v m;
  removed = λ key m. refl;
  get_rest = λ key j m e. lookup-remove key j m ∙ rw e refl;
}

abbrev request : PatchRequest
request = record {
  operation = append;
  target_type = frontmatter;
  target = codes "a";
  content = codes "y";
}

appended :
    patch_frontmatter yaml (codes "---\na: x\n---\nbody") request (codes "n.md")
    ≡ ok (codes "---\na: xy\n---\nbody")
unfolding patch_frontmatter patch_range patched_mapping read_mapping frontmatter_boundaries closing
    lookup insert remove
appended = refl

-- An indented `---` in a block scalar ends the frontmatter for a patch, but not for a reader.
ends_early :
    (frontmatter_boundaries (codes "---\na: |\n  ---\nb: 1\n---\n")
      ≡ some (record { yaml_start = 4; yaml_end = 9; body_start = 15 }))
    × (extract_raw_frontmatter (codes "---\na: |\n  ---\nb: 1\n---\n")
        ≡ some (codes "a: |\n  ---\nb: 1\n", 24))
unfolding frontmatter_boundaries extract_raw_frontmatter closing
ends_early = (refl, refl)

patch_frontmatter-Edited_example :
    Edited yaml
      (λ key m. lookup key m)
      (codes "---\na: x\n---\nbody")
      request
      (codes "---\na: xy\n---\nbody")
patch_frontmatter-Edited_example =
    patch_frontmatter-Edited yaml (λ key m. lookup key m) laws (codes "---\na: x\n---\nbody")
      request (codes "n.md") appended
