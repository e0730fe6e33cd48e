-- ===== src/Access/Eligible.antt =====
-- Which notes a private provider may read (`private_source_eligible` of src/access.rs).
use obsidian_mcp.Common.{
  Bool, false, not, ◌&&◌, ◌||◌, Option, none, some, List, [], ◌∷◌, ◌++◌, map, any, all, and_then,
  ◌==◌, if◌then◌else◌,
}
use obsidian_mcp.Text.{
  Text, codes, is_empty, trim_start, strip_prefix, is_whitespace, lines, to_ascii_lowercase,
  rsplit_once,
}
use obsidian_mcp.Errors.{Result, ok}
use obsidian_mcp.Json.{Json, Fields, object, entries}
use obsidian_mcp.Path.{Component, normal, components}
use obsidian_mcp.Frontmatter.{Yaml, parse_frontmatter}
use obsidian_mcp.Access.{
  Value, string, not_string, Frontmatter, finite, ReadScope, valid_id, one_of, field, is_text,
  allows_path, allows_frontmatter,
}

-- A JSON object as a policy reads it.
abbrev value_of : Json → Value
value_of (Json.string t) = string t
value_of _ = not_string

abbrev pub policy_view : Fields → Frontmatter
policy_view m = map (λ (key, value). (key, value_of value)) (entries m)

abbrev starts_blank : Text → Bool
starts_blank [] = false
starts_blank (c ∷ t) = is_whitespace c

abbrev after_tag : Option Text → Bool
after_tag none = false
after_tag (some tag) = starts_blank tag

-- a list item that begins with `[inferred `
abbrev pub is_inferred_item : Text → Bool
is_inferred_item [] = false
is_inferred_item (c ∷ rest) =
    (c == b'-' || c == b'*')
    && (starts_blank rest && after_tag (strip_prefix (codes "[inferred") (trim_start rest)))

abbrev pub is_inferred : Text → Bool
is_inferred line = is_inferred_item (trim_start line)

-- the last component of a path
abbrev file_name : List Component → Option Text
file_name [] = none
file_name (normal name ∷ []) = some name
file_name (c ∷ []) = none
file_name (c ∷ d ∷ path) = file_name (d ∷ path)

abbrev extension_of : Option (Text × Text) → Option Text
extension_of none = none
extension_of (some (stem, extension)) = if is_empty stem then none else some extension

-- `path.extension()`
abbrev extension : Text → Option Text
extension path =
    and_then (file_name (components path)) (λ name. extension_of (rsplit_once b'.' name))

abbrev pub own_scope : Text → Text → Text → Text
own_scope workspace kind audience =
    codes "slack-"
    ++ (to_ascii_lowercase workspace
        ++ (codes "-" ++ (kind ++ (codes "-" ++ to_ascii_lowercase audience))))

abbrev section_prefix : Text → Text → Text
section_prefix scope section = codes "Organize/" ++ (section ++ (codes "/" ++ (scope ++ codes "/")))

-- The rank of `f64::MAX` is its bit pattern.
abbrev pub own_policy : Text → Text → Text → Text → Text → ReadScope
own_policy tenant star workspace kind audience =
    let scope = own_scope workspace kind audience in
    record {
      version = 1;
      tenant_id = tenant;
      star_label = star;
      workspace_id = workspace;
      audience_kind = kind;
      audience_id = audience;
      purpose = codes "conversation";
      scope_id = scope;
      expires_at = finite 0x7fefffffffffffff;
      allowed_prefixes =
          map (section_prefix scope)
            (codes "Self" ∷ codes "People" ∷ codes "Work" ∷ codes "Topics" ∷ [])
          ++ (codes "Express/Skills/" ++ (scope ++ codes "/"))
            ∷ (codes "Distill/" ++ (scope ++ codes "/brief.md"))
            ∷ (codes "Distill/" ++ (scope ++ codes "/index.md"))
            ∷ [];
    }

abbrev admitted : Text → Text → Frontmatter → Text → Text → Text → Text → Text → Bool
admitted path content fm tenant star workspace kind audience =
    let policy = own_policy tenant star workspace kind audience in
    if not (all valid_id (tenant ∷ star ∷ workspace ∷ audience ∷ []))
      || (not (one_of (codes "channel" ∷ codes "dm" ∷ []) kind) || any is_inferred (lines content))
    then false
    else is_text (codes "md") (extension path)
      && (allows_path policy path && allows_frontmatter policy (some fm))

abbrev eligible_with :
    Text
    → Text
    → Frontmatter
    → Option Text
    → Option Text
    → Option Text
    → Option Text
    → Option Text
    → Bool
eligible_with path content fm (some tenant) (some star) (some workspace) (some kind)
      (some audience) =
    admitted path content fm tenant star workspace kind audience
eligible_with path content fm _ _ _ _ _ = false

abbrev pub eligible_fields : Text → Text → Frontmatter → Bool
eligible_fields path content fm =
    eligible_with path content fm (field (codes "tenant_id") fm) (field (codes "star_label") fm)
      (field (codes "workspace_id") fm) (field (codes "audience_kind") fm)
      (field (codes "audience_id") fm)

abbrev eligible_frontmatter : Text → Text → Result (Option Json) → Bool
eligible_frontmatter path content (ok (some (object m))) =
    eligible_fields path content (policy_view m)
eligible_frontmatter path content _ = false

-- `private_source_eligible`
unfoldable pub private_source_eligible : Yaml → Text → Text → Bool
private_source_eligible yaml path content =
    eligible_frontmatter path content (parse_frontmatter yaml content)
