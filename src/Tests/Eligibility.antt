-- ===== src/Tests/Eligibility.antt =====
-- Runs of `private_source_eligible` of src/access.rs.
use obsidian_mcp.Common.{◌≡◌, refl, true, false, none, some, if◌then◌else◌}
use obsidian_mcp.Text.{Text, codes, text_eq}
use obsidian_mcp.Json.{Fields, string, object, field, no_fields}
use obsidian_mcp.Map.{lookup}
use obsidian_mcp.Frontmatter.{Yaml, extract_raw_frontmatter, closing, parse_frontmatter, parse_yaml}
use obsidian_mcp.Access.{valid_id, allows_path, allows_frontmatter, normalized}
use obsidian_mcp.Access.Eligible.{private_source_eligible}

abbrev fields : Fields
fields = field (codes "audience_id") (string (codes "C1")) (
    field (codes "audience_kind") (string (codes "channel")) (
      field (codes "memory_schema") (string (codes "slack-code/1")) (
        field (codes "sensitivity") (string (codes "normal")) (
          field (codes "star_label") (string (codes "s")) (
            field (codes "tenant_id") (string (codes "t"))
              (field (codes "workspace_id") (string (codes "W")) no_fields))))))

abbrev yaml : Yaml
yaml = record {
  from_str = λ t. if text_eq t (codes "x\n") then some (object fields) else none;
  to_string = λ v. none;
}

abbrev own_path : Text
own_path = codes "Organize/Work/slack-w-channel-c1/a.md"

eligible : private_source_eligible yaml own_path (codes "---\nx\n---\n- fact\n") ≡ true
unfolding private_source_eligible parse_frontmatter parse_yaml extract_raw_frontmatter closing
    lookup valid_id allows_path allows_frontmatter normalized
eligible = refl

-- An inferred item makes a note unfit, and so does another scope's directory.
not_eligible :
    (private_source_eligible yaml own_path (codes "---\nx\n---\n - [inferred x]\n") ≡ false)
    × (private_source_eligible yaml
          (codes "Organize/Work/slack-w-dm-c1/a.md")
          (codes "---\nx\n---\n- fact\n")
        ≡ false)
unfolding private_source_eligible parse_frontmatter parse_yaml extract_raw_frontmatter closing
    lookup valid_id allows_path allows_frontmatter normalized
not_eligible = (refl, refl)
