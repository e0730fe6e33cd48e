-- ===== src/Frontmatter/Rebuilding.antt =====
-- `rebuild_content` (src/vault/frontmatter.rs) and what is read from its result.
use obsidian_mcp.Common.{◌≡◌, refl, false, some}
use obsidian_mcp.Text.{Text, is_empty, trim}
use obsidian_mcp.Errors.{ok}
use obsidian_mcp.Json.{Fields, object, is_blank}
use obsidian_mcp.Frontmatter.{
  Yaml, rebuild_content, parse_frontmatter, parse_yaml, get_body, framed,
}
use obsidian_mcp.Frontmatter.Framing.{YamlLines, extract_raw_frontmatter-framed, get_body-framed}

-- What is used of the YAML package: an object with fields is written as whole lines, none of them
-- `---`, and is read again as it was.
pub record Writes (yaml : Yaml) (m : Fields) : Type 0 where
  pub text : Text
  pub written : yaml.to_string (object m) ≡ some text
  pub lines : YamlLines text
  pub visible : is_empty (trim text) ≡ false
  pub read : yaml.from_str text ≡ some (object m)

module _ {yaml : Yaml} {m : Fields} (w : Writes yaml m) (body : Text)
    (some_field : is_blank m ≡ false) where
  rebuild_content-framed : rebuild_content yaml (object m) body ≡ framed w.text body
  unfolding rebuild_content
  rebuild_content-framed = rw (some_field, w.written) refl

  -- A rebuilt note has the body and the fields that it was built from.
  pub get_body-rebuild_content : get_body (rebuild_content yaml (object m) body) ≡ body
  get_body-rebuild_content = rw rebuild_content-framed (get_body-framed w.text body w.lines)

  pub parse_frontmatter-rebuild_content :
      parse_frontmatter yaml (rebuild_content yaml (object m) body) ≡ ok (some (object m))
  unfolding parse_frontmatter parse_yaml
  parse_frontmatter-rebuild_content =
      rw
        (
          rebuild_content-framed,
          extract_raw_frontmatter-framed w.text body w.lines,
          w.visible,
          w.read,
        )
        refl
