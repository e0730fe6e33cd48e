-- ===== src/Tests/Notes.antt =====
-- Runs of src/vault/frontmatter.rs, with a YAML package that knows a few texts.
use obsidian_mcp.Common.{◌≡◌, refl, none, some, Option, [], ◌∷◌, if◌then◌else◌}
use obsidian_mcp.Text.{Text, codes, text_eq}
use obsidian_mcp.Errors.{ok}
use obsidian_mcp.Json.{Json, Fields, string, number, object, field, no_fields, set, unset, get}
use obsidian_mcp.Source.{SourceSnapshot, validate_range, sliced}
use obsidian_mcp.Frontmatter.{
  Yaml, extract_raw_frontmatter, get_body, closing, parse_frontmatter, parse_yaml,
  set_frontmatter_field, remove_frontmatter_field, extract_string_list,
}
use obsidian_mcp.Frontmatter.Location.{Located, extract_raw_frontmatter-Located}
use obsidian_mcp.Frontmatter.Framing.{YamlLines}
use obsidian_mcp.Frontmatter.Rebuilding.{Writes}
use obsidian_mcp.Frontmatter.Editing.{
  fields_of, set_frontmatter_field-parse_frontmatter, remove_frontmatter_field-parse_frontmatter,
}
use obsidian_mcp.Frontmatter.Body.{body_range, body_range-validate_range}

abbrev one : Fields
one = field (codes "a") (number (codes "1")) no_fields

abbrev two : Fields
two = field (codes "a") (number (codes "1")) (field (codes "b") (string (codes "x")) no_fields)

abbrev written : Json → Option Text
written (object (field k v no_fields)) = some (codes "a: 1\n")
written (object (field k v (field j w m))) = some (codes "a: 1\nb: x\n")
written _ = none

abbrev yaml : Yaml
yaml = record {
  from_str = λ t.
      if text_eq t (codes "a: 1\n")
      then some (object one)
      else if text_eq t (codes "a: 1\nb: x\n")
      then some (object two)
      else none;
  to_string = written;
}

abbrev note : Text
note = codes "---\na: 1\n---\nbody\n"

abbrev longer : Text
longer = codes "---\na: 1\nb: x\n---\nbody\n"

located_crlf : extract_raw_frontmatter (codes "---\r\na: 1\r\n---\r") ≡ some (codes "a: 1\r\n", 15)
unfolding extract_raw_frontmatter closing
located_crlf = refl

not_located : extract_raw_frontmatter (codes "---\na: 1\n --- \n") ≡ none
unfolding extract_raw_frontmatter closing
not_located = refl

-- What follows the last field's frontmatter may read as frontmatter itself.
body_read_as_frontmatter :
    remove_frontmatter_field yaml (codes "---\na: 1\n---\n---\na: 1\n---\n") (codes "a")
    ≡ ok (codes "---\na: 1\n---\n")
unfolding remove_frontmatter_field parse_frontmatter parse_yaml extract_raw_frontmatter closing
    get_body get unset
body_read_as_frontmatter = refl

tags :
    extract_string_list
      (λ _. codes "?")
      (object (field (codes "tags") (string (codes " a,, b ")) no_fields))
      (codes "tags")
    ≡ codes "a" ∷ codes "b" ∷ []
unfolding extract_string_list get
tags = refl

extract_raw_frontmatter-Located_example : Located note (codes "a: 1\n") 13
unfolding extract_raw_frontmatter closing
extract_raw_frontmatter-Located_example = extract_raw_frontmatter-Located note refl

abbrev one_lines : YamlLines (codes "a: 1\n")
one_lines = record { start = codes "a: 1"; whole = refl; plain = (refl, tt) }

abbrev two_lines : YamlLines (codes "a: 1\nb: x\n")
two_lines = record { start = codes "a: 1\nb: x"; whole = refl; plain = (refl, (refl, tt)) }

Writes-one : Writes yaml (unset (codes "b") two)
unfolding unset
Writes-one = record {
  text = codes "a: 1\n";
  written = refl;
  lines = one_lines;
  visible = refl;
  read = refl;
}

Writes-two : Writes yaml (set (codes "b") (string (codes "x")) one)
unfolding set
Writes-two = record {
  text = codes "a: 1\nb: x\n";
  written = refl;
  lines = two_lines;
  visible = refl;
  read = refl;
}

set_frontmatter_field-parse_frontmatter_example :
    (out : Text) × (set_frontmatter_field yaml note (codes "b") (string (codes "x")) ≡ ok out)
    × (parse_frontmatter yaml out ≡ ok (some (object (set (codes "b") (string (codes "x")) one))))
    × (get_body out ≡ get_body note)
unfolding fields_of parse_frontmatter parse_yaml extract_raw_frontmatter closing
set_frontmatter_field-parse_frontmatter_example =
    set_frontmatter_field-parse_frontmatter yaml note (codes "b") (string (codes "x")) refl
      Writes-two

remove_frontmatter_field-parse_frontmatter_example :
    (out : Text) × (remove_frontmatter_field yaml longer (codes "b") ≡ ok out)
    × (parse_frontmatter yaml out ≡ ok (some (object (unset (codes "b") two))))
    × (get_body out ≡ get_body longer)
unfolding parse_frontmatter parse_yaml extract_raw_frontmatter closing get unset
remove_frontmatter_field-parse_frontmatter_example =
    remove_frontmatter_field-parse_frontmatter yaml longer (codes "b") {m = two} refl refl refl
      Writes-one

abbrev source : SourceSnapshot
source = record { content = note; source_revision = [] }

body_range-validate_range_example :
    (validate_range source (body_range source) ≡ ok tt)
    × (sliced note (body_range source).start_byte (body_range source).end_byte ≡ get_body note)
body_range-validate_range_example = body_range-validate_range source
