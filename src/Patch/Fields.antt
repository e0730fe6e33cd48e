-- ===== src/Patch/Fields.antt =====
-- Patches of a frontmatter field (`patch_frontmatter` of src/vault/patch.rs). The YAML package and its
-- mappings are parameters.
use obsidian_mcp.Common.{
  ℕ, ◌+◌, Bool, true, false, not, Option, none, some, [], ◌++◌, and_then, if◌then◌else◌,
}
use obsidian_mcp.Text.{
  Text, codes, text_eq, is_empty, starts_with, strip_prefix, split, len, trim, trim_end_matches,
  find_char,
}
use obsidian_mcp.Errors.{Result, ok, other, frontmatter_parse, patch_target_not_found, ◌>>=◌, ok_or}
use obsidian_mcp.Models.{PatchOperation, append, prepend, replace, PatchRequest}
use obsidian_mcp.Source.{sliced}
use obsidian_mcp.Frontmatter.{closing, is_newline, is_return}
use obsidian_mcp.Patch.{ensure_trailing_newline}

-- `serde_yaml::Value`: a mapping or a tagged value is kept as the package prints it.
mutual
  pub data YamlValue : Type 0 where
    null : YamlValue
    boolean : Bool → YamlValue
    number : Text → YamlValue
    string : Text → YamlValue
    sequence : YamlValues → YamlValue
    nested : Text → YamlValue

  pub data YamlValues : Type 0 where
    no_values : YamlValues
    value : YamlValue → YamlValues → YamlValues

-- The third-party package, with its mappings; `none` is an error.
pub record YamlPackage (Mapping : Type 0) : Type 0 where
  pub new : Mapping
  pub from_str : Text → Option Mapping
  pub value_from_str : Text → Option YamlValue
  pub to_string : Mapping → Option Text
  pub value_to_string : YamlValue → Option Text
  pub insert : Text → YamlValue → Mapping → Mapping
  pub remove : Text → Mapping → Option YamlValue × Mapping

pub record FrontmatterRange : Type 0 where
  pub yaml_start : ℕ
  pub yaml_end : ℕ
  pub body_start : ℕ

-- `line.trim_end_matches('\r').trim() == "---"`
abbrev pub is_boundary : Text → Bool
is_boundary line = text_eq (trim (trim_end_matches is_return line)) (codes "---")

abbrev pub range_of : Text → ℕ → ℕ × Option ℕ → FrontmatterRange
range_of content yaml_start (pos, some next) = record {
  yaml_start = yaml_start;
  yaml_end = pos;
  body_start = next;
}
range_of content yaml_start (pos, none) = record {
  yaml_start = yaml_start;
  yaml_end = pos;
  body_start = len content;
}

-- The loop is that of `extract_raw_frontmatter` with another test and offsets from the start of the
-- text. It gives up at the end of the text, where the last piece is empty and no boundary.
abbrev pub boundary_after : Text → ℕ → Option FrontmatterRange
boundary_after content first_nl =
    if not (is_boundary (sliced content 0 first_nl))
    then none
    else and_then
        (closing is_boundary (first_nl + 1)
          (split is_newline (sliced content (first_nl + 1) (len content))))
        (λ found. some (range_of content (first_nl + 1) found))

-- `frontmatter_boundaries`
unfoldable pub frontmatter_boundaries : Text → Option FrontmatterRange
frontmatter_boundaries content =
    if not (starts_with (codes "---") content)
    then none
    else and_then (find_char b'\n' content) (boundary_after content)

abbrev printed_bool : Bool → Text
printed_bool true = codes "true"
printed_bool false = codes "false"

abbrev pub push : YamlValue → YamlValues → YamlValues
push v no_values = value v no_values
push v (value w vs) = value w (push v vs)

abbrev or_default : Option Text → Text
or_default none = []
or_default (some t) = t

abbrev stripped_or : Text → Option Text → Option Text → Text
stripped_or text (some t) o = t
stripped_or text none (some t) = t
stripped_or text none none = text

-- the printed mapping without its document marker
abbrev pub without_marker : Text → Text
without_marker text =
    stripped_or text (strip_prefix (codes "---\n") text) (strip_prefix (codes "---\r\n") text)

abbrev pub reassembled : Text → Text → Text
reassembled text body =
    codes "---\n" ++ (ensure_trailing_newline (without_marker text) ++ (codes "---\n" ++ body))

module _ {Mapping : Type 0} (yaml : YamlPackage Mapping) where
  -- `parse_yaml_value`
  abbrev pub parse_yaml_value : Text → YamlValue
  parse_yaml_value s = elim (yaml.value_from_str s) [ none ↦ string s | some v ↦ v ]

  -- `yaml_scalar_to_string`
  abbrev pub yaml_scalar_to_string : YamlValue → Text
  yaml_scalar_to_string (string s) = s
  yaml_scalar_to_string (boolean b) = printed_bool b
  yaml_scalar_to_string (number n) = n
  yaml_scalar_to_string null = []
  yaml_scalar_to_string (sequence vs) = trim (or_default (yaml.value_to_string (sequence vs)))
  yaml_scalar_to_string (nested t) = trim (or_default (yaml.value_to_string (nested t)))

  -- the new value of the field, for `Append` and `Prepend`
  abbrev pub appended : Text → Option YamlValue → YamlValue
  appended content none = string content
  appended content (some (sequence vs)) = sequence (push (parse_yaml_value content) vs)
  appended content (some (string s)) = string (s ++ content)
  appended content (some v) = string (yaml_scalar_to_string v ++ content)

  abbrev pub prepended : Text → Option YamlValue → YamlValue
  prepended content none = string content
  prepended content (some (sequence vs)) = sequence (value (parse_yaml_value content) vs)
  prepended content (some (string s)) = string (content ++ s)
  prepended content (some v) = string (content ++ yaml_scalar_to_string v)

  -- the match on the operation
  unfoldable pub patched_mapping : PatchOperation → Text → Text → Mapping → Mapping
  patched_mapping replace key content mapping = yaml.insert key (parse_yaml_value content) mapping
  patched_mapping append key content mapping =
      let (current, rest) = yaml.remove key mapping in
      yaml.insert key (appended content current) rest
  patched_mapping prepend key content mapping =
      let (current, rest) = yaml.remove key mapping in
      yaml.insert key (prepended content current) rest

  unfoldable pub read_mapping : Text → Text → Result Mapping
  read_mapping path text =
      if is_empty (trim text)
      then ok yaml.new
      else ok_or (frontmatter_parse path) (yaml.from_str text)

  -- `patch_frontmatter`, after the boundaries are found
  unfoldable pub patch_range : Text → PatchRequest → Text → FrontmatterRange → Result Text
  patch_range content request path range =
      read_mapping path (sliced content range.yaml_start range.yaml_end) >>= λ mapping.
      ok_or other
        (yaml.to_string (patched_mapping request.operation request.target request.content mapping))
      >>= λ text. ok (reassembled text (sliced content range.body_start (len content)))

  -- `patch_frontmatter`
  unfoldable pub patch_frontmatter : Text → PatchRequest → Text → Result Text
  patch_frontmatter content request path =
      ok_or (patch_target_not_found path (codes "frontmatter") request.target)
        (frontmatter_boundaries content)
      >>= patch_range content request path
