-- ===== src/Frontmatter.antt =====
-- Frontmatter (src/vault/frontmatter.rs): where it stands in a note, its fields, and the note with a
-- field changed. The YAML package is a parameter.
pub mod Scanning
pub mod Location
pub mod Framing
pub mod Rebuilding
pub mod Editing
pub mod Body
use obsidian_mcp.Common.{
  ℕ, ◌+◌, Bool, true, false, not, Option, none, some, List, [], ◌∷◌, ◌++◌, map, filter, and_then,
  ◌==◌, if◌then◌else◌,
}
use obsidian_mcp.Text.{
  Text, codes, text_eq, is_empty, starts_with, split, len, trim, trim_end_matches,
}
use obsidian_mcp.Source.{sliced}
use obsidian_mcp.Errors.{Result, ok, err, other, ◌>>=◌}
use obsidian_mcp.Json.{
  Json, Items, Fields, null, boolean, number, string, array, object, no_items, item, no_fields, get,
  set, unset, has, is_blank,
}

-- The third-party YAML package: `from_str` to a JSON value and `to_string`, `none` for an error.
pub record Yaml : Type 0 where
  pub from_str : Text → Option Json
  pub to_string : Json → Option Text

abbrev pub is_newline : ℕ → Bool
is_newline c = c == b'\n'

abbrev pub is_return : ℕ → Bool
is_return c = c == b'\r'

-- `line.trim_end_matches('\r') == "---"`
abbrev pub is_delimiter : Text → Bool
is_delimiter line = text_eq (trim_end_matches is_return line) (codes "---")

-- The length of the opening line.
abbrev pub after_open : Text → Option ℕ
after_open content =
    if starts_with (codes "---\n") content
    then some 4
    else if starts_with (codes "---\r\n") content
    then some 5
    else none

-- The loop, on the lines that are left and with the test of a delimiter line: the offset of that line,
-- and that of the line after it if there is one.
unfoldable pub closing : (Text → Bool) → ℕ → List Text → Option (ℕ × Option ℕ)
closing test pos [] = none
closing test pos (line ∷ []) = if test line then some (pos, none) else none
closing test pos (line ∷ next ∷ more) =
    let rest = closing test (pos + len line + 1) (next ∷ more) in
    if test line then some (pos, some (pos + len line + 1)) else rest

abbrev located : Text → ℕ → ℕ × Option ℕ → Text × ℕ
located content start (pos, some next) = (sliced content start (start + pos), start + next)
located content start (pos, none) = (sliced content start (start + pos), len content)

-- `extract_raw_frontmatter`
unfoldable pub extract_raw_frontmatter : Text → Option (Text × ℕ)
extract_raw_frontmatter content = and_then (after_open content) (λ start.
    and_then (closing is_delimiter 0 (split is_newline (sliced content start (len content))))
      (λ found. some (located content start found)))

abbrev body_of : Text → Option (Text × ℕ) → Text
body_of content none = content
body_of content (some (_, body_start)) = sliced content body_start (len content)

-- `get_body`
unfoldable pub get_body : Text → Text
get_body content = body_of content (extract_raw_frontmatter content)

abbrev as_mapping : Option Json → Result (Option Json)
as_mapping none = err other
as_mapping (some (object m)) = ok (some (object m))
as_mapping (some _) = err other

-- `parse_frontmatter` after the frontmatter is found
unfoldable pub parse_yaml : Yaml → Option (Text × ℕ) → Result (Option Json)
parse_yaml yaml none = ok none
parse_yaml yaml (some (text, _)) =
    if is_empty (trim text) then ok (some (object no_fields)) else as_mapping (yaml.from_str text)

-- `parse_frontmatter`
unfoldable pub parse_frontmatter : Yaml → Text → Result (Option Json)
parse_frontmatter yaml content = parse_yaml yaml (extract_raw_frontmatter content)

-- `as_object_mut`, with its error
abbrev pub as_object : Json → Result Fields
as_object (object m) = ok m
as_object _ = err other

abbrev pub framed : Text → Text → Text
framed text body = codes "---\n" ++ (text ++ (codes "---\n" ++ body))

abbrev pub framed_or_dropped : Text → Option Text → Text
framed_or_dropped body none = body
framed_or_dropped body (some text) = framed text body

-- `rebuild_content` at `Some`; every caller has a value
unfoldable pub rebuild_content : Yaml → Json → Text → Text
rebuild_content yaml (object m) body =
    if is_blank m then body else framed_or_dropped body (yaml.to_string (object m))
rebuild_content yaml _ body = body

abbrev or_new : Option Json → Json
or_new none = object no_fields
or_new (some v) = v

-- `set_frontmatter_field`
unfoldable pub set_frontmatter_field : Yaml → Text → Text → Json → Result Text
set_frontmatter_field yaml content key value = parse_frontmatter yaml content >>= λ frontmatter.
    as_object (or_new frontmatter) >>= λ fields.
    ok (rebuild_content yaml (object (set key value fields)) (get_body content))

abbrev without : Yaml → Text → Text → Fields → Text
without yaml content key fields =
    if not (has key fields)
    then content
    else if is_blank (unset key fields)
    then get_body content
    else rebuild_content yaml (object (unset key fields)) (get_body content)

abbrev remove_from : Yaml → Text → Text → Option Json → Result Text
remove_from yaml content key none = ok content
remove_from yaml content key (some frontmatter) =
    as_object frontmatter >>= λ fields. ok (without yaml content key fields)

-- `remove_frontmatter_field`
unfoldable pub remove_frontmatter_field : Yaml → Text → Text → Result Text
remove_frontmatter_field yaml content key =
    parse_frontmatter yaml content >>= remove_from yaml content key

-- `extract_string_list`: a `to_string` of other members is `printed`
unfoldable pub list_members : (Json → Text) → Items → List Text
list_members printed no_items = []
list_members printed (item (string s) items) = s ∷ list_members printed items
list_members printed (item null items) = list_members printed items
list_members printed (item v items) = printed v ∷ list_members printed items

abbrev string_list : (Json → Text) → Option Json → List Text
string_list printed (some (array items)) = list_members printed items
string_list printed (some (string s)) =
    filter (λ part. not (is_empty part)) (map trim (split (λ c. c == b',') s))
string_list printed _ = []

abbrev field_of : Text → Json → Option Json
field_of key (object m) = get key m
field_of key _ = none

unfoldable pub extract_string_list : (Json → Text) → Json → Text → List Text
extract_string_list printed frontmatter key = string_list printed (field_of key frontmatter)

-- `extract_frontmatter_tags`, `extract_aliases`
abbrev pub extract_frontmatter_tags : (Json → Text) → Json → List Text
extract_frontmatter_tags printed frontmatter =
    extract_string_list printed frontmatter (codes "tags")

abbrev pub extract_aliases : (Json → Text) → Json → List Text
extract_aliases printed frontmatter = extract_string_list printed frontmatter (codes "aliases")
