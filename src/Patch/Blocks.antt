-- ===== src/Patch/Blocks.antt =====
-- Block references (`find_block_ref` of src/vault/parser.rs) and patches at them (`patch_block` of
-- src/vault/patch.rs), and the choice between the kinds of patches. The identifiers of blocks are found
-- by a third-party expression: they are a parameter.
use obsidian_mcp.Common.{
  ℕ, ◌+◌, ◌-◌, Bool, not, ◌&&◌, Option, none, some, List, ◌++◌, [], find, if◌then◌else◌,
}
use obsidian_mcp.Text.{
  Text, codes, text_eq, is_empty, ends_with, strip_prefix, find_char, rfind_char, len,
}
use obsidian_mcp.Errors.{Result, ok, patch_target_not_found, ◌>>=◌, ok_or}
use obsidian_mcp.Models.{
  PatchOperation, append, prepend, replace, PatchRequest, PatchTargetType, heading, block,
  frontmatter,
}
use obsidian_mcp.Source.{sliced}
use obsidian_mcp.Source.Headings.{HeadingPos}
use obsidian_mcp.Patch.{patch_heading}
use obsidian_mcp.Patch.Fields.{YamlPackage, patch_frontmatter}

-- the range of an identifier, after its caret
pub record Match : Type 0 where
  pub start : ℕ
  pub end : ℕ

pub record BlockRef : Type 0 where
  pub line_start : ℕ
  pub line_end : ℕ
  pub marker_start : ℕ
  pub end_with_newline : ℕ

abbrev pub after_newline : Option ℕ → ℕ
after_newline none = 0
after_newline (some i) = i + 1

-- the end of the line without and with its terminator
abbrev pub line_ends : Text → ℕ → Option ℕ → ℕ × ℕ
line_ends content from none = (len content, len content)
line_ends content from (some offset) =
    let lf = from + offset in
    (if ends_with (codes "\r") (sliced content 0 lf) then lf - 1 else lf, lf + 1)

abbrev pub block_at : Text → Match → BlockRef
block_at content id =
    let marker_start = id.start - 1 in
    let ends = line_ends content id.end (find_char b'\n' (sliced content id.end (len content))) in
    record {
      line_start = after_newline (rfind_char b'\n' (sliced content 0 marker_start));
      line_end = ends.0;
      marker_start = marker_start;
      end_with_newline = ends.1;
    }

abbrev pub has_id : Text → Text → Match → Bool
has_id content block_id id = text_eq (sliced content id.start id.end) block_id

abbrev pub block_of : Text → Option Match → Option BlockRef
block_of content none = none
block_of content (some id) = some (block_at content id)

-- `find_block_ref`
unfoldable pub find_block_ref : (Text → List Match) → Text → Text → Option BlockRef
find_block_ref block_ref_ids content block_id =
    block_of content (find (has_id content block_id) (block_ref_ids content))

-- `request.target.strip_prefix('^').unwrap_or(&request.target)`
abbrev pub block_id_of : Text → Text
block_id_of target = elim (strip_prefix (codes "^") target) [ none ↦ target | some id ↦ id ]

abbrev pub newline_of : Text → Text → Text
newline_of terminator before =
    if is_empty terminator
    then (if ends_with (codes "\r\n") before then codes "\r\n" else codes "\n")
    else terminator

abbrev pub with_newline : Text → Text → Text
with_newline newline s =
    if not (is_empty s) && not (ends_with (codes "\n") s) then s ++ newline else s

abbrev pub newline_at : Text → BlockRef → Text
newline_at content b =
    newline_of (sliced content b.line_end b.end_with_newline) (sliced content 0 b.line_start)

abbrev pub inserted_at : Text → Text → Text → ℕ → Text
inserted_at content inserted newline insertion =
    with_newline newline (with_newline newline (sliced content 0 insertion) ++ inserted)
    ++ sliced content insertion (len content)

abbrev pub spaced : Text → Text
spaced inserted = if is_empty inserted then [] else inserted ++ codes " "

-- the match on the operation in `patch_block`
unfoldable pub patched_block : PatchOperation → Text → Text → BlockRef → Text
patched_block replace content inserted b =
    sliced content 0 b.line_start
    ++ (spaced inserted ++ sliced content b.marker_start (len content))
patched_block prepend content inserted b =
    inserted_at content inserted (newline_at content b) b.line_start
patched_block append content inserted b =
    inserted_at content inserted (newline_at content b) b.end_with_newline

-- `patch_block`
unfoldable pub patch_block : (Text → List Match) → Text → PatchRequest → Text → Result Text
patch_block block_ref_ids content request path =
    ok_or (patch_target_not_found path (codes "block") request.target)
      (find_block_ref block_ref_ids content (block_id_of request.target))
    >>= λ b. ok (patched_block request.operation content request.content b)

module _ {Mapping : Type 0} (yaml : YamlPackage Mapping) (headings : Text → List HeadingPos)
    (ids : Text → List Match) where
  abbrev pub apply_to : PatchTargetType → Text → PatchRequest → Text → Result Text
  apply_to heading content request path = patch_heading headings content request path
  apply_to block content request path = patch_block ids content request path
  apply_to frontmatter content request path = patch_frontmatter yaml content request path

  -- `apply_patch`
  unfoldable pub apply_patch : Text → PatchRequest → Text → Result Text
  apply_patch content request path = apply_to request.target_type content request path
