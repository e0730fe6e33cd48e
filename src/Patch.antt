-- ===== src/Patch.antt =====
-- Patches of a note at a heading (src/vault/patch.rs), and the section of a heading path
-- (src/vault/parser.rs). The headings of a text are found by a third-party parser: they are a parameter.
pub mod Sections
pub mod Splices
pub mod Fields
pub mod Boundaries
pub mod Edits
pub mod Blocks
pub mod Insertions
pub mod Joints
use obsidian_mcp.Common.{
  ℕ, zero, suc, ◌+◌, min, Bool, true, false, not, ◌&&◌, ◌||◌, Option, none, some, List, [], ◌∷◌,
  ◌++◌, length, find, and_then, ltb, leb, ◌==◌, if◌then◌else◌,
}
use obsidian_mcp.Text.{
  Text, codes, is_empty, starts_with, ends_with, cons_first, len, trim, trim_start, lines,
  trim_start_matches, is_whitespace, eq_ignore_ascii_case,
}
use obsidian_mcp.Errors.{Result, ok, err, patch_target_not_found, ◌>>=◌, ok_or}
use obsidian_mcp.Models.{PatchOperation, append, prepend, replace, PatchRequest}
use obsidian_mcp.Source.{sliced}
use obsidian_mcp.Source.Headings.{HeadingPos}

abbrev is_hash : ℕ → Bool
is_hash c = c == b'#'

-- `t.bytes().take_while(|&b| b == b'#').count()`
abbrev pub hashes : Text → ℕ
hashes [] = 0
hashes (c ∷ t) = let rest = hashes t in if is_hash c then suc rest else 0

abbrev heading_text : ℕ → Text → Option (ℕ × Text)
heading_text level rest =
    if ltb 6 level
    then none
    else if not (is_empty rest) && not (starts_with (codes " ") rest)
    then none
    else some (level, trim rest)

-- `parse_heading`: what is left after `level` bytes is what is left after the `#`s
unfoldable pub parse_heading : Text → Option (ℕ × Text)
parse_heading line =
    let t = trim_start line in
    if not (starts_with (codes "#") t)
    then none
    else heading_text (hashes t) (trim_start_matches is_hash t)

abbrev starts_blank : Text → Bool
starts_blank [] = false
starts_blank (c ∷ t) = is_whitespace c

-- `normalize_heading_target_segment`
unfoldable pub normalize_heading_target_segment : Text → Text
normalize_heading_target_segment segment =
    let trimmed = trim segment in
    let level = hashes trimmed in
    let rest = trim_start_matches is_hash trimmed in
    if leb 1 level && leb level 6 && starts_blank rest then trim rest else trimmed

-- `ensure_trailing_newline`
abbrev pub ensure_trailing_newline : Text → Text
ensure_trailing_newline s =
    if not (is_empty s) && not (ends_with (codes "\n") s) then s ++ codes "\n" else s

-- `target.split("::")`; `half` says that the character before was the first of a delimiter
abbrev pub split_path : Bool → Text → List Text
split_path false [] = [] ∷ []
split_path true [] = (b':' ∷ []) ∷ []
split_path false (c ∷ s) =
    let first = split_path true s in
    let rest = split_path false s in if c == b':' then first else cons_first c rest
split_path true (c ∷ s) =
    let rest = split_path false s in
    if c == b':' then [] ∷ rest else cons_first b':' (cons_first c rest)

abbrev raw_heading : List Text → Option (ℕ × Text)
raw_heading [] = none
raw_heading (line ∷ more) = parse_heading line

abbrev same_text : Text → Option (ℕ × Text) → Bool
same_text candidate none = false
same_text candidate (some (_, text)) = eq_ignore_ascii_case text candidate

-- the test of `matches` in `resolve_heading_range`
unfoldable pub is_match : Text → ℕ → ℕ → Text → HeadingPos → Bool
is_match content search_start search_end candidate heading =
    leb search_start heading.offset
    && (ltb heading.offset search_end
        && (eq_ignore_ascii_case heading.text candidate
            || same_text candidate
                (raw_heading (lines (sliced content heading.offset heading.end)))))

abbrev or_else : Option HeadingPos → Option HeadingPos → Option HeadingPos
or_else none o = o
or_else (some h) o = some h

-- the heading for one segment of the target
unfoldable pub matching : Text → List HeadingPos → ℕ → ℕ → Text → Option HeadingPos
matching content headings search_start search_end segment =
    or_else (find (is_match content search_start search_end (trim segment)) headings) (
      find (is_match content search_start search_end (normalize_heading_target_segment segment))
        headings)

abbrev closes : HeadingPos → HeadingPos → Bool
closes heading next = ltb heading.offset next.offset && leb next.level heading.level

abbrev offset_or : ℕ → Option HeadingPos → ℕ
offset_or n none = n
offset_or n (some next) = next.offset

-- The end of a heading's section: the next heading that closes it, or the end of the text.
unfoldable pub section_end : ℕ → List HeadingPos → HeadingPos → ℕ
section_end size headings heading = offset_or size (find (closes heading) headings)

-- the loop of `resolve_heading_range`, over the segments that are left
unfoldable pub resolve_segments :
    Text → List HeadingPos → Text → Text → List Text → ℕ → ℕ → Result (ℕ × ℕ)
resolve_segments content headings target path [] search_start search_end =
    ok (search_start, search_end)
resolve_segments content headings target path (segment ∷ more) search_start search_end =
    ok_or (patch_target_not_found path (codes "heading") target)
      (matching content headings search_start search_end segment)
    >>= λ heading.
        resolve_segments content headings target path more heading.end
          (min (section_end (len content) headings heading) search_end)

-- `resolve_heading_range`; after the first segment `after_heading` is `search_start`
abbrev pub resolve_heading_range : Text → List HeadingPos → Text → Text → Result (ℕ × ℕ)
resolve_heading_range content headings target path =
    resolve_segments content headings target path (split_path false target) 0 (len content)

-- the match on the operation in `patch_heading`
unfoldable pub spliced : PatchOperation → Text → Text → ℕ × ℕ → Text
spliced prepend content inserted (after_heading, section_end_byte) =
    ensure_trailing_newline (ensure_trailing_newline (sliced content 0 after_heading) ++ inserted)
    ++ sliced content after_heading (len content)
spliced append content inserted (after_heading, section_end_byte) =
    ensure_trailing_newline
      (ensure_trailing_newline (sliced content 0 section_end_byte) ++ inserted)
    ++ sliced content section_end_byte (len content)
spliced replace content inserted (after_heading, section_end_byte) =
    let patched = ensure_trailing_newline (sliced content 0 after_heading) ++ inserted in
    (if ltb section_end_byte (len content) then ensure_trailing_newline patched else patched)
    ++ sliced content section_end_byte (len content)

-- `patch_heading`
unfoldable pub patch_heading : (Text → List HeadingPos) → Text → PatchRequest → Text → Result Text
patch_heading extract_headings_with_offsets content request path =
    resolve_heading_range content (extract_headings_with_offsets content) request.target path
    >>= λ range. ok (spliced request.operation content request.content range)
